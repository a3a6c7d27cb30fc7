-- ===== src/Rdma/Remote.antt =====
-- `RemoteRead`, `RemoteWrite` and the workers that they share a large transfer out to.
pub mod Shares
use sponge_bob.Prelude.{
  ℕ, zero, suc, ◌+◌, ◌*◌, ◌-◌, ◌/◌, ◌%◌, ◌^◌, Bool, true, false, Option, List, [], ◌∷◌, ltb, ◌==◌,
  if◌then◌else◌, get_elem?, set, add64, mul64, sub64,
}
use sponge_bob.Result.{Result, ok, fault, out_of_fuel, out_of_range, or_fault, ◌>>=◌}
use sponge_bob.Queue.{pop_polling, push_polling}
use sponge_bob.Rdma.Types.{RdmaSocket, TransferTask, Verbs, worker_number}
use sponge_bob.Rdma.Hamal.{inbound_hamal, outbound_hamal}

-- `shipSize`: the quotient narrowed to `int` and cut to a multiple of 4096; the result as the
-- `uint64_t` that the arithmetic behind it converts the `int` to.
unfoldable pub ship_size : ℕ → ℕ
ship_size size =
    let narrow = size / worker_number % 2 ^ 32 in
    let wide = if ltb narrow (2 ^ 31) then narrow else narrow + 2 ^ 64 - 2 ^ 32 in
    wide - wide % 4096

-- `tasks[i]`
unfoldable pub share : Bool → ℕ → ℕ → ℕ → ℕ → ℕ → TransferTask
unfolding ship_size
share op_type buffer_send node_id buffer_receive size i =
    let ship = ship_size size in
    record {
      op_type = op_type;
      node_id = node_id;
      size = if ltb i 3 then ship else sub64 size (mul64 3 ship);
      buffer_send = add64 buffer_send (mul64 i ship);
      buffer_receive = add64 buffer_receive (mul64 i ship);
    }

-- The `n` tasks from `i` on.
unfoldable pub shares : Bool → ℕ → ℕ → ℕ → ℕ → ℕ → ℕ → List TransferTask
unfolding share
shares op_type buffer_send node_id buffer_receive size zero i = []
shares op_type buffer_send node_id buffer_receive size (suc n) i =
    share op_type buffer_send node_id buffer_receive size i
    ∷ shares op_type buffer_send node_id buffer_receive size n (i + 1)

-- `queue[i].PushPolling(&tasks[i])` for the tasks from `i` on.
unfoldable pub push_shares : List TransferTask → ℕ → RdmaSocket → Result RdmaSocket
push_shares [] i r = ok r
push_shares (task ∷ tasks) i r = do
  q ← or_fault (get_elem? r.queue i) out_of_range
  push_shares tasks (i + 1) (record r { queue = set r.queue i (push_polling task q) })

module _ {F : Type 0} (verbs : Verbs F) (polls : ℕ) where
  -- A round of `DataTransferWorker(id)`.
  unfoldable pub worker_round : ℕ → RdmaSocket → F → Result (RdmaSocket × F)
  worker_round id r f = do
    q ← or_fault (get_elem? r.queue id) out_of_range
    (task, q') ← pop_polling q
    let r' : RdmaSocket = record r { queue = set r.queue id q' }
    let hamal = if task.op_type then outbound_hamal verbs polls else inbound_hamal verbs polls
    hamal id task.buffer_send task.node_id task.buffer_receive task.size r' f

  -- The workers' rounds, in the order in which they take their tasks.
  unfoldable pub worker_rounds : List ℕ → RdmaSocket → F → Result (RdmaSocket × F)
  unfolding worker_round
  worker_rounds [] r f = ok (r, f)
  worker_rounds (id ∷ ids) r f = do (r', f') ← worker_round id r f; worker_rounds ids r' f'

  -- `RemoteRead` for `op_type` false, `RemoteWrite` for true; `schedule` is what the workers do
  -- while it waits for the signal.
  unfoldable pub remote_transfer :
      Bool → List ℕ → ℕ → ℕ → ℕ → ℕ → RdmaSocket → F → Result (Bool × RdmaSocket × F)
  unfolding worker_rounds push_shares shares
  remote_transfer op_type schedule buffer_send node_id buffer_receive size r f =
      elim (ltb size (4 * 1024 * 1024)) [
        | true ↦ do
          let hamal = if op_type then outbound_hamal verbs polls else inbound_hamal verbs polls
          (r', f') ← hamal 0 buffer_send node_id buffer_receive size r f
          ok (true, r', f')
        | false ↦ do
          let tasks = shares op_type buffer_send node_id buffer_receive size worker_number 0
          r1 ← push_shares tasks 0 (record r { transfer_signal = 0 })
          (r2, f2) ← worker_rounds schedule r1 f
          if r2.transfer_signal == worker_number then ok (true, r2, f2) else fault out_of_fuel
      ]
