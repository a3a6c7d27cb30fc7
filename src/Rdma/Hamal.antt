-- ===== src/Rdma/Hamal.antt =====
-- `InboundHamal` and `OutboundHamal`: a transfer through the pool of a task, a mebibyte at a time. The
-- results of the posts and of the polls are not looked at.
pub mod Rounds
pub mod Received
pub mod InboundRound
pub mod Inbound
pub mod OutboundRound
pub mod Outbound
pub mod RoundTrip
use sponge_bob.Prelude.{
  ℕ, zero, suc, ◌+◌, ◌*◌, ◌-◌, ◌/◌, ◌%◌, ◌^◌, Bool, true, false, Option, List, [], ◌∷◌, leb, ltb,
  if◌then◌else◌, get_elem?, set, add64, sub64,
}
use sponge_bob.Result.{Result, ok, fault, out_of_fuel, out_of_range, or_fault, ◌>>=◌}
use sponge_bob.Rdma.Types.{RdmaSocket, Verbs}
use sponge_bob.Rdma.Post.{rdma_read_from, rdma_write_to}
use sponge_bob.Rdma.Poll.{poll_completion}

-- `SendPoolSize`
abbrev pub send_pool_size : ℕ
send_pool_size = 1024 * 1024

-- `SendPoolAddr`
abbrev pub send_pool_addr : ℕ → RdmaSocket → ℕ
send_pool_addr task_id r = add64 r.mm (4 * 1024 + task_id * (1024 * 1024))

-- `SendSize` of a round.
abbrev pub send_size : ℕ → ℕ → ℕ
send_size size total = if leb send_pool_size (size - total) then send_pool_size else size - total

-- `totals[TaskID] += n`
abbrev add_at : ℕ → ℕ → List ℕ → Result (List ℕ)
add_at task_id n totals = do
  old ← or_fault (get_elem? totals task_id) out_of_range
  ok (set totals task_id (add64 old n))

abbrev signalled : RdmaSocket → RdmaSocket
signalled r = record r { transfer_signal = (r.transfer_signal + 1) % 2 ^ 16 }

module _ {F : Type 0} (verbs : Verbs F) (polls : ℕ) where
  -- A round of `InboundHamal`: `n` bytes, `total` bytes into the transfer.
  unfoldable pub inbound_round : ℕ → ℕ → ℕ → ℕ → ℕ → ℕ → RdmaSocket → F → Result (RdmaSocket × F)
  inbound_round task_id buffer_send node_id buffer_receive total n r f = do
    let pool = send_pool_addr task_id r
    let (start, f1) = verbs.time_of_day f
    (_, f2) ← rdma_read_from verbs node_id pool (add64 buffer_receive total) n (task_id + 1) r f1
    (_, f3) ← poll_completion verbs polls node_id 1 r f2
    let (end, f4) = verbs.time_of_day (verbs.memcpy (add64 buffer_send total) pool n f3)
    read_size ← add_at task_id n r.read_size
    read_time_cost ← add_at task_id (sub64 end start) r.read_time_cost
    ok (record r { read_size = read_size; read_time_cost = read_time_cost }, f4)

  -- The ten writes of the test.
  unfoldable pub write_test_rounds : ℕ → ℕ → ℕ → ℕ → RdmaSocket → F → Result F
  write_test_rounds zero task_id node_id buffer_receive r f = ok f
  write_test_rounds (suc n) task_id node_id buffer_receive r f = do
    (_, f1) ←
        rdma_write_to verbs node_id (send_pool_addr task_id r) buffer_receive send_pool_size
          (2 ^ 32 - 1) (task_id + 1) r f
    (_, f2) ← poll_completion verbs polls node_id 1 r f1
    write_test_rounds n task_id node_id buffer_receive r f2

  -- `if (WriteTest)`
  unfoldable pub write_test_once : ℕ → ℕ → ℕ → RdmaSocket → F → Result (RdmaSocket × F)
  unfolding write_test_rounds
  write_test_once task_id node_id buffer_receive r f = elim r.write_test [
    | true ↦ do
      let (start, f1) = verbs.time_of_day f
      f2 ← write_test_rounds 10 task_id node_id buffer_receive r f1
      let (end, f3) = verbs.time_of_day f2
      ok (record r { write_test = false }, f3)
    | false ↦ ok (r, f)
  ]

  -- A round of `OutboundHamal`.
  unfoldable pub outbound_round : ℕ → ℕ → ℕ → ℕ → ℕ → ℕ → RdmaSocket → F → Result (RdmaSocket × F)
  outbound_round task_id buffer_send node_id buffer_receive total n r f = do
    let pool = send_pool_addr task_id r
    let (start, f1) = verbs.time_of_day f
    (_, f2) ←
        rdma_write_to verbs node_id pool (add64 buffer_receive total) n (2 ^ 32 - 1) (task_id + 1) r
          (verbs.memcpy pool (add64 buffer_send total) n f1)
    (_, f3) ← poll_completion verbs polls node_id 1 r f2
    let (end, f4) = verbs.time_of_day f3
    write_size ← add_at task_id n r.write_size
    write_time_cost ← add_at task_id (sub64 end start) r.write_time_cost
    write_test_once task_id node_id buffer_receive
        (record r { write_size = write_size; write_time_cost = write_time_cost }) f4

-- `while (TotalSizeSend < size)`, a round being `round total n`. The first parameter is fuel, the
-- number of rounds allowed.
unfoldable pub hamal_loop :
    {F : Type 0}
    → (ℕ → ℕ → RdmaSocket → F → Result (RdmaSocket × F))
    → ℕ
    → ℕ
    → ℕ
    → RdmaSocket
    → F
    → Result (RdmaSocket × F)
hamal_loop round zero size total r f =
    if ltb total size then fault out_of_fuel else ok (signalled r, f)
hamal_loop round (suc fuel) size total r f = elim (ltb total size) [
  | true ↦ do
    let n = send_size size total
    (r', f') ← round total n r f
    hamal_loop round fuel size (add64 total n) r' f'
  | false ↦ ok (signalled r, f)
]

abbrev pub hamal_fuel : ℕ → ℕ
hamal_fuel size = (size + 1048575) / 1048576

module _ {F : Type 0} (verbs : Verbs F) (polls : ℕ) where
  -- `InboundHamal`
  unfoldable pub inbound_hamal : ℕ → ℕ → ℕ → ℕ → ℕ → RdmaSocket → F → Result (RdmaSocket × F)
  unfolding hamal_loop inbound_round
  inbound_hamal task_id buffer_send node_id buffer_receive size r f =
      hamal_loop (inbound_round verbs polls task_id buffer_send node_id buffer_receive)
        (hamal_fuel size) size 0 r f

  -- `OutboundHamal`
  unfoldable pub outbound_hamal : ℕ → ℕ → ℕ → ℕ → ℕ → RdmaSocket → F → Result (RdmaSocket × F)
  unfolding hamal_loop outbound_round
  outbound_hamal task_id buffer_send node_id buffer_receive size r f =
      hamal_loop (outbound_round verbs polls task_id buffer_send node_id buffer_receive)
        (hamal_fuel size) size 0 r f
