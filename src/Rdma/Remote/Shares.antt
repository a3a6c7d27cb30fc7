-- ===== src/Rdma/Remote/Shares.antt =====
-- What the shares of a large transfer cover.
use sponge_bob.Prelude.{ℕ, ◌+◌, ◌*◌, ◌%◌, ◌^◌, ◌≤◌, ◌<◌, ◌≡◌, refl, Bool, [], ◌∷◌, arith, u64_mod}
use sponge_bob.Rdma.Types.{TransferTask, worker_number}
use sponge_bob.Rdma.Remote.{share, shares, ship_size}

-- A transfer of at least 4 MiB and less than 2 ^ 32 bytes, with buffers that end below 2 ^ 64, is two
-- tasks that lie one behind the other from the start of both buffers on. They leave the last
-- `size % 8192` bytes out.
pub shares_covered :
    (op_type : Bool) (buffer_send node_id buffer_receive size : ℕ)
    → 4 * 1024 * 1024 ≤ size
    → size < 2 ^ 32
    → buffer_send + size < u64_mod
    → buffer_receive + size < u64_mod
    → (first second : TransferTask) × (shares op_type buffer_send node_id buffer_receive size
          worker_number 0
        ≡ first ∷ second ∷ [])
      × (first.buffer_send ≡ buffer_send)
      × (first.buffer_receive ≡ buffer_receive)
      × (second.buffer_send ≡ buffer_send + first.size)
      × (second.buffer_receive ≡ buffer_receive + first.size)
      × (first.size + second.size + size % 8192 ≡ size)
unfolding shares share ship_size
shares_covered op_type buffer_send node_id buffer_receive size low high sends receives = (
  share op_type buffer_send node_id buffer_receive size 0,
  share op_type buffer_send node_id buffer_receive size 1,
  refl,
  ground arith,
  ground arith,
  ground arith,
  ground arith,
  ground arith,
)
