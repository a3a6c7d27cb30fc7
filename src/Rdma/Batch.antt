-- ===== src/Rdma/Batch.antt =====
-- The operations that post a list of work requests. An array of `MAX_POST_LIST` elements is indexed
-- out of range by a larger batch, and its first element is not set by an empty one.
pub mod Requests
use Prim.Native.Nat.{bit_and}
use sponge_bob.Prelude.{
  ℕ, zero, suc, ◌+◌, ◌*◌, Bool, List, [], ◌∷◌, ◌==◌, ◌&&◌, not, ltb, leb, if◌then◌else◌, get_elem?,
  add64,
}
use sponge_bob.Result.{Result, ok, fault, assertion, out_of_range, or_fault, ◌>>=◌}
use sponge_bob.Containers.Table
use sponge_bob.Rdma.Types.{
  RdmaSocket, PeerSockData, Sge, SendWr, Opcode, send_with_imm, rdma_read, rdma_write,
  rdma_write_with_imm, Verbs, max_post_list,
}
use sponge_bob.Rdma.Post.{peer_of, post_on, sge_of}
use sponge_bob.Rdma.Poll.{poll_completion}

-- `(peer->counter & SIGNAL_BATCH) == 0`
abbrev pub is_signal : ℕ → Bool
is_signal counter = bit_and counter 31 == 0

module _ {F : Type 0} (verbs : Verbs F) (fuel : ℕ) where
  -- The loop that fills the arrays: `make w_i` is the part in which the operations differ, and `n`
  -- the number of rounds left.
  unfoldable pub batch_loop :
      ℕ → (ℕ → Sge × Opcode) → ℕ → ℕ → ℕ → RdmaSocket → F → Result (List SendWr × ℕ × F)
  unfolding poll_completion
  batch_loop node_id make zero w_i counter r f = ok ([], counter, f)
  batch_loop node_id make (suc n) w_i counter r f = do
    f1 ←
        if is_signal counter && ltb 0 counter && not r.is_server
        then poll_completion verbs fuel node_id 1 r f >>= (λ p. ok p.1)
        else ok f
    (rest, counter', f2) ← batch_loop node_id make n (w_i + 1) (add64 counter 1) r f1
    let (sge, opcode) = make w_i
    let wr : SendWr = record { sge = sge; opcode = opcode; signaled = is_signal counter }
    if ltb w_i max_post_list then ok (wr ∷ rest, counter', f2) else fault out_of_range

  -- The loop, and the post of the list that it made.
  abbrev batch_post :
      ℕ → PeerSockData → (ℕ → Sge × Opcode) → ℕ → RdmaSocket → F → Result (Bool × RdmaSocket × F)
  batch_post node_id peer make batch_size r f = do
    (wrs, counter, f1) ← batch_loop node_id make batch_size 0 peer.counter r f
    let peer' : PeerSockData = record peer { counter = counter }
    let r' : RdmaSocket = record r { peers = Table.assign node_id peer' r.peers }
    (posted, f2) ← (if batch_size == 0 then fault out_of_range else post_on verbs 0 peer' wrs f1)
    ok (posted, r', f2)

  -- `_RdmaBatchSend`
  unfoldable pub rdma_batch_send : ℕ → ℕ → ℕ → ℕ → RdmaSocket → F → Result (Bool × RdmaSocket × F)
  rdma_batch_send node_id source_buffer buffer_size batch_size r f = do
    peer ← or_fault (Table.find node_id r.peers) assertion
    batch_post node_id peer
        (λ w_i.
          (sge_of r (add64 source_buffer (w_i * 4096)) buffer_size, send_with_imm r.my_node_id))
        batch_size r f

  -- `_RdmaBatchRead`
  unfoldable pub rdma_batch_read :
      ℕ → ℕ → ℕ → ℕ → ℕ → RdmaSocket → F → Result (Bool × RdmaSocket × F)
  rdma_batch_read node_id source_buffer des_buffer buffer_size batch_size r f = do
    peer ← peer_of node_id r
    batch_post node_id peer
        (λ w_i. (
          sge_of r (add64 source_buffer (w_i * 8)) buffer_size,
          rdma_read (add64 des_buffer peer.registered_memory) peer.rkey,
        ))
        batch_size r f

  -- `_RdmaBatchWrite`: the immediate value 0 stands for none.
  unfoldable pub rdma_batch_write :
      ℕ → ℕ → ℕ → ℕ → ℕ → ℕ → RdmaSocket → F → Result (Bool × RdmaSocket × F)
  rdma_batch_write node_id source_buffer des_buffer buffer_size imm batch_size r f = do
    peer ← peer_of node_id r
    let remote_addr : ℕ → ℕ = λ w_i. add64 (add64 des_buffer peer.registered_memory) (w_i * 4096)
    batch_post node_id peer
        (λ w_i. (
          sge_of r (add64 source_buffer (w_i * 4096)) buffer_size,
          (if imm == 0
              then rdma_write (remote_addr w_i) peer.rkey
              else rdma_write_with_imm (remote_addr w_i) peer.rkey imm),
        ))
        batch_size r f

-- The elements of the list that `_RdmaBatchReceive` fills.
abbrev receive_sges : ℕ → ℕ → ℕ → ℕ → RdmaSocket → List Sge
receive_sges source_buffer buffer_size zero w_i r = []
receive_sges source_buffer buffer_size (suc n) w_i r =
    sge_of r (add64 source_buffer (w_i * 4096)) buffer_size
    ∷ receive_sges source_buffer buffer_size n (w_i + 1) r

abbrev sges_checked : ℕ → List Sge → Result (List Sge)
sges_checked n sges = if ltb 0 n && leb n max_post_list then ok sges else fault out_of_range

-- `_RdmaBatchReceive`
unfoldable pub rdma_batch_receive :
    {F : Type 0} → Verbs F → ℕ → ℕ → ℕ → ℕ → RdmaSocket → F → Result (Bool × F)
rdma_batch_receive verbs node_id source_buffer buffer_size batch_size r f = do
  peer ← peer_of node_id r
  qp ← or_fault (get_elem? peer.qp 0) out_of_range
  sges ← sges_checked batch_size (receive_sges source_buffer buffer_size batch_size 0 r)
  ok (verbs.post_recv qp sges f)
