-- ===== src/Rdma/Post.antt =====
-- The operations that post one work request.
use sponge_bob.Prelude.{
  ℕ, ◌-◌, ◌%◌, ◌^◌, Bool, true, List, [], ◌∷◌, ◌==◌, if◌then◌else◌, get_elem?, add64,
}
use sponge_bob.Result.{Result, ok, null_pointer, out_of_range, or_fault, ◌>>=◌}
use sponge_bob.Containers.Table
use sponge_bob.Rdma.Types.{
  RdmaSocket, PeerSockData, Sge, SendWr, send_with_imm, rdma_read, rdma_write, rdma_write_with_imm,
  fetch_and_add, cmp_and_swp, Verbs,
}

-- `sg.length` has 32 bits.
abbrev pub sge_of : RdmaSocket → ℕ → ℕ → Sge
sge_of r source_buffer buffer_size = record {
  addr = source_buffer;
  length = buffer_size % 2 ^ 32;
  lkey = r.lkey;
}

-- `peers[NodeID]`
abbrev pub peer_of : ℕ → RdmaSocket → Result PeerSockData
peer_of node_id r = or_fault (Table.find node_id r.peers) null_pointer

module _ {F : Type 0} (verbs : Verbs F) where
  -- `ibv_post_send` on one of the peer's queue pairs.
  abbrev pub post_on : ℕ → PeerSockData → List SendWr → F → Result (Bool × F)
  post_on task_id peer wrs f = do
    qp ← or_fault (get_elem? peer.qp task_id) out_of_range
    ok (verbs.post_send qp wrs f)

  -- `RdmaSend`
  unfoldable pub rdma_send : ℕ → ℕ → ℕ → RdmaSocket → F → Result (Bool × F)
  rdma_send node_id source_buffer buffer_size r f = do
    peer ← peer_of node_id r
    let wr : SendWr = record {
      sge = sge_of r source_buffer buffer_size;
      opcode = send_with_imm r.my_node_id;
      signaled = true;
    }
    post_on 0 peer (wr ∷ []) f

  -- `RdmaReceive`
  unfoldable pub rdma_receive : ℕ → ℕ → ℕ → RdmaSocket → F → Result (Bool × F)
  rdma_receive node_id source_buffer buffer_size r f = do
    peer ← peer_of node_id r
    qp ← or_fault (get_elem? peer.qp 0) out_of_range
    ok (verbs.post_recv qp (sge_of r source_buffer buffer_size ∷ []) f)

  -- `RdmaRead`
  unfoldable pub rdma_read_from : ℕ → ℕ → ℕ → ℕ → ℕ → RdmaSocket → F → Result (Bool × F)
  rdma_read_from node_id source_buffer des_buffer buffer_size task_id r f = do
    peer ← peer_of node_id r
    let wr : SendWr = record {
      sge = sge_of r source_buffer buffer_size;
      opcode = rdma_read (add64 des_buffer peer.registered_memory) peer.rkey;
      signaled = true;
    }
    post_on task_id peer (wr ∷ []) f

  -- `RdmaWrite`: the immediate value -1 stands for none.
  unfoldable pub rdma_write_to : ℕ → ℕ → ℕ → ℕ → ℕ → ℕ → RdmaSocket → F → Result (Bool × F)
  rdma_write_to node_id source_buffer des_buffer buffer_size imm task_id r f = do
    peer ← peer_of node_id r
    let remote_addr = add64 des_buffer peer.registered_memory
    let wr : SendWr = record {
      sge = sge_of r source_buffer buffer_size;
      opcode =
          if imm == 2 ^ 32 - 1
          then rdma_write remote_addr peer.rkey
          else rdma_write_with_imm remote_addr peer.rkey imm;
      signaled = true;
    }
    post_on task_id peer (wr ∷ []) f

  -- `RdmaFetchAndAdd`
  unfoldable pub rdma_fetch_and_add : ℕ → ℕ → ℕ → ℕ → RdmaSocket → F → Result (Bool × F)
  rdma_fetch_and_add node_id source_buffer des_buffer add r f = do
    peer ← peer_of node_id r
    let wr : SendWr = record {
      sge = sge_of r source_buffer 8;
      opcode = fetch_and_add (add64 des_buffer peer.registered_memory) peer.rkey add;
      signaled = true;
    }
    post_on 0 peer (wr ∷ []) f

  -- `RdmaCompareAndSwap`
  unfoldable pub rdma_compare_and_swap : ℕ → ℕ → ℕ → ℕ → ℕ → RdmaSocket → F → Result (Bool × F)
  rdma_compare_and_swap node_id source_buffer des_buffer compare swap r f = do
    peer ← peer_of node_id r
    let wr : SendWr = record {
      sge = sge_of r source_buffer 8;
      opcode = cmp_and_swp (add64 des_buffer peer.registered_memory) peer.rkey compare swap;
      signaled = true;
    }
    post_on 0 peer (wr ∷ []) f
