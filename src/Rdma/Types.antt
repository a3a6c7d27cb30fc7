-- ===== src/Rdma/Types.antt =====
-- The state of a socket, and the calls of libibverbs and libc that it makes.
pub use sponge_bob.Prelude.{ℤ, pos, negsuc, ◌+ℤ◌, below}
use sponge_bob.Prelude.{ℕ, ◌+◌, Bool, List}
use sponge_bob.Configuration.{Configuration}
use sponge_bob.Containers.Table.{Table}
use sponge_bob.Queue.{Queue}

-- `PeerSockData`: the queue pairs and the completion queue stand for the pointers to them.
pub record PeerSockData : Type 0 where
  pub qp : List ℕ
  pub cq : ℕ
  pub qp_num : List ℕ
  pub registered_memory : ℕ
  pub rkey : ℕ
  pub lid : ℕ
  pub gid : List ℕ
  pub sock : ℕ
  pub node_id : ℕ
  pub counter : ℕ

-- `TransferTask`: `op_type` is true for a write.
pub record TransferTask : Type 0 where
  pub op_type : Bool
  pub node_id : ℕ
  pub size : ℕ
  pub buffer_send : ℕ
  pub buffer_receive : ℕ

-- `RdmaSocket`: `lkey` and `rkey` are those of `mr`, `lid` is that of `PortAttribute`, and `peers` has
-- the entries that are not null. The handles of the device are left out.
pub record RdmaSocket : Type 0 where
  pub peers : Table PeerSockData
  pub is_server : Bool
  pub cq : List ℕ
  pub cq_num : ℕ
  pub cq_ptr : ℕ
  pub mm : ℕ
  pub lkey : ℕ
  pub rkey : ℕ
  pub conf : Configuration
  pub my_node_id : ℕ
  pub max_node_id : ℕ
  pub mode : ℕ
  pub port : ℕ
  pub gid_index : ℤ
  pub lid : ℕ
  pub server_port : ℕ
  pub server_count : ℕ
  pub is_running : Bool
  pub queue : List (Queue TransferTask)
  pub transfer_signal : ℕ
  pub write_size : List ℕ
  pub read_size : List ℕ
  pub write_time_cost : List ℕ
  pub read_time_cost : List ℕ
  pub write_test : Bool

-- `ibv_sge`
pub record Sge : Type 0 where
  pub addr : ℕ
  pub length : ℕ
  pub lkey : ℕ

-- `opcode` of `ibv_send_wr` with the fields that go with it: the immediate value, the remote address
-- and its key, the operands of an atomic operation.
pub data Opcode : Type 0 where
  send_with_imm : ℕ → Opcode
  rdma_read : ℕ → ℕ → Opcode
  rdma_write : ℕ → ℕ → Opcode
  rdma_write_with_imm : ℕ → ℕ → ℕ → Opcode
  fetch_and_add : ℕ → ℕ → ℕ → Opcode
  cmp_and_swp : ℕ → ℕ → ℕ → ℕ → Opcode

pub record SendWr : Type 0 where
  pub sge : Sge
  pub opcode : Opcode
  pub signaled : Bool

-- The library's calls on a fabric `F`. `post_send qp wrs` and `post_recv qp sges` answer whether they
-- return 0; `poll_cq cq n` answers its number and whether the status of the first completion is
-- success; `memcpy to from n`; `time_of_day` in microseconds.
pub record Verbs (F : Type 0) : Type 0 where
  pub post_send : ℕ → List SendWr → F → Bool × F
  pub post_recv : ℕ → List Sge → F → Bool × F
  pub poll_cq : ℕ → ℕ → F → ℤ × Bool × F
  pub memcpy : ℕ → ℕ → ℕ → F → F
  pub time_of_day : F → ℕ × F

-- `SIGNAL_BATCH`, `MAX_POST_LIST` and `WORKER_NUMBER`
abbrev pub max_post_list : ℕ
max_post_list = 24

abbrev pub worker_number : ℕ
worker_number = 2

-- `QP_NUMBER` and `QPS_MAX_DEPTH`
abbrev pub qp_number : ℕ
qp_number = 1 + worker_number

abbrev pub qps_max_depth : ℕ
qps_max_depth = 128
