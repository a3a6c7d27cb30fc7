-- ===== src/MetaServer/Messages.antt =====
-- The messages of protos/spongebob.proto that carry more than one value, and the status of a call.
use sponge_bob.Prelude.{ℕ, String, Bool, List}

pub record FileBlockInfo : Type 0 where
  pub block_idx : ℕ
  pub serverid : ℕ
  pub mem_offset : ℕ
  pub length : ℕ
  pub buff_offset : ℕ

-- `MetadataServiceImpl::InitBlockInfo`
unfoldable pub init_block_info : ℕ → ℕ → ℕ → ℕ → ℕ → FileBlockInfo
init_block_info block_idx server_id mem_offset len buff_offset = record {
  block_idx = block_idx;
  serverid = server_id;
  mem_offset = mem_offset;
  length = len;
  buff_offset = buff_offset;
}

-- `ReadRequest` and `WriteRequest`
pub record TransferRequest : Type 0 where
  pub name : String
  pub offset : ℕ
  pub length : ℕ

-- `ReadReply` and `WriteReply`; `bytes` is `bytes_read` or `bytes_write`.
pub record TransferReply : Type 0 where
  pub block_info : List FileBlockInfo
  pub bytes : ℕ

pub record DentryInfo : Type 0 where
  pub name : String
  pub is_dir : Bool
  pub inum : ℕ
  pub size : ℕ

-- `Status::OK` with the reply, or `Status::CANCELLED`, for which gRPC sends none.
pub data Response (A : Type 0) : Type 0 where
  success : A → Response A
  cancelled : Response A
