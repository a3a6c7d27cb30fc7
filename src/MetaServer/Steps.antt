-- ===== src/MetaServer/Steps.antt =====
-- The calls that the service answers, as steps, and the states that they lead to.
pub mod Effects
pub mod Reached
pub mod Places
use Prim.Native.Nat.{bit_and}
use sponge_bob.Prelude.{
  ℕ, ◌+◌, ◌^◌, ◌<◌, ◌≡◌, String, Bool, Option, none, some, List, [], ◌∷◌, u64_mod, sub64,
}
use sponge_bob.Result.{ok}
use sponge_bob.Containers.Table
use sponge_bob.Inode.{Inode, get_dentry, file_block_size}
use sponge_bob.MetaServer.Messages.{TransferRequest, TransferReply, DentryInfo, Response}
use sponge_bob.MetaServer.State.{Service, root_inum}
use sponge_bob.MetaServer.Handlers
use sponge_bob.MetaServer.Abstract.{
  Call, read_call, write_call, create_call, open_call, close_call, remove_call, list_call,
  register_call,
}
use sponge_bob.MetaServer.Consistent.{owned}
use sponge_bob.MetaServer.Write.File.{Writable}

-- A new name finds a free inode, and a write room.
pub record HasInode (hash : String → ℕ) (name : String) (s : Service) (root : Inode) : Type 0 where
  pub found : Table.find root_inum s.inode_table.table ≡ some root
  pub free : get_dentry hash name root ≡ none → s.inode_table.cur_size < s.inode_table.total_size

-- A region of memory that may be registered: of a server that no file uses, not empty, aligned, and
-- below 2 ^ 64.
pub record Registrable (nodeid addr len : ℕ) (s : Service) : Type 0 where
  pub small : nodeid < 2 ^ 31
  pub some_bytes : 0 < len
  pub fits : addr + len < u64_mod
  pub aligned : bit_and (sub64 file_block_size 1) addr ≡ 0
  pub unowned : (b : ℕ) → owned nodeid b s.inode_table.table ≡ 0

-- A call that returns, with its answer, takes the service `s` to `s'`. Calls that change the tables come with the room
-- that they need; the others come as they are.
pub data Step (hash : String → ℕ) (rand : ℕ → ℕ) (s s' : Service) : Call → Type 0 where
  read_step :
      (request : TransferRequest) (response : Response TransferReply)
      → Handlers.read_file hash request s ≡ ok (response, s')
      → Step hash rand s s' (read_call request response)
  write_step :
      (request : TransferRequest) (response : Response TransferReply) (root : Inode)
      → Table.find root_inum s.inode_table.table ≡ some root
      → Writable hash request s root
      → Handlers.write_file hash rand request s ≡ ok (response, s')
      → Step hash rand s s' (write_call request response)
  create_step :
      (name : String) (dir_wanted : Bool) (response : Response ℕ) (root : Inode)
      → HasInode hash name s root
      → Handlers.create_file hash name dir_wanted s ≡ ok (response, s')
      → Step hash rand s s' (create_call name dir_wanted response)
  open_step :
      (name : String) (response : Response (Option ℕ)) (root : Inode)
      → HasInode hash name s root
      → Handlers.open_file hash name s ≡ ok (response, s')
      → Step hash rand s s' (open_call name response)
  close_step :
      (fd : ℕ) (response : Response Bool)
      → Handlers.close_file fd s ≡ ok (response, s')
      → Step hash rand s s' (close_call fd response)
  remove_step :
      (name : String) (response : Response Bool)
      → Handlers.remove_file hash name s ≡ ok (response, s')
      → Step hash rand s s' (remove_call name response)
  list_step :
      (path : String) (response : Response (List DentryInfo))
      → Handlers.read_directory path s ≡ ok (response, s')
      → Step hash rand s s' (list_call path response)
  register_step :
      (nodeid addr len : ℕ) (response : Response (Unit {0}))
      → Registrable nodeid addr len s
      → Handlers.register_memory_region nodeid addr len s ≡ ok (response, s')
      → Step hash rand s s' (register_call nodeid addr len response)

-- The states that a sequence of calls leads to from `s`, the last call first.
pub data Reach (hash : String → ℕ) (rand : ℕ → ℕ) (s : Service) : List Call → Service → Type 0 where
  here : Reach hash rand s [] s
  next :
      {calls : List Call} {call : Call} {t u : Service}
      → Reach hash rand s calls t
      → Step hash rand t u call
      → Reach hash rand s (call ∷ calls) u
