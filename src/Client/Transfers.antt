-- ===== src/Client/Transfers.antt =====
-- A client that reads what it has written, and `fuse_mkdir`.
use sponge_bob.Prelude.{
  ℕ, ◌+◌, ◌%◌, ◌<◌, ◌≡◌, refl, ap, ◌∙◌, String, Bool, true, false, none, some, List, [], ◌∷◌, arith,
  if◌then◌else◌,
}
use sponge_bob.Result.{Result, ok, fault, null_pointer, ◌>>=◌}
use sponge_bob.Rdma.Types.{pos, negsuc}
use sponge_bob.Inode.{Dentry, dir, get_dentry}
use sponge_bob.MetaServer.Messages.{FileBlockInfo, TransferRequest, TransferReply, success}
use sponge_bob.MetaServer.State.{Service}
use sponge_bob.MetaServer.Handlers
use sponge_bob.MetaServer.Consistent.{Consistent}
use sponge_bob.MetaServer.Consistent.Frame.{entry_live}
use sponge_bob.MetaServer.Transfer.Located.{serve}
use sponge_bob.MetaServer.Abstract.{File, file_of, view}
use sponge_bob.MetaServer.Steps.Effects.{view_found}
use sponge_bob.MetaServer.Read.{read_file_missing}
use sponge_bob.MetaServer.Remove.File.{remove_file_total}
use sponge_bob.MetaServer.Create.{Created, create_file_new}
use sponge_bob.MetaServer.Write.File.{Writable, write_file_total, read_file-write_file}
use sponge_bob.MetaClient
use sponge_bob.MetaClient.{server_stub, int_value}
use sponge_bob.Client.{Remote, read_blocks, write_blocks, answer, read, write}
use sponge_bob.Fuse.{fuse_mkdir, fuse_unlink, neg}

-- A run of a transfer over the blocks of a list, by an operation that a block is handed to: the buffer,
-- the sixteen low bits of the server's number, the offset in its memory and the length, block by block
-- in order. It ends with the last block, or with the first that the operation fails for.
pub data Moves {S : Type 0} (op : ℕ → ℕ → ℕ → ℕ → S → Result (Bool × S)) (user_buf : ℕ)
    : List FileBlockInfo → S → Bool → S → Type 0 where
  all_moved : (s : S) → Moves op user_buf [] s true s
  moved_one :
      (block : FileBlockInfo) (blocks : List FileBlockInfo) (done : Bool) (s s' s'' : S)
      → op user_buf (block.serverid % 65536) block.mem_offset block.length s ≡ ok (true, s')
      → Moves op user_buf blocks s' done s''
      → Moves op user_buf (block ∷ blocks) s done s''
  not_moved :
      (block : FileBlockInfo) (blocks : List FileBlockInfo) (s s' : S)
      → op user_buf (block.serverid % 65536) block.mem_offset block.length s ≡ ok (false, s')
      → Moves op user_buf (block ∷ blocks) s false s'

answer_eq :
    (done : Bool) (n len : ℕ) → n ≡ len → answer done n ≡ (if done then int_value len else negsuc 0)
answer_eq true n len e = ap int_value e
answer_eq false n len e = refl

module _ {S : Type 0} (remote : Remote S) {user_buf : ℕ} where
  read_blocks-Moves :
      {blocks : List FileBlockInfo} {s s' : S} {done : Bool}
      → Moves remote.remote_read user_buf blocks s done s'
      → read_blocks remote user_buf blocks s ≡ ok (done, s')
  unfolding read_blocks
  read_blocks-Moves (all_moved s) = refl
  read_blocks-Moves (moved_one block blocks done s s' s'' e m) = rw (e, ◌>>=◌) (read_blocks-Moves m)
  read_blocks-Moves (not_moved block blocks s s' e) = rw (e, ◌>>=◌) refl

  write_blocks-Moves :
      {blocks : List FileBlockInfo} {s s' : S} {done : Bool}
      → Moves remote.remote_write user_buf blocks s done s'
      → write_blocks remote user_buf blocks s ≡ ok (done, s')
  unfolding write_blocks
  write_blocks-Moves (all_moved s) = refl
  write_blocks-Moves (moved_one block blocks done s s' s'' e m) =
      rw (e, ◌>>=◌) (write_blocks-Moves m)
  write_blocks-Moves (not_moved block blocks s s' e) = rw (e, ◌>>=◌) refl

module _ (hash : String → ℕ) (rand : ℕ → ℕ) {S : Type 0} (remote : Remote S) where
  write_run :
      (name : String) (user_buf offset len : ℕ) (s s' : Service) (x x' : S) (done : Bool)
      (reply : TransferReply)
      → Handlers.write_file hash rand (record { name = name; offset = offset; length = len }) s
        ≡ ok (success reply, s')
      → Moves remote.remote_write user_buf reply.block_info x done x'
      → write (server_stub hash rand) remote name user_buf offset len (s, x)
        ≡ ok (answer done reply.bytes, (s', x'))
  unfolding write MetaClient.write_file
  write_run name user_buf offset len s s' x x' done reply e m =
      rw (e, ◌>>=◌) (rw (write_blocks-Moves remote m) refl)

  read_run :
      (name : String) (user_buf offset len : ℕ) (s s' : Service) (x x' : S) (done : Bool)
      (reply : TransferReply)
      → Handlers.read_file hash (record { name = name; offset = offset; length = len }) s
        ≡ ok (success reply, s')
      → Moves remote.remote_read user_buf reply.block_info x done x'
      → read (server_stub hash rand) remote name user_buf offset len (s, x)
        ≡ ok (answer done reply.bytes, (s', x'))
  unfolding read MetaClient.read_file
  read_run name user_buf offset len s s' x x' done reply e m =
      rw (e, ◌>>=◌) (rw (read_blocks-Moves remote m) refl)

  -- A client writes a range to a consistent service with room for it, and later reads the range back,
  -- whatever became of its socket in between. There is one list of blocks that serves each byte of the
  -- range by its place in the file, and both calls hand it to the operation of the socket block by
  -- block: the buffer, the sixteen low bits of the server's number, the offset in its memory and the
  -- length. Each call that reaches the end of the list answers the length as an `int`, and each that
  -- ends with a block that fails -1; the write leaves a consistent service, and the read changes none.
  pub read-write :
      (name : String) (write_buf read_buf offset len : ℕ) {s : Service} (c : Consistent s)
      → Writable hash (record { name = name; offset = offset; length = len }) s c.root
      → (blocks : List FileBlockInfo) × (e : File) × (s' : Service) × Consistent s'
        × (view hash s' name ≡ some e)
        × ((j : ℕ) → j < len → serve blocks j ≡ e.places (offset + j))
        × ((x x' : S) (done : Bool)
            → Moves remote.remote_write write_buf blocks x done x'
            → write (server_stub hash rand) remote name write_buf offset len (s, x)
              ≡ ok ((if done then int_value len else negsuc 0), (s', x')))
        × ((y y' : S) (done : Bool)
            → Moves remote.remote_read read_buf blocks y done y'
            → read (server_stub hash rand) remote name read_buf offset len (s', y)
              ≡ ok ((if done then int_value len else negsuc 0), (s', y')))
  read-write name write_buf read_buf offset len {s} c w =
      let request : TransferRequest = record { name = name; offset = offset; length = len } in
      let (reply, s', run, x) = write_file_total hash rand request c w in
      let again = read_file-write_file hash rand request c w reply s' run in
      (
        reply.block_info,
        file_of x.inode,
        s',
        x.consistent,
        view_found hash x.consistent name x.dentry x.inode x.named x.stored,
        λ j h. ground (arith, x.serves.at j),
        λ y y' done m.
            write_run name write_buf offset len s s' y y' done reply run m
            ∙ ap (λ n. ok (n, (s', y'))) (answer_eq done reply.bytes len x.bytes),
        λ y y' done m.
            read_run name read_buf offset len s' s' y y' done reply again m
            ∙ ap (λ n. ok (n, (s', y'))) (answer_eq done reply.bytes len x.bytes),
      )

  -- A client that removes a name by `fuse_unlink`, which succeeds, and then reads it: the service
  -- dereferences a null pointer. The service is consistent, and the name leads to an entry.
  pub read-fuse_unlink :
      (errno : ℕ) (name : String) (read_buf offset len : ℕ) {s : Service} (c : Consistent s)
      (d : Dentry)
      → get_dentry hash name c.root ≡ some d
      → (s' : Service) × (fuse_unlink (server_stub hash rand) errno name s ≡ ok (pos 0, s'))
        × ((y : S)
            → read (server_stub hash rand) remote name read_buf offset len (s', y)
              ≡ fault null_pointer)
  unfolding fuse_unlink MetaClient.remove_file read MetaClient.read_file
  read-fuse_unlink errno name read_buf offset len {s} c d n =
      let request : TransferRequest = record { name = name; offset = offset; length = len } in
      let (not_root, (i, f)) = entry_live c (hash name) d (unfold get_dentry in n) in
      let (s', run, x) = remove_file_total hash name c d n i f not_root in
      (
        s',
        rw (run, ◌>>=◌) refl,
        λ y. rw (read_file_missing hash request x.consistent x.unnamed, ◌>>=◌) refl,
      )

fuse_mkdir_eq :
    (hash : String → ℕ) (rand : ℕ → ℕ) (errno inum : ℕ) (new_path : String) (s s' : Service)
    → Handlers.create_file hash new_path true s ≡ ok (success inum, s')
    → fuse_mkdir (server_stub hash rand) errno new_path s ≡ ok (neg errno, s')
unfolding fuse_mkdir MetaClient.create_diretory
fuse_mkdir_eq hash rand errno inum new_path s s' e = rw (e, ◌>>=◌) refl

-- `fuse_mkdir` of a new name, in a consistent service whose inode table is not full, makes the
-- directory and answers the negated `errno`, as it does for an error.
pub fuse_mkdir_new :
    (hash : String → ℕ) (rand : ℕ → ℕ) (errno : ℕ) (new_path : String) {s : Service}
    (c : Consistent s)
    → get_dentry hash new_path c.root ≡ none
    → s.inode_table.cur_size < s.inode_table.total_size
    → (i : ℕ) × (s' : Service) × (fuse_mkdir (server_stub hash rand) errno new_path s
        ≡ ok (neg errno, s'))
      × Created hash new_path dir s c.root i s'
fuse_mkdir_new hash rand errno new_path {s} c absent room =
    let (i, s', run, made) = create_file_new hash new_path c absent room true in
    (i, s', fuse_mkdir_eq hash rand errno i new_path s s' run, made)
