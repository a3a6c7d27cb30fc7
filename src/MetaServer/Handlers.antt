-- ===== src/MetaServer/Handlers.antt =====
-- The handlers: a request and the service give a response and the service after the call.
use sponge_bob.Prelude.{
  ℕ, ◌/◌, String, Bool, true, false, Option, none, some, List, [], ◌∷◌, ltb, if◌then◌else◌, add64,
  sub64, int_of_u64,
}
use sponge_bob.Result.{Result, ok, null_pointer, assertion, or_fault, ◌>>=◌}
use sponge_bob.Containers.Table
use sponge_bob.Containers.Table.{Table}
use sponge_bob.Inode.{
  Inode, Dentry, reg_file, dir, file_block_size, is_dir, add_dentry, delete_dentry, get_dentry,
  set_size,
}
use sponge_bob.InodeTable
use sponge_bob.InodeTable.{InodeTable}
use sponge_bob.FileMap
use sponge_bob.SpaceManager
use sponge_bob.SpaceManager.{SpaceManager}
use sponge_bob.MetaServer.Messages.{
  TransferRequest, TransferReply, DentryInfo, Response, success, cancelled,
}
use sponge_bob.MetaServer.Transfer.{read_blocks, write_blocks}
use sponge_bob.MetaServer.State.{Service, root_inum, enlarge, create_file_, file_to_write}

-- `auto root_inode = inode_table_->GetInode(ROOT_INUM)`, and CANCELLED where that is null.
unfoldable pub with_root :
    {A : Type 0}
    → (Inode → Service → Result (Response A × Service))
    → Service
    → Result (Response A × Service)
with_root body s = do
  (root, t) ← InodeTable.get_inode root_inum s.inode_table
  let s' = record s { inode_table = t }
  elim root [ none ↦ ok (cancelled, s') | some r ↦ body r s' ]

-- `ReadFile` reads past the end no more than the file holds.
unfoldable pub clamp_length : ℕ → ℕ → ℕ → ℕ
clamp_length start_offset read_length size =
    if ltb size (add64 start_offset read_length) then sub64 size start_offset else read_length

-- `RegisterMemoryRegion`
unfoldable pub register_memory_region : ℕ → ℕ → ℕ → Service → Result (Response (Unit {0}) × Service)
register_memory_region nodeid start_addr len s = do
  sm ←
      SpaceManager.new_space_manager start_addr (sub64 (add64 start_addr len) 1) file_block_size
        nodeid
  ok (
    success tt,
    record s { space_manager = Table.assign_in_order (int_of_u64 nodeid) sm s.space_manager },
  )

-- `CloseFile`: a negative `int64_t` is the `uint64_t` that it converts to.
unfoldable pub close_file : ℕ → Service → Result (Response Bool × Service)
close_file fd s =
    let (closed, m) = FileMap.reclaim_fd fd s.file_map in
    ok (success closed, record s { file_map = m })

-- The loop of `ReadDirectory`.
unfoldable pub list_entries : Table Dentry → InodeTable → Result (List DentryInfo × InodeTable)
unfolding is_dir
list_entries [] t = ok ([], t)
list_entries ((h, d) ∷ ds) t = do
  (file_inode, t1) ← InodeTable.get_inode d.inum t
  i ← or_fault file_inode null_pointer
  (rest, t2) ← list_entries ds t1
  ok (record { name = d.name; is_dir = is_dir i; inum = d.inum; size = i.size } ∷ rest, t2)

abbrev pub own_entry : String → DentryInfo
own_entry name = record { name = name; is_dir = true; inum = root_inum; size = file_block_size }

-- `ReadDirectory`; the path is read and not used.
unfoldable pub read_directory : String → Service → Result (Response (List DentryInfo) × Service)
unfolding with_root
read_directory path = with_root λ root s. do
  (entries, t) ← list_entries root.children s.inode_table
  ok (success (own_entry "." ∷ own_entry ".." ∷ entries), record s { inode_table = t })

-- The loop of `RemoveFile` over the space managers.
unfoldable pub reclaim_all :
    ℕ → Table SpaceManager → InodeTable → Result (Table SpaceManager × InodeTable)
reclaim_all inum [] t = ok ([], t)
reclaim_all inum ((k, sm) ∷ sms) t = do
  (file_inode, t1) ← InodeTable.get_inode inum t
  sm' ← SpaceManager.reclaim_inode_space file_inode sm
  (rest, t2) ← reclaim_all inum sms t1
  ok ((k, sm') ∷ rest, t2)

module _ (rand : ℕ → ℕ) where
  -- `WriteFile` behind the lookup of the file: enlarge it, cut the range, set the size.
  unfoldable pub write_inode_range :
      ℕ → Inode → TransferRequest → Service → Result (Response TransferReply × Service)
  write_inode_range inum i request s = do
    let end = add64 request.offset request.length
    let total_blocks = sub64 (add64 end file_block_size) 1 / file_block_size
    (i1, s1) ← enlarge rand total_blocks i s
    (block_info, left, i2) ← write_blocks i1 request.offset request.length
    ok (
      success (record { block_info = block_info; bytes = sub64 request.length left }),
      record s1 {
        inode_table = InodeTable.write_inode inum (set_size i2 (sub64 end left)) s1.inode_table;
      },
    )

module _ (hash : String → ℕ) where
  -- `ReadFile`: the number of the entry is read before the test for null.
  unfoldable pub read_file : TransferRequest → Service → Result (Response TransferReply × Service)
  unfolding with_root clamp_length
  read_file request = with_root λ root s. do
    d ← or_fault (get_dentry hash request.name root) null_pointer
    (file_inode, t) ← InodeTable.get_inode d.inum s.inode_table
    i ← or_fault file_inode assertion
    let read_length = clamp_length request.offset request.length i.size
    (block_info, left) ← read_blocks i request.offset read_length
    ok (
      success (record { block_info = block_info; bytes = sub64 read_length left }),
      record s { inode_table = t },
    )

  -- `CreateFile`, also for directories; the reply is the number.
  unfoldable pub create_file : String → Bool → Service → Result (Response ℕ × Service)
  unfolding with_root
  create_file name dir_wanted = with_root λ root s. elim (get_dentry hash name root) [
    | some d ↦ ok (success d.inum, s)
    | none ↦ do
      (new_inum, t) ←
          InodeTable.allocate_free_inode (if dir_wanted then dir else reg_file) s.inode_table
      ok (
        success new_inum,
        record s {
          inode_table = InodeTable.write_inode root_inum (add_dentry hash name new_inum root).1 t;
        },
      )
  ]

  -- `OpenFile`: the reply is the descriptor, -1 being `none`.
  unfoldable pub open_file : String → Service → Result (Response (Option ℕ) × Service)
  unfolding with_root
  open_file name = with_root λ root s. do
    t ← elim (get_dentry hash name root) [
      | some d ↦ ok s.inode_table
      | none ↦ do (_, t') ← create_file_ hash name false s.inode_table; ok t'
    ]
    let (fd, m) = FileMap.allocate_fd s.file_map
    ok (success fd, record s { inode_table = t; file_map = m })

  -- `RemoveFile`
  unfoldable pub remove_file : String → Service → Result (Response Bool × Service)
  unfolding with_root
  remove_file name = with_root λ root s. elim (get_dentry hash name root) [
    | none ↦ ok (success false, s)
    | some d ↦ do
      let t = InodeTable.write_inode root_inum (delete_dentry hash name root).1 s.inode_table
      (sms, t1) ← reclaim_all d.inum s.space_manager t
      (_, t2) ← InodeTable.delete_inode d.inum t1
      ok (success true, record s { inode_table = t2; space_manager = sms })
  ]

  module _ (rand : ℕ → ℕ) where
    -- `WriteFile`
    unfoldable pub write_file :
        TransferRequest → Service → Result (Response TransferReply × Service)
    unfolding with_root write_inode_range
    write_file request = with_root λ root s. do
      (inum, t) ← file_to_write hash request.name root s.inode_table
      (file_inode, t') ← InodeTable.get_inode inum t
      i ← or_fault file_inode null_pointer
      write_inode_range rand inum i request (record s { inode_table = t' })
