-- ===== src/MetaServer/State.antt =====
-- `MetadataServiceImpl`: its members, `randInt`, and `CreateFile_`. Handlers run one at a time. An
-- inode that a handler holds by `shared_ptr` is the one of the table, so that what it writes is
-- written there. `rand` is the sequence of values that `rand()` returns, none of them negative, of
-- which `rand_calls` have been drawn; the keys of `space_manager` are `int`s. `server_count` is
-- used in comments only, and `cur_server_id_` nowhere.
use sponge_bob.Prelude.{
  ℕ, zero, suc, ◌+◌, ◌%◌, ◌^◌, ◌-◌, String, Bool, none, some, [], ◌∷◌, length, ltb, ◌==◌,
  if◌then◌else◌, add64, sub64, mul64, u64_of_int,
}
use sponge_bob.Result.{Result, ok, fault, null_pointer, zero_divisor, or_fault, ◌>>=◌}
use sponge_bob.Containers.Table
use sponge_bob.Containers.Table.{Table}
use sponge_bob.Inode.{
  Inode, reg_file, file_block_size, add_dentry, get_dentry, append_file_block_info, get_block_num,
}
use sponge_bob.InodeTable
use sponge_bob.InodeTable.{InodeTable}
use sponge_bob.FileMap
use sponge_bob.FileMap.{FileMap}
use sponge_bob.SpaceManager
use sponge_bob.SpaceManager.{SpaceManager}

pub record Service : Type 0 where
  pub server_count : ℕ
  pub inode_table : InodeTable
  pub space_manager : Table SpaceManager
  pub file_map : FileMap
  pub rand_calls : ℕ

-- `ROOT_INUM`
abbrev pub root_inum : ℕ
root_inum = 0

-- `MetadataServiceImpl(server_count)`
unfoldable pub new_service : ℕ → Service
new_service server_count = record {
  server_count = server_count;
  inode_table = InodeTable.new_inode_table 100;
  space_manager = [];
  file_map = FileMap.new_file_map 100;
  rand_calls = 0;
}

-- The key that the iterator reaches after `r` steps; -1 if it reaches the end.
unfoldable pub nth_key : ℕ → Table SpaceManager → ℕ
nth_key r [] = 2 ^ 31 - 1
nth_key zero ((k, sm) ∷ m) = k
nth_key (suc r) ((k, sm) ∷ m) = nth_key r m

-- The number of rounds of `for (int i = 0; i < new_blocks_num; ++i)` for a `uint64_t` that is
-- narrowed to the `int` bound.
unfoldable pub int_rounds : ℕ → ℕ
int_rounds n = let w = n % 2 ^ 32 in if ltb w (2 ^ 31) then w else 0

module _ (rand : ℕ → ℕ) where
  -- `randInt(space_manager_.size())` and the search for the key of that place.
  unfoldable pub choose_server : Service → Result (ℕ × Service)
  unfolding nth_key
  choose_server s =
      let n = length s.space_manager in
      if n == 0
      then fault zero_divisor
      else ok (
        nth_key (rand s.rand_calls % n) s.space_manager,
        record s { rand_calls = s.rand_calls + 1 },
      )

  -- One round of the loop that enlarges a file.
  unfoldable pub append_block : Inode → Service → Result (Inode × Service)
  unfolding append_file_block_info
  append_block i s = do
    (server_id, s') ← choose_server s
    sm ← or_fault (Table.find server_id s'.space_manager) null_pointer
    (block_nr, sm') ← SpaceManager.allocate_one_block sm
    ok (
      append_file_block_info i (u64_of_int server_id) (mul64 block_nr file_block_size) 0 block_nr,
      record s' { space_manager = Table.assign_in_order server_id sm' s'.space_manager },
    )

  -- The loop, with the rounds left.
  unfoldable pub append_blocks : ℕ → Inode → Service → Result (Inode × Service)
  append_blocks zero i s = ok (i, s)
  append_blocks (suc n) i s = do (i', s') ← append_block i s; append_blocks n i' s'

  -- `if (file_inode->GetBlockNum() < total_blocks) …`
  unfoldable pub enlarge : ℕ → Inode → Service → Result (Inode × Service)
  unfolding get_block_num int_rounds
  enlarge total_blocks i s =
      if ltb (get_block_num i) total_blocks
      then append_blocks (int_rounds (sub64 total_blocks (get_block_num i))) i s
      else ok (i, s)

module _ (hash : String → ℕ) where
  -- The inode is of a regular file whatever `is_dir` says, and an entry is added whether or not a
  -- number was left.
  unfoldable pub create_file_ : String → Bool → InodeTable → Result (ℕ × InodeTable)
  create_file_ name is_dir t = do
    (root, t1) ← InodeTable.get_inode root_inum t
    elim root [
      | none ↦ ok (add64 t1.total_size 1, t1)
      | some r ↦ do
        (new_inum, t2) ← InodeTable.allocate_free_inode reg_file t1
        ok (new_inum, InodeTable.write_inode root_inum (add_dentry hash name new_inum r).1 t2)
    ]

  -- The number of the file to write, which is created if no entry has the name.
  unfoldable pub file_to_write : String → Inode → InodeTable → Result (ℕ × InodeTable)
  file_to_write name root t = elim (get_dentry hash name root) [
    | some d ↦ ok (d.inum, t)
    | none ↦ do
      (_, t') ← create_file_ name Bool.false t
      root' ← or_fault (Table.find root_inum t'.table) null_pointer
      d ← or_fault (get_dentry hash name root') null_pointer
      ok (d.inum, t')
  ]
