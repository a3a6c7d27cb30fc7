-- ===== src/InodeTable.antt =====
-- `InodeTable` of include/file.hpp and src/fs/file.cpp. `locked` says that `table_lock_` is held
-- between two calls: every method takes the lock, so such a call never returns.
pub mod Partition
use sponge_bob.Prelude.{
  ℕ, ◌+◌, String, Bool, true, false, Option, none, some, List, [], ◌∷◌, ◌==◌, if◌then◌else◌, add64,
  sub64,
}
use sponge_bob.Result.{Result, ok, fault, deadlock, ◌>>=◌, ◌>>◌}
use sponge_bob.Containers.MinQueue
use sponge_bob.Containers.Table
use sponge_bob.Containers.Table.{Table}
use sponge_bob.Inode.{Inode, FileType, reg_file, dir, new_inode}

pub record InodeTable : Type 0 where
  pub total_size : ℕ
  pub cur_size : ℕ
  pub locked : Bool
  pub table : Table Inode
  pub free_list : List ℕ

unfoldable pub create_root_dir : InodeTable → InodeTable
create_root_dir t = record t { table = Table.assign 0 (new_inode dir 0) t.table }

-- `InodeTable(size)`
unfoldable pub new_inode_table : ℕ → InodeTable
unfolding create_root_dir
new_inode_table size = create_root_dir (record {
  total_size = size;
  cur_size = 1;
  locked = false;
  table = [];
  free_list = MinQueue.iota 1 size;
})

-- `table_lock_.lock()`
unfoldable pub lock : InodeTable → Result (Unit {0})
lock t = if t.locked then fault deadlock else ok tt

-- A null pointer is `none`; on that path the lock is not released.
unfoldable pub get_inode : ℕ → InodeTable → Result (Option Inode × InodeTable)
unfolding lock
get_inode inum t = do
  lock t
  ok (elim (Table.find inum t.table) [
    | none ↦ (none, record t { locked = true })
    | some i ↦ (some i, t)
  ])

unfoldable pub allocate_free_inode : FileType → InodeTable → Result (ℕ × InodeTable)
unfolding lock
allocate_free_inode type t = do
  lock t
  if t.cur_size == t.total_size then ok (add64 t.total_size 1, t) else do
    (new_inum, rest) ← MinQueue.pop t.free_list
    ok (
      new_inum,
      record t {
        free_list = rest;
        cur_size = add64 t.cur_size 1;
        table = Table.assign new_inum (new_inode type new_inum) t.table;
      },
    )

unfoldable pub delete_inode : ℕ → InodeTable → Result (Bool × InodeTable)
unfolding lock
delete_inode inum t = do
  lock t
  ok (elim (Table.find inum t.table) [
    | none ↦ (false, t)
    | some i ↦ (
      true,
      record t {
        table = Table.erase inum t.table;
        free_list = MinQueue.push inum t.free_list;
        cur_size = sub64 t.cur_size 1;
      },
    )
  ])

-- What a handler writes through a `shared_ptr` to an inode of the table.
unfoldable pub write_inode : ℕ → Inode → InodeTable → InodeTable
write_inode inum i t = record t { table = Table.assign inum i t.table }
