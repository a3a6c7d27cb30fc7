-- ===== src/FileMap.antt =====
-- `FileMap` of include/file.hpp and src/fs/file.cpp: the descriptors that `OpenFile` gives out. The
-- members `inode_table_` and `file_map_` are used by code that is commented out, and are left out;
-- every method releases `file_map_lock_` on each of its paths, so the lock is left out too.
pub mod Descriptors
use sponge_bob.Prelude.{ℕ, ◌+◌, Bool, true, false, Option, none, some, List, [], ◌∷◌, if◌then◌else◌}
use sponge_bob.Containers.MinQueue
use sponge_bob.Containers.NumSet

pub record FileMap : Type 0 where
  pub total_size : ℕ
  pub fd_used_set : List ℕ
  pub fd_free_list : List ℕ

-- `FileMap(size)`: the queue is built from the entries 4 to size + 3 of the vector.
unfoldable pub new_file_map : ℕ → FileMap
new_file_map size = record {
  total_size = size;
  fd_used_set = [];
  fd_free_list = MinQueue.iota 4 size;
}

-- The answer -1 is `none`.
unfoldable pub allocate_fd : FileMap → Option ℕ × FileMap
allocate_fd m = elim m.fd_free_list [
  | [] ↦ (none, m)
  | new_fd ∷ rest ↦ (
    some new_fd,
    record m { fd_free_list = rest; fd_used_set = NumSet.insert new_fd m.fd_used_set },
  )
]

unfoldable pub reclaim_fd : ℕ → FileMap → Bool × FileMap
reclaim_fd fd m =
    if NumSet.contains fd m.fd_used_set
    then (
      true,
      record m {
        fd_used_set = NumSet.erase fd m.fd_used_set;
        fd_free_list = MinQueue.push fd m.fd_free_list;
      },
    )
    else (false, m)
