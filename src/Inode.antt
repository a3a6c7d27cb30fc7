-- ===== src/Inode.antt =====
-- `FileType`, `file_block_info`, `Dentry` and `Inode` of include/file.hpp and src/fs/file.cpp.
-- `std::hash<std::string>` is the parameter `hash`. An `int` fd of -1 is `none`.
pub mod Directory
use sponge_bob.Prelude.{
  ℕ, ◌<◌, String, Bool, true, false, Option, none, some, List, [], ◌∷◌, ◌++◌, ltb, ◌==◌,
  if◌then◌else◌, length, get_elem?, set,
}
use sponge_bob.Result.{Result, ok, fault, assertion, out_of_range, or_fault}
use sponge_bob.Containers.Table
use sponge_bob.Containers.Table.{Table}

-- The size of a file block, `1 << 20`.
abbrev pub file_block_size : ℕ
file_block_size = 1048576

pub data FileType : Type 0 where
  reg_file dir : FileType

-- `file_block_info`
pub record BlockInfo : Type 0 where
  pub server_id : ℕ
  pub start_addr : ℕ
  pub length : ℕ
  pub block_nr : ℕ

pub record Dentry : Type 0 where
  pub name : String
  pub hash : ℕ
  pub inum : ℕ

pub record Inode : Type 0 where
  pub inum : ℕ
  pub type : FileType
  pub size : ℕ
  pub file_fd : Option ℕ
  pub children : Table Dentry
  pub block_info_list : List BlockInfo

-- `Inode(type, inum)`
unfoldable pub new_inode : FileType → ℕ → Inode
new_inode type inum = record {
  inum = inum;
  type = type;
  size = 0;
  file_fd = none;
  children = [];
  block_info_list = [];
}

unfoldable pub is_dir : Inode → Bool
is_dir i = elim i.type [ dir ↦ true | reg_file ↦ false ]

unfoldable pub get_block_num : Inode → ℕ
get_block_num i = length i.block_info_list

-- `block_info_list_[block_id]`
unfoldable pub get_block_info : Inode → ℕ → Result BlockInfo
get_block_info i block_id = or_fault (get_elem? i.block_info_list block_id) out_of_range

unfoldable pub set_size : Inode → ℕ → Inode
set_size i size = record i { size = size }

unfoldable pub append_file_block_info : Inode → ℕ → ℕ → ℕ → ℕ → Inode
append_file_block_info i server_id start_addr len block_nr = record i {
  block_info_list = i.block_info_list ++ info ∷ [];
}
  where
    info : BlockInfo
    info = record {
      server_id = server_id;
      start_addr = start_addr;
      length = len;
      block_nr = block_nr;
    }

-- The new length of one block; an index that is out of bounds fails the `assert`.
unfoldable pub change_file_block_info_length : Inode → ℕ → ℕ → Result Inode
change_file_block_info_length i index len = elim (get_elem? i.block_info_list index) [
  | none ↦ fault assertion
  | some b ↦
      ok (record i { block_info_list = set i.block_info_list index (record b { length = len }) })
]

module _ (hash : String → ℕ) where
  unfoldable pub new_dentry : String → ℕ → Dentry
  new_dentry name inum = record { name = name; hash = hash name; inum = inum }

  -- False, and no change, if the hash is taken.
  unfoldable pub add_dentry : String → ℕ → Inode → Bool × Inode
  unfolding new_dentry
  add_dentry name inum i = elim (Table.find (hash name) i.children) [
    | some d ↦ (false, i)
    | none ↦
        (true, record i { children = Table.assign (hash name) (new_dentry name inum) i.children })
  ]

  unfoldable pub delete_dentry : String → Inode → Bool × Inode
  delete_dentry name i = elim (Table.find (hash name) i.children) [
    | none ↦ (false, i)
    | some d ↦ (true, record i { children = Table.erase (hash name) i.children })
  ]

  -- `nullptr` is `none`.
  unfoldable pub get_dentry : String → Inode → Option Dentry
  get_dentry name i = Table.find (hash name) i.children
