-- ===== src/Tests/Fixture.antt =====
-- A consistent service with one server of three blocks, and with one file, `a`, of five bytes.
use Prim.Native.String.{len}
use sponge_bob.Prelude.{
  ℕ, ◌+◌, ◌≤◌, ◌==◌, indicator, count, ◌≡◌, refl, subst, String, false, none, some, [], ◌∷◌, arith,
  inl, inr, Bool-cases, u64_of_int,
}
use sponge_bob.Containers.Table
use sponge_bob.Containers.Table.{keys}
use sponge_bob.FileMap
use sponge_bob.Inode.{Inode, BlockInfo, Dentry, reg_file, dir}
use sponge_bob.InodeTable
use sponge_bob.InodeTable.{InodeTable}
use sponge_bob.SpaceManager
use sponge_bob.SpaceManager.{SpaceManager}
use sponge_bob.MetaServer.State.{Service, root_inum}
use sponge_bob.MetaServer.Consistent.{entry_inums, Managed, Sound, Consistent}

abbrev pub name_length : String → ℕ
name_length name = len name

abbrev pub block_a : BlockInfo
block_a = record { server_id = 1; start_addr = 0; length = 5; block_nr = 0 }

abbrev pub dentry_a : Dentry
dentry_a = record { name = "a"; hash = 1; inum = 1 }

abbrev pub file_a : Inode
file_a = record {
  inum = 1;
  type = reg_file;
  size = 5;
  file_fd = none;
  children = [];
  block_info_list = block_a ∷ [];
}

abbrev pub root : Inode
root = record {
  inum = 0;
  type = dir;
  size = 0;
  file_fd = none;
  children = (1, dentry_a) ∷ [];
  block_info_list = [];
}

abbrev pub inodes : InodeTable
inodes = record {
  total_size = 3;
  cur_size = 2;
  locked = false;
  table = (0, root) ∷ (1, file_a) ∷ [];
  free_list = 2 ∷ 3 ∷ [];
}

abbrev pub disk : SpaceManager
disk = record {
  inused_blocks = 0 ∷ [];
  free_list = 1 ∷ 2 ∷ [];
  space_start = 4194304;
  space_end = 7340031;
  total_bytes = 3145728;
  block_size = 1048576;
  total_blocks = 3;
  cur_blocks = 1;
  server_id = 1;
}

abbrev pub service : Service
service = record {
  server_count = 1;
  inode_table = inodes;
  space_manager = (2147483649, disk) ∷ [];
  file_map = record { total_size = 2; fd_used_set = 4 ∷ []; fd_free_list = 5 ∷ [] };
  rand_calls = 0;
}

pub inodes-IsValid : InodeTable.Partition.IsValid inodes
inodes-IsValid = record {
  partition = λ k. ground arith;
  balance = refl;
  counted = refl;
  fits = omega arith;
  bounded = omega arith;
  unlocked = refl;
  sorted = (omega arith, (omega arith, tt));
  root = refl;
}

pub disk-IsValid : SpaceManager.Partition.IsValid disk
disk-IsValid = record {
  partition = λ b. ground arith;
  balance = refl;
  counted = refl;
  bounded = omega arith;
  sorted = (omega arith, (omega arith, tt));
}

disk-Managed : Managed inodes.table 2147483649 disk
unfolding u64_of_int
disk-Managed = record {
  key = omega arith;
  id = refl;
  valid = disk-IsValid;
  reach = omega arith;
  used = λ b. ground arith;
}

root-Sound : Sound root
root-Sound = record {
  sized = omega arith;
  short = omega arith;
  addresses = record {
    at = λ k b e. absurd (ground (arith, e));
    whole = λ k b e. absurd (ground (arith, e));
  };
}

pub file_a-Sound : Sound file_a
file_a-Sound = record {
  sized = omega arith;
  short = omega arith;
  addresses = record { at = λ k b e. ground (arith, e); whole = λ k b e. ground (arith, e) };
}

pub Sound-at : (k : ℕ) (i : Inode) → Table.find k inodes.table ≡ some i → Sound i
unfolding Table.find
Sound-at k i f = elim (Bool-cases (0 == k)) [
  | inl e ↦ let q : root ≡ i = ground (arith, f, e) in subst Sound q root-Sound
  | inr e ↦ elim (Bool-cases (1 == k)) [
    | inl e' ↦ let q : file_a ≡ i = ground (arith, f, e, e') in subst Sound q file_a-Sound
    | inr e' ↦ absurd (ground (arith, f, e, e'))
  ]
]

pub spaces_at :
    (k : ℕ) (sm : SpaceManager)
    → Table.find k service.space_manager ≡ some sm
    → Managed inodes.table k sm
unfolding Table.find
spaces_at k sm f = elim (Bool-cases (2147483649 == k)) [
  | inl e ↦
      let q : disk ≡ sm = ground (arith, f, e) in
      let p : 2147483649 ≡ k = ground (arith, e) in
      subst (λ j. Managed inodes.table j sm) p
        (subst (Managed inodes.table 2147483649) q disk-Managed)
  | inr e ↦ absurd (ground (arith, f, e))
]

pub root_found : Table.find root_inum inodes.table ≡ some root
unfolding Table.find
root_found = refl

pub descriptors-IsValid : FileMap.Descriptors.IsValid service.file_map
descriptors-IsValid = record {
  partition = λ k. ground arith;
  balance = refl;
  sorted = (omega arith, tt);
}

pub named_once :
    (k : ℕ)
    → count k (entry_inums root.children) + indicator (k == root_inum) ≡ count k (keys inodes.table)
named_once k = ground arith

pub hashes_once : (h : ℕ) → count h (keys root.children) ≤ 1
hashes_once h = ground arith

abbrev pub service-Consistent : Consistent service
service-Consistent = record {
  table = inodes-IsValid;
  descriptors = descriptors-IsValid;
  root = root;
  root_found = root_found;
  named = named_once;
  hashes = hashes_once;
  sound = Sound-at;
  spaces = record { at = spaces_at };
}

-- The same service with no inode left.
abbrev pub full_inodes : InodeTable
full_inodes = record inodes { total_size = 2; free_list = 2 ∷ [] }

pub full_inodes-IsValid : InodeTable.Partition.IsValid full_inodes
full_inodes-IsValid = record {
  partition = λ k. ground arith;
  balance = refl;
  counted = refl;
  fits = omega arith;
  bounded = omega arith;
  unlocked = refl;
  sorted = (omega arith, tt);
  root = refl;
}

abbrev pub full_service : Service
full_service = record service { inode_table = full_inodes }

abbrev pub full_service-Consistent : Consistent full_service
full_service-Consistent = record {
  table = full_inodes-IsValid;
  descriptors = descriptors-IsValid;
  root = root;
  root_found = root_found;
  named = named_once;
  hashes = hashes_once;
  sound = Sound-at;
  spaces = record { at = spaces_at };
}
