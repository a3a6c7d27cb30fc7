-- ===== src/MetaServer/Consistent.antt =====
-- The invariant of the metadata service: what its tables say of one another.
pub mod Frame
use sponge_bob.Prelude.{
  ℕ, ◌+◌, ◌*◌, ◌^◌, ◌≤◌, ◌<◌, ◌≡◌, refl, String, Bool, true, false, Option, none, some, List, [],
  ◌∷◌, arith, ◌==◌, if◌then◌else◌, length, count, indicator, u64_mod, u64_of_int, ap,
}
use sponge_bob.Containers.Table
use sponge_bob.Containers.Table.{Table, keys}
use sponge_bob.Inode.{Inode, Dentry, file_block_size}
use sponge_bob.InodeTable
use sponge_bob.FileMap
use sponge_bob.SpaceManager
use sponge_bob.SpaceManager.{SpaceManager}
use sponge_bob.SpaceManager.Partition.{blocks_on}
use sponge_bob.MetaServer.Transfer.Total.{Addressable}
use sponge_bob.MetaServer.State.{Service, root_inum}

-- How often the inodes of a table hold block `b` of server `s`.
abbrev pub owned : ℕ → ℕ → Table Inode → ℕ
owned s b [] = 0
owned s b ((k, i) ∷ m) = count b (blocks_on s i.block_info_list) + owned s b m

-- Replacing an inode changes the count by the inode's own blocks.
pub owned-assign :
    (s b k : ℕ) (i old : Inode) (m : Table Inode)
    → Table.find k m ≡ some old
    → owned s b (Table.assign k i m) + count b (blocks_on s old.block_info_list)
      ≡ owned s b m + count b (blocks_on s i.block_info_list)
unfolding Table.assign Table.find
owned-assign s b k i old [] e = ground (arith, e)
owned-assign s b k i old ((j, w) ∷ m) e = ground (arith, owned-assign s b k i old m)

-- An inode with no blocks adds nothing.
pub owned-assign_new :
    (s b k : ℕ) (i : Inode) (m : Table Inode)
    → Table.find k m ≡ none
    → owned s b (Table.assign k i m) ≡ owned s b m + count b (blocks_on s i.block_info_list)
unfolding Table.assign Table.find
owned-assign_new s b k i [] e = omega arith
owned-assign_new s b k i ((j, w) ∷ m) e = ground (arith, owned-assign_new s b k i m)

owned-erase_absent :
    (s b k : ℕ) (m : Table Inode) → count k (keys m) ≡ 0 → owned s b (Table.erase k m) ≡ owned s b m
unfolding Table.erase
owned-erase_absent s b k [] e = refl
owned-erase_absent s b k ((j, w) ∷ m) e = ground (arith, owned-erase_absent s b k m)

-- Erasing an inode takes its blocks off the count.
pub owned-erase :
    (s b k : ℕ) (i : Inode) (m : Table Inode)
    → Table.find k m ≡ some i
    → count k (keys m) ≡ 1
    → owned s b (Table.erase k m) + count b (blocks_on s i.block_info_list) ≡ owned s b m
unfolding Table.erase Table.find
owned-erase s b k i [] e o = ground (arith, e)
owned-erase s b k i ((j, w) ∷ m) e o =
    ground (arith, owned-erase s b k i m, owned-erase_absent s b k m)

-- The numbers that a directory's entries name.
abbrev pub entry_inums : Table Dentry → List ℕ
entry_inums [] = []
entry_inums ((h, d) ∷ ds) = d.inum ∷ entry_inums ds

-- The space manager of key `k`: a valid one, whose blocks in use are those that the files hold on
-- its server, each once.
pub record Managed (m : Table Inode) (k : ℕ) (sm : SpaceManager) : Type 0 where
  pub key : k < 2 ^ 32
  pub id : sm.server_id ≡ u64_of_int k
  pub valid : SpaceManager.Partition.IsValid sm
  pub reach : sm.total_blocks * file_block_size ≤ u64_mod
  pub used : (b : ℕ) → count b sm.inused_blocks ≡ owned sm.server_id b m

pub record Spaces (m : Table Inode) (sms : Table SpaceManager) : Type 0 where
  pub at : (k : ℕ) (sm : SpaceManager) → Table.find k sms ≡ some sm → Managed m k sm

-- The file's size is within its blocks, they are within the 64-bit addresses, and each stands where
-- its number says.
pub record Sound (i : Inode) : Type 0 where
  pub sized : i.size ≤ length i.block_info_list * file_block_size
  pub short : length i.block_info_list * file_block_size + file_block_size ≤ u64_mod
  pub addresses : Addressable i.block_info_list

-- The service: a valid inode table whose inodes are sound; a root directory that names every other
-- inode once, and no other number, under hashes that differ; space managers that agree with the files;
-- valid descriptors.
pub record Consistent (s : Service) : Type 0 where
  pub table : InodeTable.Partition.IsValid s.inode_table
  pub descriptors : FileMap.Descriptors.IsValid s.file_map
  pub root : Inode
  pub root_found : Table.find root_inum s.inode_table.table ≡ some root
  pub named :
      (k : ℕ)
      → count k (entry_inums root.children) + indicator (k == root_inum)
        ≡ count k (keys s.inode_table.table)
  pub hashes : (h : ℕ) → count h (keys root.children) ≤ 1
  pub sound : (k : ℕ) (i : Inode) → Table.find k s.inode_table.table ≡ some i → Sound i
  pub spaces : Spaces s.inode_table.table s.space_manager
