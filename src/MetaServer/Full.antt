-- ===== src/MetaServer/Full.antt =====
-- `CreateFile` when the inode table is full.
use sponge_bob.Prelude.{
  ℕ, refl, ◌∙◌, if◌then◌else◌, ◌+◌, ◌<◌, ◌≡◌, String, Bool, none, some, [], ◌∷◌, arith, count,
  Option-cases, inl, inr,
}
use sponge_bob.Result.{ok, fault, null_pointer, ◌>>=◌}
use sponge_bob.Containers.Table
use sponge_bob.Containers.Table.{Table, find-assign_self, find-assign_ne, find-none}
use sponge_bob.Inode.{Inode, Dentry, dir, reg_file, get_dentry, add_dentry, new_dentry}
use sponge_bob.InodeTable.{InodeTable, get_inode, write_inode}
use sponge_bob.InodeTable.Partition.{
  IsValid, get_inode_found, allocate_free_inode_full, write_inode-IsValid,
}
use sponge_bob.MetaServer.Messages.{success}
use sponge_bob.MetaServer.State.{Service, root_inum}
use sponge_bob.MetaServer.Handlers.{create_file, read_directory, list_entries}
use sponge_bob.MetaServer.Consistent.{entry_inums, Consistent}
use sponge_bob.MetaServer.Create.{entry_inums-assign_new}

-- An entry whose number is not in the table makes the listing dereference a null pointer.
list_entries_lost :
    (t : InodeTable) (k : ℕ)
    → IsValid t
    → Table.find k t.table ≡ none
    → (ds : Table Dentry) → 0 < count k (entry_inums ds)
    → list_entries ds t ≡ fault null_pointer
unfolding list_entries get_inode
list_entries_lost t k v lost [] h = absurd (omega arith)
list_entries_lost t k v lost ((j, d) ∷ ds) h = elim (Option-cases (Table.find d.inum t.table)) [
  | inl e ↦ rw (v.unlocked, ◌>>=◌) (rw (e, ◌>>=◌) refl)
  | inr (i, e) ↦
      rw (v.unlocked, ◌>>=◌)
        (rw (e, ◌>>=◌) (rw (list_entries_lost t k v lost ds (ground (arith, lost, e)), ◌>>=◌) refl))
]

read_directory_lost :
    (path : String) (s : Service) (root : Inode) (k : ℕ)
    → IsValid s.inode_table
    → Table.find root_inum s.inode_table.table ≡ some root
    → Table.find k s.inode_table.table ≡ none
    → 0 < count k (entry_inums root.children)
    → read_directory path s ≡ fault null_pointer
unfolding read_directory
read_directory_lost path s root k v found lost h =
    rw (get_inode_found root_inum root s.inode_table v found)
      (rw (list_entries_lost s.inode_table k v lost root.children h, ◌>>=◌) refl)

module _ (hash : String → ℕ) (name : String) {s : Service} (c : Consistent s)
    (absent : get_dentry hash name c.root ≡ none)
    (full : s.inode_table.cur_size ≡ s.inode_table.total_size) where
  abbrev number : ℕ
  number = s.inode_table.total_size + 1

  abbrev root' : Inode
  root' = record c.root {
    children = Table.assign (hash name) (new_dentry hash name number) c.root.children;
  }

  root'_eq : (add_dentry hash name number c.root).1 ≡ root'
  unfolding add_dentry get_dentry
  root'_eq = ground (arith, absent)

  abbrev after : Service
  after = record s { inode_table = write_inode root_inum root' s.inode_table }

  create_file_eq :
      (dir_wanted : Bool) → create_file hash name dir_wanted s ≡ ok (success number, after)
  unfolding create_file
  create_file_eq dir_wanted =
      rw (get_inode_found root_inum c.root s.inode_table c.table c.root_found) (
        rw (absent, ◌>>=◌)
          (rw
            (allocate_free_inode_full (if dir_wanted then dir else reg_file) s.inode_table c.table
              full).0
            (rw root'_eq refl)))

  lost : Table.find number after.inode_table.table ≡ none
  unfolding write_inode
  lost =
      find-assign_ne number root_inum root' s.inode_table.table (λ e. absurd (omega arith))
      ∙ find-none number s.inode_table.table
          (allocate_free_inode_full dir s.inode_table c.table full).1

  -- In a consistent service whose inode table is full, `CreateFile` of a name that the root directory
  -- does not have answers a number that is in no table, and adds an entry for it all the same: from
  -- then on `ReadDirectory` dereferences a null pointer.
  pub create_file_full :
      (dir_wanted : Bool) (path : String)
      → (s' : Service) × (create_file hash name dir_wanted s
          ≡ ok (success (s.inode_table.total_size + 1), s'))
        × (Table.find (s.inode_table.total_size + 1) s'.inode_table.table ≡ none)
        × (read_directory path s' ≡ fault null_pointer)
  unfolding write_inode get_dentry new_dentry
  create_file_full dir_wanted path = (
    after,
    create_file_eq dir_wanted,
    lost,
    read_directory_lost path after root' number
        (write_inode-IsValid root_inum root' c.root s.inode_table c.table c.root_found)
        (find-assign_self root_inum root' s.inode_table.table) lost
        (ground (
          arith,
          entry_inums-assign_new number (hash name) (new_dentry hash name number) c.root.children
              absent,
        )),
  )
