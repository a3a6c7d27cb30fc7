-- ===== src/MetaServer/Open.antt =====
-- `OpenFile` and `CloseFile`.
use sponge_bob.Prelude.{
  ℕ, ◌<◌, ◌≡◌, refl, subst, String, true, false, Option, none, some, Option-cases, inl, inr,
}
use sponge_bob.Result.{ok, ◌>>=◌}
use sponge_bob.Inode.{Dentry, get_dentry, new_dentry}
use sponge_bob.InodeTable.{InodeTable}
use sponge_bob.InodeTable.Partition.{get_inode_found}
use sponge_bob.FileMap.{FileMap, allocate_fd}
use sponge_bob.FileMap.Descriptors
use sponge_bob.FileMap.Descriptors.{Allocates, allocate_fd-Allocates, reclaim_fd-allocate_fd}
use sponge_bob.MetaServer.Messages.{success}
use sponge_bob.MetaServer.State.{Service, root_inum, create_file_}
use sponge_bob.MetaServer.Handlers.{open_file, close_file}
use sponge_bob.MetaServer.Consistent.{Consistent}
use sponge_bob.MetaServer.Create.{create_file__new}

pub with_files-Consistent :
    {s : Service}
    → Consistent s
    → (m : FileMap) → Descriptors.IsValid m
    → Consistent (record s { file_map = m })
with_files-Consistent c m v = record {
  table = c.table;
  descriptors = v;
  root = c.root;
  root_found = c.root_found;
  named = c.named;
  hashes = c.hashes;
  sound = c.sound;
  spaces = c.spaces;
}

-- `name` was opened with the answer `fd`: the service stays consistent, the name has an entry, the
-- descriptor is one that `AllocateFD` may give, and closing it restores the descriptors.
pub record Opened (hash : String → ℕ) (name : String) (s : Service) (fd : Option ℕ) (s' : Service)
    : Type 0 where
  pub consistent : Consistent s'
  pub entry : Dentry
  pub named : get_dentry hash name consistent.root ≡ some entry
  pub allocates : Allocates s.file_map fd s'.file_map
  pub closes :
      (k : ℕ)
      → fd ≡ some k
      → close_file k s' ≡ ok (success true, record s' { file_map = s.file_map })

module _ (hash : String → ℕ) (name : String) {s : Service} (c : Consistent s) where
  abbrev pub opened : InodeTable → Service
  opened t = record s { inode_table = t; file_map = (allocate_fd s.file_map).1 }

  pub open_old :
      (d : Dentry)
      → get_dentry hash name c.root ≡ some d
      → open_file hash name s ≡ ok (success (allocate_fd s.file_map).0, opened s.inode_table)
  unfolding open_file
  open_old d e =
      rw (get_inode_found root_inum c.root s.inode_table c.table c.root_found) (rw (e, ◌>>=◌) refl)

  pub open_new :
      (i : ℕ) (t : InodeTable)
      → get_dentry hash name c.root ≡ none
      → create_file_ hash name false s.inode_table ≡ ok (i, t)
      → open_file hash name s ≡ ok (success (allocate_fd s.file_map).0, opened t)
  unfolding open_file
  open_new i t e run =
      rw (get_inode_found root_inum c.root s.inode_table c.table c.root_found)
        (rw (e, ◌>>=◌) (rw run refl))

  closes_opened :
      (t : InodeTable) (k : ℕ)
      → (allocate_fd s.file_map).0 ≡ some k
      → close_file k (opened t) ≡ ok (success true, record s { inode_table = t })
  unfolding close_file
  closes_opened t k e = rw (reclaim_fd-allocate_fd s.file_map k c.descriptors e) refl

  opened-Opened :
      (t : InodeTable) (c' : Consistent (record s { inode_table = t })) (d : Dentry)
      → get_dentry hash name c'.root ≡ some d
      → Opened hash name s (allocate_fd s.file_map).0 (opened t)
  unfolding with_files-Consistent
  opened-Opened t c' d e =
      let (a, v) = allocate_fd-Allocates s.file_map c.descriptors in
      record {
        consistent = with_files-Consistent c' (allocate_fd s.file_map).1 v;
        entry = d;
        named = e;
        allocates = a;
        closes = λ k. closes_opened t k;
      }

  abbrev Named : Service → Type 0
  Named s' = (c' : Consistent s') × (d : Dentry) × (get_dentry hash name c'.root ≡ some d)

  -- In a consistent service, `OpenFile` of a name that the root directory has, or for which there is a
  -- free inode, succeeds. The service stays consistent, the name has an entry, and the answer is one
  -- that `AllocateFD` may give; closing the descriptor that it answers restores the descriptors.
  pub open_file_total :
      (get_dentry hash name c.root ≡ none → s.inode_table.cur_size < s.inode_table.total_size)
      → (fd : Option ℕ) × (s' : Service) × (open_file hash name s ≡ ok (success fd, s'))
        × Opened hash name s fd s'
  open_file_total room = elim (Option-cases (get_dentry hash name c.root)) [
    | inr (d, e) ↦ (
      (allocate_fd s.file_map).0,
      opened s.inode_table,
      open_old d e,
      opened-Opened s.inode_table c d e,
    )
    | inl e ↦
        let (i, s1, run, made) = create_file__new hash name c e (room e) in
        let (c1, d, named) =
          subst Named made.shape (made.consistent, new_dentry hash name i, made.named) in
        (
          (allocate_fd s.file_map).0,
          opened s1.inode_table,
          open_new i s1.inode_table e run,
          opened-Opened s1.inode_table c1 d named,
        )
  ]
