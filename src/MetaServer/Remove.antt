-- ===== src/MetaServer/Remove.antt =====
-- `RemoveFile`: the steps, and what they do to the tables.
pub mod File
use sponge_bob.Prelude.{
  ℕ, ◌+◌, ◌*◌, ◌≤◌, ◌<◌, ◌≡◌, refl, ap, subst, sym, ◌∙◌, ◌≢◌, String, Bool, true, false, Option,
  none, some, List, [], ◌∷◌, arith, ◌==◌, ==_iff, if◌then◌else◌, length, count, indicator, u64_mod,
  Bool-cases, Option-cases, inl, inr,
}
use sponge_bob.Result.{Result, ok, fault, ◌>>=◌, or_fault}
use sponge_bob.Containers.Table
use sponge_bob.Containers.Table.{
  Table, keys, find-assign, find-assign_self, find-assign_ne, find-erase, keys-erase,
  keys-assign_old, count_of_some, count_of_find-none,
}
use sponge_bob.Inode.{Inode, Dentry, get_dentry, delete_dentry}
use sponge_bob.InodeTable.{InodeTable, get_inode, delete_inode, write_inode}
use sponge_bob.InodeTable.Partition.{
  Deleted, delete_inode_found, write_inode-IsValid, get_inode_found, IsValid,
}
use sponge_bob.SpaceManager.{SpaceManager, reclaim_block_infos, reclaim_inode_space, reclaim_space}
use sponge_bob.SpaceManager.Partition.{
  GivesBack, blocks_on, reclaim_space-GivesBack, reclaim_block_infos-eq-reclaim_space,
}
use sponge_bob.MetaServer.Messages.{Response, success}
use sponge_bob.MetaServer.State.{Service, root_inum}
use sponge_bob.MetaServer.Handlers.{remove_file, reclaim_all}
use sponge_bob.MetaServer.Consistent.{
  owned, owned-assign, owned-erase, entry_inums, Managed, Spaces, Sound, Consistent,
}
use sponge_bob.MetaServer.Consistent.Frame.{entry_live}

-- Every space manager with the blocks of the inode back.
abbrev pub reclaimed : Inode → Table SpaceManager → Table SpaceManager
reclaimed i [] = []
reclaimed i ((k, sm) ∷ sms) = (k, reclaim_block_infos i.block_info_list sm) ∷ reclaimed i sms

reclaim_all_run :
    (inum : ℕ) (i : Inode) (sms : Table SpaceManager) (t : InodeTable)
    → get_inode inum t ≡ ok (some i, t)
    → reclaim_all inum sms t ≡ ok (reclaimed i sms, t)
unfolding reclaim_all reclaim_inode_space
reclaim_all_run inum i [] t e = refl
reclaim_all_run inum i ((k, sm) ∷ sms) t e = rw e (rw (reclaim_all_run inum i sms t e, ◌>>=◌) refl)

pub find-reclaimed :
    (k : ℕ) (i : Inode) (sms : Table SpaceManager)
    → Table.find k (reclaimed i sms) ≡ elim (Table.find k sms) [
      | none ↦ none
      | some sm ↦ some (reclaim_block_infos i.block_info_list sm)
    ]
unfolding Table.find
find-reclaimed k i [] = refl
find-reclaimed k i ((j, sm) ∷ sms) = ground (arith, find-reclaimed k i sms)

entry_inums-erase_absent :
    (k h : ℕ) (ds : Table Dentry)
    → count h (keys ds) ≡ 0
    → count k (entry_inums (Table.erase h ds)) ≡ count k (entry_inums ds)
unfolding Table.erase
entry_inums-erase_absent k h [] e = refl
entry_inums-erase_absent k h ((j, w) ∷ ds) e = ground (arith, entry_inums-erase_absent k h ds)

pub entry_inums-erase :
    (k h : ℕ) (d : Dentry) (ds : Table Dentry)
    → Table.find h ds ≡ some d
    → count h (keys ds) ≤ 1
    → count k (entry_inums (Table.erase h ds)) + indicator (d.inum == k) ≡ count k (entry_inums ds)
unfolding Table.erase Table.find
entry_inums-erase k h d [] e o = ground (arith, e)
entry_inums-erase k h d ((j, w) ∷ ds) e o =
    ground (arith, entry_inums-erase k h d ds, entry_inums-erase_absent k h ds)

module _ (hash : String → ℕ) (name : String) {s : Service} (c : Consistent s) (d : Dentry)
    (named : get_dentry hash name c.root ≡ some d) (i : Inode)
    (found : Table.find d.inum s.inode_table.table ≡ some i) (not_root : d.inum ≢ root_inum) where
  abbrev pub root' : Inode
  root' = record c.root { children = Table.erase (hash name) c.root.children }

  root'_eq : (delete_dentry hash name c.root).1 ≡ root'
  unfolding delete_dentry get_dentry
  root'_eq = ground (arith, named)

  -- The table after the entry is gone, and before its inode is.
  abbrev pub between : InodeTable
  between = write_inode root_inum root' s.inode_table

  pub between-IsValid : IsValid between
  between-IsValid = write_inode-IsValid root_inum root' c.root s.inode_table c.table c.root_found

  pub between_found : Table.find d.inum between.table ≡ some i
  unfolding write_inode
  between_found = find-assign_ne d.inum root_inum root' s.inode_table.table not_root ∙ found

  pub between_keys : (k : ℕ) → count k (keys between.table) ≡ count k (keys s.inode_table.table)
  unfolding write_inode
  between_keys k =
      ap (count k) (keys-assign_old root_inum root' c.root s.inode_table.table c.root_found)

  present : count d.inum (keys between.table) ≡ 1
  present =
      ground (
        arith,
        count_of_some d.inum i between.table between_found,
        between-IsValid.partition d.inum,
      )

  owned_rest :
      (t b : ℕ)
      → owned t b (Table.erase d.inum between.table) + count b (blocks_on t i.block_info_list)
        ≡ owned t b s.inode_table.table
  unfolding write_inode
  owned_rest t b = omega (
    arith,
    owned-erase t b d.inum i between.table between_found present,
    owned-assign t b root_inum root' c.root s.inode_table.table c.root_found,
  )

  pub gives_back :
      (k : ℕ) (sm : SpaceManager)
      → Managed s.inode_table.table k sm
      → GivesBack sm
          (blocks_on sm.server_id i.block_info_list)
          (reclaim_block_infos i.block_info_list sm)
  gives_back k sm g = rw (reclaim_block_infos-eq-reclaim_space i.block_info_list sm) (
      reclaim_space-GivesBack (blocks_on sm.server_id i.block_info_list) sm g.valid
        (λ b. omega (arith, g.used b, owned_rest sm.server_id b)))

  Managed-after :
      (k : ℕ) (sm : SpaceManager)
      → Managed s.inode_table.table k sm
      → Managed (Table.erase d.inum between.table) k (reclaim_block_infos i.block_info_list sm)
  Managed-after k sm g =
      let b = gives_back k sm g in
      record {
        key = g.key;
        id = b.same.server_id ∙ g.id;
        valid = b.valid;
        reach = omega (arith, g.reach, b.same.total_blocks);
        used = λ n.
            rw b.same.server_id
              (omega (arith, b.inused_blocks n, g.used n, owned_rest sm.server_id n));
      }

  pub Spaces-after : Spaces (Table.erase d.inum between.table) (reclaimed i s.space_manager)
  Spaces-after = record {
    at = λ k sm' f. elim (Option-cases (Table.find k s.space_manager)) [
      | inl n ↦ absurd (ground (arith, f, n, find-reclaimed k i s.space_manager))
      | inr (sm, e) ↦
          let q : reclaim_block_infos i.block_info_list sm ≡ sm' =
            ground (arith, f, e, find-reclaimed k i s.space_manager) in
          subst (Managed (Table.erase d.inum between.table) k) q
            (Managed-after k sm (c.spaces.at k sm e))
    ];
  }

  pub remove_file_eq :
      (t' : InodeTable)
      → delete_inode d.inum between ≡ ok (true, t')
      → remove_file hash name s
        ≡ ok (
          success true,
          record s { inode_table = t'; space_manager = reclaimed i s.space_manager },
        )
  unfolding remove_file
  remove_file_eq t' run = rw (get_inode_found root_inum c.root s.inode_table c.table c.root_found) (
      rw (named, ◌>>=◌)
        (rw root'_eq (
          rw
            (reclaim_all_run d.inum i s.space_manager between
              (get_inode_found d.inum i between between-IsValid between_found))
            (rw run refl))))
