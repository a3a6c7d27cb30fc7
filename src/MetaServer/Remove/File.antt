-- ===== src/MetaServer/Remove/File.antt =====
-- `RemoveFile` as a whole.
use sponge_bob.Prelude.{
  ℕ, ◌+◌, ◌≡◌, refl, ap, subst, sym, ◌∙◌, ◌≢◌, String, true, false, none, some, arith, ◌==◌,
  if◌then◌else◌, count, Bool-cases, inl, inr,
}
use sponge_bob.Result.{ok, ◌>>=◌}
use sponge_bob.Containers.Table
use sponge_bob.Containers.Table.{
  Table, keys, find-assign, find-assign_self, find-assign_ne, find-erase, keys-erase,
  keys-assign_old, count_of_some, count_of_find-none,
}
use sponge_bob.Inode.{Inode, Dentry, get_dentry}
use sponge_bob.InodeTable.{write_inode}
use sponge_bob.InodeTable.Partition.{delete_inode_found, get_inode_found}
use sponge_bob.SpaceManager.{SpaceManager, reclaim_block_infos}
use sponge_bob.SpaceManager.Partition.{GivesBack, blocks_on}
use sponge_bob.MetaServer.Messages.{success}
use sponge_bob.MetaServer.State.{Service, root_inum}
use sponge_bob.MetaServer.Handlers.{remove_file}
use sponge_bob.MetaServer.Consistent.{Spaces, Sound, Consistent}
use sponge_bob.MetaServer.Remove.{
  reclaimed, find-reclaimed, entry_inums-erase, root', between, between-IsValid, between_found,
  between_keys, remove_file_eq, Spaces-after, gives_back,
}

-- The file `name`, of entry `d` and inode `i`, is removed: the service stays consistent; the name is
-- gone, and names of another hash lead where they led; the inode is gone, and the other inodes but the
-- root are as before; every space manager has the file's blocks of its server back.
pub record Removed (hash : String → ℕ) (name : String) (d : Dentry) (i : Inode) (s : Service)
    (root : Inode) (s' : Service) : Type 0 where
  pub consistent : Consistent s'
  pub unnamed : get_dentry hash name consistent.root ≡ none
  pub names :
      (other : String)
      → hash other ≢ hash name
      → get_dentry hash other consistent.root ≡ get_dentry hash other root
  pub gone : Table.find d.inum s'.inode_table.table ≡ none
  pub others :
      (k : ℕ)
      → k ≢ d.inum
      → k ≢ root_inum
      → Table.find k s'.inode_table.table ≡ Table.find k s.inode_table.table
  pub returned :
      (k : ℕ) (sm : SpaceManager)
      → Table.find k s.space_manager ≡ some sm
      → (sm' : SpaceManager) × (Table.find k s'.space_manager ≡ some sm')
        × GivesBack sm (blocks_on sm.server_id i.block_info_list) sm'
  pub counted : s'.inode_table.cur_size + 1 ≡ s.inode_table.cur_size

module _ (hash : String → ℕ) (name : String) {s : Service} (c : Consistent s) (d : Dentry)
    (named : get_dentry hash name c.root ≡ some d) (i : Inode)
    (found : Table.find d.inum s.inode_table.table ≡ some i) (not_root : d.inum ≢ root_inum) where
  abbrev after_table : Table Inode
  after_table = Table.erase d.inum (between hash name c d named i found not_root).table

  find_after :
      (k : ℕ)
      → Table.find k after_table ≡ (
          if d.inum == k
          then none
          else (if root_inum == k
              then some (root' hash name c d named i found not_root)
              else Table.find k s.inode_table.table))
  unfolding write_inode
  find_after k = ground (
    arith,
    find-erase k d.inum (between hash name c d named i found not_root).table,
    find-assign k root_inum (root' hash name c d named i found not_root) s.inode_table.table,
  )

  keys_after :
      (k : ℕ)
      → count k (keys after_table) ≡ (if d.inum == k then 0 else count k (keys s.inode_table.table))
  keys_after k = ground (
    arith,
    keys-erase k d.inum (between hash name c d named i found not_root).table,
    between_keys hash name c d named i found not_root k,
  )

  present_before : count d.inum (keys s.inode_table.table) ≡ 1
  present_before =
      ground (arith, count_of_some d.inum i s.inode_table.table found, c.table.partition d.inum)

  Sound-after : (k : ℕ) (w : Inode) → Table.find k after_table ≡ some w → Sound w
  Sound-after k w f = elim (Bool-cases (d.inum == k)) [
    | inl e ↦ absurd (ground (arith, find_after k, f, e))
    | inr e ↦ elim (Bool-cases (root_inum == k)) [
      | inl same ↦
          let q : root' hash name c d named i found not_root ≡ w =
            ground (arith, find_after k, f, e, same) in
          let old = c.sound root_inum c.root c.root_found in
          subst Sound q (record { sized = old.sized; short = old.short; addresses = old.addresses })
      | inr other ↦ c.sound k w (ground (arith, find_after k, f, e, other))
    ]
  ]

  -- In a consistent service, `RemoveFile` of a name whose entry leads to an inode other than the root
  -- succeeds. The service stays consistent; the name leads nowhere, and names of another hash lead
  -- where they led; the inode is gone, and the others but the root are as before; every space manager
  -- has the file's blocks of its server back.
  pub remove_file_total :
      (s' : Service) × (remove_file hash name s ≡ ok (success true, s'))
      × Removed hash name d i s c.root s'
  unfolding get_dentry
  remove_file_total =
      let (t', run, del) =
        delete_inode_found d.inum i (between hash name c d named i found not_root)
          (between-IsValid hash name c d named i found not_root) not_root
          (between_found hash name c d named i found not_root) in
      let at : (k : ℕ) → Table.find k t'.table ≡ Table.find k after_table =
        λ k. ap (Table.find k) del.table in
      (
        record s { inode_table = t'; space_manager = reclaimed i s.space_manager },
        remove_file_eq hash name c d named i found not_root t' run,
        record {
          consistent = record {
            table = del.valid;
            descriptors = c.descriptors;
            root = root' hash name c d named i found not_root;
            root_found = ground (arith, at root_inum, find_after root_inum);
            named = λ k. ground (
              arith,
              ap (λ m. count k (keys m)) del.table,
              keys_after k,
              c.named k,
              entry_inums-erase k (hash name) d c.root.children named (c.hashes (hash name)),
              present_before,
            );
            hashes = λ h. ground (arith, keys-erase h (hash name) c.root.children, c.hashes h);
            sound = λ k w f. Sound-after k w (sym (at k) ∙ f);
            spaces =
                subst (λ m. Spaces m (reclaimed i s.space_manager)) (sym del.table)
                  (Spaces-after hash name c d named i found not_root);
          };
          unnamed = ground (arith, find-erase (hash name) (hash name) c.root.children);
          names = λ other ne. ground (arith, find-erase (hash other) (hash name) c.root.children);
          gone = ground (arith, at d.inum, find_after d.inum);
          others = λ k ne nr. ground (arith, at k, find_after k);
          returned = λ k sm e. (
            reclaim_block_infos i.block_info_list sm,
            ground (arith, e, find-reclaimed k i s.space_manager),
            gives_back hash name c d named i found not_root k sm (c.spaces.at k sm e),
          );
          counted = unfold write_inode in del.cur_size;
        },
      )

-- A name that the root directory does not have: nothing changes, and the answer is false.
pub remove_file_missing :
    (hash : String → ℕ) (name : String) {s : Service} (c : Consistent s)
    → get_dentry hash name c.root ≡ none
    → remove_file hash name s ≡ ok (success false, s)
unfolding remove_file
remove_file_missing hash name {s} c absent =
    rw (get_inode_found root_inum c.root s.inode_table c.table c.root_found)
      (rw (absent, ◌>>=◌) refl)
