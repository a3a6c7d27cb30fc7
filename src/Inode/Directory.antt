-- ===== src/Inode/Directory.antt =====
-- A directory's entries: `Inode::AddDentry`, `DeleteDentry` and `GetDentry` against each other.
use sponge_bob.Prelude.{ℕ, ◌≡◌, ◌≢◌, String, true, false, none, some, arith}
use sponge_bob.Containers.Table.{find-assign, find-erase}
use sponge_bob.Inode.{Inode, new_dentry, add_dentry, delete_dentry, get_dentry}

module _ (hash : String → ℕ) where
  -- Adding an entry succeeds exactly when no entry has the hash of the name. On success the name
  -- leads to the new entry, on failure to the one it led to, and a name of another hash to the
  -- entry that it led to before, in both cases.
  pub get_dentry-add_dentry :
      (name other : String) (inum : ℕ) (i : Inode)
      → let (added, i') = add_dentry hash name inum i in
        (added ≡ elim (get_dentry hash name i) [ none ↦ true | some _ ↦ false ])
        × (get_dentry hash name i' ≡ elim (get_dentry hash name i) [
          | none ↦ some (new_dentry hash name inum)
          | some d ↦ some d
        ])
        × (hash other ≢ hash name → get_dentry hash other i' ≡ get_dentry hash other i)
  unfolding add_dentry get_dentry
  get_dentry-add_dentry name other inum i = ground (
    arith,
    find-assign (hash name) (hash name) (new_dentry hash name inum) i.children,
    find-assign (hash other) (hash name) (new_dentry hash name inum) i.children,
  )

  -- Deleting a name makes it lead nowhere, leaves names of another hash alone, and answers whether
  -- there was an entry.
  pub get_dentry-delete_dentry :
      (name other : String) (i : Inode)
      → let (deleted, i') = delete_dentry hash name i in
        (deleted ≡ elim (get_dentry hash name i) [ none ↦ false | some _ ↦ true ])
        × (get_dentry hash name i' ≡ none)
        × (hash other ≢ hash name → get_dentry hash other i' ≡ get_dentry hash other i)
  unfolding delete_dentry get_dentry
  get_dentry-delete_dentry name other i = ground (
    arith,
    find-erase (hash name) (hash name) i.children,
    find-erase (hash other) (hash name) i.children,
  )
