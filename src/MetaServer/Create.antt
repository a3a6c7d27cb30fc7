-- ===== src/MetaServer/Create.antt =====
-- A new entry of the root directory: `CreateFile`, and `CreateFile_` of `WriteFile` and `OpenFile`.
use sponge_bob.Prelude.{
  ℕ, ◌+◌, ◌<◌, ◌≡◌, refl, ap, subst, sym, ◌∙◌, ◌≢◌, String, Bool, false, none, some, [], ◌∷◌, arith,
  ◌==◌, if◌then◌else◌, count, indicator, Bool-cases, inl, inr,
}
use sponge_bob.Result.{Result, ok, ◌>>=◌}
use sponge_bob.Containers.Table
use sponge_bob.Containers.Table.{
  Table, keys, find-assign, find-assign_self, find-assign_ne, find-none, count_of_find-none,
  keys-assign_new, keys-assign_old,
}
use sponge_bob.Inode.{
  Inode, Dentry, FileType, reg_file, dir, new_inode, new_dentry, add_dentry, get_dentry,
}
use sponge_bob.InodeTable.{InodeTable, allocate_free_inode, write_inode}
use sponge_bob.InodeTable.Partition.{
  Allocated, allocate_free_inode_room, write_inode-IsValid, get_inode_found,
}
use sponge_bob.SpaceManager.{SpaceManager}
use sponge_bob.MetaServer.Messages.{Response, success}
use sponge_bob.MetaServer.State.{Service, root_inum, create_file_}
use sponge_bob.MetaServer.Handlers.{with_root, create_file}
use sponge_bob.MetaServer.Consistent.{owned-assign_new, entry_inums, Spaces, Sound, Consistent}
use sponge_bob.MetaServer.Consistent.Frame.{Spaces-same, Spaces-self}

-- In a consistent service the root directory is found, and finding it changes nothing.
pub with_root_run :
    {A : Type 0} (body : Inode → Service → Result (Response A × Service)) {s : Service}
    (c : Consistent s)
    → with_root body s ≡ body c.root s
unfolding with_root
with_root_run body {s} c =
    rw (get_inode_found root_inum c.root s.inode_table c.table c.root_found) refl

pub entry_inums-assign_new :
    (k h : ℕ) (d : Dentry) (ds : Table Dentry)
    → Table.find h ds ≡ none
    → count k (entry_inums (Table.assign h d ds))
      ≡ indicator (d.inum == k) + count k (entry_inums ds)
unfolding Table.assign Table.find
entry_inums-assign_new k h d [] e = refl
entry_inums-assign_new k h d ((j, w) ∷ ds) e = ground (arith, entry_inums-assign_new k h d ds)

Spaces-new :
    (m : Table Inode) (k : ℕ) (type : FileType) (sms : Table SpaceManager)
    → Table.find k m ≡ none
    → Spaces m sms
    → Spaces (Table.assign k (new_inode type k) m) sms
unfolding new_inode
Spaces-new m k type sms e sp = record {
  at = λ j sm f.
      let g = sp.at j sm f in
      record {
        key = g.key;
        id = g.id;
        valid = g.valid;
        reach = g.reach;
        used =
            λ b. omega (arith, g.used b, owned-assign_new sm.server_id b k (new_inode type k) m e);
      };
}

pub new_inode-Sound : (type : FileType) (k : ℕ) → Sound (new_inode type k)
unfolding new_inode
new_inode-Sound type k = record {
  sized = omega arith;
  short = omega arith;
  addresses = record {
    at = λ j b e. absurd (ground arith);
    whole = λ j b e. absurd (ground arith);
  };
}

-- A new entry `name` for a new inode of number `i`: the service stays consistent; the number was in
-- no use and has an empty inode of the type asked for; the name leads to it, and names of another
-- hash lead where they led; the other inodes, the space managers and the descriptors are as before.
pub record Created (hash : String → ℕ) (name : String) (type : FileType) (s : Service)
    (root : Inode) (i : ℕ) (s' : Service) : Type 0 where
  pub consistent : Consistent s'
  pub not_root : i ≢ root_inum
  pub fresh : Table.find i s.inode_table.table ≡ none
  pub stored : Table.find i s'.inode_table.table ≡ some (new_inode type i)
  pub named : get_dentry hash name consistent.root ≡ some (new_dentry hash name i)
  pub names :
      (other : String)
      → hash other ≢ hash name
      → get_dentry hash other consistent.root ≡ get_dentry hash other root
  pub others :
      (k : ℕ)
      → k ≢ i
      → k ≢ root_inum
      → Table.find k s'.inode_table.table ≡ Table.find k s.inode_table.table
  pub shape : s' ≡ record s { inode_table = s'.inode_table }
  pub counted : s'.inode_table.cur_size ≡ s.inode_table.cur_size + 1

module _ (hash : String → ℕ) (name : String) (type : FileType) {s : Service} (c : Consistent s)
    (absent : get_dentry hash name c.root ≡ none) (i : ℕ) (t' : InodeTable)
    (a : Allocated type s.inode_table i t') where
  abbrev entry : Dentry
  entry = new_dentry hash name i

  abbrev root' : Inode
  root' = record c.root { children = Table.assign (hash name) entry c.root.children }

  root'_eq : (add_dentry hash name i c.root).1 ≡ root'
  unfolding add_dentry get_dentry
  root'_eq = ground (arith, absent)

  not_root : i ≢ root_inum
  not_root e = absurd (ground (arith, a.was_free, c.table.root, e))

  root_kept : Table.find root_inum t'.table ≡ some c.root
  root_kept = rw a.table (
      find-assign_ne root_inum i (new_inode type i) s.inode_table.table (λ e. not_root (sym e))
      ∙ c.root_found)

  keys_after :
      (k : ℕ)
      → count k (keys (Table.assign root_inum root' t'.table))
        ≡ indicator (i == k) + count k (keys s.inode_table.table)
  keys_after k =
      ap (count k) (keys-assign_old root_inum root' c.root t'.table root_kept)
      ∙ ap (λ m. count k (keys m)) a.table
      ∙ keys-assign_new k i (new_inode type i) s.inode_table.table a.was_free

  Spaces-after : Spaces (Table.assign root_inum root' t'.table) s.space_manager
  Spaces-after =
      let with_new : Spaces t'.table s.space_manager = rw a.table (
        Spaces-new s.inode_table.table i type s.space_manager
          (find-none i s.inode_table.table a.was_free) c.spaces) in
      Spaces-same t'.table root_inum c.root root' c.root s.space_manager root_kept (λ t. refl)
        (Spaces-self t'.table root_inum c.root s.space_manager root_kept with_new)

  Sound-after :
      (k : ℕ) (w : Inode) → Table.find k (Table.assign root_inum root' t'.table) ≡ some w → Sound w
  Sound-after k w f = elim (Bool-cases (root_inum == k)) [
    | inl same ↦
        let q : root' ≡ w = ground (arith, find-assign k root_inum root' t'.table, f, same) in
        let old = c.sound root_inum c.root c.root_found in
        subst Sound q (record { sized = old.sized; short = old.short; addresses = old.addresses })
    | inr other ↦
        let there : Table.find k t'.table ≡ some w =
          ground (arith, find-assign k root_inum root' t'.table, f, other) in
        let here : Table.find k (Table.assign i (new_inode type i) s.inode_table.table) ≡ some w =
          ap (Table.find k) (sym a.table) ∙ there in
        elim (Bool-cases (i == k)) [
          | inl new ↦
              let q : new_inode type i ≡ w =
                ground (arith, find-assign k i (new_inode type i) s.inode_table.table, here, new) in
              subst Sound q (new_inode-Sound type i)
          | inr old ↦
              c.sound k w
                (ground (arith, find-assign k i (new_inode type i) s.inode_table.table, here, old))
        ]
  ]

  -- The service with the new entry.
  abbrev created : Service
  created = record s { inode_table = write_inode root_inum root' t' }

  created-Consistent : Consistent created
  unfolding write_inode new_dentry get_dentry
  created-Consistent = record {
    table = write_inode-IsValid root_inum root' c.root t' a.valid root_kept;
    descriptors = c.descriptors;
    root = root';
    root_found = find-assign_self root_inum root' t'.table;
    named = λ k. omega (
      arith,
      keys_after k,
      c.named k,
      entry_inums-assign_new k (hash name) entry c.root.children absent,
    );
    hashes = λ h.
        let free = count_of_find-none (hash name) c.root.children absent in
        ground (arith, keys-assign_new h (hash name) entry c.root.children free, free, c.hashes h);
    sound = Sound-after;
    spaces = Spaces-after;
  }

  created-Created : Created hash name type s c.root i created
  unfolding write_inode new_dentry get_dentry created-Consistent
  created-Created = record {
    consistent = created-Consistent;
    not_root = not_root;
    fresh = find-none i s.inode_table.table a.was_free;
    stored =
        find-assign_ne i root_inum root' t'.table not_root
        ∙ ap (Table.find i) a.table
        ∙ find-assign_self i (new_inode type i) s.inode_table.table;
    named = find-assign_self (hash name) entry c.root.children;
    names = λ other ne. find-assign_ne (hash other) (hash name) entry c.root.children ne;
    others = λ k ne nr.
        find-assign_ne k root_inum root' t'.table nr
        ∙ ap (Table.find k) a.table
        ∙ find-assign_ne k i (new_inode type i) s.inode_table.table ne;
    shape = refl;
    counted = a.cur_size;
  }

  create_file_eq :
      (dir_wanted : Bool)
      → (if dir_wanted then dir else reg_file) ≡ type
      → allocate_free_inode type s.inode_table ≡ ok (i, t')
      → create_file hash name dir_wanted s ≡ ok (success i, created)
  unfolding create_file
  create_file_eq dir_wanted w run =
      rw (get_inode_found root_inum c.root s.inode_table c.table c.root_found)
        (rw (absent, ◌>>=◌) (rw w (rw run (rw root'_eq refl))))

  create_file__eq :
      type ≡ reg_file
      → allocate_free_inode type s.inode_table ≡ ok (i, t')
      → create_file_ hash name false s.inode_table ≡ ok (i, write_inode root_inum root' t')
  unfolding create_file_
  create_file__eq w run =
      rw (get_inode_found root_inum c.root s.inode_table c.table c.root_found)
        (rw (← w, ◌>>=◌) (rw run (rw root'_eq refl)))

module _ (hash : String → ℕ) (name : String) {s : Service} (c : Consistent s)
    (absent : get_dentry hash name c.root ≡ none)
    (room : s.inode_table.cur_size < s.inode_table.total_size) where
  -- In a consistent service with a free inode, `CreateFile` of a name that the root directory does not
  -- have answers a number that was in no use. An empty inode of the type asked for is stored under it,
  -- and the name leads to it; names of another hash, the other inodes, the space managers and the
  -- descriptors are as before; the service stays consistent.
  pub create_file_new :
      (dir_wanted : Bool)
      → (i : ℕ) × (s' : Service) × (create_file hash name dir_wanted s ≡ ok (success i, s'))
        × Created hash name (if dir_wanted then dir else reg_file) s c.root i s'
  create_file_new dir_wanted =
      let type = if dir_wanted then dir else reg_file in
      let (i, t', run, a) = allocate_free_inode_room type s.inode_table c.table room in
      (
        i,
        created hash name type c absent i t' a,
        create_file_eq hash name type c absent i t' a dir_wanted refl run,
        created-Created hash name type c absent i t' a,
      )

  pub create_file__new :
      (i : ℕ) × (s' : Service) × (create_file_ hash name false s.inode_table
        ≡ ok (i, s'.inode_table))
      × Created hash name reg_file s c.root i s'
  create_file__new =
      let (i, t', run, a) = allocate_free_inode_room reg_file s.inode_table c.table room in
      (
        i,
        created hash name reg_file c absent i t' a,
        create_file__eq hash name reg_file c absent i t' a refl run,
        created-Created hash name reg_file c absent i t' a,
      )
