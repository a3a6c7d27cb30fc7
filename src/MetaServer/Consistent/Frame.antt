-- ===== src/MetaServer/Consistent/Frame.antt =====
-- What a handler has to show of the inode that it stores for the service to stay consistent.
use sponge_bob.Prelude.{
  ℕ, suc, ◌/◌, ◌<◌, ◌≡◌, refl, ap, subst, sym, ◌∙◌, ◌≢◌, some, List, [], ◌∷◌, arith, ◌==◌, length,
  count, get_elem?, Bool-cases, Option-cases, inl, inr,
}
use sponge_bob.Containers.Table
use sponge_bob.Containers.Table.{
  Table, keys, find-assign, keys-assign_old, count_of_find-none, find_total,
}
use sponge_bob.Inode.{Inode, Dentry, BlockInfo, file_block_size}
use sponge_bob.InodeTable.{write_inode}
use sponge_bob.InodeTable.Partition.{write_inode-IsValid}
use sponge_bob.SpaceManager.{SpaceManager}
use sponge_bob.SpaceManager.Partition.{blocks_on}
use sponge_bob.MetaServer.Transfer.Total.{Addressable}
use sponge_bob.MetaServer.Transfer.Located.{locate}
use sponge_bob.MetaServer.Transfer.Rewritten.{strip_all, get_elem?-strip_all}
use sponge_bob.MetaServer.State.{Service, root_inum}
use sponge_bob.MetaServer.Consistent.{owned-assign, entry_inums, Spaces, Sound, Consistent}

-- An entry of a directory is among the numbers that it names.
entry-count :
    (h : ℕ) (d : Dentry) (ds : Table Dentry)
    → Table.find h ds ≡ some d
    → 0 < count d.inum (entry_inums ds)
unfolding Table.find
entry-count h d [] e = ground (arith, e)
entry-count h d ((j, w) ∷ ds) e = ground (arith, entry-count h d ds)

-- The number of an entry of the root directory is that of an inode, and not the root's.
pub entry_live :
    {s : Service} (c : Consistent s) (h : ℕ) (d : Dentry)
    → Table.find h c.root.children ≡ some d
    → (d.inum ≢ root_inum) × ((i : Inode) × (Table.find d.inum s.inode_table.table ≡ some i))
entry_live {s} c h d e =
    let n = entry-count h d c.root.children e in
    let not_root : d.inum ≢ root_inum =
      λ q. absurd (ground (arith, n, q, c.named d.inum, c.named 0, c.table.root)) in
    (
      not_root,
      find_total d.inum 0 s.inode_table.table
          (ground (arith, n, not_root, c.named d.inum, c.table.partition d.inum)),
    )

length-strip_all : (bs : List BlockInfo) → length (strip_all bs) ≡ length bs
length-strip_all [] = refl
length-strip_all (b ∷ bs) = ap suc (length-strip_all bs)

blocks_on-strip_all : (s : ℕ) (bs : List BlockInfo) → blocks_on s (strip_all bs) ≡ blocks_on s bs
blocks_on-strip_all s [] = refl
blocks_on-strip_all s (b ∷ bs) = ground (arith, blocks_on-strip_all s bs)

-- Lists of blocks that differ in lengths alone agree in all that the service uses.
module _ (xs bs : List BlockInfo) (e : strip_all bs ≡ strip_all xs) where
  pub same_length : length bs ≡ length xs
  same_length = sym (length-strip_all bs) ∙ ap length e ∙ length-strip_all xs

  pub same_blocks_on : (s : ℕ) → blocks_on s bs ≡ blocks_on s xs
  same_blocks_on s = sym (blocks_on-strip_all s bs) ∙ ap (blocks_on s) e ∙ blocks_on-strip_all s xs

  -- The block at a place before, which stands where it stands after.
  block_before :
      (k : ℕ) (b : BlockInfo)
      → get_elem? bs k ≡ some b
      → (b' : BlockInfo) × (get_elem? xs k ≡ some b')
        × (b'.start_addr ≡ b.start_addr)
        × (b'.block_nr ≡ b.block_nr)
  block_before k b h =
      let stripped = ap (λ l. get_elem? l k) e in
      let old = get_elem?-strip_all xs k in
      let new = get_elem?-strip_all bs k in
      elim (Option-cases (get_elem? xs k)) [
        | inl n ↦ absurd (ground (arith, h, n, old, new, stripped))
        | inr (b', n) ↦ (
          b',
          n,
          ground (arith, h, n, old, new, stripped),
          ground (arith, h, n, old, new, stripped),
        )
      ]

  pub same_addresses : Addressable xs → Addressable bs
  same_addresses a = record {
    at = λ k b h. let (b', n, same, nr) = block_before k b h in omega (arith, same, a.at k b' n);
    whole = λ k b h.
        let (b', n, same, nr) = block_before k b h in omega (arith, same, nr, a.whole k b' n);
  }

  pub same_locate : (p : ℕ) → locate bs p ≡ locate xs p
  same_locate p =
      let k = p / file_block_size in
      ground (arith, get_elem?-strip_all xs k, get_elem?-strip_all bs k, ap (λ l. get_elem? l k) e)

-- Space managers agree with a table in which one inode has another with the same blocks.
pub Spaces-same :
    (m : Table Inode) (k : ℕ) (i i' old : Inode) (sms : Table SpaceManager)
    → Table.find k m ≡ some old
    → ((t : ℕ) → blocks_on t i'.block_info_list ≡ blocks_on t i.block_info_list)
    → Spaces (Table.assign k i m) sms
    → Spaces (Table.assign k i' m) sms
Spaces-same m k i i' old sms found same sp = record {
  at = λ j sm f.
      let g = sp.at j sm f in
      record {
        key = g.key;
        id = g.id;
        valid = g.valid;
        reach = g.reach;
        used = λ b. omega (
          arith,
          g.used b,
          owned-assign sm.server_id b k i old m found,
          owned-assign sm.server_id b k i' old m found,
          ap (count b) (same sm.server_id),
        );
      };
}

-- A table in which an inode is stored anew over itself agrees too.
pub Spaces-self :
    (m : Table Inode) (k : ℕ) (i : Inode) (sms : Table SpaceManager)
    → Table.find k m ≡ some i
    → Spaces m sms
    → Spaces (Table.assign k i m) sms
Spaces-self m k i sms found sp = record {
  at = λ j sm f.
      let g = sp.at j sm f in
      record {
        key = g.key;
        id = g.id;
        valid = g.valid;
        reach = g.reach;
        used = λ b. omega (arith, g.used b, owned-assign sm.server_id b k i i m found);
      };
}

-- Storing a file: a sound inode, in place of another, with space managers that agree.
pub store_file-Consistent :
    {s : Service} (c : Consistent s) (k : ℕ) (i old : Inode) (sms : Table SpaceManager) (calls : ℕ)
    → k ≢ root_inum
    → Table.find k s.inode_table.table ≡ some old
    → Sound i
    → Spaces (Table.assign k i s.inode_table.table) sms
    → Consistent (record s {
      inode_table = write_inode k i s.inode_table;
      space_manager = sms;
      rand_calls = calls;
    })
unfolding write_inode
store_file-Consistent {s} c k i old sms calls ne found so sp = record {
  table = write_inode-IsValid k i old s.inode_table c.table found;
  descriptors = c.descriptors;
  root = c.root;
  root_found = ground (arith, find-assign root_inum k i s.inode_table.table, c.root_found, ne);
  named = λ j. rw (keys-assign_old k i old s.inode_table.table found) (c.named j);
  hashes = c.hashes;
  sound = λ j w f. elim (Bool-cases (k == j)) [
    | inl same ↦
        let q : i ≡ w = ground (arith, find-assign j k i s.inode_table.table, f, same) in
        subst Sound q so
    | inr other ↦ c.sound j w (ground (arith, find-assign j k i s.inode_table.table, f, other))
  ];
  spaces = sp;
}
