-- ===== src/MetaServer/Disjoint.antt =====
-- Where the bytes of files lie: no two at one place, and all within the registered memory.
use sponge_bob.Prelude.{
  ℕ, zero, suc, ◌+◌, ◌*◌, ◌/◌, ◌%◌, ◌≤◌, ◌<◌, ◌≡◌, ◌≢◌, refl, ap, subst, ◌∙◌, String, some, List,
  [], ◌∷◌, arith, inl, inr, Option-cases, Bool-cases, get_elem?, count, ◌==◌,
}
use sponge_bob.Containers.Table
use sponge_bob.Containers.Table.{Table}
use sponge_bob.Inode.{Inode, Dentry, BlockInfo, file_block_size, get_dentry}
use sponge_bob.SpaceManager.{SpaceManager}
use sponge_bob.SpaceManager.Partition.{blocks_on}
use sponge_bob.MetaServer.Transfer.Located.{locate}
use sponge_bob.MetaServer.State.{Service}
use sponge_bob.MetaServer.Consistent.{owned, Consistent}
use sponge_bob.MetaServer.Consistent.Frame.{entry_live}
use sponge_bob.MetaServer.Abstract.{File, file_of, view, entries_differ}
use sponge_bob.MetaServer.Steps.Effects.{view_found, view_missing}

count_block :
    (server : ℕ) (bs : List BlockInfo) (k : ℕ) (b : BlockInfo)
    → get_elem? bs k ≡ some b
    → b.server_id ≡ server
    → 1 ≤ count b.block_nr (blocks_on server bs)
count_block server [] k b e h = absurd (ground arith)
count_block server (x ∷ bs) zero b e h = ground arith
count_block server (x ∷ bs) (suc k) b e h = ground (arith, count_block server bs k b e h)

count_two_blocks :
    (server : ℕ) (bs : List BlockInfo) (j k : ℕ) (a b : BlockInfo)
    → get_elem? bs j ≡ some a
    → get_elem? bs k ≡ some b
    → j ≢ k
    → a.server_id ≡ server
    → b.server_id ≡ server
    → a.block_nr ≡ b.block_nr
    → 2 ≤ count b.block_nr (blocks_on server bs)
count_two_blocks server [] j k a b e f ne h h' n = absurd (ground arith)
count_two_blocks server (x ∷ bs) zero zero a b e f ne h h' n = absurd (ne refl)
count_two_blocks server (x ∷ bs) zero (suc k) a b e f ne h h' n =
    ground (arith, count_block server bs k b f h')
count_two_blocks server (x ∷ bs) (suc j) zero a b e f ne h h' n =
    ground (arith, count_block server bs j a e h)
count_two_blocks server (x ∷ bs) (suc j) (suc k) a b e f ne h h' n =
    ground (arith, count_two_blocks server bs j k a b e f (λ q. ne (ap suc q)) h h' n)

owned_one :
    (server n x : ℕ) (i : Inode) (m : Table Inode)
    → Table.find x m ≡ some i
    → count n (blocks_on server i.block_info_list) ≤ owned server n m
unfolding Table.find
owned_one server n x i [] e = absurd (ground (arith, e))
owned_one server n x i ((y, w) ∷ m) e = ground (arith, owned_one server n x i m)

owned_two :
    (server n x y : ℕ) (i j : Inode) (m : Table Inode)
    → Table.find x m ≡ some i
    → Table.find y m ≡ some j
    → x ≢ y
    → count n (blocks_on server i.block_info_list) + count n (blocks_on server j.block_info_list)
      ≤ owned server n m
unfolding Table.find
owned_two server n x y i j [] e f ne = absurd (ground (arith, e))
owned_two server n x y i j ((z, w) ∷ m) e f ne =
    ground (arith, owned_two server n x y i j m, owned_one server n x i m, owned_one server n y j m)

located_block :
    (bs : List BlockInfo) (p server a : ℕ)
    → locate bs p ≡ some (server, a)
    → (b : BlockInfo) × (get_elem? bs (p / file_block_size) ≡ some b)
      × (b.server_id ≡ server)
      × (b.start_addr + p % file_block_size ≡ a)
located_block bs p server a e = elim (Option-cases (get_elem? bs (p / file_block_size))) [
  | inl n ↦ absurd (ground (arith, e, n))
  | inr (b, n) ↦ (b, n, ground (arith, e, n), ground (arith, e, n))
]

-- A name with a file has an entry, and the entry an inode.
view-some :
    {s : Service} (c : Consistent s) (hash : String → ℕ) (name : String) (e : File)
    → view hash s name ≡ some e
    → (d : Dentry) × (i : Inode) × (get_dentry hash name c.root ≡ some d)
      × (Table.find d.inum s.inode_table.table ≡ some i)
      × (file_of i ≡ e)
view-some c hash name e v = elim (Option-cases (get_dentry hash name c.root)) [
  | inl n ↦ absurd (ground (arith, v, view_missing hash c name n))
  | inr (d, n) ↦
      let (_, (i, f)) = entry_live c (hash name) d (unfold get_dentry in n) in
      (d, i, n, f, ground (arith, v, view_found hash c name d i n f))
]

module _ {s : Service} (c : Consistent s) (k server : ℕ) (sm : SpaceManager)
    (registered : Table.find k s.space_manager ≡ some sm) (id : sm.server_id ≡ server) where
  -- A block of a registered server is held once.
  owned_once : (n : ℕ) → owned server n s.inode_table.table ≤ 1
  owned_once n =
      let g = c.spaces.at k sm registered in
      let used : count n sm.inused_blocks ≡ owned server n s.inode_table.table =
        g.used n ∙ ap (λ t. owned t n s.inode_table.table) id in
      ground (arith, used, g.valid.partition n)

  -- Two bytes of stored inodes at one place are one byte.
  same_byte :
      (x y : ℕ) (i j : Inode) (p q a : ℕ)
      → Table.find x s.inode_table.table ≡ some i
      → Table.find y s.inode_table.table ≡ some j
      → locate i.block_info_list p ≡ some (server, a)
      → locate j.block_info_list q ≡ some (server, a)
      → (x ≡ y) × (p ≡ q)
  same_byte x y i j p q a found found' at at' =
      let (b, e, h, w) = located_block i.block_info_list p server a at in
      let (b', e', h', w') = located_block j.block_info_list q server a at' in
      let whole = (c.sound x i found).addresses.whole (p / file_block_size) b e in
      let whole' = (c.sound y j found').addresses.whole (q / file_block_size) b' e' in
      let number : b.block_nr ≡ b'.block_nr = omega (arith, whole, whole', w, w') in
      let inner : p % file_block_size ≡ q % file_block_size = omega (arith, whole, whole', w, w') in
      elim (Bool-cases (x == y)) [
        | inl same ↦
            let q' : x ≡ y = ground (arith, same) in
            let one : i ≡ j = ground (arith, found, found', q') in
            elim (Bool-cases (p / file_block_size == q / file_block_size)) [
              | inl block ↦
                  let z : p / file_block_size ≡ q / file_block_size = ground (arith, block) in
                  (q', omega (arith, z, inner))
              | inr block ↦
                  let e'' =
                    subst
                      (λ (u : Inode). get_elem? u.block_info_list (p / file_block_size) ≡ some b)
                      one e in
                  absurd (
                    omega (
                      arith,
                      count_two_blocks server j.block_info_list (p / file_block_size)
                          (q / file_block_size) b b' e'' e' (λ z. absurd (ground (arith, z, block)))
                          h h' number,
                      owned_one server b'.block_nr y j s.inode_table.table found',
                      owned_once b'.block_nr,
                    ))
            ]
        | inr other ↦ absurd (
            omega (
              arith,
              owned_two server b'.block_nr x y i j s.inode_table.table found found'
                  (λ z. absurd (ground (arith, z, other))),
              subst (λ n. 1 ≤ count n (blocks_on server i.block_info_list)) number
                  (count_block server i.block_info_list (p / file_block_size) b e h),
              count_block server j.block_info_list (q / file_block_size) b' e' h',
              owned_once b'.block_nr,
            ))
      ]

  -- In a consistent service, when byte `p` of the file of one name and byte `q` of the file of another
  -- lie at the same address of a registered server, the names have one hash and `p` is `q`.
  pub places_differ :
      (hash : String → ℕ) (name other : String) (e e' : File) (p q a : ℕ)
      → view hash s name ≡ some e
      → view hash s other ≡ some e'
      → e.places p ≡ some (server, a)
      → e'.places q ≡ some (server, a)
      → (hash name ≡ hash other) × (p ≡ q)
  places_differ hash name other e e' p q a v v' at at' =
      let (d, i, n, f, z) = view-some c hash name e v in
      let (d', i', n', f', z') = view-some c hash other e' v' in
      let (same, place) =
        same_byte d.inum d'.inum i i' p q a f f' (ap (λ (u : File). u.places p) z ∙ at)
          (ap (λ (u : File). u.places q) z' ∙ at') in
      elim (Bool-cases (hash name == hash other)) [
        | inl one ↦ (ground (arith, one), place)
        | inr two ↦ absurd (
            entries_differ c (hash name) (hash other) d d' (unfold get_dentry in n)
              (unfold get_dentry in n') (λ w. absurd (ground (arith, w, two))) same)
      ]

  -- In a consistent service, every byte of a file that lies on a registered server lies within the
  -- blocks of the region that the server registered: at an address, relative to the start of the
  -- region, below the number of its blocks times the size of a block.
  pub places_within :
      (hash : String → ℕ) (name : String) (e : File) (p a : ℕ)
      → view hash s name ≡ some e
      → e.places p ≡ some (server, a)
      → a < sm.total_blocks * file_block_size
  places_within hash name e p a v at =
      let (d, i, n, f, z) = view-some c hash name e v in
      let (b, e', h, w) =
        located_block i.block_info_list p server a (ap (λ (u : File). u.places p) z ∙ at) in
      let whole = (c.sound d.inum i f).addresses.whole (p / file_block_size) b e' in
      let g = c.spaces.at k sm registered in
      let used : count b.block_nr sm.inused_blocks ≡ owned server b.block_nr s.inode_table.table =
        g.used b.block_nr ∙ ap (λ t. owned t b.block_nr s.inode_table.table) id in
      let held : 1 ≤ owned server b.block_nr s.inode_table.table = omega (
        arith,
        count_block server i.block_info_list (p / file_block_size) b e' h,
        owned_one server b.block_nr d.inum i s.inode_table.table f,
      ) in
      let below_total : b.block_nr < sm.total_blocks =
        ground (arith, used, held, g.valid.partition b.block_nr) in
      omega (arith, whole, w, below_total)
