-- ===== src/MetaServer/Enlarge/Rounds.antt =====
-- Enlarging a file: the rounds of the loop, and `int new_blocks_num`.
use Prim.Native.Nat.{◌%◌}
use sponge_bob.Prelude.{
  ℕ, ◌*◌, zero, suc, ◌+◌, ◌-◌, ◌^◌, ◌≤◌, ◌<◌, ◌≡◌, refl, ap, subst, ◌∙◌, ◌⊎◌, false, some, List, [],
  ◌∷◌, ◌++◌, arith, ltb, ◌==◌, length, get_elem?, u64_mod, u64_of_int, sub64, mul64, ltb→lt,
  Bool-cases, inl, inr, length-append,
}
use sponge_bob.Result.{ok, or_fault}
use sponge_bob.Containers.Table
use sponge_bob.Containers.Table.{Table, keys, find-assign_in_order}
use sponge_bob.Inode.{Inode, BlockInfo, file_block_size, append_file_block_info}
use sponge_bob.SpaceManager
use sponge_bob.SpaceManager.{SpaceManager}
use sponge_bob.SpaceManager.Partition.{allocate_one_block_room}
use sponge_bob.MetaServer.Transfer.Total.{Addressable}
use sponge_bob.MetaServer.State.{
  Service, nth_key, int_rounds, choose_server, append_block, append_blocks, enlarge,
}
use sponge_bob.MetaServer.Consistent.{Spaces}
use sponge_bob.MetaServer.Enlarge.{Room, find-nth_key, append-Spaces, append-Room}

get_elem?-append_one :
    {A : Type 0} (xs : List A) (y z : A) (k : ℕ)
    → get_elem? (xs ++ y ∷ []) k ≡ some z
    → (get_elem? xs k ≡ some z) ⊎ (y ≡ z)
get_elem?-append_one [] y z zero e = inr (ground arith)
get_elem?-append_one [] y z (suc k) e = absurd (ground arith)
get_elem?-append_one (x ∷ xs) y z zero e = inl e
get_elem?-append_one (x ∷ xs) y z (suc k) e = get_elem?-append_one xs y z k e

get_elem?-append_keeps :
    {A : Type 0} (xs : List A) (y z : A) (k : ℕ)
    → get_elem? xs k ≡ some z
    → get_elem? (xs ++ y ∷ []) k ≡ some z
get_elem?-append_keeps [] y z k e = absurd (ground arith)
get_elem?-append_keeps (x ∷ xs) y z zero e = e
get_elem?-append_keeps (x ∷ xs) y z (suc k) e = get_elem?-append_keeps xs y z k e

-- A file that grew: every block is where it was.
pub record Keeps (i i' : Inode) : Type 0 where
  pub size : i'.size ≡ i.size
  pub children : i'.children ≡ i.children
  pub type : i'.type ≡ i.type
  pub at :
      (k : ℕ) (b : BlockInfo)
      → get_elem? i.block_info_list k ≡ some b
      → get_elem? i'.block_info_list k ≡ some b

Keeps-refl : (i : Inode) → Keeps i i
Keeps-refl i = record { size = refl; children = refl; type = refl; at = λ k b e. e }

Keeps-trans : {a b c : Inode} → Keeps a b → Keeps b c → Keeps a c
Keeps-trans p q = record {
  size = q.size ∙ p.size;
  children = q.children ∙ p.children;
  type = q.type ∙ p.type;
  at = λ k b e. q.at k b (p.at k b e);
}

Addressable-append :
    (bs : List BlockInfo) (info : BlockInfo)
    → Addressable bs
    → info.start_addr + file_block_size ≤ u64_mod
    → info.start_addr ≡ info.block_nr * file_block_size
    → Addressable (bs ++ info ∷ [])
Addressable-append bs info a h w = record {
  at = λ k b e. elim (get_elem?-append_one bs info b k e) [
    | inl old ↦ a.at k b old
    | inr new ↦ subst (λ (x : BlockInfo). x.start_addr + file_block_size ≤ u64_mod) new h
  ];
  whole = λ k b e. elim (get_elem?-append_one bs info b k e) [
    | inl old ↦ a.whole k b old
    | inr new ↦ subst (λ (x : BlockInfo). x.start_addr ≡ x.block_nr * file_block_size) new w
  ];
}

rounds_exact :
    (total have : ℕ) → total < 2 ^ 31 → have < total → int_rounds (sub64 total have) ≡ total - have
unfolding int_rounds
rounds_exact total have small more = ground arith

module _ (rand : ℕ → ℕ) where
  -- One block more for the inode `i`, that is to be stored under `inum` in the table `m`, on a server
  -- that `rand` chooses: `i'` and `s'` are what the round leaves.
  pub record Appended (m : Table Inode) (inum : ℕ) (i : Inode) (s : Service) (n : ℕ) (i' : Inode)
      (s' : Service) : Type 0 where
    pub spaces : Spaces (Table.assign inum i' m) s'.space_manager
    pub room : Room n s'.space_manager
    pub inode_table : s'.inode_table ≡ s.inode_table
    pub file_map : s'.file_map ≡ s.file_map
    pub server_count : s'.server_count ≡ s.server_count
    pub longer : length i'.block_info_list ≡ length i.block_info_list + 1
    pub keeps : Keeps i i'
    pub addresses : Addressable i.block_info_list → Addressable i'.block_info_list

  abbrev drawn : Service → ℕ
  drawn s = nth_key (rand s.rand_calls % length s.space_manager) s.space_manager

  append_block_eq :
      (i : Inode) (s : Service) (sm sm' : SpaceManager) (b : ℕ)
      → 0 < length s.space_manager
      → Table.find (drawn s) s.space_manager ≡ some sm
      → SpaceManager.allocate_one_block sm ≡ ok (b, sm')
      → append_block rand i s
        ≡ ok (
          append_file_block_info i (u64_of_int (drawn s)) (mul64 b file_block_size) 0 b,
          record s {
            rand_calls = s.rand_calls + 1;
            space_manager = Table.assign_in_order (drawn s) sm' s.space_manager;
          },
        )
  unfolding append_block choose_server
  append_block_eq i s sm sm' b pos f a =
      let z : (length s.space_manager == 0) ≡ false = ground arith in
      rw z (rw (f, or_fault) (rw a refl))

  append_block_run :
      (m : Table Inode) (inum n : ℕ) (i old : Inode) (s : Service)
      → Table.find inum m ≡ some old
      → Spaces (Table.assign inum i m) s.space_manager
      → Room (suc n) s.space_manager
      → (i' : Inode) × (s' : Service) × (append_block rand i s ≡ ok (i', s'))
        × Appended m inum i s n i' s'
  unfolding append_file_block_info
  append_block_run m inum n i old s found sp rm =
      let place = rand s.rand_calls % length s.space_manager in
      let (sm, here) = find-nth_key place s.space_manager (grind (arith, rm.some_server)) in
      let g = sp.at (drawn s) sm here in
      let (b, sm', run, t) =
        allocate_one_block_room sm g.valid (omega (arith, rm.at (drawn s) sm here)) in
      let i' = append_file_block_info i (u64_of_int (drawn s)) (mul64 b file_block_size) 0 b in
      (
        i',
        _,
        append_block_eq i s sm sm' b rm.some_server here run,
        record {
          spaces =
              append-Spaces m inum i i' old found (drawn s) b sm sm' s.space_manager t here sp _
                refl refl refl;
          room =
              append-Room m inum i i' old found (drawn s) b sm sm' s.space_manager t here sp _ refl
                refl refl n rm;
          inode_table = refl;
          file_map = refl;
          server_count = refl;
          keeps = record {
            size = refl;
            children = refl;
            type = refl;
            at = λ k c e. get_elem?-append_keeps i.block_info_list _ c k e;
          };
          longer = omega (arith, length-append i.block_info_list (_ ∷ []));
          addresses = λ a.
              Addressable-append i.block_info_list _ a (omega (arith, t.in_range, g.reach))
                (omega (arith, t.in_range, g.reach));
        },
      )

  -- `k` blocks more.
  pub record Grown (m : Table Inode) (inum k : ℕ) (i : Inode) (s : Service) (i' : Inode)
      (s' : Service) : Type 0 where
    pub spaces : Spaces (Table.assign inum i' m) s'.space_manager
    pub inode_table : s'.inode_table ≡ s.inode_table
    pub file_map : s'.file_map ≡ s.file_map
    pub server_count : s'.server_count ≡ s.server_count
    pub longer : length i'.block_info_list ≡ length i.block_info_list + k
    pub keeps : Keeps i i'
    pub addresses : Addressable i.block_info_list → Addressable i'.block_info_list

  append_blocks_run :
      (n : ℕ) (m : Table Inode) (inum : ℕ) (i old : Inode) (s : Service)
      → Table.find inum m ≡ some old
      → Spaces (Table.assign inum i m) s.space_manager
      → Room n s.space_manager
      → (i' : Inode) × (s' : Service) × (append_blocks rand n i s ≡ ok (i', s'))
        × Grown m inum n i s i' s'
  unfolding append_blocks
  append_blocks_run zero m inum i old s found sp rm = (
    i,
    s,
    refl,
    record {
      spaces = sp;
      inode_table = refl;
      file_map = refl;
      server_count = refl;
      longer = omega arith;
      keeps = Keeps-refl i;
      addresses = λ a. a;
    },
  )
  append_blocks_run (suc n) m inum i old s found sp rm =
      let (i1, s1, run1, a) = append_block_run m inum n i old s found sp rm in
      let (i2, s2, run2, g) = append_blocks_run n m inum i1 old s1 found a.spaces a.room in
      (
        i2,
        s2,
        rw run1 run2,
        record {
          spaces = g.spaces;
          inode_table = g.inode_table ∙ a.inode_table;
          file_map = g.file_map ∙ a.file_map;
          server_count = g.server_count ∙ a.server_count;
          longer = omega (arith, g.longer, a.longer);
          keeps = Keeps-trans a.keeps g.keeps;
          addresses = λ h. g.addresses (a.addresses h);
        },
      )

  -- The loop runs once for each block that is missing.
  enlarge_eq :
      (total : ℕ) (i : Inode) (s : Service)
      → total < 2 ^ 31
      → enlarge rand total i s ≡ append_blocks rand (total - length i.block_info_list) i s
  unfolding enlarge append_blocks
  enlarge_eq total i s small = elim (Bool-cases (ltb (length i.block_info_list) total)) [
    | inl more ↦
        let rounds : int_rounds (sub64 total (length i.block_info_list))
            ≡ total - length i.block_info_list =
          rounds_exact total (length i.block_info_list) small (ltb→lt _ _ more) in
        rw more (ap (λ n. append_blocks rand n i s) rounds)
    | inr enough ↦
        let nothing : total - length i.block_info_list ≡ 0 = ground (arith, enough) in
        rw (enough, nothing) refl
  ]

  -- With fewer than 2 ^ 31 blocks in all, and enough of them left on every server, a file is enlarged
  -- to the number of blocks asked for, if it has fewer; the blocks that it has stay.
  pub enlarge_run :
      (total : ℕ) (m : Table Inode) (inum : ℕ) (i old : Inode) (s : Service)
      → total < 2 ^ 31
      → Table.find inum m ≡ some old
      → Spaces (Table.assign inum i m) s.space_manager
      → Room (total - length i.block_info_list) s.space_manager
      → (i' : Inode) × (s' : Service) × (enlarge rand total i s ≡ ok (i', s'))
        × Grown m inum (total - length i.block_info_list) i s i' s'
  enlarge_run total m inum i old s small found sp rm =
      let (i', s', run, g) =
        append_blocks_run (total - length i.block_info_list) m inum i old s found sp rm in
      (i', s', enlarge_eq total i s small ∙ run, g)
