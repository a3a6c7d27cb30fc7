-- ===== src/SpaceManager/Allocation.antt =====
-- `AllocateSpace` against `ReclaimSpace`, and where the blocks of a server lie.
use Prim.Native.Nat.{bit_and}
use sponge_bob.Prelude.{
  ℕ, zero, suc, ◌+◌, ◌-◌, ◌*◌, ◌/◌, ◌≤◌, ◌<◌, ◌≡◌, refl, ap, false, List, [], ◌∷◌, arith, ltb, ◌==◌,
  length, count, indicator, u64_mod, add64, sub64, lt→ltb, le→ltb,
}
use sponge_bob.Result.{ok}
use sponge_bob.SpaceManager.{
  SpaceManager, new_space_manager, align_start, allocate_blocks, allocate_space, reclaim_space,
}
use sponge_bob.SpaceManager.Partition.{
  IsValid, SameSpace, SameSpace-refl, SameSpace-trans, allocate_one_block_room,
  reclaim_space-GivesBack,
}

-- The blocks `bs` are taken from `sm`, which becomes `sm'`: they were free, and no two are the same.
pub record TakesAll (sm : SpaceManager) (bs : List ℕ) (sm' : SpaceManager) : Type 0 where
  pub valid : IsValid sm'
  pub same : SameSpace sm sm'
  pub inused_blocks : (c : ℕ) → count c sm'.inused_blocks ≡ count c bs + count c sm.inused_blocks
  pub cur_blocks : sm'.cur_blocks ≡ sm.cur_blocks + length bs

allocate_blocks_room :
    (n : ℕ) (sm : SpaceManager)
    → IsValid sm
    → sm.cur_blocks + n ≤ sm.total_blocks
    → (bs : List ℕ) × (sm' : SpaceManager) × (allocate_blocks n sm ≡ ok (bs, sm'))
      × (length bs ≡ n)
      × TakesAll sm bs sm'
unfolding allocate_blocks
allocate_blocks_room zero sm v room = (
  [],
  sm,
  refl,
  refl,
  record {
    valid = v;
    same = SameSpace-refl sm;
    inused_blocks = λ c. omega arith;
    cur_blocks = omega arith;
  },
)
allocate_blocks_room (suc n) sm v room =
    let (b, sm', r, t) = allocate_one_block_room sm v (omega arith) in
    let (bs, sm'', r', l, ts) =
      allocate_blocks_room n sm' t.valid (omega (arith, t.cur_blocks, t.same.total_blocks)) in
    (
      b ∷ bs,
      sm'',
      rw (r, r') refl,
      ap suc l,
      record {
        valid = ts.valid;
        same = SameSpace-trans t.same ts.same;
        inused_blocks = λ c. omega (arith, ts.inused_blocks c, ap (count c) t.inused_blocks);
        cur_blocks = omega (arith, ts.cur_blocks, t.cur_blocks);
      },
    )

-- The number of blocks for `len` bytes.
abbrev pub blocks_for : ℕ → ℕ → ℕ
blocks_for len block_size = (len + block_size - 1) / block_size

-- In a valid space manager whose block size is not 0, for a length whose sum with the block size is
-- below 2 ^ 64: if the blocks that are left suffice, `AllocateSpace` takes as many as the length
-- needs, all of them free before and no two the same; otherwise it answers the empty list and changes
-- nothing.
pub allocate_space_cases :
    (len : ℕ) (sm : SpaceManager)
    → IsValid sm
    → 0 < sm.block_size
    → len + sm.block_size < u64_mod
    → ((sm.cur_blocks + blocks_for len sm.block_size ≤ sm.total_blocks)
        → (bs : List ℕ) × (sm' : SpaceManager) × (allocate_space len sm ≡ ok (bs, sm'))
          × (length bs ≡ blocks_for len sm.block_size)
          × TakesAll sm bs sm')
      × (sm.total_blocks < sm.cur_blocks + blocks_for len sm.block_size
          → allocate_space len sm ≡ ok ([], sm))
unfolding allocate_space
allocate_space_cases len sm v pos small = (enough, short)
  where
    need : ℕ
    need = sub64 (add64 len sm.block_size) 1 / sm.block_size

    same_need : need ≡ blocks_for len sm.block_size
    same_need =
        let e : sub64 (add64 len sm.block_size) 1 ≡ len + sm.block_size - 1 = omega arith in
        ap (λ n. n / sm.block_size) e

    left_blocks : ℕ
    left_blocks = sub64 sm.total_blocks sm.cur_blocks

    left : left_blocks + sm.cur_blocks ≡ sm.total_blocks
    left = omega (arith, v.bounded, v.balance, v.counted)

    nonzero : (sm.block_size == 0) ≡ false
    nonzero = ground arith

    enough :
        sm.cur_blocks + blocks_for len sm.block_size ≤ sm.total_blocks
        → (bs : List ℕ) × (sm' : SpaceManager) × (allocate_space len sm ≡ ok (bs, sm'))
          × (length bs ≡ blocks_for len sm.block_size)
          × TakesAll sm bs sm'
    enough h =
        let (bs, sm', r, l, t) = allocate_blocks_room need sm v (omega (arith, same_need)) in
        (
          bs,
          sm',
          rw (nonzero, le→ltb left_blocks need (omega (arith, same_need, left))) r,
          omega (arith, l, same_need),
          t,
        )

    short :
        sm.total_blocks < sm.cur_blocks + blocks_for len sm.block_size
        → allocate_space len sm ≡ ok ([], sm)
    short h = rw (nonzero, lt→ltb left_blocks need (omega (arith, same_need, left))) refl

-- Reclaiming the blocks that were taken from a valid space manager leaves it valid, with the count of
-- blocks in use as before the taking, and every block in use or free as before.
pub reclaim_space-TakesAll :
    (sm sm' : SpaceManager) (bs : List ℕ)
    → TakesAll sm bs sm'
    → IsValid sm
    → let sm'' = reclaim_space bs sm' in
      IsValid sm''
      × (sm''.cur_blocks ≡ sm.cur_blocks)
      × ((c : ℕ)
          → (count c sm''.inused_blocks ≡ count c sm.inused_blocks)
            × (count c sm''.free_list ≡ count c sm.free_list))
reclaim_space-TakesAll sm sm' bs t v =
    let g = reclaim_space-GivesBack bs sm' t.valid (λ c. omega (arith, t.inused_blocks c)) in
    (
      g.valid,
      omega (arith, g.cur_blocks, t.cur_blocks),
      λ c.
          let used : count c (reclaim_space bs sm').inused_blocks ≡ count c sm.inused_blocks =
            omega (arith, g.inused_blocks c, t.inused_blocks c) in
          (
            used,
            omega (
              arith,
              used,
              g.valid.partition c,
              v.partition c,
              ap (λ n. indicator (ltb c n)) g.same.total_blocks,
              ap (λ n. indicator (ltb c n)) t.same.total_blocks,
            ),
          ),
    )

-- A region of `len` bytes whose start is aligned has as many blocks as fit, and each of them, from
-- `b * block_size` bytes behind the start on, lies inside it.
pub new_space_manager_region :
    (addr len block_size server_id b : ℕ) (sm : SpaceManager)
    → 0 < block_size
    → 0 < len
    → addr + len < u64_mod
    → bit_and (sub64 block_size 1) addr ≡ 0
    → new_space_manager addr (sub64 (add64 addr len) 1) block_size server_id ≡ ok sm
    → (sm.total_blocks ≡ len / block_size)
      × (b < sm.total_blocks → b * block_size + block_size ≤ len)
unfolding new_space_manager align_start
new_space_manager_region addr len block_size server_id b sm pos some fits aligned e =
    (whole, λ h. let h' : b < len / block_size = omega (arith, whole) in grind arith)
  where
    bytes : add64 (sub64 (sub64 (add64 addr len) 1) addr) 1 ≡ len
    bytes = omega arith

    whole : sm.total_blocks ≡ len / block_size
    whole = ground (arith, bytes)
