-- ===== src/SpaceManager/Partition.antt =====
-- A block is in use or free, and never both: what allocating and reclaiming keep.
use sponge_bob.Prelude.{
  ℕ, ◌+◌, ◌/◌, ◌≤◌, ◌<◌, ◌≡◌, refl, ap, subst, ◌∙◌, List, [], ◌∷◌, ◌++◌, arith, ltb, ◌==◌,
  if◌then◌else◌, length, count, indicator, u64_mod, add64, sub64, Bool-cases, inl, inr,
}
use sponge_bob.Result.{ok, fault, empty_queue}
use sponge_bob.Containers.MinQueue
use sponge_bob.Containers.MinQueue.{IsSorted, IsSorted-zero, count-push, length-push, push-IsSorted}
use sponge_bob.Containers.NumSet
use sponge_bob.Inode.{BlockInfo}
use sponge_bob.SpaceManager.{
  SpaceManager, new_space_manager, align_start, allocate_one_block, reclaim_block, reclaim_space,
  reclaim_block_infos,
}

pub record IsValid (sm : SpaceManager) : Type 0 where
  pub partition :
      (b : ℕ) → count b sm.inused_blocks + count b sm.free_list ≡ indicator (ltb b sm.total_blocks)
  pub balance : length sm.inused_blocks + length sm.free_list ≡ sm.total_blocks
  pub counted : length sm.inused_blocks ≡ sm.cur_blocks
  pub bounded : sm.total_blocks < u64_mod
  pub sorted : IsSorted 0 sm.free_list

-- What the operations leave alone.
pub record SameSpace (sm sm' : SpaceManager) : Type 0 where
  pub space_start : sm'.space_start ≡ sm.space_start
  pub space_end : sm'.space_end ≡ sm.space_end
  pub block_size : sm'.block_size ≡ sm.block_size
  pub total_blocks : sm'.total_blocks ≡ sm.total_blocks
  pub server_id : sm'.server_id ≡ sm.server_id

pub SameSpace-refl : (sm : SpaceManager) → SameSpace sm sm
SameSpace-refl sm = record {
  space_start = refl;
  space_end = refl;
  block_size = refl;
  total_blocks = refl;
  server_id = refl;
}

pub SameSpace-trans : {a b c : SpaceManager} → SameSpace a b → SameSpace b c → SameSpace a c
SameSpace-trans p q = record {
  space_start = q.space_start ∙ p.space_start;
  space_end = q.space_end ∙ p.space_end;
  block_size = q.block_size ∙ p.block_size;
  total_blocks = q.total_blocks ∙ p.total_blocks;
  server_id = q.server_id ∙ p.server_id;
}

pub new_space_manager-IsValid :
    (space_start space_end block_size server_id : ℕ)
    → 0 < block_size
    → (sm : SpaceManager) × (new_space_manager space_start space_end block_size server_id ≡ ok sm)
      × IsValid sm
      × (sm.inused_blocks ≡ [])
      × (sm.server_id ≡ server_id)
unfolding new_space_manager
new_space_manager-IsValid space_start space_end block_size server_id h = (
  sm,
  ground arith,
  record {
    partition = λ b. ground (arith, MinQueue.count-iota b 0 blocks);
    balance = omega (arith, MinQueue.length-iota 0 blocks);
    counted = refl;
    bounded = few;
    sorted = MinQueue.iota-IsSorted 0 blocks;
  },
  refl,
  refl,
)
  where
    start : ℕ
    start = align_start space_start block_size

    bytes : ℕ
    bytes = add64 (sub64 space_end start) 1

    blocks : ℕ
    blocks = bytes / block_size

    few : bytes / block_size < u64_mod
    few = grind arith

    sm : SpaceManager
    sm = record {
      inused_blocks = [];
      free_list = MinQueue.iota 0 blocks;
      space_start = start;
      space_end = space_end;
      total_bytes = bytes;
      block_size = block_size;
      total_blocks = blocks;
      cur_blocks = 0;
      server_id = server_id;
    }

-- Block `b` is taken from `sm`, which becomes `sm'`.
pub record Takes (sm : SpaceManager) (b : ℕ) (sm' : SpaceManager) : Type 0 where
  pub valid : IsValid sm'
  pub same : SameSpace sm sm'
  pub in_range : b < sm.total_blocks
  pub was_free : count b sm.inused_blocks ≡ 0
  pub least : (c : ℕ) → c < b → count c sm.free_list ≡ 0
  pub inused_blocks : sm'.inused_blocks ≡ b ∷ sm.inused_blocks
  pub free_list : sm.free_list ≡ b ∷ sm'.free_list
  pub cur_blocks : sm'.cur_blocks ≡ sm.cur_blocks + 1

take_front :
    (sm : SpaceManager) (b : ℕ) (rest : List ℕ)
    → IsValid sm
    → sm.free_list ≡ b ∷ rest
    → (sm' : SpaceManager) × (allocate_one_block sm ≡ ok (b, sm')) × Takes sm b sm'
unfolding allocate_one_block MinQueue.pop
take_front sm b rest v e = (
  sm',
  ground (arith, e),
  record {
    valid = record {
      partition = λ c. omega (arith, ap (count c) inserted, free_count c, v.partition c);
      balance = omega (arith, ap length inserted, ap length e, v.balance);
      counted = omega (arith, ap length inserted, ap length e, v.counted, v.balance, v.bounded);
      bounded = v.bounded;
      sorted = IsSorted-zero b rest sorted.1;
    };
    same = record {
      space_start = refl;
      space_end = refl;
      block_size = refl;
      total_blocks = refl;
      server_id = refl;
    };
    in_range = ground (arith, v.partition b, free_count b);
    was_free = unused;
    least = λ c h. MinQueue.count_below b c sm.free_list (rw e (omega arith, sorted.1)) h;
    inused_blocks = inserted;
    free_list = e;
    cur_blocks = omega (arith, ap length e, v.counted, v.balance, v.bounded);
  },
)
  where
    sm' : SpaceManager
    sm' = record sm {
      free_list = rest;
      inused_blocks = NumSet.insert b sm.inused_blocks;
      cur_blocks = add64 sm.cur_blocks 1;
    }

    free_count : (c : ℕ) → count c sm.free_list ≡ indicator (b == c) + count c rest
    free_count c = ap (count c) e

    sorted : (0 ≤ b) × IsSorted b rest
    sorted = subst (IsSorted 0) e v.sorted

    unused : count b sm.inused_blocks ≡ 0
    unused = ground (arith, v.partition b, free_count b)

    inserted : NumSet.insert b sm.inused_blocks ≡ b ∷ sm.inused_blocks
    inserted = NumSet.insert_new b sm.inused_blocks unused

-- With a block left, `AllocateOneBlock` takes the least one.
pub allocate_one_block_room :
    (sm : SpaceManager)
    → IsValid sm
    → sm.cur_blocks < sm.total_blocks
    → (b : ℕ) × (sm' : SpaceManager) × (allocate_one_block sm ≡ ok (b, sm')) × Takes sm b sm'
allocate_one_block_room sm v room = go sm.free_list refl
  where
    go :
        (xs : List ℕ)
        → sm.free_list ≡ xs
        → (b : ℕ) × (sm' : SpaceManager) × (allocate_one_block sm ≡ ok (b, sm')) × Takes sm b sm'
    go [] e = absurd (omega (arith, ap length e, v.balance, v.counted))
    go (b ∷ rest) e = let (sm', r, t) = take_front sm b rest v e in (b, sm', r, t)

-- With no block left it reads the top of an empty queue.
pub allocate_one_block_full :
    (sm : SpaceManager)
    → IsValid sm
    → sm.cur_blocks ≡ sm.total_blocks
    → allocate_one_block sm ≡ fault empty_queue
unfolding allocate_one_block MinQueue.pop
allocate_one_block_full sm v full = go sm.free_list refl
  where
    go : (xs : List ℕ) → sm.free_list ≡ xs → allocate_one_block sm ≡ fault empty_queue
    go [] e = ground (arith, e)
    go (b ∷ rest) e = absurd (omega (arith, ap length e, v.balance, v.counted))

-- A block that is in use goes back.
pub record GivesBack (sm : SpaceManager) (bs : List ℕ) (sm' : SpaceManager) : Type 0 where
  pub valid : IsValid sm'
  pub same : SameSpace sm sm'
  pub inused_blocks : (c : ℕ) → count c sm'.inused_blocks + count c bs ≡ count c sm.inused_blocks
  pub cur_blocks : sm'.cur_blocks + length bs ≡ sm.cur_blocks

pub reclaim_block-GivesBack :
    (b : ℕ) (sm : SpaceManager)
    → IsValid sm
    → 0 < count b sm.inused_blocks
    → GivesBack sm (b ∷ []) (reclaim_block b sm)
unfolding reclaim_block
reclaim_block-GivesBack b sm v used = record {
  valid = record {
    partition = λ c. ground (
      arith,
      NumSet.count-erase c b sm.inused_blocks,
      count-push c b sm.free_list,
      v.partition c,
    );
    balance = omega (
      arith,
      NumSet.length-erase b sm.inused_blocks,
      length-push b sm.free_list,
      v.balance,
      once,
    );
    counted = fewer;
    bounded = v.bounded;
    sorted = push-IsSorted 0 b sm.free_list (omega arith) v.sorted;
  };
  same = record {
    space_start = refl;
    space_end = refl;
    block_size = refl;
    total_blocks = refl;
    server_id = refl;
  };
  inused_blocks = λ c. ground (arith, NumSet.count-erase c b sm.inused_blocks, once);
  cur_blocks = omega (arith, fewer, NumSet.length-erase b sm.inused_blocks, v.counted, once);
}
  where
    once : count b sm.inused_blocks ≡ 1
    once = ground (arith, v.partition b)

    fewer : length (NumSet.erase b sm.inused_blocks) ≡ sub64 sm.cur_blocks 1
    fewer =
        omega (arith, NumSet.length-erase b sm.inused_blocks, v.counted, v.balance, v.bounded, once)

-- Giving back blocks that are all in use, each as often as it is in use.
pub reclaim_space-GivesBack :
    (bs : List ℕ) (sm : SpaceManager)
    → IsValid sm
    → ((c : ℕ) → count c bs ≤ count c sm.inused_blocks)
    → GivesBack sm bs (reclaim_space bs sm)
unfolding reclaim_space
reclaim_space-GivesBack [] sm v used = record {
  valid = v;
  same = SameSpace-refl sm;
  inused_blocks = λ c. omega arith;
  cur_blocks = omega arith;
}
reclaim_space-GivesBack (b ∷ bs) sm v used =
    let first = reclaim_block-GivesBack b sm v (ground (arith, used b)) in
    let rest =
      reclaim_space-GivesBack bs (reclaim_block b sm) first.valid
        (λ c. omega (arith, used c, first.inused_blocks c)) in
    record {
      valid = rest.valid;
      same = SameSpace-trans first.same rest.same;
      inused_blocks = λ c. omega (arith, first.inused_blocks c, rest.inused_blocks c);
      cur_blocks = omega (arith, first.cur_blocks, rest.cur_blocks);
    }

-- The numbers of a file's blocks on one server.
abbrev pub blocks_on : ℕ → List BlockInfo → List ℕ
blocks_on s [] = []
blocks_on s (b ∷ bs) = if b.server_id == s then b.block_nr ∷ blocks_on s bs else blocks_on s bs

pub blocks_on-append :
    (s : ℕ) (xs bs : List BlockInfo) → blocks_on s (xs ++ bs) ≡ blocks_on s xs ++ blocks_on s bs
blocks_on-append s [] bs = refl
blocks_on-append s (a ∷ xs) bs = ground (arith, blocks_on-append s xs bs)

-- Reclaiming a file's blocks is reclaiming those of its blocks that are on this server.
pub reclaim_block_infos-eq-reclaim_space :
    (bs : List BlockInfo) (sm : SpaceManager)
    → reclaim_block_infos bs sm ≡ reclaim_space (blocks_on sm.server_id bs) sm
unfolding reclaim_block_infos reclaim_space reclaim_block
reclaim_block_infos-eq-reclaim_space [] sm = refl
reclaim_block_infos-eq-reclaim_space (b ∷ bs) sm = elim (Bool-cases (b.server_id == sm.server_id)) [
  | inl here ↦ rw here (reclaim_block_infos-eq-reclaim_space bs (reclaim_block b.block_nr sm))
  | inr away ↦ rw away (reclaim_block_infos-eq-reclaim_space bs sm)
]
