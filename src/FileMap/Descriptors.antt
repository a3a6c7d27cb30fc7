-- ===== src/FileMap/Descriptors.antt =====
-- A descriptor is in use or free, and never both.
use sponge_bob.Prelude.{
  ℕ, ◌+◌, ◌≤◌, ◌<◌, ◌≡◌, refl, ap, subst, true, Option, none, some, List, [], ◌∷◌, arith, ltb, leb,
  ◌==◌, ◌&&◌, if◌then◌else◌, Bool-cases, inl, inr, length, count, indicator,
}
use sponge_bob.Containers.MinQueue
use sponge_bob.Containers.MinQueue.{IsSorted, count-push, length-push, push-IsSorted}
use sponge_bob.Containers.NumSet
use sponge_bob.FileMap.{FileMap, new_file_map, allocate_fd, reclaim_fd}

-- The descriptors are 4 to `total_size_` + 3.
pub record IsValid (m : FileMap) : Type 0 where
  pub partition :
      (k : ℕ)
      → count k m.fd_used_set + count k m.fd_free_list
        ≡ indicator (leb 4 k && ltb k (4 + m.total_size))
  pub balance : length m.fd_used_set + length m.fd_free_list ≡ m.total_size
  pub sorted : IsSorted 0 m.fd_free_list

pub new_file_map-IsValid : (size : ℕ) → IsValid (new_file_map size)
unfolding new_file_map
new_file_map-IsValid size = record {
  partition = λ k. omega (arith, MinQueue.count-iota k 4 size);
  balance = omega (arith, MinQueue.length-iota 4 size);
  sorted = MinQueue.IsSorted-zero 4 (MinQueue.iota 4 size) (MinQueue.iota-IsSorted 4 size);
}

-- What `AllocateFD` may answer in a valid map `m`, and the map `m'` that it leaves.
pub data Allocates (m : FileMap) : Option ℕ → FileMap → Type 0 where
  full : m.fd_free_list ≡ [] → Allocates m none m
  fresh :
      (fd : ℕ) (m' : FileMap)
      → count fd m.fd_used_set ≡ 0
      → ((b : ℕ) → b < fd → count b m.fd_free_list ≡ 0)
      → m'.fd_used_set ≡ fd ∷ m.fd_used_set
      → m.fd_free_list ≡ fd ∷ m'.fd_free_list
      → m'.total_size ≡ m.total_size
      → Allocates m (some fd) m'

abbrev Allocation : FileMap → Type 0
Allocation m =
    (r : Option ℕ) × (m' : FileMap) × (allocate_fd m ≡ (r, m')) × Allocates m r m' × IsValid m'

allocate_fd_from : (m : FileMap) (xs : List ℕ) → m.fd_free_list ≡ xs → IsValid m → Allocation m
unfolding allocate_fd
allocate_fd_from m [] e v = (none, m, ground (arith, e), full e, v)
allocate_fd_from m (fd ∷ rest) e v = (
  some fd,
  m',
  ground (arith, e),
  fresh fd m' unused least inserted e refl,
  record {
    partition = λ k. omega (arith, ap (count k) inserted, free_count k, v.partition k);
    balance = omega (arith, ap length inserted, ap length e, v.balance);
    sorted = MinQueue.IsSorted-zero fd rest sorted.1;
  },
)
  where
    m' : FileMap
    m' = record m { fd_free_list = rest; fd_used_set = NumSet.insert fd m.fd_used_set }

    free_count : (k : ℕ) → count k m.fd_free_list ≡ indicator (fd == k) + count k rest
    free_count k = ap (count k) e

    sorted : (0 ≤ fd) × IsSorted fd rest
    sorted = subst (IsSorted 0) e v.sorted

    least : (b : ℕ) → b < fd → count b m.fd_free_list ≡ 0
    least b h = MinQueue.count_below fd b m.fd_free_list (rw e (omega arith, sorted.1)) h

    unused : count fd m.fd_used_set ≡ 0
    unused = ground (arith, v.partition fd, free_count fd)

    inserted : NumSet.insert fd m.fd_used_set ≡ fd ∷ m.fd_used_set
    inserted = NumSet.insert_new fd m.fd_used_set unused

-- In a valid map `AllocateFD` gives out the least descriptor that is not in use, or answers -1 and
-- changes nothing when all are in use; it leaves a valid map.
pub allocate_fd-Allocates :
    (m : FileMap)
    → IsValid m
    → Allocates m (allocate_fd m).0 (allocate_fd m).1 × IsValid (allocate_fd m).1
allocate_fd-Allocates m v =
    let (r, m', e, a, v') = allocate_fd_from m m.fd_free_list refl v in rw e (a, v')

-- `ReclaimFD` answers whether the descriptor is in use; it leaves a valid map in which the
-- descriptor is not in use, and every other is in use as before.
pub reclaim_fd-IsValid :
    (fd other : ℕ) (m : FileMap)
    → IsValid m
    → ((reclaim_fd fd m).0 ≡ NumSet.contains fd m.fd_used_set)
      × IsValid (reclaim_fd fd m).1
      × (count other (reclaim_fd fd m).1.fd_used_set
          ≡ (if fd == other then 0 else count other m.fd_used_set))
unfolding reclaim_fd
reclaim_fd-IsValid fd other m v = elim (Bool-cases (NumSet.contains fd m.fd_used_set)) [
  | inl used ↦ rw used (refl, reclaimed used, NumSet.count-erase other fd m.fd_used_set)
  | inr unused ↦ rw unused (refl, v, ground (arith, NumSet.contains-count fd m.fd_used_set unused))
]
  where
    reclaimed :
        NumSet.contains fd m.fd_used_set ≡ true
        → IsValid (record m {
          fd_used_set = NumSet.erase fd m.fd_used_set;
          fd_free_list = MinQueue.push fd m.fd_free_list;
        })
    reclaimed used =
        let once = NumSet.count_contained fd m.fd_used_set used in
        record {
          partition = λ k. ground (
            arith,
            NumSet.count-erase k fd m.fd_used_set,
            count-push k fd m.fd_free_list,
            v.partition k,
            once,
          );
          balance = ground (
            arith,
            NumSet.length-erase fd m.fd_used_set,
            length-push fd m.fd_free_list,
            v.balance,
            v.partition fd,
            once,
          );
          sorted = push-IsSorted 0 fd m.fd_free_list (omega arith) v.sorted;
        }

reclaim_fresh :
    (m m' : FileMap) (fd : ℕ)
    → IsValid m
    → count fd m.fd_used_set ≡ 0
    → m'.fd_used_set ≡ fd ∷ m.fd_used_set
    → m.fd_free_list ≡ fd ∷ m'.fd_free_list
    → m'.total_size ≡ m.total_size
    → reclaim_fd fd m' ≡ (true, m)
unfolding reclaim_fd NumSet.contains NumSet.erase
reclaim_fresh m m' fd v unused used free total = ground (
  arith,
  NumSet.erase-insert fd m.fd_used_set unused,
  MinQueue.push_front fd m'.fd_free_list (subst (IsSorted 0) free v.sorted).1,
)

reclaim_allocated :
    (m m' : FileMap) (r : Option ℕ) (fd : ℕ)
    → IsValid m
    → Allocates m r m'
    → r ≡ some fd
    → reclaim_fd fd m' ≡ (true, m)
reclaim_allocated m m' r fd v (full e) h = cc
reclaim_allocated m m' r fd v (fresh fd' m'' unused least used free total) h =
    let same : fd' ≡ fd = ground arith in
    rw (← same) (reclaim_fresh m m'' fd' v unused used free total)

-- In a valid map, reclaiming the descriptor that `AllocateFD` gave restores the map and answers true.
pub reclaim_fd-allocate_fd :
    (m : FileMap) (fd : ℕ)
    → IsValid m
    → (allocate_fd m).0 ≡ some fd
    → reclaim_fd fd (allocate_fd m).1 ≡ (true, m)
reclaim_fd-allocate_fd m fd v h = reclaim_allocated m _ _ fd v (allocate_fd-Allocates m v).0 h
