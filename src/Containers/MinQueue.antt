-- ===== src/Containers/MinQueue.antt =====
-- `std::priority_queue<uint64_t, std::vector<uint64_t>, std::greater<uint64_t>>`: the numbers in
-- rising order, so that `top` is the first.
use sponge_bob.Prelude.{
  ℕ, zero, suc, ◌+◌, ◌≤◌, ◌<◌, ◌≡◌, refl, List, [], ◌∷◌, arith, leb, ltb, ◌==◌, if◌then◌else◌,
  length, count, indicator, ◌&&◌,
}
use sponge_bob.Result.{Result, ok, fault, empty_queue}

unfoldable pub push : ℕ → List ℕ → List ℕ
push a [] = a ∷ []
push a (x ∷ xs) = if leb a x then a ∷ x ∷ xs else x ∷ push a xs

-- `q.top()` followed by `q.pop()`.
unfoldable pub pop : List ℕ → Result (ℕ × List ℕ)
pop [] = fault empty_queue
pop (x ∷ xs) = ok (x, xs)

-- `std::iota` over `n` entries from `a` on, in a queue.
unfoldable pub iota : ℕ → ℕ → List ℕ
iota a zero = []
iota a (suc n) = a ∷ iota (a + 1) n

-- Every entry is at least `a`, and no entry is below the one before it.
abbrev pub IsSorted : ℕ → List ℕ → Type 0
IsSorted a [] = Unit {0}
IsSorted a (x ∷ xs) = (a ≤ x) × IsSorted x xs

pub count-push : (b a : ℕ) (xs : List ℕ) → count b (push a xs) ≡ indicator (a == b) + count b xs
unfolding push
count-push b a [] = refl
count-push b a (x ∷ xs) = ground (arith, count-push b a xs)

pub length-push : (a : ℕ) (xs : List ℕ) → length (push a xs) ≡ suc (length xs)
unfolding push
length-push a [] = refl
length-push a (x ∷ xs) = ground (arith, length-push a xs)

pub push-IsSorted : (m a : ℕ) (xs : List ℕ) → m ≤ a → IsSorted m xs → IsSorted m (push a xs)
unfolding push
push-IsSorted m a [] h s = (h, tt)
push-IsSorted m a (x ∷ xs) h s = ground (arith, push-IsSorted x a xs)

-- What is no greater than all entries goes back to the front.
pub push_front : (a : ℕ) (xs : List ℕ) → IsSorted a xs → push a xs ≡ a ∷ xs
unfolding push
push_front a [] s = refl
push_front a (x ∷ xs) s = ground arith

pub IsSorted-zero : (m : ℕ) (xs : List ℕ) → IsSorted m xs → IsSorted 0 xs
IsSorted-zero m [] s = tt
IsSorted-zero m (x ∷ xs) s = (omega arith, s.1)

-- The first entry of a queue is its least.
pub count_below : (m b : ℕ) (xs : List ℕ) → IsSorted m xs → b < m → count b xs ≡ 0
count_below m b [] s h = refl
count_below m b (x ∷ xs) s h = ground (arith, count_below x b xs)

pub iota-IsSorted : (a n : ℕ) → IsSorted a (iota a n)
unfolding iota
iota-IsSorted a zero = tt
iota-IsSorted a (suc n) =
    (omega arith, weaken a (a + 1) (iota (a + 1) n) (omega arith) (iota-IsSorted (a + 1) n))
  where
    weaken : (l m : ℕ) (xs : List ℕ) → l ≤ m → IsSorted m xs → IsSorted l xs
    weaken l m [] h s = tt
    weaken l m (x ∷ xs) h s = (omega arith, s.1)

pub length-iota : (a n : ℕ) → length (iota a n) ≡ n
unfolding iota
length-iota a zero = refl
length-iota a (suc n) = omega (arith, length-iota (a + 1) n)

pub count-iota : (b a n : ℕ) → count b (iota a n) ≡ indicator (leb a b && ltb b (a + n))
unfolding iota
count-iota b a zero = ground arith
count-iota b a (suc n) = ground (arith, count-iota b (a + 1) n)
