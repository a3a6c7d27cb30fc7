-- ===== src/Containers/NumSet.antt =====
-- `std::unordered_set<uint64_t>`: a list that holds no number twice.
use sponge_bob.Prelude.{
  ℕ, ◌+◌, ◌<◌, ◌≡◌, refl, Bool, true, false, List, [], ◌∷◌, arith, ◌==◌, if◌then◌else◌, length,
  count,
}

-- `s.find(a) != s.end()`
unfoldable pub contains : ℕ → List ℕ → Bool
contains a [] = false
contains a (x ∷ xs) = if x == a then true else contains a xs

unfoldable pub insert : ℕ → List ℕ → List ℕ
unfolding contains
insert a xs = if contains a xs then xs else a ∷ xs

unfoldable pub erase : ℕ → List ℕ → List ℕ
erase a [] = []
erase a (x ∷ xs) = let rest = erase a xs in if x == a then rest else x ∷ rest

pub contains-count : (a : ℕ) (xs : List ℕ) → contains a xs ≡ false → count a xs ≡ 0
unfolding contains
contains-count a [] h = refl
contains-count a (x ∷ xs) h = ground (arith, contains-count a xs)

pub count-contains : (a : ℕ) (xs : List ℕ) → count a xs ≡ 0 → contains a xs ≡ false
unfolding contains
count-contains a [] h = refl
count-contains a (x ∷ xs) h = ground (arith, count-contains a xs)

pub count_contained : (a : ℕ) (xs : List ℕ) → contains a xs ≡ true → 0 < count a xs
unfolding contains
count_contained a [] h = ground arith
count_contained a (x ∷ xs) h = ground (arith, count_contained a xs)

pub insert_new : (a : ℕ) (xs : List ℕ) → count a xs ≡ 0 → insert a xs ≡ a ∷ xs
unfolding insert
insert_new a xs h = ground (arith, count-contains a xs)

pub count-erase :
    (b a : ℕ) (xs : List ℕ) → count b (erase a xs) ≡ (if a == b then 0 else count b xs)
unfolding erase
count-erase b a [] = ground arith
count-erase b a (x ∷ xs) = ground (arith, count-erase b a xs)

pub length-erase : (a : ℕ) (xs : List ℕ) → length (erase a xs) + count a xs ≡ length xs
unfolding erase
length-erase a [] = refl
length-erase a (x ∷ xs) = ground (arith, length-erase a xs)

-- Taking out what was just put in.
pub erase-insert : (a : ℕ) (xs : List ℕ) → count a xs ≡ 0 → erase a xs ≡ xs
unfolding erase
erase-insert a [] h = refl
erase-insert a (x ∷ xs) h = ground (arith, erase-insert a xs)
