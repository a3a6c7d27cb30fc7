-- ===== src/Containers/Table.antt =====
-- Maps with numbers for keys. `assign` is `m[k] = v` of a `std::unordered_map`, whose order of
-- iteration is not specified, so that new keys go to the end; `assign_in_order` is that of a
-- `std::map`, which is iterated by rising keys.
use sponge_bob.Prelude.{
  ℕ, suc, ◌+◌, ◌<◌, ◌≡◌, ◌≢◌, refl, Option, none, some, List, [], ◌∷◌, arith, ltb, ◌==◌,
  if◌then◌else◌, length, count, indicator, Bool-cases, inl, inr,
}

abbrev pub Table {ℓ} : Type ℓ → Type ℓ
Table V = List (ℕ × V)

module _ {ℓ} {V : Type ℓ} where
  unfoldable pub find : ℕ → Table V → Option V
  find k [] = none
  find k ((j, v) ∷ m) = if j == k then some v else find k m

  unfoldable pub assign : ℕ → V → Table V → Table V
  assign k v [] = (k, v) ∷ []
  assign k v ((j, w) ∷ m) = if j == k then (k, v) ∷ m else (j, w) ∷ assign k v m

  unfoldable pub assign_in_order : ℕ → V → Table V → Table V
  assign_in_order k v [] = (k, v) ∷ []
  assign_in_order k v ((j, w) ∷ m) =
      if j == k
      then (k, v) ∷ m
      else if ltb k j
      then (k, v) ∷ (j, w) ∷ m
      else (j, w) ∷ assign_in_order k v m

  unfoldable pub erase : ℕ → Table V → Table V
  erase k [] = []
  erase k ((j, v) ∷ m) = let rest = erase k m in if j == k then rest else (j, v) ∷ rest

  abbrev pub keys : Table V → List ℕ
  keys [] = []
  keys ((j, v) ∷ m) = j ∷ keys m

  pub find-assign :
      (j k : ℕ) (v : V) (m : Table V)
      → find j (assign k v m) ≡ (if k == j then some v else find j m)
  unfolding find assign
  find-assign j k v [] = refl
  find-assign j k v ((i, w) ∷ m) = ground (arith, find-assign j k v m)

  pub find-assign_self : (k : ℕ) (v : V) (m : Table V) → find k (assign k v m) ≡ some v
  find-assign_self k v m = ground (arith, find-assign k k v m)

  pub find-assign_ne : (j k : ℕ) (v : V) (m : Table V) → j ≢ k → find j (assign k v m) ≡ find j m
  find-assign_ne j k v m h = ground (arith, find-assign j k v m)

  pub find-assign_in_order :
      (j k : ℕ) (v : V) (m : Table V)
      → find j (assign_in_order k v m) ≡ (if k == j then some v else find j m)
  unfolding find assign_in_order
  find-assign_in_order j k v [] = refl
  find-assign_in_order j k v ((i, w) ∷ m) = ground (arith, find-assign_in_order j k v m)

  pub find-erase :
      (j k : ℕ) (m : Table V) → find j (erase k m) ≡ (if k == j then none else find j m)
  unfolding find erase
  find-erase j k [] = ground arith
  find-erase j k ((i, w) ∷ m) = ground (arith, find-erase j k m)

  -- A key that is not there has no value.
  pub find-none : (k : ℕ) (m : Table V) → count k (keys m) ≡ 0 → find k m ≡ none
  unfolding find
  find-none k [] h = refl
  find-none k ((j, v) ∷ m) h = ground (arith, find-none k m)

  pub count_of_find-none : (k : ℕ) (m : Table V) → find k m ≡ none → count k (keys m) ≡ 0
  unfolding find
  count_of_find-none k [] h = refl
  count_of_find-none k ((j, v) ∷ m) h = ground (arith, count_of_find-none k m)

  pub count_of_some : (k : ℕ) (v : V) (m : Table V) → find k m ≡ some v → 0 < count k (keys m)
  unfolding find
  count_of_some k v [] h = ground arith
  count_of_some k v ((j, w) ∷ m) h = ground (arith, count_of_some k v m)

  -- A key that is there has a value.
  pub find_total :
      (k n : ℕ) (m : Table V) → count k (keys m) ≡ suc n → (v : V) × (find k m ≡ some v)
  unfolding find
  find_total k n [] h = absurd (omega arith)
  find_total k n ((j, v) ∷ m) h = elim (Bool-cases (j == k)) [
    | inl e ↦ (v, ground arith)
    | inr e ↦ let (u, f) = find_total k n m (ground arith) in (u, ground arith)
  ]

  pub keys-assign_new :
      (j k : ℕ) (v : V) (m : Table V)
      → count k (keys m) ≡ 0
      → count j (keys (assign k v m)) ≡ indicator (k == j) + count j (keys m)
  unfolding assign
  keys-assign_new j k v [] h = refl
  keys-assign_new j k v ((i, w) ∷ m) h = ground (arith, keys-assign_new j k v m)

  pub length-assign_new :
      (k : ℕ) (v : V) (m : Table V) → count k (keys m) ≡ 0 → length (assign k v m) ≡ suc (length m)
  unfolding assign
  length-assign_new k v [] h = refl
  length-assign_new k v ((i, w) ∷ m) h = ground (arith, length-assign_new k v m)

  -- Assigning to a key that is there changes no key.
  pub keys-assign_old :
      (k : ℕ) (v w : V) (m : Table V) → find k m ≡ some w → keys (assign k v m) ≡ keys m
  unfolding assign find
  keys-assign_old k v w [] h = ground arith
  keys-assign_old k v w ((i, u) ∷ m) h = ground (arith, keys-assign_old k v w m)

  pub length-assign_old :
      (k : ℕ) (v w : V) (m : Table V) → find k m ≡ some w → length (assign k v m) ≡ length m
  unfolding assign find
  length-assign_old k v w [] h = ground arith
  length-assign_old k v w ((i, u) ∷ m) h = ground (arith, length-assign_old k v w m)

  pub keys-erase :
      (j k : ℕ) (m : Table V)
      → count j (keys (erase k m)) ≡ (if k == j then 0 else count j (keys m))
  unfolding erase
  keys-erase j k [] = ground arith
  keys-erase j k ((i, w) ∷ m) = ground (arith, keys-erase j k m)

  pub length-erase : (k : ℕ) (m : Table V) → length (erase k m) + count k (keys m) ≡ length m
  unfolding erase
  length-erase k [] = refl
  length-erase k ((i, w) ∷ m) = ground (arith, length-erase k m)
