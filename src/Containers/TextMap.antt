-- ===== src/Containers/TextMap.antt =====
-- Maps with texts for keys, with `assign` for `m[k] = v` of a `std::unordered_map`.
use sponge_bob.Prelude.{
  ◌≡◌, ◌≢◌, refl, sym, ap, ◌∙◌, String, Option, none, some, List, [], ◌∷◌, if◌then◌else◌, false,
  inl, inr, Bool-cases,
}
use text.Mathlib.Text.{◌==◌}
use text.Mathlib.TextPositions.{eq_refl}
use text.Mathlib.TextEquality.{eq_iff}

abbrev pub TextMap {ℓ} : Type ℓ → Type ℓ
TextMap V = List (String × V)

module _ {ℓ} {V : Type ℓ} where
  unfoldable pub find : String → TextMap V → Option V
  find k [] = none
  find k ((j, v) ∷ m) = if j == k then some v else find k m

  unfoldable pub assign : String → V → TextMap V → TextMap V
  assign k v [] = (k, v) ∷ []
  assign k v ((j, w) ∷ m) = if j == k then (k, v) ∷ m else (j, w) ∷ assign k v m

  pub find-assign_self : (k : String) (v : V) (m : TextMap V) → find k (assign k v m) ≡ some v
  unfolding find assign
  find-assign_self k v [] = rw (eq_refl k) refl
  find-assign_self k v ((j, w) ∷ m) = elim (Bool-cases (j == k)) [
    | inl e ↦ rw e (rw (eq_refl k) refl)
    | inr e ↦ rw e (rw e (find-assign_self k v m))
  ]

  pub find-assign_ne :
      (j k : String) (v : V) (m : TextMap V) → j ≢ k → find j (assign k v m) ≡ find j m
  unfolding find assign
  find-assign_ne j k v [] h = elim (Bool-cases (k == j)) [
    | inl e ↦ absurd (h (sym ((eq_iff k j).0 e)))
    | inr e ↦ rw e refl
  ]
  find-assign_ne j k v ((i, w) ∷ m) h = elim (Bool-cases (i == k)) [
    | inl e ↦ elim (Bool-cases (k == j)) [
      | inl e' ↦ absurd (h (sym ((eq_iff k j).0 e')))
      | inr e' ↦
          let e'' : (i == j) ≡ false = ap (λ t. t == j) ((eq_iff i k).0 e) ∙ e' in
          rw e (rw e' (rw e'' refl))
    ]
    | inr e ↦ rw e (elim (Bool-cases (i == j)) [
      | inl e' ↦ rw e' refl
      | inr e' ↦ rw e' (find-assign_ne j k v m h)
    ])
  ]
