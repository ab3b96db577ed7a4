-- ===== src/Base/Dict.antt =====
-- A Python dict in insertion order. Its laws are stated with `if`, so none has a side condition.
use redes_hamelin.Base.{
  suc, ◌≤◌, ◌<◌, ◌≡◌, ◌≢◌, ◌⊎◌, refl, Bool, true, false, Option, none, some, List, [], ◌∷◌, arith,
  Eq, if◌then◌else◌, Bool-cases, inl, inr, length,
}

abbrev pub Dict {ℓ κ} : Type ℓ → Type κ → Type (ℓ ⊔ κ)
Dict K V = List (K × V)

module _ {ℓ κ} {K : Type ℓ} {V : Type κ} ⦃e : Eq K⦄ where
  -- `d.get(k)`
  unfoldable pub lookup : K → Dict K V → Option V
  lookup k [] = none
  lookup k ((j, v) ∷ d) = if e.beq j k then some v else lookup k d

  -- `k in d`
  abbrev pub contains : K → Dict K V → Bool
  contains k d = elim (lookup k d) [ none ↦ false | some _ ↦ true ]

  -- `d[k] = v`
  unfoldable pub insert : K → V → Dict K V → Dict K V
  insert k v [] = (k, v) ∷ []
  insert k v ((j, w) ∷ d) = if e.beq j k then (k, v) ∷ d else (j, w) ∷ insert k v d

  -- `d.pop(k, None)`: a dict has one entry at most for a key.
  unfoldable pub erase : K → Dict K V → Dict K V
  erase k [] = []
  erase k ((j, w) ∷ d) = if e.beq j k then erase k d else (j, w) ∷ erase k d

  pub lookup-nil : (k : K) → lookup k [] ≡ none
  unfolding lookup
  lookup-nil k = refl

  pub lookup-insert :
      (k j : K) (v : V) (d : Dict K V)
      → lookup j (insert k v d) ≡ (if e.beq k j then some v else lookup j d)
  unfolding lookup insert
  lookup-insert k j v [] = refl
  lookup-insert k j v ((i, w) ∷ d) =
      ground (arith, e.beq_iff k j, e.beq_iff i k, e.beq_iff i j, lookup-insert k j v d)

  pub lookup-erase :
      (k j : K) (d : Dict K V) → lookup j (erase k d) ≡ (if e.beq k j then none else lookup j d)
  unfolding lookup erase
  lookup-erase k j [] = ground arith
  lookup-erase k j ((i, w) ∷ d) =
      ground (arith, e.beq_iff k j, e.beq_iff i k, e.beq_iff i j, lookup-erase k j d)

  pub length-insert : (k : K) (v : V) (d : Dict K V) → length (insert k v d) ≤ suc (length d)
  unfolding insert
  length-insert k v [] = omega arith
  length-insert k v ((j, w) ∷ d) = ground (arith, length-insert k v d)

  pub length-erase : (k : K) (d : Dict K V) → length (erase k d) ≤ length d
  unfolding erase
  length-erase k [] = omega arith
  length-erase k ((j, w) ∷ d) = ground (arith, length-erase k d)

  -- Where an entry of a changed dict comes from.
  pub lookup_inserted :
      (k j : K) (v : V) (d : Dict K V) {w : V}
      → lookup j (insert k v d) ≡ some w
      → ((k ≡ j) × (v ≡ w)) ⊎ (lookup j d ≡ some w)
  lookup_inserted k j v d h = ground (arith, lookup-insert k j v d, e.beq_iff k j)

  pub lookup_not_inserted :
      (k j : K) (v : V) (d : Dict K V)
      → lookup j (insert k v d) ≡ none
      → (k ≢ j) × (lookup j d ≡ none)
  lookup_not_inserted k j v d h = ground (arith, lookup-insert k j v d, e.beq_iff k j)

  pub lookup_of_erase :
      (k j : K) (d : Dict K V) {w : V}
      → lookup j (erase k d) ≡ some w
      → (k ≢ j) × (lookup j d ≡ some w)
  lookup_of_erase k j d h = ground (arith, lookup-erase k j d, e.beq_iff k j)

  pub lookup_erased :
      (k j : K) (d : Dict K V) → lookup j (erase k d) ≡ none → (k ≡ j) ⊎ (lookup j d ≡ none)
  lookup_erased k j d h = ground (arith, lookup-erase k j d, e.beq_iff k j)

  pub lookup_kept :
      (k j : K) (d : Dict K V) {w : V} → k ≢ j → lookup j d ≡ some w → lookup j (erase k d) ≡ some w
  lookup_kept k j d ne h = ground (arith, lookup-erase k j d, e.beq_iff k j)

  -- A key stays when another entry, or its own, is written.
  pub still_in :
      (k j : K) (v : V) (d : Dict K V) {w : V}
      → lookup j d ≡ some w
      → (w' : V) × (lookup j (insert k v d) ≡ some w')
  still_in k j v d {w} h = elim (Bool-cases (e.beq k j)) [
    | inl same ↦ (v, rw (lookup-insert k j v d, same))
    | inr other ↦ (w, rw (lookup-insert k j v d, other) h)
  ]

  -- A dict with no key is empty.
  pub length_of_empty : (d : Dict K V) → ((k : K) (v : V) → lookup k d ≡ some v → ⊥) → length d ≡ 0
  unfolding lookup
  length_of_empty [] h = refl
  length_of_empty ((k, v) ∷ d) h = absurd (h k v (rw ((e.beq_iff k k).1 refl)))

  pub lookup_of_length : (k : K) (d : Dict K V) → length d ≡ 0 → lookup k d ≡ none
  unfolding lookup
  lookup_of_length k [] h = refl
  lookup_of_length k (x ∷ d) h = absurd (omega arith)

  -- Taking out a key that is there makes the dict smaller.
  pub length-erase_lt :
      (k : K) (d : Dict K V) {v : V} → lookup k d ≡ some v → length (erase k d) < length d
  unfolding lookup erase
  length-erase_lt k [] h = cc
  length-erase_lt k ((j, w) ∷ d) {v} h =
      ground (arith, length-erase k d, length-erase_lt k d {v = v})
