-- ===== src/Table/Laws.antt =====
-- What the operations of a table do to its keys, its size and a sum over its values.
use moenotes_api.Prelude.{
  Bool, Bool-cases, List, [], arith, false, inl, inr, length, none, refl, some, subst, true, ℕ, ◌+◌,
  ◌<◌, ◌∷◌, ◌≡◌, ◌≤◌,
}
use moenotes_api.Table.{Distinct, Eq, find, insert, remove, retain, total, update}

module _ {ℓ κ} {K : Type ℓ} {V : Type κ} ⦃e : Eq K⦄ where
  pub find-remove_self : (k : K) (m : List (K × V)) → find k (remove k m) ≡ none
  unfolding find remove
  find-remove_self k [] = refl
  find-remove_self k ((j, v) ∷ m) = ground (arith, find-remove_self k m)

  pub find-remove_ne :
      (j k : K) (m : List (K × V)) → e.beq k j ≡ false → find j (remove k m) ≡ find j m
  unfolding find remove
  find-remove_ne j k [] h = refl
  find-remove_ne j k ((i, v) ∷ m) h =
      ground (arith, find-remove_ne j k m h, e.beq_iff i k, e.beq_iff i j, e.beq_iff k j)

  pub find-remove-none : (j k : K) (m : List (K × V)) → find j m ≡ none → find j (remove k m) ≡ none
  unfolding find remove
  find-remove-none j k [] h = refl
  find-remove-none j k ((i, v) ∷ m) h = ground (arith, find-remove-none j k m)

  pub find-retain-none :
      (j : K) (p : K → V → Bool) (m : List (K × V)) → find j m ≡ none → find j (retain p m) ≡ none
  unfolding find retain
  find-retain-none j p [] h = refl
  find-retain-none j p ((i, v) ∷ m) h = ground (arith, find-retain-none j p m)

  -- What a `retain` keeps under a key was there before, and passes the test.
  pub find-retain-some :
      (j : K) (p : K → V → Bool) (m : List (K × V)) (v : V)
      → Distinct m
      → find j (retain p m) ≡ some v
      → (find j m ≡ some v) × (p j v ≡ true)
  unfolding find retain
  find-retain-some j p [] v d h = cc
  find-retain-some j p ((i, w) ∷ m) v d h =
      ground (arith, find-retain-some j p m v d.1, e.beq_iff i j, find-retain-none j p m)

  pub find-update-none :
      (j k : K) (f : V → V) (m : List (K × V)) → find j m ≡ none → find j (update k f m) ≡ none
  unfolding find update
  find-update-none j k f [] h = refl
  find-update-none j k f ((i, v) ∷ m) h = ground (arith, find-update-none j k f m)

  pub remove-none : (k : K) (m : List (K × V)) → find k m ≡ none → remove k m ≡ m
  unfolding find remove
  remove-none k [] h = refl
  remove-none k ((i, v) ∷ m) h = ground (arith, remove-none k m)

  pub remove-Distinct : (k : K) (m : List (K × V)) → Distinct m → Distinct (remove k m)
  unfolding remove
  remove-Distinct k [] d = tt
  remove-Distinct k ((i, v) ∷ m) d =
      ground (arith, remove-Distinct k m d.1, find-remove-none i k m d.0)

  pub retain-Distinct : (p : K → V → Bool) (m : List (K × V)) → Distinct m → Distinct (retain p m)
  unfolding retain
  retain-Distinct p [] d = tt
  retain-Distinct p ((i, v) ∷ m) d =
      ground (arith, retain-Distinct p m d.1, find-retain-none i p m d.0)

  pub update-Distinct :
      (k : K) (f : V → V) (m : List (K × V)) → Distinct m → Distinct (update k f m)
  unfolding update
  update-Distinct k f [] d = tt
  update-Distinct k f ((i, v) ∷ m) d = (find-update-none i k f m d.0, update-Distinct k f m d.1)

  pub insert-Distinct : (k : K) (v : V) (m : List (K × V)) → Distinct m → Distinct (insert k v m)
  unfolding insert
  insert-Distinct k v m d = (find-remove_self k m, remove-Distinct k m d)

  pub length-remove-le : (k : K) (m : List (K × V)) → length (remove k m) ≤ length m
  unfolding remove
  length-remove-le k [] = omega arith
  length-remove-le k ((i, v) ∷ m) = ground (arith, length-remove-le k m)

  -- A key that is there goes.
  pub length-remove-lt :
      (k : K) (m : List (K × V)) (v : V) → find k m ≡ some v → length (remove k m) < length m
  unfolding find remove
  length-remove-lt k [] v h = cc
  length-remove-lt k ((i, w) ∷ m) v h = ground (arith, length-remove-lt k m v, length-remove-le k m)

  pub length-retain-le : (p : K → V → Bool) (m : List (K × V)) → length (retain p m) ≤ length m
  unfolding retain
  length-retain-le p [] = omega arith
  length-retain-le p ((i, v) ∷ m) = ground (arith, length-retain-le p m)

  pub length-update : (k : K) (f : V → V) (m : List (K × V)) → length (update k f m) ≡ length m
  unfolding update
  length-update k f [] = refl
  length-update k f ((i, v) ∷ m) = omega (arith, length-update k f m)

  module _ (size : V → ℕ) where
    pub total-retain-le :
        (p : K → V → Bool) (m : List (K × V)) → total size (retain p m) ≤ total size m
    unfolding retain
    total-retain-le p [] = omega arith
    total-retain-le p ((i, v) ∷ m) = ground (arith, total-retain-le p m)

    pub total-remove :
        (k : K) (m : List (K × V)) (v : V)
        → Distinct m
        → find k m ≡ some v
        → total size m ≡ size v + total size (remove k m)
    unfolding find remove
    total-remove k [] v d h = cc
    total-remove k ((i, w) ∷ m) v d h =
        ground (arith, total-remove k m v d.1, remove-none k m, e.beq_iff i k)

    pub total-update :
        (k : K) (f : V → V) (m : List (K × V))
        → ((v : V) → size (f v) ≡ size v)
        → total size (update k f m) ≡ total size m
    unfolding update
    total-update k f [] same = refl
    total-update k f ((i, v) ∷ m) same = ground (arith, total-update k f m same, same v)

-- A property of every entry, under the operations.
module _ {ℓ κ ι} {K : Type ℓ} {V : Type κ} ⦃e : Eq K⦄ (Q : K → V → Type ι) where
  abbrev pub AllEntries : List (K × V) → Type ι
  AllEntries [] = Unit
  AllEntries ((k, v) ∷ m) = Q k v × AllEntries m

  pub AllEntries-find :
      (k : K) (m : List (K × V)) (v : V) → AllEntries m → find k m ≡ some v → Q k v
  unfolding find
  AllEntries-find k [] v h z = cc
  AllEntries-find k ((j, w) ∷ m) v (q, h) z = elim (Bool-cases (e.beq j k)) [
    | inl same ↦ subst (λ i. Q i v) ((e.beq_iff j k).0 same) (subst (Q j) (ground arith) q)
    | inr other ↦ AllEntries-find k m v h (ground arith)
  ]

  pub AllEntries-remove : (k : K) (m : List (K × V)) → AllEntries m → AllEntries (remove k m)
  unfolding remove
  AllEntries-remove k [] h = tt
  AllEntries-remove k ((j, w) ∷ m) (q, h) = elim (Bool-cases (e.beq j k)) [
    | inl same ↦ rw same (AllEntries-remove k m h)
    | inr other ↦ rw other (q, AllEntries-remove k m h)
  ]

  pub AllEntries-retain :
      (p : K → V → Bool) (m : List (K × V)) → AllEntries m → AllEntries (retain p m)
  unfolding retain
  AllEntries-retain p [] h = tt
  AllEntries-retain p ((j, w) ∷ m) (q, h) = elim (Bool-cases (p j w)) [
    | inl kept ↦ rw kept (q, AllEntries-retain p m h)
    | inr gone ↦ rw gone (AllEntries-retain p m h)
  ]

  pub AllEntries-update :
      (k : K) (f : V → V) (m : List (K × V))
      → ((j : K) (v : V) → Q j v → Q j (f v))
      → AllEntries m
      → AllEntries (update k f m)
  unfolding update
  AllEntries-update k f [] keep h = tt
  AllEntries-update k f ((j, w) ∷ m) keep (q, h) = elim (Bool-cases (e.beq j k)) [
    | inl same ↦ rw same (keep j w q, AllEntries-update k f m keep h)
    | inr other ↦ rw other (q, AllEntries-update k f m keep h)
  ]
