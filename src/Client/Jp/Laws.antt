-- ===== src/Client/Jp/Laws.antt =====
-- client/src/jp.rs: the asset version is that of the newest entry that the client is new enough for.
use moenotes_api.Prelude.{
  Bool-cases, List, Option, Option-cases, [], arith, codes, false, get_elem?, inl, inr, none, refl,
  some, subst, suc, sym, true, zero, ℕ, ◌&&◌, ◌∙◌, ◌∷◌, ◌≡◌, ◌⊎◌,
}
use moenotes_api.Client.Jp.{Entry, best_entry, consider, is_better, numeric_version, version_leb}

version_leb_refl : (xs : List ℕ) → version_leb xs xs ≡ true
version_leb_refl [] = refl
version_leb_refl (x ∷ xs) = ground (arith, version_leb_refl xs)

version_leb_trans :
    (xs ys zs : List ℕ)
    → version_leb xs ys ≡ true
    → version_leb ys zs ≡ true
    → version_leb xs zs ≡ true
version_leb_trans [] ys zs h k = refl
version_leb_trans (x ∷ xs) [] zs h k = cc
version_leb_trans (x ∷ xs) (y ∷ ys) [] h k = cc
version_leb_trans (x ∷ xs) (y ∷ ys) (z ∷ zs) h k = ground (arith, version_leb_trans xs ys zs)

version_leb-total : (xs ys : List ℕ) → version_leb xs ys ≡ false → version_leb ys xs ≡ true
version_leb-total [] ys h = cc
version_leb-total (x ∷ xs) [] h = refl
version_leb-total (x ∷ xs) (y ∷ ys) h = ground (arith, version_leb-total xs ys)

-- An entry that the client may use: its least client version is readable and not newer.
abbrev pub Usable : List ℕ → List ℕ → Option Entry → Type 0
Usable current m none = ⊥
Usable current m (some e) =
    (numeric_version (codes e.min) ≡ some m) × (version_leb m current ≡ true)

-- The best entry so far, against the list behind it: no usable one is newer.
abbrev pub Dominates : List ℕ → Option (List ℕ × Entry) → List ℕ → Type 0
Dominates current none m = ⊥
Dominates current (some (top, e)) m = version_leb m top ≡ true

consider-grows :
    (current : List ℕ) (best : Option (List ℕ × Entry)) (e : Option Entry) (m : List ℕ)
    → Dominates current best m
    → Dominates current (consider current best e) m
unfolding consider
consider-grows current best none m h = h
consider-grows current none (some e) m h = absurd h
consider-grows current (some (old, b)) (some e) m h =
    elim (Option-cases (numeric_version (codes e.min))) [
      | inl z ↦ rw (z, consider) h
      | inr (new, z) ↦
          elim (Bool-cases (version_leb new current && is_better (some (old, b)) new)) [
            | inl y ↦
                rw (z, consider, y)
                  (version_leb_trans m old new h (version_leb-total new old (ground arith)))
            | inr y ↦ rw (z, consider, y) h
          ]
    ]

consider-takes :
    (current : List ℕ) (best : Option (List ℕ × Entry)) (e : Option Entry) (m : List ℕ)
    → Usable current m e
    → Dominates current (consider current best e) m
unfolding consider
consider-takes current best none m usable = absurd usable
consider-takes current none (some e) m (read, fits) = rw (read, consider, fits) (version_leb_refl m)
consider-takes current (some (old, b)) (some e) m (read, fits) =
    elim (Bool-cases (version_leb m old)) [
      | inl y ↦ rw (read, consider, fits, y) y
      | inr y ↦ rw (read, consider, fits, y) (version_leb_refl m)
    ]

best_entry-grows :
    (current : List ℕ) (es : List (Option Entry)) (best : Option (List ℕ × Entry)) (m : List ℕ)
    → Dominates current best m
    → Dominates current (best_entry current best es) m
unfolding best_entry
best_entry-grows current [] best m h = h
best_entry-grows current (e ∷ es) best m h =
    best_entry-grows current es (consider current best e) m (consider-grows current best e m h)

best_entry-Dominates :
    (current : List ℕ) (es : List (Option Entry)) (best : Option (List ℕ × Entry)) (i : ℕ)
    (e : Option Entry) (m : List ℕ)
    → get_elem? es i ≡ some e
    → Usable current m e
    → Dominates current (best_entry current best es) m
unfolding best_entry
best_entry-Dominates current [] best i e m at usable = cc
best_entry-Dominates current (x ∷ es) best zero e m at usable =
    best_entry-grows current es (consider current best x) m
      (consider-takes current best x m (subst (Usable current m) same usable))
  where
    same : e ≡ x
    same = cc
best_entry-Dominates current (x ∷ es) best (suc i) e m at usable =
    best_entry-Dominates current es (consider current best x) i e m at usable

-- A picked entry is one of the list, and one that the client may use.
abbrev pub Picked : List ℕ → List (Option Entry) → Option (List ℕ × Entry) → Type 0
Picked current es none = Unit
Picked current es (some (m, e)) =
    ((i : ℕ) × (get_elem? es i ≡ some (some e))) × Usable current m (some e)

Picked-cons :
    (current : List ℕ) (x : Option Entry) (es : List (Option Entry)) (b : Option (List ℕ × Entry))
    → Picked current es b
    → Picked current (x ∷ es) b
Picked-cons current x es none h = tt
Picked-cons current x es (some (m, e)) ((i, at), h) = ((suc i, at), h)

-- One round keeps what it has, or takes its element, which is then usable.
consider-cases :
    (current : List ℕ) (best : Option (List ℕ × Entry)) (e : Entry)
    → (consider current best (some e) ≡ best)
      ⊎ ((m : List ℕ) × (consider current best (some e) ≡ some (m, e)) × Usable current m (some e))
unfolding consider
consider-cases current best e = elim (Option-cases (numeric_version (codes e.min))) [
  | inl z ↦ inl (rw (z, consider) refl)
  | inr (m, z) ↦ elim (Bool-cases (version_leb m current && is_better best m)) [
    | inl y ↦ inr (m, rw (z, consider, y) refl, (z, ground arith))
    | inr y ↦ inl (rw (z, consider, y) refl)
  ]
]

-- The loop gives what it started from, or an entry of the list.
best_entry-Picked :
    (current : List ℕ) (es : List (Option Entry)) (best : Option (List ℕ × Entry))
    → (best_entry current best es ≡ best) ⊎ Picked current es (best_entry current best es)
unfolding best_entry
best_entry-Picked current [] best = inl refl
best_entry-Picked current (x ∷ es) best =
    elim (best_entry-Picked current es (consider current best x)) [
      | inr h ↦ inr (Picked-cons current x es _ h)
      | inl kept ↦ of_first x kept
    ]
  where
    of_first :
        (y : Option Entry)
        → best_entry current (consider current best y) es ≡ consider current best y
        → (best_entry current (consider current best y) es ≡ best)
          ⊎ Picked current (y ∷ es) (best_entry current (consider current best y) es)
    of_first none kept = inl kept
    of_first (some e) kept = elim (consider-cases current best e) [
      | inl same ↦ inl (kept ∙ same)
      | inr (m, taken, usable) ↦
          inr (subst (Picked current (some e ∷ es)) (sym (kept ∙ taken)) ((0, refl), usable))
    ]

-- Where a live entry is one that the client may use (its least client version is readable and not
-- newer than the client), the loop selects an entry of the list that the client may use too, and
-- whose least client version is not older than that of the first.
pub best_entry-Picked_newest :
    (current : List ℕ) (es : List (Option Entry)) (i : ℕ) (e : Entry) (m : List ℕ)
    → get_elem? es i ≡ some (some e)
    → Usable current m (some e)
    → (top : List ℕ) × (b : Entry) × (best_entry current none es ≡ some (top, b))
      × ((j : ℕ) × (get_elem? es j ≡ some (some b)))
      × Usable current top (some b)
      × (version_leb m top ≡ true)
best_entry-Picked_newest current es i e m at usable =
    of_best (best_entry current none es) refl
      (best_entry-Dominates current es none i (some e) m at usable)
  where
    of_best :
        (b : Option (List ℕ × Entry))
        → best_entry current none es ≡ b
        → Dominates current b m
        → (top : List ℕ) × (b : Entry) × (best_entry current none es ≡ some (top, b))
          × ((j : ℕ) × (get_elem? es j ≡ some (some b)))
          × Usable current top (some b)
          × (version_leb m top ≡ true)
    of_best none z d = absurd d
    of_best (some (top, b)) z d = elim (best_entry-Picked current es none) [
      | inl nothing ↦ absurd (no_pick (sym nothing ∙ z))
      | inr picked ↦
          let (place, fits) = subst (Picked current es) z picked in (top, b, z, place, fits, d)
    ]
      where
        no_pick : {A : Type 0} {a : A} → none ≡ some a → ⊥
        no_pick q = cc
