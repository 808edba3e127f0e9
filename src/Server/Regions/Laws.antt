-- ===== src/Server/Regions/Laws.antt =====
-- server/src/regions.rs: which pools a server has.
use moenotes_api.Prelude.{
  Bool, Bool-cases, List, Option, Option-cases, [], ap, false, if◌then◌else◌, inl, inr, is_none,
  none, refl, some, subst, sym, true, ◌∙◌, ◌∷◌, ◌≡◌,
}
use moenotes_api.Errors.{err, error_of, guard, invalid_config, ok, ◌>>=◌}
use moenotes_api.Errors.Laws.{ok->>=}
use moenotes_api.Table.{Distinct, beq_refl, find, insert}
use moenotes_api.Table.Laws.{insert-Distinct, remove-none}
use moenotes_api.Server.Regions.{
  Region, RegionClients, collect, default_present, pool_of, region_beq, region_beq_iff, region_eq,
  with_pools,
}

abbrev or_else : {P : Type 0} → Option P → Option P → Option P
or_else none p = p
or_else (some q) p = some q

module _ {P : Type 0} where
  find-insert :
      (r j : Region) (p : P) (before : List (Region × P))
      → find j before ≡ none
      → find r (insert j p before) ≡ (if region_beq j r then some p else find r before)
  unfolding find insert
  find-insert r j p before z = rw (remove-none j before z) refl

  collect-find :
      (pools before built : List (Region × P)) (r : Region)
      → collect pools before ≡ ok built
      → find r built ≡ or_else (find r before) (find r pools)
  unfolding collect find
  collect-find [] before built r h = elim (Option-cases (find r before)) [
    | inl z ↦ rw z (ap (find r) (same h) ∙ z)
    | inr (p, z) ↦ rw z (ap (find r) (same h) ∙ z)
  ]
    where
      same : ok before ≡ ok built → built ≡ before
      same e = cc
  collect-find ((j, p) ∷ pools) before built r h = elim (Option-cases (find j before)) [
    | inr (q, z) ↦ absurd (refused (rw (z, collect) at h))
    | inl z ↦
        let rest = collect-find pools (insert j p before) built r (rw (z, collect) at h) in
        elim (Bool-cases (region_beq j r)) [
          | inl same ↦
              let free : find r before ≡ none =
                subst (λ x. find x before ≡ none) ((region_beq_iff j r).0 same) z in
              rw (same, free) (rest ∙ rw (find-insert r j p before z, same) refl)
          | inr other ↦ rw other (rest ∙ rw (find-insert r j p before z, other) refl)
        ]
  ]
    where
      refused : {x : List (Region × P)} → err (error_of invalid_config) ≡ ok x → ⊥
      refused e = cc

  collect-Distinct :
      (pools before built : List (Region × P))
      → collect pools before ≡ ok built
      → Distinct before
      → Distinct built
        × Distinct pools
        × ((r : Region) → is_none (find r before) ≡ false → find r pools ≡ none)
  unfolding collect find
  collect-Distinct [] before built h d = (subst Distinct (same h) d, tt, λ r x. refl)
    where
      same : ok before ≡ ok built → before ≡ built
      same e = cc
  collect-Distinct ((j, p) ∷ pools) before built h d = elim (Option-cases (find j before)) [
    | inr (q, z) ↦ absurd (refused (rw (z, collect) at h))
    | inl z ↦
        let (db, dp, apart) =
          collect-Distinct pools (insert j p before) built (rw (z, collect) at h)
            (insert-Distinct j p before d) in
        (
          db,
          (apart j (rw (find-insert j j p before z, beq_refl j) refl), dp),
          λ r x. elim (Bool-cases (region_beq j r)) [
            | inl same ↦ absurd (taken r same z x)
            | inr other ↦ rw other (apart r (rw (find-insert r j p before z, other) x))
          ],
        )
  ]
    where
      refused : {x : List (Region × P)} → err (error_of invalid_config) ≡ ok x → ⊥
      refused e = cc

      taken :
          (r : Region)
          → region_beq j r ≡ true
          → find j before ≡ none
          → is_none (find r before) ≡ false
          → ⊥
      taken r same z x =
          cc (x, ap is_none (subst (λ y. find y before ≡ none) ((region_beq_iff j r).0 same) z))

  -- Pools are accepted only with at most one for a region and with the default region among them,
  -- and then each region is served by the pool that was given for it, if any.
  pub with_pools-pool_of :
      (default : Option Region) (pools : List (Region × P)) (c : RegionClients P) (r : Region)
      → with_pools default pools ≡ ok c
      → Distinct pools
        × (default_present default pools ≡ true)
        × (c.default_region ≡ default)
        × (pool_of c r ≡ find r pools)
  unfolding with_pools find
  with_pools-pool_of default pools c r h =
      let (built, made, rest) = ok->>= (collect pools []) _ h in
      let (_, dp, _) = collect-Distinct pools [] built made tt in
      let (present, is_c) = kept built (default_present default built) rest in
      (
        dp,
        same_default default built (λ x. collect-find pools [] built x made) present,
        rw (sym is_c) refl,
        rw (sym is_c) (collect-find pools [] built r made),
      )
    where
      kept :
          (built : List (Region × P)) (b : Bool)
          → (guard b invalid_config >>= λ _.
              ok (record { backends = built; default_region = default }))
            ≡ ok c
          → (b ≡ true) × (record { backends = built; default_region = default } ≡ c)
      kept built true e = (refl, cc)
      kept built false e = cc

      same_default :
          (d : Option Region) (built : List (Region × P))
          → ((x : Region) → find x built ≡ find x pools)
          → default_present d built ≡ true
          → default_present d pools ≡ true
      same_default none built f p = refl
      same_default (some x) built f p = rw (sym (f x)) p
