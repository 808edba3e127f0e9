-- ===== src/Server/Managed/Following.antt =====
-- server/src/managed/versions.rs: which client version a check may adopt, and what it does to the
-- session's state.
use moenotes_api.Prelude.{
  All, Bool, Bool-cases, List, Option, String, [], ap, arith, false, if◌then◌else◌, inl, inr,
  is_some_num, len, length, length-append, none, refl, some, subst, sym, true, ℕ, ◌&&◌, ◌++◌, ◌+◌,
  ◌<◌, ◌^◌, ◌∙◌, ◌∷◌, ◌≡◌, ◌≤◌,
}
use moenotes_api.Errors.{ClientError, Result, client_update_required, err, ok}
use moenotes_api.Errors.Laws.{Result-cases}
use moenotes_api.Client.Patch.{patch_successors, patch_version}
use moenotes_api.Client.Patch.Laws.{NextPatches, patch_successors-NextPatches}
use moenotes_api.Server.Managed.{State}
use moenotes_api.Server.Managed.Sync.{
  ClientAfter, check_versions, client_candidates, finish_sync, is_changed, is_ok_result, is_some,
  try_candidates,
}

abbrev pub Refused : (String → Result Bool) → String → Type 0
Refused adopt c = (e : ClientError) × (adopt c ≡ err e) × (client_update_required e ≡ true)

-- Where a candidate is adopted, the game has accepted it and has refused all before it.
abbrev pub Adopted :
    (String → Result Bool) → Result Bool → List String → Result Bool × Option String → Type 0
Adopted adopt first cs (r, none) = Unit
Adopted adopt first cs (r, some c) =
    (before : List String) × (after : List String) × (cs ≡ before ++ c ∷ after)
    × All (Refused adopt) before
    × (adopt c ≡ r)
    × (is_ok_result r ≡ true)

Adopted-cons :
    (adopt : String → Result Bool) (first : Result Bool) (d : String) (cs : List String)
    (r : Result Bool × Option String)
    → Refused adopt d
    → Adopted adopt first cs r
    → Adopted adopt first (d ∷ cs) r
Adopted-cons adopt first d cs (r, none) denied a = tt
Adopted-cons adopt first d cs (r, some c) denied (before, after, split, refused, got, good) =
    (d ∷ before, after, ap (λ l. d ∷ l) split, (denied, refused), got, good)

pub try_candidates-Adopted :
    (adopt : String → Result Bool) (first : Result Bool) (cs : List String)
    → Adopted adopt first cs (try_candidates adopt first cs)
unfolding try_candidates
try_candidates-Adopted adopt first [] = tt
try_candidates-Adopted adopt first (c ∷ cs) = elim (Result-cases (adopt c)) [
  | inl (b, z) ↦ rw (z, try_candidates) ([], cs, refl, tt, z, refl)
  | inr (e, z) ↦ elim (Bool-cases (client_update_required e)) [
    | inl denied ↦
        rw (z, try_candidates, denied)
          (Adopted-cons adopt first c cs _ (e, z, denied) (try_candidates-Adopted adopt first cs))
    | inr other ↦ rw (z, try_candidates, other) tt
  ]
]

NextPatches-at :
    (major minor patch step : ℕ) (before : List String) (c : String) (after : List String)
    → NextPatches major minor patch step (before ++ c ∷ after)
    → patch_version c ≡ some (major, minor, patch + (step + length before))
NextPatches-at major minor patch step [] c after (h, _) =
    h ∙ ap (λ x. some (major, minor, x)) (omega arith)
NextPatches-at major minor patch step (d ∷ before) c after (_, h) =
    NextPatches-at major minor patch (step + 1) before c after h
    ∙ ap (λ x. some (major, minor, x)) (omega arith)

-- What a check may follow: only where it was asked to and the game demanded an update, to a version
-- that the game accepted, a patch release at most `client_candidates` behind the previous one.
abbrev pub Follows :
    Bool
    → String
    → Result Bool
    → (String → Result Bool)
    → ℕ
    → ℕ
    → ℕ
    → Result Bool × Option String
    → Type 0
Follows follow previous first adopt major minor patch (r, none) = Unit
Follows follow previous first adopt major minor patch (r, some c) =
    (follow ≡ true)
    × ((e : ClientError) × (first ≡ err e) × (client_update_required e ≡ true))
    × (adopt c ≡ r)
    × (is_ok_result r ≡ true)
    × ((step : ℕ) × (1 ≤ step)
        × (step ≤ client_candidates)
        × (patch_version c ≡ some (major, minor, patch + step)))

module _ (previous : String) (adopt : String → Result Bool) (major minor patch : ℕ) where
  Adopted-Follows :
      (e : ClientError) (cs : List String) (r : Result Bool × Option String)
      → client_update_required e ≡ true
      → NextPatches major minor patch 1 cs
      → length cs ≡ client_candidates
      → Adopted adopt (err e) cs r
      → Follows true previous (err e) adopt major minor patch r
  Adopted-Follows e cs (r, none) demand ns len a = tt
  Adopted-Follows e cs (r, some c) demand ns three (before, after, split, refused, got, good) = (
    refl,
    (e, refl, demand),
    got,
    good,
    (
      1 + length before,
      omega arith,
      omega (arith, sym three ∙ ap length split, length-append before (c ∷ after)),
      NextPatches-at major minor patch 1 before c after
          (subst (NextPatches major minor patch 1) split ns),
    ),
  )

  -- For a previous client version MAJOR.MINOR.PATCH whose patch is more than three below 10^9: a
  -- check adopts another client version only if it may follow updates and the game's answer
  -- demanded one, the game accepted the version, and it is one of the next three patch releases of
  -- the same major and minor release.
  pub check_versions-Follows :
      (follow : Bool) (first : Result Bool)
      → patch_version previous ≡ some (major, minor, patch)
      → patch + client_candidates < 10 ^ 9
      → Follows follow previous first adopt major minor patch
          (check_versions follow previous first adopt)
  unfolding check_versions
  check_versions-Follows follow (ok b) v fits = tt
  check_versions-Follows false (err e) v fits = tt
  check_versions-Follows true (err e) v fits = elim (Bool-cases (client_update_required e)) [
    | inr other ↦ rw other tt
    | inl demand ↦
        let (ns, three) =
          patch_successors-NextPatches previous client_candidates major minor patch v fits in
        rw demand (
          Adopted-Follows e _ _ demand ns three
            (try_candidates-Adopted adopt (err e) (patch_successors previous client_candidates)))
  ]

-- Where this generation's recovery was attempted and a check changes the versions, the attempt
-- counts as spent for the new generation, unless a client update was followed that a recovery of
-- this generation had been refused for: then it is given back.
finish_sync-budget :
    (g : ℕ) (result : Result Bool) (followed : Option String) (w : ClientAfter) (s : State)
    → s.attempted ≡ some g
    → is_changed result ≡ true
    → (finish_sync g result followed w s).attempted ≡ (
        if is_some followed && is_some_num s.version_rejected_attempt g
        then none
        else some w.generation)
unfolding finish_sync
finish_sync-budget g result followed w s h c = ground arith

-- A check that changes nothing leaves phase, error and budgets as they are.
pub finish_sync_unchanged :
    (g : ℕ) (result : Result Bool) (followed : Option String) (w : ClientAfter) (s : State)
    → is_changed result ≡ false
    → let t = finish_sync g result followed w s in
      (t.phase ≡ s.phase)
      × (t.last_error ≡ s.last_error)
      × (t.attempted ≡ s.attempted)
      × (t.initial_attempted ≡ s.initial_attempted)
      × (t.version_rejected_attempt ≡ s.version_rejected_attempt)
unfolding finish_sync
finish_sync_unchanged g result followed w s c = ground arith
