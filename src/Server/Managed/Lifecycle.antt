-- ===== src/Server/Managed/Lifecycle.antt =====
-- server/src/managed.rs and managed/versions.rs: the tasks of one session. At most one recovery
-- runs, never beside a version check, and the phase says which.
use moenotes_api.Prelude.{
  Bool, Bool-cases, List, Option, String, [], ap, arith, false, if◌then◌else◌, inl, inr, length,
  none, refl, some, suc, sym, true, ℕ, ◌&&◌, ◌∙◌, ◌∷◌, ◌≡◌,
}
use moenotes_api.Errors.{ErrorKind, Result, err, ok}
use moenotes_api.Server.Managed.{
  Phase, Setup, Spawn, State, Surroundings, is_closed, is_recovering, new_state, observed,
  recovered, recovering, reload,
}
use moenotes_api.Server.Managed.Sync.{ClientAfter, begin_sync, finish_sync}

-- A session with the recoveries that are running, and whether a version check is.
pub record System : Type 0 where
  pub state : State
  pub running : List Spawn
  pub checking : Bool

abbrev pub with_spawn : System → State × Option Spawn → System
with_spawn y (t, none) = record y { state = t }
with_spawn y (t, some sp) = record y { state = t; running = sp ∷ y.running }

pub data Step (u : Setup) : System → System → Type 0 where
  observes :
      (w : Surroundings) (g : ℕ) (anonymous : Bool) (outcome : Option ErrorKind) (y : System)
      → Step u y (with_spawn y (observed u w g anonymous outcome y.state))
  recovers :
      (y : System) (sp : Spawn) (rest : List Spawn) (result : Result (Unit {0})) (g : ℕ)
      → y.running ≡ sp ∷ rest
      → Step u y (record y { state = recovered sp result g y.state; running = rest })
  reloads :
      (replaced : Result (Unit {0})) (y : System)
      → Step u y (record y { state = (reload replaced y.state).1 })
  checks :
      (y : System) (t : State)
      → begin_sync y.state ≡ some t
      → Step u y (record y { state = t; checking = true })
  checked :
      (y : System) (g : ℕ) (result : Result Bool) (followed : Option String) (w : ClientAfter)
      → y.checking ≡ true
      → Step u y (record y { state = finish_sync g result followed w y.state; checking = false })

pub data Reach (u : Setup) : System → Type 0 where
  start : Reach u (record { state = new_state; running = []; checking = false })
  next : {y z : System} → Reach u y → Step u y z → Reach u z

-- The phase is `recovering` exactly while one recovery runs; a version check runs in an
-- open phase only.
pub record Exclusive (y : System) : Type 0 where
  pub recovering_one : is_recovering y.state.phase ≡ true → length y.running ≡ 1
  pub otherwise_none : is_recovering y.state.phase ≡ false → y.running ≡ []
  pub updating : y.checking ≡ y.state.version_updating
  pub apart : y.state.version_updating ≡ true → is_closed y.state.phase ≡ false

-- What an observation does to the phase, seen from the tasks.
abbrev pub Observed : State → State × Option Spawn → Type 0
Observed s (t, none) =
    (t.version_updating ≡ s.version_updating)
    × (is_recovering t.phase ≡ is_recovering s.phase)
    × (is_closed t.phase ≡ is_closed s.phase)
Observed s (t, some sp) =
    (t.version_updating ≡ s.version_updating)
    × (is_recovering s.phase ≡ false)
    × (t.phase ≡ recovering)
    × (s.version_updating ≡ false)

observed-Observed :
    (u : Setup) (w : Surroundings) (g : ℕ) (anonymous : Bool) (outcome : Option ErrorKind)
    (s : State)
    → Observed s (observed u w g anonymous outcome s)
unfolding observed
observed-Observed u w g anonymous outcome s = ground arith

with_spawn-Exclusive :
    (y : System) (r : State × Option Spawn)
    → Observed y.state r
    → Exclusive y
    → Exclusive (with_spawn y r)
with_spawn-Exclusive y (t, none) (same, phase, closed) x = record {
  recovering_one = λ h. x.recovering_one (sym phase ∙ h);
  otherwise_none = λ h. x.otherwise_none (sym phase ∙ h);
  updating = x.updating ∙ sym same;
  apart = λ h. closed ∙ x.apart (sym same ∙ h);
}
with_spawn-Exclusive y (t, some sp) (same, open_before, now_recovering, no_check) x = record {
  recovering_one = λ h. ap (λ l. suc (length l)) (x.otherwise_none open_before);
  otherwise_none = λ h. absurd (busy h);
  updating = x.updating ∙ sym same;
  apart = λ h. absurd (idle h);
}
  where
    busy : is_recovering t.phase ≡ false → ⊥
    busy h = cc (h, ap is_recovering now_recovering)

    idle : t.version_updating ≡ true → ⊥
    idle h = cc (h, same, no_check)

recovered-phase :
    (sp : Spawn) (result : Result (Unit {0})) (g : ℕ) (s : State)
    → (is_recovering (recovered sp result g s).phase ≡ false)
      × ((recovered sp result g s).version_updating ≡ s.version_updating)
unfolding recovered
recovered-phase sp (ok _) g s = ground arith
recovered-phase sp (err e) g s = ground arith

open_quiet : (p : Phase) → is_closed p ≡ false → is_recovering p ≡ false
open_quiet p h = ground arith

recovers-Exclusive :
    (y : System) (sp : Spawn) (rest : List Spawn) (t : State)
    → is_recovering t.phase ≡ false
    → t.version_updating ≡ y.state.version_updating
    → y.running ≡ sp ∷ rest
    → Exclusive y
    → Exclusive (record y { state = t; running = rest })
recovers-Exclusive y sp rest t quiet same run x = record {
  recovering_one = λ h. absurd (loud h);
  otherwise_none = λ h. elim (Bool-cases (is_recovering y.state.phase)) [
    | inl one ↦ no_rest (sym (ap length run) ∙ x.recovering_one one)
    | inr none_runs ↦ absurd (nothing (sym run ∙ x.otherwise_none none_runs))
  ];
  updating = x.updating ∙ sym same;
  apart = λ h. absurd (busy (x.apart (sym same ∙ h)));
}
  where
    nothing : sp ∷ rest ≡ [] → ⊥
    nothing e = cc

    busy : is_closed y.state.phase ≡ false → ⊥
    busy o = nothing (sym run ∙ x.otherwise_none (open_quiet y.state.phase o))

    loud : is_recovering t.phase ≡ true → ⊥
    loud h = cc (h, quiet)

    no_rest : length (sp ∷ rest) ≡ 1 → rest ≡ []
    no_rest e = ground arith

reload-quiet :
    (replaced : Result (Unit {0})) (s : State)
    → let t = (reload replaced s).1 in
      (is_recovering t.phase ≡ is_recovering s.phase)
      × (t.version_updating ≡ s.version_updating)
      × (s.version_updating ≡ true → is_closed t.phase ≡ is_closed s.phase)
unfolding reload
reload-quiet replaced s = (ground arith, ground arith, λ h. ground arith)

pub begin_sync-quiet :
    (s t : State)
    → begin_sync s ≡ some t
    → (is_closed s.phase ≡ false) × (t ≡ record s { version_updating = true })
unfolding begin_sync
begin_sync-quiet s t h = ground arith

finish_sync-quiet :
    (g : ℕ) (result : Result Bool) (followed : Option String) (w : ClientAfter) (s : State)
    → is_recovering s.phase ≡ false
    → (is_recovering (finish_sync g result followed w s).phase ≡ false)
      × ((finish_sync g result followed w s).version_updating ≡ false)
unfolding finish_sync
finish_sync-quiet g result followed w s h = ground arith

pub Step-Exclusive : (u : Setup) {y z : System} → Step u y z → Exclusive y → Exclusive z
Step-Exclusive u (observes w g anonymous outcome y) x =
    with_spawn-Exclusive y _ (observed-Observed u w g anonymous outcome y.state) x
Step-Exclusive u (recovers y sp rest result g run) x =
    let (quiet, same) = recovered-phase sp result g y.state in
    recovers-Exclusive y sp rest _ quiet same run x
Step-Exclusive u (reloads replaced y) x =
    let (phase, same, closed) = reload-quiet replaced y.state in
    record {
      recovering_one = λ h. x.recovering_one (sym phase ∙ h);
      otherwise_none = λ h. x.otherwise_none (sym phase ∙ h);
      updating = x.updating ∙ sym same;
      apart = λ h. closed (sym same ∙ h) ∙ x.apart (sym same ∙ h);
    }
Step-Exclusive u (checks y t begun) x =
    let (quiet, is_t) = begin_sync-quiet y.state t begun in
    rw is_t (record {
      recovering_one = x.recovering_one;
      otherwise_none = x.otherwise_none;
      updating = refl;
      apart = λ h. quiet;
    })
Step-Exclusive u (checked y g result followed w checking) x =
    let (quiet, idle) =
      finish_sync-quiet g result followed w y.state
        (open_quiet _ (x.apart (sym x.updating ∙ checking))) in
    record {
      recovering_one = λ h. absurd (both h quiet);
      otherwise_none = λ h. x.otherwise_none (open_quiet _ (x.apart (sym x.updating ∙ checking)));
      updating = sym idle;
      apart = λ h. absurd (both h idle);
    }
  where
    both : {b : Bool} → b ≡ true → b ≡ false → ⊥
    both h k = cc (h, k)

pub Reach-Exclusive : (u : Setup) {y : System} → Reach u y → Exclusive y
Reach-Exclusive u start = record {
  recovering_one = λ h. cc;
  otherwise_none = λ h. refl;
  updating = refl;
  apart = λ h. refl;
}
Reach-Exclusive u (next r st) = Step-Exclusive u st (Reach-Exclusive u r)

-- The tasks of a session, as numbers: a recovery runs exactly while the phase says so and at most one
-- does, and a version check runs exactly while the state says so, and then in an open phase.
abbrev pub Tasks : System → Type 0
Tasks y =
    (length y.running ≡ (if is_recovering y.state.phase then 1 else 0))
    × (y.checking ≡ y.state.version_updating)
    × ((y.state.version_updating && is_closed y.state.phase) ≡ false)

-- Whatever is observed, recovered, reloaded and checked, in whatever order: one recovery runs
-- while the phase is `recovering` and none otherwise, a version check runs exactly while
-- `version_updating` is set, and then the phase is neither `recovering` nor `persistence_failed`.
pub Reach-Tasks : (u : Setup) {y : System} → Reach u y → Tasks y
Reach-Tasks u {y} r = (running, x.updating, apart)
  where
    x : Exclusive y
    x = Reach-Exclusive u r

    running : length y.running ≡ (if is_recovering y.state.phase then 1 else 0)
    running = elim (Bool-cases (is_recovering y.state.phase)) [
      | inl h ↦ rw h (x.recovering_one h)
      | inr h ↦ rw h (ap length (x.otherwise_none h))
    ]

    apart : (y.state.version_updating && is_closed y.state.phase) ≡ false
    apart = elim (Bool-cases y.state.version_updating) [
      | inl h ↦ rw (h, x.apart h) refl
      | inr h ↦ rw h refl
    ]
