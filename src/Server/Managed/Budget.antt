-- ===== src/Server/Managed/Budget.antt =====
-- server/src/managed.rs: when a recovery is started, and how one ends.
use moenotes_api.Prelude.{
  Bool, Option, [], add_one, ap, arith, false, if◌then◌else◌, is_some_num, none, not, refl, some,
  sym, true, ℕ, ◌&&◌, ◌==◌, ◌||◌, ◌∙◌, ◌∷◌, ◌≡◌,
}
use moenotes_api.Errors.{
  ErrorKind, Result, authentication, authentication_required, err, invalid_config, ok,
}
use moenotes_api.Server.Managed.{
  Phase, Setup, Spawn, State, Surroundings, is_closed, is_recovering, is_settled, observed,
  persistence_failed, recovered, recovered_phase, recovering, same_attempt, too_soon, unverified,
}
use moenotes_api.Server.Managed.Sync.{begin_sync}
use moenotes_api.Server.Managed.Lifecycle.{
  Exclusive, Step, System, begin_sync-quiet, checked, checks, observes, recovers, reloads,
}

-- The budget of a recovery: not spent in `s`, and spent in `t`. For one that is not initial it is one
-- for a generation, and one for the length of the pause; for an initial one it is one for a
-- generation and a revision of the input.
abbrev pub Spent : Setup → Surroundings → ℕ → State → State → Bool → Type 0
Spent u w g s t false =
    (is_some_num s.attempted g ≡ false)
    × (t.attempted ≡ some g)
    × (too_soon s.last_attempt w.now u.cooldown ≡ false)
    × (t.last_attempt ≡ some w.now)
Spent u w g s t true =
    (same_attempt (some (g, w.revision)) s.initial_attempted ≡ false)
    × (t.initial_attempted ≡ some (g, w.revision))

-- What an observation that starts a recovery has found, and leaves.
abbrev pub Starts :
    Setup → Surroundings → ℕ → Option ErrorKind → State → State × Option Spawn → Type 0
Starts u w g outcome s (t, none) = Unit
Starts u w g outcome s (t, some sp) =
    (sp.generation ≡ g)
    × (w.generation_locked ≡ g)
    × (w.stopped ≡ false)
    × (is_closed s.phase ≡ false)
    × (s.version_updating ≡ false)
    × (outcome ≡ some (if sp.initial then authentication_required else authentication))
    × (t.phase ≡ recovering)
    × (t.attempts ≡ add_one s.attempts)
    × Spent u w g s t sp.initial

-- An observation that starts a recovery has seen an authentication error of the current session (a
-- required one for an initial recovery), in an open phase, while versions are not being updated
-- and the service is not stopping; the phase is then `recovering`, the attempt is counted, and the
-- budget (generation and pause, or generation and input revision) was not spent and now is.
pub observed-Starts :
    (u : Setup) (w : Surroundings) (g : ℕ) (anonymous : Bool) (outcome : Option ErrorKind)
    (s : State)
    → Starts u w g outcome s (observed u w g anonymous outcome s)
unfolding observed
observed-Starts u w g anonymous outcome s = ground arith

abbrev pub is_persistence_failed : Phase → Bool
is_persistence_failed persistence_failed = true
is_persistence_failed _ = false

abbrev pub is_invalid_config : ErrorKind → Bool
is_invalid_config invalid_config = true
is_invalid_config _ = false

-- What the end of a recovery leaves.
abbrev pub Ended : Spawn → Result (Unit {0}) → ℕ → State → Type 0
Ended sp (ok _) g t =
    (t.phase ≡ (if sp.initial then unverified else recovered_phase)) × (t.last_error ≡ none)
Ended sp (err e) g t =
    (t.last_error ≡ some e.kind)
    × (is_persistence_failed t.phase
        ≡ (not (g == sp.generation) || (not sp.initial && is_invalid_config e.kind)))
    × (is_settled t.phase ≡ false)

-- After a recovery that succeeded the phase is unverified (an initial one) or recovered. After one
-- that failed its error is kept, the phase is not a ready one, and it is the failed persistence
-- exactly where the session was replaced meanwhile or a recovery that is not initial met an
-- invalid configuration.
pub recovered-Ended :
    (sp : Spawn) (result : Result (Unit {0})) (g : ℕ) (s : State)
    → Ended sp result g (recovered sp result g s)
unfolding recovered
recovered-Ended sp (ok _) g s = (refl, refl)
recovered-Ended sp (err e) g s = (refl, ground arith, ground arith)

abbrev IsReload : {u : Setup} {y z : System} → Step u y z → Type 0
IsReload (reloads replaced y) = Unit
IsReload _ = ⊥

observed-failed :
    (u : Setup) (w : Surroundings) (g : ℕ) (anonymous : Bool) (outcome : Option ErrorKind)
    (s : State)
    → s.phase ≡ persistence_failed
    → observed u w g anonymous outcome s ≡ (s, none)
unfolding observed
observed-failed u w g anonymous outcome s h = ground arith

both : {b : Bool} → b ≡ true → b ≡ false → ⊥
both h k = cc (h, k)

-- After a failed persistence every step other than a reload leaves the phase `persistence_failed`,
-- in a state where the tasks and the phase agree.
pub Step-failed :
    (u : Setup) {y z : System} (st : Step u y z)
    → Exclusive y
    → ¬ IsReload st
    → y.state.phase ≡ persistence_failed
    → z.state.phase ≡ persistence_failed
Step-failed u (observes w g anonymous outcome y) x n h =
    rw (observed-failed u w g anonymous outcome y.state h) h
Step-failed u (recovers y sp rest result g run) x n h =
    absurd (nothing (sym run ∙ x.otherwise_none (ap is_recovering h)))
  where
    nothing : sp ∷ rest ≡ [] → ⊥
    nothing e = cc
Step-failed u (reloads replaced y) x n h = absurd (n tt)
Step-failed u (checks y t begun) x n h = absurd (closed begun)
  where
    closed : begin_sync y.state ≡ some t → ⊥
    closed e = both (ap is_closed h) (begin_sync-quiet y.state t e).0
Step-failed u (checked y g result followed w checking) x n h =
    absurd (both (ap is_closed h) (x.apart (sym x.updating ∙ checking)))
