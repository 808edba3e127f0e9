-- ===== src/Server/Managed.antt =====
-- server/src/managed.rs: the lifecycle of one session: what query results do to its phase, and when
-- a recovery is started. The recovery itself is a task of its own: `observed` says whether one is
-- spawned, `recovered` is its end.
pub mod Sync
pub mod Lifecycle
pub mod Budget
pub mod Following
mod Tests
use moenotes_api.Prelude.{
  Bool, Option, String, add_one, false, if◌then◌else◌, is_none, is_some_num, ltb, none, not, some,
  true, ℕ, ◌&&◌, ◌-◌, ◌==◌, ◌||◌,
}
use moenotes_api.Errors.{
  ClientError, ErrorKind, Result, authentication, authentication_required, client_update_required,
  device_conflict, err, error_of, guard, invalid_config, ok, queue_full, version,
}

pub data Phase : Type 0 where
  unverified ready recovering recovered_phase reauthentication_required version_blocked conflicting
        persistence_failed :
      Phase

pub record DataVersions : Type 0 where
  pub master_version : String
  pub resource_version : String

pub record VersionSyncStatus : Type 0 where
  pub interval_seconds : ℕ
  pub current : Option DataVersions
  pub client_version : String
  pub follow_client_updates : Bool
  pub checks : ℕ
  pub updates : ℕ
  pub client_updates : ℕ
  pub last_checked_at : Option ℕ
  pub last_error : Option ErrorKind

-- Generations and 32-byte input revisions are numbers.
pub record State : Type 0 where
  pub version_updating : Bool
  pub version_sync : Option VersionSyncStatus
  pub phase : Phase
  pub attempts : ℕ
  pub successes : ℕ
  pub attempted : Option ℕ
  pub initial_attempted : Option (ℕ × Option ℕ)
  pub version_rejected_attempt : Option ℕ
  pub last_attempt : Option ℕ
  pub last_error : Option ErrorKind

abbrev pub new_state : State
new_state = record {
  version_updating = false;
  version_sync = none;
  phase = unverified;
  attempts = 0;
  successes = 0;
  attempted = none;
  initial_attempted = none;
  version_rejected_attempt = none;
  last_attempt = none;
  last_error = none;
}

-- The fields of `ManagedClient` that do not change: whether there is a `recovery` and an
-- `initial_loader`, and the pause between recoveries.
pub record Setup : Type 0 where
  pub has_recovery : Bool
  pub has_loader : Bool
  pub cooldown : ℕ

-- What `observed` reads from outside: the inner client's generation before and under the lock, the
-- stop token, the loader's `input_revision` and the clock.
pub record Surroundings : Type 0 where
  pub generation : ℕ
  pub generation_locked : ℕ
  pub stopped : Bool
  pub revision : Option ℕ
  pub now : ℕ

-- A recovery that is to be spawned.
pub record Spawn : Type 0 where
  pub initial : Bool
  pub generation : ℕ

abbrev pub is_closed : Phase → Bool
is_closed recovering = true
is_closed persistence_failed = true
is_closed _ = false

abbrev pub is_recovering : Phase → Bool
is_recovering recovering = true
is_recovering _ = false

abbrev pub is_required : Option ErrorKind → Bool
is_required (some authentication_required) = true
is_required _ = false

abbrev pub revision_beq : Option ℕ → Option ℕ → Bool
revision_beq none none = true
revision_beq (some a) (some b) = a == b
revision_beq _ _ = false

-- `initial_revision.is_some() && initial_revision == s.initial_attempted`
abbrev pub same_attempt : Option (ℕ × Option ℕ) → Option (ℕ × Option ℕ) → Bool
same_attempt (some (g, r)) (some (h, q)) = g == h && revision_beq r q
same_attempt _ _ = false

abbrev pub initial_revision : Setup → Surroundings → ℕ → Bool → Option (ℕ × Option ℕ)
initial_revision u w g initial = if initial && u.has_loader then some (g, w.revision) else none

-- `last_attempt.is_some_and(|t| t.elapsed() < cooldown)`
abbrev pub too_soon : Option ℕ → ℕ → ℕ → Bool
too_soon none now cooldown = false
too_soon (some t) now cooldown = ltb (now - t) cooldown

-- The end of `observed`: a recovery is started.
pub start_recovery : Bool → ℕ → State → State × Option Spawn
start_recovery initial g s = (
  record s { phase = recovering; version_rejected_attempt = none; attempts = add_one s.attempts },
  some (record { initial = initial; generation = g }),
)

-- An authentication error: a recovery is started unless versions are being updated, there is
-- nobody to do it, or, for one that is not initial, this generation had one or the pause lasts.
pub try_recovery : Setup → Surroundings → ℕ → Bool → State → State × Option Spawn
unfolding start_recovery
try_recovery u w g true s =
    if s.version_updating || not u.has_loader
    then (s, none)
    else start_recovery true g (record s { initial_attempted = initial_revision u w g true })
try_recovery u w g false s =
    if s.version_updating || not u.has_recovery
    then (s, none)
    else if is_some_num s.attempted g || too_soon s.last_attempt w.now u.cooldown
    then (s, none)
    else start_recovery false g (record s { attempted = some g; last_attempt = some w.now })

-- The `match` on an error's kind.
pub observe_error : Setup → Surroundings → ℕ → ErrorKind → State → State × Option Spawn
unfolding try_recovery
observe_error u w g version s =
    (record s { last_error = some version; phase = version_blocked }, none)
observe_error u w g device_conflict s =
    (record s { last_error = some device_conflict; phase = conflicting }, none)
observe_error u w g authentication s =
    try_recovery u w g false
      (record s { last_error = some authentication; phase = reauthentication_required })
observe_error u w g authentication_required s =
    try_recovery u w g true
      (record s { last_error = some authentication_required; phase = reauthentication_required })
observe_error u w g k s = (record s { last_error = some k; phase = unverified }, none)

-- `observed`: `outcome` is the error's kind, or `none` for a success.
pub observed : Setup → Surroundings → ℕ → Bool → Option ErrorKind → State → State × Option Spawn
unfolding observe_error
observed u w g anonymous outcome s =
    if anonymous || (not (w.generation == g) || w.stopped)
    then (s, none)
    else if not (w.generation_locked == g) || is_closed s.phase
    then (s, none)
    else if same_attempt (initial_revision u w g (is_required outcome)) s.initial_attempted
    then (s, none)
    else elim outcome [
      | none ↦ (record s { phase = ready; last_error = none }, none)
      | some k ↦ observe_error u w g k s
    ]

abbrev pub failed_phase : Bool → Bool → ErrorKind → Phase
failed_phase initial false k = persistence_failed
failed_phase initial true version = version_blocked
failed_phase initial true device_conflict = conflicting
failed_phase false true invalid_config = persistence_failed
failed_phase initial true k = reauthentication_required

-- The end of the spawned task: its result, and the inner client's generation by then.
pub recovered : Spawn → Result (Unit {0}) → ℕ → State → State
recovered sp (ok _) g s = record s {
  phase = if sp.initial then unverified else recovered_phase;
  successes = add_one s.successes;
  last_error = none;
}
recovered sp (err e) g s = record s {
  version_rejected_attempt =
      if g == sp.generation && client_update_required e
      then some sp.generation
      else s.version_rejected_attempt;
  phase = failed_phase sp.initial (g == sp.generation) e.kind;
  last_error = some e.kind;
}

-- `reload`: `replaced` is the answer of the closure that replaces the session.
pub reload : Result (Unit {0}) → State → Result (Unit {0}) × State
reload replaced s =
    if is_recovering s.phase || s.version_updating
    then (err (error_of queue_full), s)
    else elim replaced [
      | err e ↦ (err e, s)
      | ok _ ↦ (
        ok tt,
        record s {
          phase = unverified;
          attempted = none;
          initial_attempted = none;
          version_rejected_attempt = none;
          last_attempt = none;
          last_error = none;
        },
      )
    ]

-- `query_error`: `inner` is the inner client's own answer, which is observed like a failed query.
pub query_error :
    Setup
    → Surroundings
    → Bool
    → Option ClientError
    → State
    → Option ClientError × State × Option Spawn
unfolding observed
query_error u w anonymous inner s =
    if not anonymous && is_closed s.phase
    then (some (error_of authentication), s, none)
    else elim inner [
      | none ↦ (none, s, none)
      | some e ↦
          let (t, sp) = observed u w w.generation anonymous (some e.kind) s in (some e, t, sp)
    ]

abbrev pub outcome_of {ℓ} : {A : Type ℓ} → Result A → Option ErrorKind
outcome_of (ok a) = none
outcome_of (err e) = some e.kind

-- `execute`, around the inner client's call: nothing is sent while the session is closed.
pub may_execute : Bool → State → Result (Unit {0})
may_execute anonymous s = guard (anonymous || not (is_closed s.phase)) authentication

abbrev pub is_settled : Phase → Bool
is_settled ready = true
is_settled recovered_phase = true
is_settled _ = false

pub is_ready : State → Option ClientError → Bool
is_ready s inner = is_settled s.phase && is_none inner
