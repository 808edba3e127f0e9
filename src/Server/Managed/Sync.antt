-- ===== src/Server/Managed/Sync.antt =====
-- server/src/managed/versions.rs: one check of the poller for the game's versions. The client's
-- answers are arguments: `refreshed` of the first call, `adopt` of the call for a candidate.
use moenotes_api.Prelude.{
  Bool, List, Option, String, [], add_one, false, if◌then◌else◌, is_none, is_some_num, none, not,
  some, true, ℕ, ◌&&◌, ◌==◌, ◌||◌, ◌∷◌,
}
use moenotes_api.Errors.{ClientError, Result, client_update_required, err, ok}
use moenotes_api.Client.Patch.{patch_successors}
use moenotes_api.Server.Managed.{
  DataVersions, State, VersionSyncStatus, is_closed, outcome_of, unverified,
}

abbrev pub client_candidates : ℕ
client_candidates = 3

-- No check while one runs, while a recovery runs, or after a failed persistence.
unfoldable pub begin_sync : State → Option State
begin_sync s =
    if s.version_updating || is_closed s.phase
    then none
    else some (record s { version_updating = true })

-- The loop over the candidates: one that is refused for its version moves on to the next, anything
-- else ends it. With all refused the result is that of the first call.
unfoldable pub try_candidates :
    (String → Result Bool) → Result Bool → List String → Result Bool × Option String
try_candidates adopt first [] = (first, none)
try_candidates adopt first (c ∷ cs) =
    let rest = try_candidates adopt first cs in
    elim (adopt c) [
      | ok b ↦ (ok b, some c)
      | err e ↦ if client_update_required e then rest else (err e, none)
    ]

-- The calls of one check: its result, and the client version that was adopted.
unfoldable pub check_versions :
    Bool → String → Result Bool → (String → Result Bool) → Result Bool × Option String
unfolding try_candidates
check_versions follow previous (ok b) adopt = (ok b, none)
check_versions follow previous (err e) adopt =
    if follow && client_update_required e
    then try_candidates adopt (err e) (patch_successors previous client_candidates)
    else (err e, none)

-- The client once the calls are done: `denied` is its `query_error(false)`, `now` the Unix time.
pub record ClientAfter : Type 0 where
  pub generation : ℕ
  pub client_version : String
  pub master_version : Option String
  pub resource_version : Option String
  pub denied : Option ClientError
  pub now : ℕ

abbrev pub is_changed : Result Bool → Bool
is_changed (ok b) = b
is_changed (err e) = false

abbrev pub is_some {ℓ} : {A : Type ℓ} → Option A → Bool
is_some o = not (is_none o)

-- A budget that was spent for `g` is spent for the new generation, or is given back.
abbrev pub moved : Bool → ℕ → ℕ → Option ℕ → Option ℕ
moved rearm g new x = if is_some_num x g then (if rearm then none else some new) else x

abbrev pub moved_initial : Bool → ℕ → ℕ → Option (ℕ × Option ℕ) → Option (ℕ × Option ℕ)
moved_initial rearm g new none = none
moved_initial rearm g new (some (old, r)) =
    if old == g then (if rearm then none else some (new, r)) else some (old, r)

abbrev pub unwrap_or_empty : Option String → String
unwrap_or_empty none = ""
unwrap_or_empty (some t) = t

abbrev pub versions_of : ClientAfter → Option DataVersions
versions_of w = elim w.master_version [
  | none ↦ none
  | some m ↦
      some (record { master_version = m; resource_version = unwrap_or_empty w.resource_version })
]

abbrev pub is_ok_result : Result Bool → Bool
is_ok_result (ok b) = true
is_ok_result (err e) = false

unfoldable pub report_sync :
    Result Bool → Option String → ClientAfter → VersionSyncStatus → VersionSyncStatus
report_sync result followed w v = record v {
  checks = add_one v.checks;
  last_checked_at = some w.now;
  last_error = outcome_of result;
  client_version = w.client_version;
  client_updates = if is_some followed then add_one v.client_updates else v.client_updates;
  current = if is_ok_result result then versions_of w else v.current;
  updates = if is_changed result then add_one v.updates else v.updates;
}

-- The budgets follow a change of the generation.
unfoldable pub carry_budgets : Bool → ℕ → ℕ → State → State
carry_budgets rearm g new s = record s {
  attempted = moved rearm g new s.attempted;
  initial_attempted = moved_initial rearm g new s.initial_attempted;
  version_rejected_attempt = moved rearm g new s.version_rejected_attempt;
}

unfoldable pub finish_sync : ℕ → Result Bool → Option String → ClientAfter → State → State
unfolding carry_budgets report_sync
finish_sync g result followed w s =
    let rearm = is_some followed && is_some_num s.version_rejected_attempt g in
    let idle : State = record s { version_updating = false } in
    let carried : State =
      if is_changed result then carry_budgets rearm g w.generation idle else idle in
    let opened : State =
      if is_changed result && (rearm || is_none w.denied)
      then record carried { phase = unverified; last_error = none }
      else carried in
    elim opened.version_sync [
      | none ↦ opened
      | some v ↦ record opened { version_sync = some (report_sync result followed w v) }
    ]
