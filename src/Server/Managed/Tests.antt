-- ===== src/Server/Managed/Tests.antt =====
-- server/src/managed.rs and managed/versions.rs: a session that is recovered, and one that follows
-- an update.
use moenotes_api.Prelude.{
  Bool, String, [], arith, false, if◌then◌else◌, none, refl, some, split_on, str_eq, true, ◌∷◌, ◌≡◌,
}
use moenotes_api.Errors.{ClientError, Result, authentication, err, error_of, ok, transport, version}
use moenotes_api.Decimal.{parse_below}
use moenotes_api.Client.Patch.{patch_part, patch_parts, patch_version}
use moenotes_api.Server.Managed.{
  Setup, Spawn, Surroundings, new_state, observed, persistence_failed, recovered,
}
use moenotes_api.Server.Managed.Sync.{ClientAfter, check_versions, try_candidates}
use moenotes_api.Server.Managed.Lifecycle.{
  Exclusive, Reach, Reach-Tasks, System, Tasks, next, observes, start, with_spawn,
}
use moenotes_api.Server.Managed.Budget.{
  Ended, Starts, Step-failed, observed-Starts, recovered-Ended,
}
use moenotes_api.Server.Managed.Following.{
  Adopted, Follows, check_versions-Follows, try_candidates-Adopted,
}

abbrev setup : Setup
setup = record { has_recovery = true; has_loader = false; cooldown = 300 }

abbrev around : Surroundings
around = record {
  generation = 1;
  generation_locked = 1;
  stopped = false;
  revision = none;
  now = 50;
}

abbrev unstarted : System
unstarted = record { state = new_state; running = []; checking = false }

abbrev lost : System
lost = with_spawn unstarted (observed setup around 1 false (some authentication) new_state)

lost-Reach : Reach setup lost
lost-Reach = next start (observes around 1 false (some authentication) unstarted)

Reach-Tasks_example : Tasks lost
Reach-Tasks_example = Reach-Tasks setup lost-Reach

observed-Starts_example :
    Starts setup around 1
      (some authentication)
      new_state
      (observed setup around 1 false (some authentication) new_state)
observed-Starts_example = observed-Starts setup around 1 false (some authentication) new_state

abbrev renewal : Spawn
renewal = record { initial = false; generation = 1 }

recovered-Ended_example :
    Ended renewal
      (err (error_of transport))
      2
      (recovered renewal (err (error_of transport)) 2 new_state)
recovered-Ended_example = recovered-Ended renewal (err (error_of transport)) 2 new_state

abbrev failed : System
failed = record {
  state = record new_state { phase = persistence_failed };
  running = [];
  checking = false;
}

failed-Exclusive : Exclusive failed
failed-Exclusive = record {
  recovering_one = λ h. cc;
  otherwise_none = λ h. refl;
  updating = refl;
  apart = λ h. cc;
}

Step-failed_example :
    (with_spawn failed (observed setup around 1 false none failed.state)).state.phase
    ≡ persistence_failed
Step-failed_example =
    Step-failed setup (observes around 1 false none failed) failed-Exclusive (λ r. r) refl

abbrev update_error : ClientError
update_error = record {
  kind = version;
  grpc_code = none;
  initial = [];
  trailing = "CLIENT_UPDATE_REQUIRED" ∷ [];
}

-- The game accepts 1.0.5 only.
abbrev adopt : String → Result Bool
adopt c = if str_eq c "1.0.5" then ok true else err update_error

previous_version : patch_version "1.0.3" ≡ some (1, 0, 3)
unfolding patch_version patch_parts patch_part parse_below split_on
previous_version = refl

check_versions-Follows_example :
    Follows true "1.0.3"
      (err update_error)
      adopt
      1
      0
      3
      (check_versions true "1.0.3" (err update_error) adopt)
check_versions-Follows_example =
    check_versions-Follows "1.0.3" adopt 1 0 3 true (err update_error) previous_version
      (omega arith)

try_candidates-Adopted_example :
    Adopted adopt
      (err update_error)
      ("1.0.4" ∷ "1.0.5" ∷ [])
      (try_candidates adopt (err update_error) ("1.0.4" ∷ "1.0.5" ∷ []))
try_candidates-Adopted_example =
    try_candidates-Adopted adopt (err update_error) ("1.0.4" ∷ "1.0.5" ∷ [])

abbrev after : ClientAfter
after = record {
  generation = 2;
  client_version = "1.0.5";
  master_version = some "m";
  resource_version = some "r";
  denied = none;
  now = 100;
}
