-- ===== src/Client/Tests.antt =====
-- client/src: a session of a client, the texts of versions, and the queries.
use moenotes_api.Prelude.{
  List, Option, String, [], arith, codes, false, get_elem?, is_none, none, refl, some, split_on,
  true, ℕ, ◌↔◌, ◌∷◌, ◌≡◌,
}
use moenotes_api.Errors.{ClientError, authentication, device_conflict, err, error_of, ok}
use moenotes_api.Int.{pos}
use moenotes_api.Decimal.{parse_below}
use moenotes_api.Client.Query.{arena_ranking, is_valid, validate}
use moenotes_api.Client.Patch.{patch_version, version_text}
use moenotes_api.Client.Patch.Laws.{patch_version-version_text}
use moenotes_api.Client.Jp.{Entry, Payload, best_entry, numeric_version, release_parts, version_leb}
use moenotes_api.Client.Jp.Laws.{Usable, best_entry-Picked_newest}
use moenotes_api.Client.Config.{Credentials, SessionConfig, metadata}
use moenotes_api.Client.Config.Laws.{MarkedResult, metadata-Marked}
use moenotes_api.Client.Session.{Session, State, at_session, new_session, query_error}
use moenotes_api.Client.Session.Operation.{
  Call, Response, begin_call, check_reply, end_call, override_sent, read_answer, record_error,
  record_reply,
}
use moenotes_api.Client.Session.Versions.{VersionResponse}
use moenotes_api.Client.Session.Installed.{Installed}
use moenotes_api.Client.Session.Calls.{Step, answers, next, start}
use moenotes_api.Client.Session.Blocks.{
  KeepsBlock, Reach-Installed, Step-KeepsBlock, end_call-stale, query_error-begin_call,
}
use moenotes_api.Client.Auth.{LoginAnswer}
use moenotes_api.Client.Config.Examples.{plain_url}

abbrev config : SessionConfig
config = record {
  region = "en";
  origin = "https://game";
  allowed_origins = "https://game" ∷ [];
  platform = "ios";
  client_version = "1.0.3";
  master_version = none;
  resource_version = none;
}

abbrev player : Credentials
player = record { player_id = "p"; credential = "c"; device_id = none; bid = none }

abbrev session : Session
session = new_session config (some player)

abbrev client : State
client = record { sessions = session ∷ []; current = 0 }

abbrev no_payload : String → Option Payload
no_payload t = none

abbrev decode : ℕ → Option VersionResponse
decode m = none

abbrev no_login : ℕ → Option LoginAnswer
no_login m = none

abbrev query_call : Call
query_call = record { anonymous = false; is_login = false; is_register = false; output = "app.X" }

abbrev conflict : ClientError
conflict = error_of device_conflict

-- A query is answered by the game with a device conflict.
abbrev blocked_client : State
blocked_client =
    (end_call query_call 0 false false (err conflict) (read_answer {M = ℕ} 0 5) client).1

blocking : Step {M = ℕ} plain_url (λ t. true) no_payload decode no_login client blocked_client
blocking = answers query_call 0 false false (err conflict) 5 client

blocked-KeepsBlock : KeepsBlock 0 device_conflict blocked_client
unfolding end_call check_reply record_reply record_error
blocked-KeepsBlock = (_, refl, refl)

-- The next query is answered with an authentication error.
abbrev again_client : State
again_client =
    (end_call query_call 0 false false (err (error_of authentication)) (read_answer {M = ℕ} 0 6)
      blocked_client).1

Step-KeepsBlock_example : KeepsBlock 0 device_conflict again_client
Step-KeepsBlock_example =
    Step-KeepsBlock {M = ℕ} plain_url (λ t. true) no_payload decode no_login 0 device_conflict
      (answers query_call 0 false false (err (error_of authentication)) 6 blocked_client) refl
      blocked-KeepsBlock

Reach-Installed_example : Installed blocked_client
Reach-Installed_example =
    Reach-Installed {M = ℕ} plain_url (λ t. true) no_payload decode no_login
      (next (start session refl refl) blocking)

abbrev reply : Response ℕ
reply = record { full_name = "app.X"; message = 3; asset_version = none }

end_call-stale_example :
    ((e : ClientError) × ((end_call query_call 1 false false (ok reply) (read_answer 1 5) client).0
        ≡ err e))
    × ((end_call query_call 1 false false (ok reply) (read_answer 1 5) client).1 ≡ record client {
      sessions = at_session client.sessions 1 (record_reply query_call false (ok reply));
    })
end_call-stale_example =
    end_call-stale query_call 1 false false (ok reply) (read_answer 1 5) client refl

query_error-begin_call_example : (query_error false client ≡ none) ↔ (
    (begin_call query_call session ≡ ok (override_sent query_call session))
    × (is_none session.credentials ≡ false))
query_error-begin_call_example = query_error-begin_call client session query_call refl refl

metadata-Marked_example :
    MarkedResult (metadata plain_url (λ t. true) config (some player) "r" false)
metadata-Marked_example = metadata-Marked plain_url (λ t. true) config (some player) "r" false

abbrev live : List (Option Entry)
live =
    some (record { min = "1.0"; version = "a"; android = none })
    ∷ some (record { min = "1.2"; version = "b"; android = none })
    ∷ some (record { min = "2.0"; version = "c"; android = none })
    ∷ []

first_version : numeric_version (codes "1.0") ≡ some (1 ∷ 0 ∷ 0 ∷ 0 ∷ [])
unfolding numeric_version release_parts parse_below split_on
first_version = refl

best_entry-Picked_newest_example :
    (top : List ℕ) × (b : Entry) × (best_entry (1 ∷ 3 ∷ 0 ∷ 0 ∷ []) none live ≡ some (top, b))
    × ((j : ℕ) × (get_elem? live j ≡ some (some b)))
    × Usable (1 ∷ 3 ∷ 0 ∷ 0 ∷ []) top (some b)
    × (version_leb (1 ∷ 0 ∷ 0 ∷ 0 ∷ []) top ≡ true)
best_entry-Picked_newest_example =
    best_entry-Picked_newest (1 ∷ 3 ∷ 0 ∷ 0 ∷ []) live 0
      (record { min = "1.0"; version = "a"; android = none }) (1 ∷ 0 ∷ 0 ∷ 0 ∷ []) refl
      (first_version, refl)

patch_version-version_text_example :
    patch_version (version_text 1 10 999999999) ≡ some (1, 10, 999999999)
patch_version-version_text_example =
    patch_version-version_text 1 10 999999999 (omega arith) (omega arith) (omega arith)

accepted : validate (arena_ranking (pos 3) (pos 1) (pos 100) none) ≡ ok tt
unfolding validate is_valid
accepted = refl
