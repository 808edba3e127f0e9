-- ===== src/Client/Session.antt =====
-- client/src/lib.rs and versions.rs: the client's sessions. Every session that was ever installed
-- stays in the store, since calls that run still hold it; its index is its generation, so that
-- generations are fresh.
pub mod Operation
pub mod Versions
pub mod Installed
pub mod Calls
pub mod Blocks
use moenotes_api.Prelude.{
  Bool, List, Option, String, [], false, get_elem?, if◌then◌else◌, is_none, length, none, some,
  str_eq, suc, true, zero, ℕ, ◌&&◌, ◌++◌, ◌==◌, ◌∷◌,
}
use moenotes_api.Errors.{
  ClientError, ErrorKind, Result, authentication, authentication_required, device_conflict, err,
  error_of, ok, require, session_changed, version, ◌>>=◌, ◌>>◌,
}
use moenotes_api.Client.Config.{Credentials, SessionConfig, Url, metadata, validate}

pub record Session : Type 0 where
  pub config : SessionConfig
  pub credentials : Option Credentials
  pub stopped : Bool
  pub blocked : Option ErrorKind
  pub master_mismatch : Bool
  pub jp_override_pending : Bool

-- `Client`, without its options: the sessions, and the index of the one that is installed.
pub record State : Type 0 where
  pub sessions : List Session
  pub current : ℕ

pub data SessionStatus : Type 0 where
  anonymous_status credentials_unverified authentication_rejected : SessionStatus
  version_blocked_status device_conflict_status : SessionStatus

-- `CredentialProvider::credentials`
abbrev pub Provider : Type 0
Provider = SessionConfig → Result (Option Credentials)

abbrev pub provided : Option Provider → SessionConfig → Result (Option Credentials)
provided none c = ok none
provided (some p) c = p c

abbrev pub new_session : SessionConfig → Option Credentials → Session
new_session c credentials = record {
  config = c;
  credentials = credentials;
  stopped = false;
  blocked = none;
  master_mismatch = false;
  jp_override_pending = false;
}

abbrev pub cancel : Session → Session
cancel s = record s { stopped = true }

abbrev pub at_session : List Session → ℕ → (Session → Session) → List Session
at_session [] i f = []
at_session (s ∷ ss) zero f = f s ∷ ss
at_session (s ∷ ss) (suc i) f = s ∷ at_session ss i f

-- `current.cancel.cancel(); *current = new;`
unfoldable pub install : Session → State → State
install new y = record {
  sessions = at_session y.sessions y.current cancel ++ new ∷ [];
  current = length y.sessions;
}

abbrev pub is_jp_region : Session → Bool
is_jp_region s = str_eq s.config.region "jp"

-- `session_for`: a call for another generation than the installed one is refused.
unfoldable pub session_for : ℕ → State → Result Session
session_for g y =
    if y.current == g
    then require (get_elem? y.sessions g) session_changed
    else err (error_of session_changed)

abbrev pub blocked_status : Option ErrorKind → Option Credentials → SessionStatus
blocked_status (some authentication) c = authentication_rejected
blocked_status (some version) c = version_blocked_status
blocked_status (some device_conflict) c = device_conflict_status
blocked_status b (some c) = credentials_unverified
blocked_status b none = anonymous_status

unfoldable pub session_status : State → Option SessionStatus
session_status y = elim (get_elem? y.sessions y.current) [
  | none ↦ none
  | some s ↦ some (blocked_status s.blocked s.credentials)
]

abbrev pub option_str_eq : Option String → Option String → Bool
option_str_eq none none = true
option_str_eq (some a) (some b) = str_eq a b
option_str_eq _ _ = false

abbrev pub same_identity : Option Credentials → Option Credentials → Bool
same_identity (some a) (some b) = str_eq a.player_id b.player_id && option_str_eq a.bid b.bid
same_identity _ _ = false

unfoldable pub matches_identity : ℕ → Provider → State → Result Bool
unfolding session_for
matches_identity g provider y = do
  s ← session_for g y
  supplied ← provider s.config
  ok (same_identity s.credentials supplied)

abbrev pub no_block : Option ErrorKind → Result (Unit {0})
no_block none = ok tt
no_block (some k) = err (error_of k)

-- `save_session`, up to the write of the file: the credentials that it writes.
unfoldable pub save_session : ℕ → State → Result Credentials
unfolding session_for
save_session g y = do
  s ← session_for g y
  no_block s.blocked
  require s.credentials authentication_required

-- The admission test of the installed session; it asks nobody.
abbrev pub session_error : Session → Option ClientError
session_error s = elim s.blocked [
  | some k ↦ some (error_of k)
  | none ↦ if is_none s.credentials then some (error_of authentication_required) else none
]

unfoldable pub query_error : Bool → State → Option ClientError
query_error anonymous y =
    if anonymous
    then none
    else elim (get_elem? y.sessions y.current) [ none ↦ none | some s ↦ session_error s ]

module _ (parse_url : String → Option Url) (metadata_ok : String → Bool) where
  unfoldable pub make_session : SessionConfig → Option Provider → Result Session
  make_session c provider = do
    validate parse_url metadata_ok c
    credentials ← provided provider c
    _ ← metadata parse_url metadata_ok c credentials "validation" false
    ok (new_session c credentials)

  abbrev pub installed : Result Session → State → Result (Unit {0}) × State
  installed (err e) y = (err e, y)
  installed (ok s) y = (ok tt, install s y)

  -- `replace_session`; `channel` is the answer of `GrpcTransport::new`.
  unfoldable pub replace_session :
      Result (Unit {0}) → SessionConfig → Option Provider → State → Result (Unit {0}) × State
  unfolding make_session install
  replace_session channel c provider y = installed (channel >> make_session c provider) y

  unfoldable pub import_credentials : ℕ → Provider → State → Result (Unit {0}) × State
  unfolding make_session install session_for
  import_credentials g provider y =
      installed (session_for g y >>= λ s. make_session s.config (some provider)) y
