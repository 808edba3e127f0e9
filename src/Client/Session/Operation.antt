-- ===== src/Client/Session/Operation.antt =====
-- client/src/lib.rs: one call of a session. It is cut where it awaits: `begin_call` up to the call
-- of the transport, `record_reply` and `check_reply` behind it.
use moenotes_api.Prelude.{
  Bool, Option, String, false, if◌then◌else◌, is_none, none, not, some, str_eq, true, ℕ, ◌&&◌, ◌==◌,
  ◌||◌,
}
use moenotes_api.Errors.{
  ClientError, ErrorKind, Result, authentication, authentication_required, cancelled,
  device_conflict, err, error_of, guard, has_code, last_code, ok, protocol, session_changed,
  version, ◌>>=◌, ◌>>◌,
}
use moenotes_api.Client.Patch.{valid}
use moenotes_api.Client.Session.{Session, State, at_session, is_jp_region, session_for}

-- What the code reads of a method: `is_login` is `is_login_method`, `is_register` the test for
-- `jp::REGISTER`.
pub record Call : Type 0 where
  pub anonymous : Bool
  pub is_login : Bool
  pub is_register : Bool
  pub output : String

abbrev pub is_lasting : Option ErrorKind → Bool
is_lasting (some version) = true
is_lasting (some device_conflict) = true
is_lasting _ = false

abbrev pub is_blocking : ErrorKind → Bool
is_blocking authentication = true
is_blocking version = true
is_blocking device_conflict = true
is_blocking _ = false

-- The test at the start of the serial slot.
unfoldable pub refused : Call → Option ErrorKind → Option ErrorKind
refused m none = none
refused m (some k) =
    if not m.anonymous || ((m.is_login || m.is_register) && is_lasting (some k))
    then some k
    else none

-- Whether the device override goes with the call.
abbrev pub override_sent : Call → Session → Bool
override_sent m s = is_jp_region s && (not m.anonymous && s.jp_override_pending)

unfoldable pub begin_call : Call → Session → Result Bool
unfolding refused
begin_call m s = elim (refused m s.blocked) [
  | none ↦ ok (override_sent m s)
  | some k ↦ err (error_of k)
]

-- An error of a call blocks the session; a block for the version or the device stays.
unfoldable pub record_error : Call → ClientError → Session → Session
record_error m e s =
    if (not m.anonymous || m.is_login) && (is_blocking e.kind && not (is_lasting s.blocked))
    then record s {
      master_mismatch = has_code (last_code e.initial e.trailing) "MASTER_VERSION_MISMATCH";
      blocked = some e.kind;
    }
    else s

unfoldable pub record_reply {ℓ} : {A : Type ℓ} → Call → Bool → Result A → Session → Session
unfolding record_error
record_reply m sent (err e) s = record_error m e s
record_reply m sent (ok a) s = if sent then record s { jp_override_pending = false } else s

-- A reply of the transport: the full name of its message's type, the message, and the asset header.
pub record Response (M : Type 0) : Type 0 where
  pub full_name : String
  pub message : M
  pub asset_version : Option String

-- The tests behind the reply, for a call of the session `g`; `stop` is the call's token.
unfoldable pub check_reply :
    {M : Type 0} → Call → ℕ → Bool → Result (Response M) → State → Result (Response M)
check_reply m g stop result y = do
  response ← result
  guard (not stop) cancelled
  guard (y.current == g) session_changed
  guard (str_eq response.full_name m.output) protocol
  ok response

-- The call's end: what it does to its session, and then to the client. `finish` runs only behind
-- all tests.
unfoldable pub end_call :
    {M A : Type 0}
    → Call
    → ℕ
    → Bool
    → Bool
    → Result (Response M)
    → (Response M → State → Result A × State)
    → State
    → Result A × State
unfolding record_reply check_reply
end_call m g sent stop result finish y =
    let z : State = record y { sessions = at_session y.sessions g (record_reply m sent result) } in
    elim (check_reply m g stop result z) [ err e ↦ (err e, z) | ok response ↦ finish response z ]

pub record QueryResponse (M : Type 0) : Type 0 where
  pub message : M
  pub fetched_at : ℕ
  pub generation : ℕ

-- `execute`: the tests before the call, and what it answers.
unfoldable pub may_call : Result (Unit {0}) → Bool → ℕ → State → Result Session
unfolding session_for
may_call valid anonymous g y = do
  valid
  s ← session_for g y
  guard (anonymous || not (is_none s.credentials)) authentication_required
  ok s

abbrev pub read_answer :
    {M : Type 0} → ℕ → ℕ → Response M → State → Result (QueryResponse M) × State
read_answer g now response y =
    (ok (record { message = response.message; fetched_at = now; generation = g }), y)
