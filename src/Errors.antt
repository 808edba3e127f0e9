-- ===== src/Errors.antt =====
-- client/src/error.rs. A header map is given by the texts of its `x-sirius-error-code` values that
-- are readable as text, in their order: reading and converting them is the work of `tonic`.
pub mod Laws
use moenotes_api.Prelude.{
  Bool, List, Option, String, [], false, if◌then◌else◌, last?, none, some, str_eq, true, ℕ, ◌&&◌,
}

pub data ErrorKind : Type 0 where
  invalid_config invalid_request authentication_required authentication : ErrorKind
  maintenance version device_conflict business transport protocol : ErrorKind
  timeout cancelled queue_full session_changed : ErrorKind

-- `tonic::Code`: the two codes that the program tells apart, and the others by their number.
pub data Code : Type 0 where
  ok_code deadline_exceeded : Code
  other_code : ℕ → Code

pub record ClientError : Type 0 where
  pub kind : ErrorKind
  pub grpc_code : Option Code
  pub initial : List String
  pub trailing : List String

abbrev pub error_of : ErrorKind → ClientError
error_of k = record { kind = k; grpc_code = none; initial = []; trailing = [] }

-- `trailing.last().or(initial.last())`
abbrev pub last_code : List String → List String → Option String
last_code initial trailing = elim (last? trailing) [ none ↦ last? initial | some c ↦ some c ]

abbrev pub is_ok : Code → Bool
is_ok ok_code = true
is_ok _ = false

-- The `match` on the last code's text.
pub kind_of_code : String → ErrorKind
kind_of_code c =
    if str_eq c "UNDER_MAINTENANCE"
    then maintenance
    else if str_eq c "TOKEN_ILLEGAL"
    then authentication
    else if str_eq c "TOKEN_MISSING"
    then authentication
    else if str_eq c "CLIENT_UPDATE_REQUIRED"
    then version
    else if str_eq c "MASTER_VERSION_MISMATCH"
    then version
    else if str_eq c "CONCURRENT_DEVICE"
    then device_conflict
    else business

-- With no code at all the gRPC status decides.
pub kind_of_status : Code → ErrorKind
kind_of_status deadline_exceeded = timeout
kind_of_status _ = transport

abbrev pub reported : Code → List String → List String → ErrorKind → ClientError
reported code initial trailing k = record {
  kind = k;
  grpc_code = some code;
  initial = initial;
  trailing = trailing;
}

pub from_metadata : Code → List String → List String → Option ClientError
unfolding kind_of_code kind_of_status
from_metadata code initial trailing = elim (last_code initial trailing) [
  | none ↦ if is_ok code then none else some (reported code initial trailing (kind_of_status code))
  | some c ↦ some (reported code initial trailing (kind_of_code c))
]

-- `transport.rs`: an answer whose status is an error is never taken for a success.
pub status_error : Code → List String → List String → ClientError
unfolding from_metadata
status_error code initial trailing = elim (from_metadata code initial trailing) [
  | none ↦ error_of protocol
  | some e ↦ e
]

abbrev pub is_version : ErrorKind → Bool
is_version version = true
is_version _ = false

abbrev pub has_code : Option String → String → Bool
has_code none c = false
has_code (some d) c = str_eq d c

-- `error.kind == Version` with the last business code `CLIENT_UPDATE_REQUIRED`.
pub client_update_required : ClientError → Bool
client_update_required e =
    is_version e.kind && has_code (last_code e.initial e.trailing) "CLIENT_UPDATE_REQUIRED"

-- Results of the client's and the server's fallible operations.
pub data Result {ℓ} (A : Type ℓ) : Type ℓ where
  ok : A → Result A
  err : ClientError → Result A

-- `?`
infixl 5 ◌>>=◌
abbrev pub ◌>>=◌ {ℓ κ} :
    {A : Type ℓ} {B : Type κ} (first : Result A) (next : A → Result B) → Result B
err e >>= next = err e
ok v >>= next = next v

infixl 5 ◌>>◌
abbrev pub ◌>>◌ {ℓ} : {B : Type ℓ} (first : Result (Unit {0})) (second : Result B) → Result B
first >> second = first >>= λ u. second

-- `if !condition { return Err(ClientError::new(kind)) }`
abbrev pub guard : Bool → ErrorKind → Result (Unit {0})
guard true k = ok tt
guard false k = err (error_of k)

-- `.ok_or_else(|| ClientError::new(kind))?`
abbrev pub require {ℓ} : {A : Type ℓ} → Option A → ErrorKind → Result A
require none k = err (error_of k)
require (some a) k = ok a
