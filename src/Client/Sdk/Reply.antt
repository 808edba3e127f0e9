-- ===== src/Client/Sdk/Reply.antt =====
-- client/src/sdk_http/response.rs: the answers of the SDK's server. `serde_json` is outside: what it
-- reads out of an answer is given.
use moenotes_api.Prelude.{
  Bool, Option, [], codes, false, if◌then◌else◌, leb, length, none, not, some, true, ℕ, ◌&&◌, ◌*◌,
  ◌==◌,
}
use moenotes_api.Int.{negsuc, pos, ℤ}
use moenotes_api.Client.Sdk.Base.{
  Bytes, SdkResult, err, error, guard, ok, protocol, require, validate_secret, ◌>>=◌, ◌>>◌,
}
use moenotes_api.Decimal.{print}

abbrev pub max_response : ℕ
max_response = 256 * 1024

pub record SdkRejection : Type 0 where
  pub code : ℤ
  pub details : Bytes

pub data SdkReply (A : Type 0) : Type 0 where
  success : A → SdkReply A
  rejected : SdkRejection → SdkReply A

abbrev pub is_code : ℤ → ℕ → Bool
is_code (pos m) n = m == n
is_code (negsuc m) n = false

-- A challenge is asked for, or the restoring of the account is to be confirmed.
pub requires_challenge : SdkRejection → Bool
requires_challenge r = is_code r.code 200007

pub requires_account_restore : SdkRejection → Bool
requires_account_restore r = is_code r.code 800011

pub record Envelope : Type 0 where
  pub code : ℤ
  pub content : Option Bytes

pub record RsaChallenge : Type 0 where
  pub pem : Bytes
  pub hash : Bytes
  pub binding : ℕ

-- `rsa_key` and `hash` of an answer.
pub record RsaData : Type 0 where
  pub rsa_key : Bytes
  pub hash : Bytes

-- The JSON values that `deserialize_uid` is given.
pub data UidValue : Type 0 where
  text : Bytes → UidValue
  number : ℤ → UidValue

pub record WireLogin : Type 0 where
  pub uid : UidValue
  pub access_key : Option Bytes
  pub id_token : Option Bytes
  pub expires : Option ℤ
  pub refresh_token : Option Bytes

pub record PendingSdkLogin : Type 0 where
  pub uid : Bytes
  pub access_key : Option Bytes
  pub id_token : Option Bytes
  pub expires : Option ℤ
  pub refresh_token : Option Bytes

-- `visit_str`, `visit_u64` and `visit_i64`
unfoldable pub deserialize_uid : UidValue → SdkResult Bytes
deserialize_uid (text s) = ok s
deserialize_uid (number (pos n)) = ok (print n)
deserialize_uid (number (negsuc n)) = err (error protocol)

-- `PendingSdkLogin::access_key`
abbrev pub access_key_of : PendingSdkLogin → Bytes
access_key_of user = elim user.access_key [ none ↦ [] | some k ↦ k ]

abbrev pub fits : ℕ → Option Bytes → Bool
fits max none = true
fits max (some v) = leb (length v) max

-- `map_err(|_| protocol())`
abbrev pub as_protocol : SdkResult (Unit {0}) → SdkResult (Unit {0})
as_protocol (ok u) = ok u
as_protocol (err e) = err (error protocol)

unfoldable pub pending_of : WireLogin → SdkResult PendingSdkLogin
unfolding deserialize_uid
pending_of wire = deserialize_uid wire.uid >>= λ uid. ok (record {
  uid = uid;
  access_key = wire.access_key;
  id_token = wire.id_token;
  expires = wire.expires;
  refresh_token = wire.refresh_token;
})

-- A cache login keeps the key that it was called with.
abbrev pub keep_key : Option Bytes → PendingSdkLogin → PendingSdkLogin
keep_key none user = user
keep_key (some old) user = record user { access_key = some old }

unfoldable pub check_login : PendingSdkLogin → SdkResult PendingSdkLogin
unfolding validate_secret
check_login user = do
  as_protocol (validate_secret user.uid 256)
  as_protocol (validate_secret (access_key_of user) (16 * 1024))
  guard (fits (16 * 1024) user.id_token && fits (16 * 1024) user.refresh_token) protocol
  ok user

abbrev pub null_text : Bytes
null_text = codes "null"

abbrev pub content_or_null : Option Bytes → Bytes
content_or_null none = null_text
content_or_null (some s) = s

abbrev pub succeed : {A : Type 0} → A → SdkResult (SdkReply A)
succeed a = ok (success a)

module _ (read_envelope : Bytes → Option Envelope) where
  unfoldable pub parse : {A : Type 0} → Bytes → (Bytes → SdkResult A) → SdkResult (SdkReply A)
  parse bytes read = do
    guard (leb (length bytes) max_response) protocol
    envelope ← require (read_envelope bytes) protocol
    if not (is_code envelope.code 0)
        then ok
            (rejected (record { code = envelope.code; details = content_or_null envelope.content }))
        else (require envelope.content protocol >>= read >>= succeed)

  -- `key_bits` is the size of the modulus of a key, where the text is one.
  unfoldable pub rsa :
      (Bytes → Option RsaData) → (Bytes → Option ℕ) → Bytes → ℕ → SdkResult (SdkReply RsaChallenge)
  unfolding parse
  rsa read_data key_bits bytes binding = parse bytes λ content. do
    fields ← require (read_data content) protocol
    guard (leb (length fields.rsa_key) 8192 && leb (length fields.hash) 1024) protocol
    bits ← require (key_bits fields.rsa_key) protocol
    guard (leb 1024 bits && leb bits 4096) protocol
    ok (record { pem = fields.rsa_key; hash = fields.hash; binding = binding })

  unfoldable pub login :
      (Bytes → Option WireLogin) → Bytes → Option Bytes → SdkResult (SdkReply PendingSdkLogin)
  unfolding parse pending_of check_login
  login read_login bytes old_key = parse bytes λ content. do
    wire ← require (read_login content) protocol
    user ← pending_of wire
    check_login (keep_key old_key user)
