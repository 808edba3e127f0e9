-- ===== src/Client/Sdk/Calls.antt =====
-- client/src/sdk_http.rs: the three calls of the SDK's client. `rsa` and `base64` are outside: an
-- `RsaKey` is what `parse_rsa_public_key` reads out of a challenge. `send` is the exchange of
-- Client.Sdk.Sending, by what it answers to a request.
pub mod Checked
pub mod Laws
use moenotes_api.Client.Sdk.Reply
use moenotes_api.Prelude.{
  Bool, List, Option, [], codes, false, leb, length, none, not, some, true, ℕ, ◌&&◌, ◌*◌, ◌++◌, ◌-◌,
  ◌==◌, ◌∷◌,
}
use moenotes_api.Client.Sdk.Base.{
  Bytes, Field, SdkResult, cancelled, guard, invalid_input, ok, optional, protocol, require,
  validate_secret, ◌>>=◌, ◌>>◌,
}
use moenotes_api.Decimal.{print}
use moenotes_api.Client.Sdk.Request.{CurrentSdkUser, SdkHttpClient}
use moenotes_api.Client.Sdk.Reply.{
  Envelope, PendingSdkLogin, RsaChallenge, RsaData, SdkReply, WireLogin, login, rsa,
}

pub data PasswordAccountType : Type 0 where
  legacy : PasswordAccountType
  email phone : ℕ → PasswordAccountType

pub record PasswordLogin : Type 0 where
  pub user_id : Bytes
  pub password : Bytes
  pub account_type : PasswordAccountType
  pub ticket : Option Bytes
  pub third_payment_voucher : Option Bytes

pub record CacheLogin : Type 0 where
  pub access_key : Bytes
  pub ticket : Option Bytes
  pub third_payment_voucher : Option Bytes
  pub current_user : Option CurrentSdkUser

-- The arguments of `SdkHttpClient::send`.
pub record SdkRequest : Type 0 where
  pub path : Bytes
  pub fields : List Field
  pub already_encoded : Bool
  pub current_user : Option CurrentSdkUser

-- A key: the bits of its modulus, its bytes, and what it makes of a plain text.
pub record RsaKey : Type 0 where
  pub bits : ℕ
  pub size : ℕ
  pub encrypt : Bytes → Option Bytes

abbrev pub rsa_path : Bytes
rsa_path = codes "/gapi/client/rsa"

abbrev pub password_path : Bytes
password_path = codes "/gapi/client/login"

abbrev pub cache_path : Bytes
cache_path = codes "/gapi/client/cache.login"

unfoldable pub encrypt_password :
    (Bytes → Option RsaKey) → (Bytes → Bytes) → RsaChallenge → Bytes → SdkResult Bytes
encrypt_password parse_rsa_public_key base64 challenge password = do
  key ← require (parse_rsa_public_key challenge.pem) protocol
  guard (leb 1024 key.bits && leb key.bits 4096) protocol
  guard (leb (length (challenge.hash ++ password)) (key.size - 11)) invalid_input
  ciphertext ← require (key.encrypt (challenge.hash ++ password)) protocol
  ok (base64 ciphertext)

-- The fields that tell how the account is named.
unfoldable pub type_fields : PasswordAccountType → List Field
type_fields legacy = []
type_fields (email country_id) =
    (codes "country_id", print country_id) ∷ (codes "user_id_type", codes "0") ∷ []
type_fields (phone country_id) =
    (codes "country_id", print country_id) ∷ (codes "user_id_type", codes "1") ∷ []

unfoldable pub password_request :
    (Bytes → Option RsaKey)
    → (Bytes → Bytes)
    → SdkHttpClient
    → RsaChallenge
    → PasswordLogin
    → Option CurrentSdkUser
    → SdkResult SdkRequest
unfolding encrypt_password type_fields optional validate_secret
password_request parse_rsa_public_key base64 client rsa login current_user = do
  guard (rsa.binding == client.binding) invalid_input
  validate_secret login.user_id 1024
  validate_secret login.password 4096
  encrypted ← encrypt_password parse_rsa_public_key base64 rsa login.password
  fields ←
      optional ((codes "user_id", login.user_id) ∷ (codes "pwd", encrypted) ∷ []) (codes "ticket")
        login.ticket
  fields' ← optional fields (codes "third_payment_voucher") login.third_payment_voucher
  ok (record {
    path = password_path;
    fields = fields' ++ type_fields login.account_type;
    already_encoded = false;
    current_user = current_user;
  })

unfoldable pub cache_request : CacheLogin → SdkResult SdkRequest
unfolding optional validate_secret
cache_request login = do
  validate_secret login.access_key (16 * 1024)
  fields ← optional ((codes "access_key", login.access_key) ∷ []) (codes "ticket") login.ticket
  fields' ← optional fields (codes "third_payment_voucher") login.third_payment_voucher
  ok (record {
    path = cache_path;
    fields = fields';
    already_encoded = true;
    current_user = login.current_user;
  })

module _ (read_envelope : Bytes → Option Envelope) (send : SdkRequest → SdkResult Bytes) where
  unfoldable pub fetch_rsa :
      (Bytes → Option RsaData)
      → (Bytes → Option ℕ)
      → SdkHttpClient
      → Option CurrentSdkUser
      → SdkResult (SdkReply RsaChallenge)
  unfolding Reply.rsa
  fetch_rsa read_data key_bits client current_user =
      send (record {
        path = rsa_path;
        fields = [];
        already_encoded = true;
        current_user = current_user;
      })
      >>= λ body. Reply.rsa read_envelope read_data key_bits body client.binding

  unfoldable pub password_login :
      (Bytes → Option WireLogin)
      → (Bytes → Option RsaKey)
      → (Bytes → Bytes)
      → SdkHttpClient
      → RsaChallenge
      → PasswordLogin
      → Option CurrentSdkUser
      → Bool
      → SdkResult (SdkReply PendingSdkLogin)
  unfolding password_request Reply.login
  password_login read_login parse_rsa_public_key base64 client rsa login current_user is_cancelled =
      do
        guard (not is_cancelled) cancelled
        request ← password_request parse_rsa_public_key base64 client rsa login current_user
        body ← send request
        Reply.login read_envelope read_login body none

  unfoldable pub cache_login :
      (Bytes → Option WireLogin) → CacheLogin → SdkResult (SdkReply PendingSdkLogin)
  unfolding cache_request Reply.login
  cache_login read_login login = do
    request ← cache_request login
    body ← send request
    Reply.login read_envelope read_login body (some login.access_key)
