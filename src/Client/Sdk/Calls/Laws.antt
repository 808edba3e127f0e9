-- ===== src/Client/Sdk/Calls/Laws.antt =====
-- client/src/sdk_http.rs: what a password call that was answered has sent.
use mathlib.Core.List.{append-nil}
use moenotes_api.Prelude.{
  ==_iff, Bool, List, Option, [], ap, arith, codes, false, leb, length, none, not, refl, some, sym,
  ◌&&◌, ◌++◌, ◌-◌, ◌==◌, ◌∙◌, ◌∷◌, ◌≡◌, ◌≤◌,
}
use moenotes_api.Client.Sdk.Base.{
  Bytes, Field, SdkErrorKind, SdkResult, cancelled, guard, invalid_input, ok, ok->>=, ok_injective,
  optional, protocol, require, validate_secret,
}
use moenotes_api.Client.Sdk.Request.{CurrentSdkUser, SdkHttpClient}
use moenotes_api.Client.Sdk.Reply.{
  Envelope, PendingSdkLogin, RsaChallenge, SdkReply, WireLogin, login, rsa,
}
use moenotes_api.Client.Sdk.Calls.{
  PasswordAccountType, PasswordLogin, RsaKey, SdkRequest, email, encrypt_password, legacy,
  password_login, password_request, phone, type_fields,
}
use moenotes_api.Client.Sdk.Calls.Checked.{guard-ok}
use moenotes_api.Decimal.{print}

-- A field for a text that is given and not empty.
abbrev pub field_if_given : Bytes → Option Bytes → List Field
field_if_given name none = []
field_if_given name (some []) = []
field_if_given name (some (c ∷ s)) = (name, c ∷ s) ∷ []

-- How the account is named: a legacy account by nothing, the others by their country and a digit.
abbrev pub account_fields : PasswordAccountType → List Field
account_fields legacy = []
account_fields (email country) =
    (codes "country_id", print country) ∷ (codes "user_id_type", b'0' ∷ []) ∷ []
account_fields (phone country) =
    (codes "country_id", print country) ∷ (codes "user_id_type", b'1' ∷ []) ∷ []

optional-append :
    (fields out : List Field) (name : Bytes) (value : Option Bytes)
    → optional fields name value ≡ ok out
    → out ≡ fields ++ field_if_given name value
unfolding optional
optional-append fields out name none e = sym (append-nil fields ∙ ok_injective fields out e)
optional-append fields out name (some []) e = sym (append-nil fields ∙ ok_injective fields out e)
optional-append fields out name (some (c ∷ s)) e =
    let (u, h, k) = ok->>= (validate_secret (c ∷ s) 16384) _ e in
    sym (ok_injective (fields ++ (name, c ∷ s) ∷ []) out k)

type_fields-account : (t : PasswordAccountType) → type_fields t ≡ account_fields t
unfolding type_fields
type_fields-account legacy = refl
type_fields-account (email n) = refl
type_fields-account (phone n) = refl

require-ok {ℓ} :
    {A : Type ℓ} (o : Option A) (k : SdkErrorKind) (a : A) → require o k ≡ ok a → o ≡ some a
require-ok none k a e = cc
require-ok (some b) k a e = ap some (ok_injective b a e)

-- An encryption of the password, behind the challenge's hash, under the challenge's key.
pub record Encrypts (parse_rsa_public_key : Bytes → Option RsaKey) (base64 : Bytes → Bytes)
    (rsa : RsaChallenge) (password out : Bytes) : Type 0 where
  pub rsa_key : RsaKey
  pub ciphertext : Bytes
  pub key_read : parse_rsa_public_key rsa.pem ≡ some rsa_key
  pub bits_fit : (1024 ≤ rsa_key.bits) × (rsa_key.bits ≤ 4096)
  pub encrypted : rsa_key.encrypt (rsa.hash ++ password) ≡ some ciphertext
  pub printed : base64 ciphertext ≡ out

encrypt_password-Encrypts :
    (parse_rsa_public_key : Bytes → Option RsaKey) (base64 : Bytes → Bytes) (rsa : RsaChallenge)
    (password out : Bytes)
    → encrypt_password parse_rsa_public_key base64 rsa password ≡ ok out
    → Encrypts parse_rsa_public_key base64 rsa password out
unfolding encrypt_password
encrypt_password-Encrypts parse_rsa_public_key base64 rsa password out e =
    let (key, v, r) = ok->>= (require (parse_rsa_public_key rsa.pem) protocol) _ e in
    let (u, g, r1) = ok->>= (guard (leb 1024 key.bits && leb key.bits 4096) protocol) _ r in
    let (u1, g1, r2) =
      ok->>= (guard (leb (length (rsa.hash ++ password)) (key.size - 11)) invalid_input) _ r1 in
    let (c, w, r3) = ok->>= (require (key.encrypt (rsa.hash ++ password)) protocol) _ r2 in
    let bits = guard-ok _ protocol u g in
    record {
      rsa_key = key;
      ciphertext = c;
      key_read = require-ok (parse_rsa_public_key rsa.pem) protocol key v;
      bits_fit = (ground (arith, bits), ground (arith, bits));
      encrypted = require-ok (key.encrypt (rsa.hash ++ password)) protocol c w;
      printed = ok_injective (base64 c) out r3;
    }

-- The fields of a password call, all of them: the password is in the second one only.
abbrev pub password_fields : PasswordLogin → Bytes → List Field
password_fields login pwd =
    (codes "user_id", login.user_id)
    ∷ (codes "pwd", pwd)
    ∷ (field_if_given (codes "ticket") login.ticket
        ++ (field_if_given (codes "third_payment_voucher") login.third_payment_voucher
            ++ account_fields login.account_type))

-- What a password call sends, to a client that the challenge was fetched by.
pub record IsPasswordRequest (parse_rsa_public_key : Bytes → Option RsaKey) (base64 : Bytes → Bytes)
    (client : SdkHttpClient) (rsa : RsaChallenge) (login : PasswordLogin)
    (user : Option CurrentSdkUser) (request : SdkRequest) : Type 0 where
  pub bound : rsa.binding ≡ client.binding
  pub path_is : request.path ≡ codes "/gapi/client/login"
  pub user_is : request.current_user ≡ user
  pub is_raw : request.already_encoded ≡ false
  pub pwd : Bytes
  pub encrypts : Encrypts parse_rsa_public_key base64 rsa login.password pwd
  pub fields_are : request.fields ≡ password_fields login pwd

append_assoc : (xs ys zs : List Field) → (xs ++ ys) ++ zs ≡ xs ++ (ys ++ zs)
append_assoc [] ys zs = refl
append_assoc (x ∷ xs) ys zs = ap (λ (l : List Field). x ∷ l) (append_assoc xs ys zs)

-- What was appended one after the other.
three_appended :
    (start a b c fields fields' all_fields types : List Field)
    → fields ≡ start ++ a
    → fields' ≡ fields ++ b
    → types ≡ c
    → fields' ++ types ≡ all_fields
    → all_fields ≡ start ++ (a ++ (b ++ c))
three_appended start a b c fields fields' all_fields types h k l m =
    sym m
    ∙ ap (λ (t : List Field). fields' ++ t) l
    ∙ ap (λ (t : List Field). t ++ c) (k ∙ ap (λ (t : List Field). t ++ b) h)
    ∙ append_assoc (start ++ a) b c
    ∙ append_assoc start a (b ++ c)

password_request-IsPasswordRequest :
    (parse_rsa_public_key : Bytes → Option RsaKey) (base64 : Bytes → Bytes) (client : SdkHttpClient)
    (rsa : RsaChallenge) (login : PasswordLogin) (user : Option CurrentSdkUser)
    (request : SdkRequest)
    → password_request parse_rsa_public_key base64 client rsa login user ≡ ok request
    → IsPasswordRequest parse_rsa_public_key base64 client rsa login user request
unfolding password_request
password_request-IsPasswordRequest parse_rsa_public_key base64 client rsa login user request e =
    let (u, g, r) = ok->>= (guard (rsa.binding == client.binding) invalid_input) _ e in
    let (u1, g1, r1) = ok->>= (validate_secret login.user_id 1024) _ r in
    let (u2, g2, r2) = ok->>= (validate_secret login.password 4096) _ r1 in
    let (pwd, v, r3) =
      ok->>= (encrypt_password parse_rsa_public_key base64 rsa login.password) _ r2 in
    let start : List Field = (codes "user_id", login.user_id) ∷ (codes "pwd", pwd) ∷ [] in
    let (fields, w, r4) = ok->>= (optional start (codes "ticket") login.ticket) _ r3 in
    let (fields', w', r5) =
      ok->>= (optional fields (codes "third_payment_voucher") login.third_payment_voucher) _ r4 in
    let same = ok_injective _ request r5 in
    record {
      bound = (==_iff rsa.binding client.binding).0 (guard-ok _ invalid_input u g);
      path_is = sym (ap (λ (q : SdkRequest). q.path) same);
      user_is = sym (ap (λ (q : SdkRequest). q.current_user) same);
      is_raw = sym (ap (λ (q : SdkRequest). q.already_encoded) same);
      pwd = pwd;
      encrypts = encrypt_password-Encrypts parse_rsa_public_key base64 rsa login.password pwd v;
      fields_are =
          three_appended start (field_if_given (codes "ticket") login.ticket)
            (field_if_given (codes "third_payment_voucher") login.third_payment_voucher)
            (account_fields login.account_type) fields fields' request.fields
            (type_fields login.account_type)
            (optional-append start fields (codes "ticket") login.ticket w)
            (optional-append fields fields' (codes "third_payment_voucher")
              login.third_payment_voucher w')
            (type_fields-account login.account_type) (ap (λ (q : SdkRequest). q.fields) same);
    }

-- A password call that is answered, by a login or a rejection, was not cancelled, and has sent a
-- request to the login path, with the given user, whose fields are exactly the user's id, the
-- password, the ticket and the payment voucher (each only if given and not empty), and the country
-- and the kind of an account that is not a legacy one. The password is there only as the
-- challenge's key of 1024 to 4096 bits encrypts it behind the challenge's hash; the challenge was
-- fetched by the same client.
pub password_login-IsPasswordRequest :
    (read_envelope : Bytes → Option Envelope) (send : SdkRequest → SdkResult Bytes)
    (read_login : Bytes → Option WireLogin) (parse_rsa_public_key : Bytes → Option RsaKey)
    (base64 : Bytes → Bytes) (client : SdkHttpClient) (rsa : RsaChallenge) (login : PasswordLogin)
    (user : Option CurrentSdkUser) (is_cancelled : Bool) (reply : SdkReply PendingSdkLogin)
    → password_login read_envelope send read_login parse_rsa_public_key base64 client rsa login user
        is_cancelled
      ≡ ok reply
    → (is_cancelled ≡ false)
      × (request : SdkRequest) × (body : Bytes) × (send request ≡ ok body)
      × IsPasswordRequest parse_rsa_public_key base64 client rsa login user request
unfolding password_login
password_login-IsPasswordRequest read_envelope send read_login parse_rsa_public_key base64 client
      rsa login user is_cancelled reply e =
    let (u, g, r) = ok->>= (guard (not is_cancelled) cancelled) _ e in
    let (request, v, r1) =
      ok->>= (password_request parse_rsa_public_key base64 client rsa login user) _ r in
    let (body, w, r2) = ok->>= (send request) _ r1 in
    let open_call = guard-ok _ cancelled u g in
    (
      ground (arith, open_call),
      request,
      body,
      w,
      password_request-IsPasswordRequest parse_rsa_public_key base64 client rsa login user request
          v,
    )
