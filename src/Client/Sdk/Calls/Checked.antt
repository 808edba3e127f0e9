-- ===== src/Client/Sdk/Calls/Checked.antt =====
-- client/src/sdk_http.rs: a cache login that succeeds.
use moenotes_api.Client.Sdk.Reply
use moenotes_api.Prelude.{
  Bool, Option, ap, arith, false, if◌then◌else◌, is_empty, leb, length, none, not, refl, some,
  subst, sym, true, ℕ, ◌&&◌, ◌∙◌, ◌≡◌, ◌≤◌,
}
use moenotes_api.Client.Sdk.Base.{
  Bytes, SdkErrorKind, SdkResult, guard, ok, ok->>=, ok_injective, protocol, require,
  validate_secret, ◌>>=◌,
}
use moenotes_api.Client.Sdk.Reply.{
  Envelope, PendingSdkLogin, SdkRejection, SdkReply, WireLogin, access_key_of, as_protocol,
  check_login, fits, is_code, keep_key, login, max_response, parse, pending_of, rejected, succeed,
  success,
}
use moenotes_api.Client.Sdk.Calls.{CacheLogin, SdkRequest, cache_login, cache_request}

-- The bounds of an accepted login.
record IsChecked (user : PendingSdkLogin) : Type 0 where
  pub has_uid : is_empty user.uid ≡ false
  pub uid_fits : length user.uid ≤ 256
  pub has_key : is_empty (access_key_of user) ≡ false
  pub key_fits : length (access_key_of user) ≤ 16384
  pub id_token_fits : fits 16384 user.id_token ≡ true
  pub refresh_token_fits : fits 16384 user.refresh_token ≡ true

validate_secret-ok :
    (value : Bytes) (max : ℕ) (u : Unit {0})
    → as_protocol (validate_secret value max) ≡ ok u
    → (is_empty value ≡ false) × (length value ≤ max)
unfolding validate_secret
validate_secret-ok value max u e = ground arith

pub guard-ok : (b : Bool) (k : SdkErrorKind) (u : Unit {0}) → guard b k ≡ ok u → b ≡ true
guard-ok true k u e = refl
guard-ok false k u e = cc

check_login-IsChecked :
    (user out : PendingSdkLogin) → check_login user ≡ ok out → (user ≡ out) × IsChecked user
unfolding check_login
check_login-IsChecked user out e =
    let (a, v, r) = ok->>= (as_protocol (validate_secret user.uid 256)) _ e in
    let (b, w, r') = ok->>= (as_protocol (validate_secret (access_key_of user) 16384)) _ r in
    let (c, g, r'') =
      ok->>= (guard (fits 16384 user.id_token && fits 16384 user.refresh_token) protocol) _ r' in
    let bounds = validate_secret-ok user.uid 256 a v in
    let key_bounds = validate_secret-ok (access_key_of user) 16384 b w in
    let tokens = guard-ok _ protocol c g in
    (
      ok_injective user out r'',
      record {
        has_uid = bounds.0;
        uid_fits = bounds.1;
        has_key = key_bounds.0;
        key_fits = key_bounds.1;
        id_token_fits = ground (arith, tokens);
        refresh_token_fits = ground (arith, tokens);
      },
    )

success_injective :
    {A : Type 0} (a b : A)
    → ◌≡◌ {A = SdkResult (SdkReply A)} (ok (success a)) (ok (success b))
    → a ≡ b
success_injective a b e = cc

pub answered :
    {A : Type 0} (is_rejection : Bool) (r : SdkRejection) (content : Option Bytes)
    (read : Bytes → SdkResult A) (a : A)
    → (if is_rejection then ok (rejected r) else (require content protocol >>= read >>= succeed))
      ≡ ok (success a)
    → (bytes : Bytes) × (read bytes ≡ ok a)
answered true r content read a e = cc
answered false r none read a e = cc
answered {A} false r (some bytes) read a e =
    let (b, h, k) = ok->>= (read bytes) (succeed {A = A}) e in
    (bytes, h ∙ ap (λ (t : A). ok t) (success_injective b a k))

-- A success is one of what was read.
parse-success :
    {A : Type 0} (read_envelope : Bytes → Option Envelope) (bytes : Bytes)
    (read : Bytes → SdkResult A) (a : A)
    → parse read_envelope bytes read ≡ ok (success a)
    → (content : Bytes) × (read content ≡ ok a)
unfolding parse
parse-success read_envelope bytes read a e =
    let (u, g, r) = ok->>= (guard (leb (length bytes) max_response) protocol) _ e in
    let (envelope, v, r') = ok->>= (require (read_envelope bytes) protocol) _ r in
    answered (not (is_code envelope.code 0)) _ envelope.content read a r'

login-IsChecked :
    (read_envelope : Bytes → Option Envelope) (read_login : Bytes → Option WireLogin)
    (bytes : Bytes) (old_key : Option Bytes) (user : PendingSdkLogin)
    → Reply.login read_envelope read_login bytes old_key ≡ ok (success user)
    → (before : PendingSdkLogin) × (keep_key old_key before ≡ user) × IsChecked user
unfolding Reply.login
login-IsChecked read_envelope read_login bytes old_key user e =
    let (content, r) = parse-success read_envelope bytes _ user e in
    let (wire, v, r') = ok->>= (require (read_login content) protocol) _ r in
    let (before, w, r'') = ok->>= (pending_of wire) _ r' in
    let (same, checked) = check_login-IsChecked (keep_key old_key before) user r'' in
    (before, same, subst IsChecked same checked)

-- A cache login that succeeds keeps the access key that it was called with, whatever the answer
-- says; the key has 1 to 16384 bytes, the uid 1 to 256, and the tokens at most 16384 each.
cache_login-IsChecked :
    (read_envelope : Bytes → Option Envelope) (read_login : Bytes → Option WireLogin)
    (send : SdkRequest → SdkResult Bytes) (login : CacheLogin) (user : PendingSdkLogin)
    → cache_login read_envelope send read_login login ≡ ok (success user)
    → (user.access_key ≡ some login.access_key) × IsChecked user
unfolding cache_login
cache_login-IsChecked read_envelope read_login send login user e =
    let (request, v, r) = ok->>= (cache_request login) _ e in
    let (body, w, r') = ok->>= (send request) _ r in
    let (before, same, checked) =
      login-IsChecked read_envelope read_login body (some login.access_key) user r' in
    (sym (ap (λ (u : PendingSdkLogin). u.access_key) same), checked)
