-- ===== src/Client/Sdk/Tests.antt =====
-- client/src/sdk_http.rs: a percent decoding, a client with its parameters, and calls of it.
use moenotes_api.Prelude.{
  All, List, Option, [], arith, codes, false, if◌then◌else◌, is_hexdigit, none, refl, some, true, ℕ,
  ◌&&◌, ◌*◌, ◌+◌, ◌==◌, ◌∷◌, ◌≡◌, ◌≢◌,
}
use moenotes_api.Int.{pos}
use moenotes_api.Client.Sdk.Base.{Bytes, Field, SdkResult, ok}
use moenotes_api.Client.Sdk.Form.{continuation, decoded, encoded, raw, utf8_from}
use moenotes_api.Client.Sdk.Form.Coding.{PercentDecoding, decoded-raw, hex_value, starts_hex}
use moenotes_api.Client.Sdk.Form.Kept.{decoded-encoded}
use moenotes_api.Client.Sdk.Request.{SdkHttpClient, default_options, form}
use moenotes_api.Client.Sdk.Request.Laws.{NameIsClean, form-IsSigned, name_is_clean, sent_fields}
use moenotes_api.Decimal.{print}
use moenotes_api.Client.Sdk.Reply.{
  Envelope, PendingSdkLogin, RsaChallenge, WireLogin, number, success,
}
use moenotes_api.Client.Sdk.Calls.{
  CacheLogin, PasswordLogin, RsaKey, SdkRequest, email, password_login,
}
use moenotes_api.Client.Sdk.Calls.Laws.{IsPasswordRequest, password_login-IsPasswordRequest}
use moenotes_api.Client.Sdk.Sending.{begin_send, end_send, sent, start_request}
use moenotes_api.Client.Sdk.Sending.Pacing.{
  IsPaced, Reach-IsPaced, System, and_then, begins, ends, start, starts,
}
use moenotes_api.Client.Sdk.Form.Body.{IsSigned}

-- A percent decoding.
unescape : Bytes → Bytes
unescape [] = []
unescape (c ∷ []) = c ∷ []
unescape (c ∷ h ∷ []) = c ∷ h ∷ []
unescape (c ∷ h ∷ l ∷ s) =
    let escaped = (hex_value h * 16 + hex_value l) ∷ unescape s in
    let kept = c ∷ unescape (h ∷ l ∷ s) in
    if c == b'%' && (is_hexdigit h && is_hexdigit l) then escaped else kept

unescape-byte : (c : ℕ) (s : Bytes) → c ≢ b'%' → unescape (c ∷ s) ≡ c ∷ unescape s
unfolding unescape
unescape-byte c [] ne = refl
unescape-byte c (h ∷ []) ne = refl
unescape-byte c (h ∷ l ∷ s) ne = ground (arith, ne)

unescape-kept : (s : Bytes) → starts_hex s ≡ false → unescape (b'%' ∷ s) ≡ b'%' ∷ unescape s
unfolding unescape
unescape-kept [] e = refl
unescape-kept (h ∷ []) e = refl
unescape-kept (h ∷ l ∷ s) e = rw e refl

unescape-hex :
    (h l : ℕ) (s : Bytes)
    → is_hexdigit h ≡ true
    → is_hexdigit l ≡ true
    → unescape (b'%' ∷ h ∷ l ∷ s) ≡ (hex_value h * 16 + hex_value l) ∷ unescape s
unfolding unescape
unescape-hex h l s e f = rw (e, f) refl

unescape-PercentDecoding : PercentDecoding unescape
unfolding unescape
unescape-PercentDecoding = record {
  decode_end = refl;
  decode_byte = unescape-byte;
  decode_hex = unescape-hex;
  decode_kept = unescape-kept;
}

-- A value with a blank, a sign of each kind and a letter of two bytes.
abbrev secret : Bytes
secret = b'a' ∷ b' ' ∷ b'+' ∷ b'%' ∷ b'&' ∷ b'~' ∷ 195 ∷ 169 ∷ []

decoded-raw_example : decoded unescape (raw secret) ≡ ok secret
unfolding utf8_from continuation
decoded-raw_example = decoded-raw unescape unescape-PercentDecoding secret (omega arith) refl

decoded-encoded_example : decoded unescape (encoded secret) ≡ decoded unescape secret
decoded-encoded_example =
    decoded-encoded unescape unescape-PercentDecoding secret (omega arith)
      (refl, (refl, (refl, (refl, (refl, (refl, (refl, (refl, tt))))))))

abbrev client : SdkHttpClient
client = record {
  base_url = codes "https://sdk.example";
  allowed_base_urls = "https://sdk.example" ∷ [];
  parameters = (codes "game_id", codes "1 2") ∷ (codes "lang", codes "en") ∷ [];
  key = codes "key";
  headers = record { trace_id = none; one_sdk_version = none };
  options = default_options;
  binding = 7;
}

abbrev no_digest : Bytes → Bytes
no_digest signed = codes "d0"

abbrev call_fields : List Field
call_fields = (codes "user_id", codes "a&b") ∷ (codes "pwd", codes "x=y") ∷ []

abbrev signed_body : Bytes
signed_body = codes "user_id=a%26b&pwd=x%3Dy&game_id=1%202&lang=en&timestamp=12&web_code=6&sign=d0"

form_test : form unescape no_digest client call_fields false none 12 ≡ ok signed_body
unfolding form unescape print utf8_from
form_test = refl

names_are_clean : All NameIsClean call_fields
names_are_clean = (
  name_is_clean (codes "user_id") (codes "a&b") refl refl,
  (name_is_clean (codes "pwd") (codes "x=y") refl refl, tt),
)

parameters_are_clean : All NameIsClean client.parameters
parameters_are_clean = (
  name_is_clean (codes "game_id") (codes "1 2") refl refl,
  (name_is_clean (codes "lang") (codes "en") refl refl, tt),
)

form-IsSigned_example :
    IsSigned unescape no_digest
      (sent_fields client call_fields false none 12)
      client.key
      signed_body
form-IsSigned_example =
    form-IsSigned unescape no_digest client call_fields false none 12 signed_body names_are_clean
      parameters_are_clean (λ t. (refl, (refl, tt))) form_test

abbrev envelope : Bytes → Option Envelope
envelope bytes = some (record { code = pos 0; content = some bytes })

abbrev read_login : Bytes → Option WireLogin
read_login bytes = some (record {
  uid = number (pos 42);
  access_key = some (codes "new");
  id_token = none;
  expires = none;
  refresh_token = none;
})

abbrev answer : SdkRequest → SdkResult Bytes
answer request = ok (codes "{}")

abbrev pending : Bytes → PendingSdkLogin
pending key = record {
  uid = codes "42";
  access_key = some key;
  id_token = none;
  expires = none;
  refresh_token = none;
}

abbrev cached : CacheLogin
cached = record {
  access_key = codes "old";
  ticket = none;
  third_payment_voucher = none;
  current_user = none;
}

abbrev challenge : RsaChallenge
challenge = record { pem = codes "pem"; hash = codes "h"; binding = 7 }

abbrev read_key : Bytes → Option RsaKey
read_key pem = some (record { bits = 2048; size = 256; encrypt = λ s. some s })

abbrev by_mail : PasswordLogin
by_mail = record {
  user_id = codes "u@x";
  password = codes "p";
  account_type = email 81;
  ticket = some (codes "t");
  third_payment_voucher = none;
}

abbrev same_text : Bytes → Bytes
same_text s = s

password_login-IsPasswordRequest_example :
    (false ≡ false)
    × (request : SdkRequest) × (body : Bytes) × (answer request ≡ ok body)
    × IsPasswordRequest read_key same_text client challenge by_mail none request
unfolding password_login print
password_login-IsPasswordRequest_example =
    password_login-IsPasswordRequest envelope answer read_login read_key same_text client challenge
      by_mail none false (success (pending (codes "new"))) refl

-- A request, one that comes while it runs, its end, and the next request.
abbrev after_one : System
after_one = record {
  sender = record { permits = 1; next = 6000 };
  running = [];
  starts = 5000 ∷ [];
}

Reach-IsPaced_example : IsPaced default_options after_one
unfolding begin_send start_request end_send
Reach-IsPaced_example = Reach-IsPaced (
    and_then
      (and_then (and_then start (begins _ (record { permits = 0; next = 3 }) refl))
        (starts _ 5000 [] [] refl (omega arith)))
      (ends _ sent [] [] refl))
