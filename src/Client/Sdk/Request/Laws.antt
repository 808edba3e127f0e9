-- ===== src/Client/Sdk/Request/Laws.antt =====
-- client/src/sdk_http.rs, SdkHttpClient::form: the form of every request is read back as its fields
-- with the signature behind them.
use mathlib.Core.List.{append-nil}
use moenotes_api.Prelude.{
  ==_iff, All, All-append, Bool, Bool-cases, List, Option, [], all, ap, arith, codes, false,
  if◌then◌else◌, inl, inr, is_empty, leb, length, map, none, not, refl, some, subst, sym, true, ℕ,
  ◌%◌, ◌++◌, ◌/◌, ◌==◌, ◌∙◌, ◌∷◌, ◌≡◌,
}
use moenotes_api.Client.Sdk.Base.{
  Bytes, Field, guard, invalid_input, ok, ok->>=, ok_injective, validate_secret,
}
use moenotes_api.Decimal.{print}
use moenotes_api.Decimal.Laws.{IsDigit, print-IsDigit}
use moenotes_api.Client.Sdk.Request.{
  CurrentSdkUser, SdkHttpClient, encode_fields, form, stamp, user_fields, wire_fields,
}
use moenotes_api.Client.Sdk.Form.{
  encoded, hex_digit, is_dropped, is_plain, percent, raw, uri_encoded,
}
use moenotes_api.Client.Sdk.Form.Body.{IsClean, IsSigned, Lacks, sign_form-IsSigned}

abbrev pub NameIsClean : Field → Type 0
NameIsClean (name, value) = All (Lacks b'=') name × All (Lacks b'&') name

hex_digit-Lacks : (d : ℕ) → Lacks b'&' (hex_digit d)
unfolding hex_digit
hex_digit-Lacks d = ground arith

percent-Lacks : (c : ℕ) → All (Lacks b'&') (percent c)
unfolding percent
percent-Lacks c = (refl, (hex_digit-Lacks (c / 16), (hex_digit-Lacks (c % 16), tt)))

is_plain-Lacks : (c : ℕ) → is_plain c ≡ true → Lacks b'&' c
unfolding is_plain
is_plain-Lacks c e = elim (Bool-cases (c == b'&')) [
  | inl same ↦ cc (subst (λ (d : ℕ). is_plain d ≡ true) ((==_iff c b'&').0 same) e)
  | inr other ↦ other
]

encoded-Lacks : (s : Bytes) → All (Lacks b'&') (encoded s)
unfolding encoded
encoded-Lacks [] = tt
encoded-Lacks (c ∷ s) = elim (Bool-cases (is_dropped c)) [
  | inl e ↦ rw e (encoded-Lacks s)
  | inr e ↦ elim (Bool-cases (is_plain c)) [
    | inl plain ↦ rw (e, plain) (is_plain-Lacks c plain, encoded-Lacks s)
    | inr special ↦
        rw (e, special)
          (All-append (Lacks b'&') (percent c) (encoded s) (percent-Lacks c) (encoded-Lacks s))
  ]
]

encode_fields-IsClean :
    (coding : Bytes → Bytes)
    → ((v : Bytes) → All (Lacks b'&') (coding v))
    → (fields : List Field) → All NameIsClean fields
    → All IsClean (encode_fields coding fields)
encode_fields-IsClean coding h [] n = tt
encode_fields-IsClean coding h ((k, v) ∷ fields) n =
    ((n.0.0, n.0.1, h v), encode_fields-IsClean coding h fields n.1)

digits-Lacks : (s : Bytes) → All IsDigit s → All (Lacks b'&') s
digits-Lacks [] d = tt
digits-Lacks (c ∷ s) (d, ds) = (ground (arith, d), digits-Lacks s ds)

all-Lacks :
    (separator : ℕ) (s : Bytes) → all (λ c. not (c == separator)) s ≡ true → All (Lacks separator) s
all-Lacks separator [] h = tt
all-Lacks separator (c ∷ s) h = (ground (arith, h), all-Lacks separator s (ground (arith, h)))

pub name_is_clean :
    (name value : Bytes)
    → all (λ c. not (c == b'=')) name ≡ true
    → all (λ c. not (c == b'&')) name ≡ true
    → NameIsClean (name, value)
name_is_clean name value h k = (all-Lacks b'=' name h, all-Lacks b'&' name k)

stamp-IsClean : (ms : ℕ) → All IsClean (stamp ms)
stamp-IsClean ms =
    let (a, b) = name_is_clean (codes "timestamp") [] refl refl in
    let (c, d) = name_is_clean (codes "web_code") [] refl refl in
    (
      (a, b, digits-Lacks (print ms) (print-IsDigit ms)),
      ((c, d, all-Lacks b'&' (codes "6") refl), tt),
    )

is_empty-stamp :
    (fields more : List Field) (ms : ℕ) → is_empty (fields ++ (more ++ stamp ms)) ≡ false
is_empty-stamp [] [] ms = refl
is_empty-stamp [] (f ∷ more) ms = refl
is_empty-stamp (f ∷ fields) more ms = refl

wire_fields-IsClean :
    (client : SdkHttpClient) (fields : List Field) (already_encoded : Bool) (ms : ℕ)
    → All NameIsClean fields
    → All NameIsClean client.parameters
    → All IsClean (wire_fields client fields already_encoded ms)
unfolding wire_fields raw
wire_fields-IsClean client fields already_encoded ms n m =
    All-append IsClean (encode_fields (if already_encoded then encoded else raw) fields) _
      (encode_fields-IsClean _ (coding-Lacks already_encoded) fields n)
      (All-append IsClean (encode_fields encoded client.parameters) (stamp ms)
        (encode_fields-IsClean encoded encoded-Lacks client.parameters m) (stamp-IsClean ms))
  where
    coding-Lacks : (b : Bool) (v : Bytes) → All (Lacks b'&') ((if b then encoded else raw) v)
    coding-Lacks true v = encoded-Lacks v
    coding-Lacks false v = encoded-Lacks (uri_encoded v)

is_empty-wire :
    (client : SdkHttpClient) (fields : List Field) (already_encoded : Bool) (ms : ℕ)
    → is_empty (wire_fields client fields already_encoded ms) ≡ false
unfolding wire_fields
is_empty-wire client fields already_encoded ms =
    is_empty-stamp (encode_fields (if already_encoded then encoded else raw) fields)
      (encode_fields encoded client.parameters) ms

user_fields-NameIsClean :
    (fields all_fields : List Field) (user : Option CurrentSdkUser)
    → All NameIsClean fields
    → user_fields fields user ≡ ok all_fields
    → All NameIsClean all_fields
unfolding user_fields
user_fields-NameIsClean fields all_fields none n e = subst (All NameIsClean) (cc) n
user_fields-NameIsClean fields all_fields (some user) n e =
    let (u, v, r) = ok->>= (validate_secret user.uid 256) _ e in
    let (u', v', r') = ok->>= (guard (leb (length user.mid) 256) invalid_input) _ r in
    subst (All NameIsClean) (ok_injective _ _ r') (
      All-append NameIsClean fields ((codes "uid", user.uid) ∷ (codes "mid", user.mid) ∷ []) n (
        name_is_clean (codes "uid") user.uid refl refl,
        (name_is_clean (codes "mid") user.mid refl refl, tt),
      ))

-- Fields whose values are written by `coding`.
abbrev pub written_by : (Bytes → Bytes) → List Field → List Field
written_by coding fields = map (λ (f : Field). (f.0, coding f.1)) fields

abbrev pub fields_of_user : Option CurrentSdkUser → List Field
fields_of_user none = []
fields_of_user (some user) = (codes "uid", user.uid) ∷ (codes "mid", user.mid) ∷ []

-- Fields that are encoded already are encoded for the form, the others also as the text of a URI.
abbrev pub call_written : Bool → List Field → List Field
call_written true fields = written_by encoded fields
call_written false fields = written_by raw fields

abbrev pub sent_fields : SdkHttpClient → List Field → Bool → Option CurrentSdkUser → ℕ → List Field
sent_fields client fields already_encoded user ms =
    call_written already_encoded (fields ++ fields_of_user user)
    ++ (written_by encoded client.parameters
        ++ (codes "timestamp", print ms) ∷ (codes "web_code", codes "6") ∷ [])

encode_fields-written_by :
    (coding : Bytes → Bytes) (fields : List Field)
    → encode_fields coding fields ≡ written_by coding fields
encode_fields-written_by coding [] = refl
encode_fields-written_by coding ((k, v) ∷ fields) =
    ap (◌∷◌ (k, coding v)) (encode_fields-written_by coding fields)

encode_fields-call_written :
    (already_encoded : Bool) (fields : List Field)
    → encode_fields (if already_encoded then encoded else raw) fields
      ≡ call_written already_encoded fields
encode_fields-call_written true fields = encode_fields-written_by encoded fields
encode_fields-call_written false fields = encode_fields-written_by raw fields

user_fields-eq :
    (fields all_fields : List Field) (user : Option CurrentSdkUser)
    → user_fields fields user ≡ ok all_fields
    → all_fields ≡ fields ++ fields_of_user user
unfolding user_fields
user_fields-eq fields all_fields none e = sym (append-nil fields ∙ ok_injective _ _ e)
user_fields-eq fields all_fields (some user) e =
    let (u, v, r) = ok->>= (validate_secret user.uid 256) _ e in
    let (u', v', r') = ok->>= (guard (leb (length user.mid) 256) invalid_input) _ r in
    sym (ok_injective _ _ r')

wire_fields-sent_fields :
    (client : SdkHttpClient) (fields all_fields : List Field) (already_encoded : Bool)
    (user : Option CurrentSdkUser) (ms : ℕ)
    → user_fields fields user ≡ ok all_fields
    → wire_fields client all_fields already_encoded ms
      ≡ sent_fields client fields already_encoded user ms
unfolding wire_fields
wire_fields-sent_fields client fields all_fields already_encoded user ms e =
    rw
      (
        user_fields-eq fields all_fields user e,
        encode_fields-call_written already_encoded (fields ++ fields_of_user user),
        encode_fields-written_by encoded client.parameters,
      )
      refl

-- Where the names of the call's fields and of the client's parameters hold no `=` and `&`, and the
-- digest prints no `&`: the body of a request, split at `&` and then at the first `=`, is the
-- fields of the call and of the current user (encoded for the form, and before that as a URI's
-- text if they are not encoded already), the client's parameters, encoded, the time and the web
-- code, in this order, with the signature behind them. It has at most 65536 bytes. The signature
-- is the digest of a text and the key; the text is the values of a map in the order of their
-- names, without those under `item_name` and `item_desc` in whatever case, and the map has for
-- each name just the decoded value of the last field of this name.
pub form-IsSigned :
    (percent_decode md5_hex : Bytes → Bytes) (client : SdkHttpClient) (fields : List Field)
    (already_encoded : Bool) (user : Option CurrentSdkUser) (ms : ℕ) (body : Bytes)
    → All NameIsClean fields
    → All NameIsClean client.parameters
    → ((t : Bytes) → All (Lacks b'&') (md5_hex t))
    → form percent_decode md5_hex client fields already_encoded user ms ≡ ok body
    → IsSigned percent_decode md5_hex
        (sent_fields client fields already_encoded user ms)
        client.key
        body
unfolding form
form-IsSigned percent_decode md5_hex client fields already_encoded user ms body n m hex e =
    let (all_fields, u, rest) = ok->>= (user_fields fields user) _ e in
    subst (λ (fs : List Field). IsSigned percent_decode md5_hex fs client.key body)
      (wire_fields-sent_fields client fields all_fields already_encoded user ms u)
      (sign_form-IsSigned percent_decode md5_hex (wire_fields client all_fields already_encoded ms)
        client.key body (is_empty-wire client all_fields already_encoded ms)
        (wire_fields-IsClean client all_fields already_encoded ms
          (user_fields-NameIsClean fields all_fields user n u) m)
        hex rest)
