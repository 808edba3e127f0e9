-- ===== src/Client/Sdk/Form/Coding.antt =====
-- client/src/sdk_http/form.rs: the two encodings of a value, read back as the signature reads them.
use moenotes_api.Prelude.{
  All, Bool, Bool-cases, [], all_below, all_below_sound, ap, arith, false, if◌then◌else◌, inl, inr,
  is_digit, is_hexdigit, leb, not, refl, true, ℕ, ◌%◌, ◌&&◌, ◌*◌, ◌++◌, ◌+◌, ◌-◌, ◌/◌, ◌<◌, ◌==◌,
  ◌||◌, ◌∙◌, ◌∷◌, ◌≡◌, ◌≢◌,
}
use moenotes_api.Client.Sdk.Base.{Bytes, ok}
use moenotes_api.Client.Sdk.Form.{
  decoded, encoded, hex_digit, is_dropped, is_plain, is_unreserved, is_utf8, percent, raw,
  space_for_plus, uri_encoded,
}

abbrev pub hex_value : ℕ → ℕ
hex_value c = if is_digit c then c - b'0' else if leb b'a' c then c - b'a' + 10 else c - b'A' + 10

abbrev pub starts_hex : Bytes → Bool
starts_hex [] = false
starts_hex (h ∷ []) = false
starts_hex (h ∷ l ∷ s) = is_hexdigit h && is_hexdigit l

-- What `percent_decode_str` is documented to do: it replaces `%` and two hex digits by the byte
-- that they name, and keeps all else.
pub record PercentDecoding (decode : Bytes → Bytes) : Type 0 where
  pub decode_end : decode [] ≡ []
  pub decode_byte : (c : ℕ) (s : Bytes) → c ≢ b'%' → decode (c ∷ s) ≡ c ∷ decode s
  pub decode_hex :
      (h l : ℕ) (s : Bytes)
      → is_hexdigit h ≡ true
      → is_hexdigit l ≡ true
      → decode (b'%' ∷ h ∷ l ∷ s) ≡ (hex_value h * 16 + hex_value l) ∷ decode s
  pub decode_kept : (s : Bytes) → starts_hex s ≡ false → decode (b'%' ∷ s) ≡ b'%' ∷ decode s

abbrev pub IsByte : ℕ → Type 0
IsByte c = c < 256

abbrev pub IsKept : ℕ → Type 0
IsKept c = is_dropped c ≡ false

-- Each hex digit is plain, is kept, is no `+` and has its value.
abbrev digit_test : ℕ → Bool
digit_test d =
    is_plain (hex_digit d)
    && not (is_dropped (hex_digit d))
    && not (hex_digit d == b'+')
    && is_hexdigit (hex_digit d)
    && hex_value (hex_digit d) == d

digits_pass : all_below 16 digit_test ≡ true
unfolding all_below is_plain hex_digit
digits_pass = refl

digit_facts : (d : ℕ) → d < 16 → digit_test d ≡ true
digit_facts d h = all_below_sound 16 digit_test d digits_pass h

-- What stands for itself in a URI is kept, and is neither `+` nor `%`.
abbrev unreserved_test : ℕ → Bool
unreserved_test c =
    not (is_unreserved c) || (not (is_dropped c) && not (c == b'+') && not (c == b'%'))

unreserved_pass : all_below 256 unreserved_test ≡ true
unfolding all_below is_unreserved
unreserved_pass = refl

unreserved_facts : (c : ℕ) → c < 256 → unreserved_test c ≡ true
unreserved_facts c h = all_below_sound 256 unreserved_test c unreserved_pass h

-- A hex digit is plain and kept, and `+` and `%` are plain.
abbrev pub plain_test : ℕ → Bool
plain_test c =
    (not (is_hexdigit c) || (is_plain c && not (is_dropped c)))
    && (is_plain c || (not (c == b'+') && not (c == b'%')))

plain_pass : all_below 256 plain_test ≡ true
unfolding all_below is_plain
plain_pass = refl

pub plain_facts : (c : ℕ) → c < 256 → plain_test c ≡ true
plain_facts c h = all_below_sound 256 plain_test c plain_pass h

nibbles : (c : ℕ) → c < 256 → (c / 16 < 16) × (c % 16 < 16) × (c / 16 * 16 + c % 16 ≡ c)
nibbles c h = omega arith

-- One byte of `encoded`.
pub encoded-plain :
    (c : ℕ) (s : Bytes) → IsKept c → is_plain c ≡ true → encoded (c ∷ s) ≡ c ∷ encoded s
unfolding encoded
encoded-plain c s kept plain = rw (kept, plain) refl

pub encoded-special :
    (c : ℕ) (s : Bytes) → IsKept c → is_plain c ≡ false → encoded (c ∷ s) ≡ percent c ++ encoded s
unfolding encoded
encoded-special c s kept special = rw (kept, special) refl

encoded-digit : (d : ℕ) (s : Bytes) → d < 16 → encoded (hex_digit d ∷ s) ≡ hex_digit d ∷ encoded s
encoded-digit d s h =
    encoded-plain (hex_digit d) s (ground (arith, digit_facts d h))
      (ground (arith, digit_facts d h))

pub percent_plain : (s : Bytes) → encoded (b'%' ∷ s) ≡ b'%' ∷ encoded s
unfolding encoded is_plain
percent_plain s = refl

-- An escape is a sequence of plain bytes.
encoded-percent : (c : ℕ) (s : Bytes) → c < 256 → encoded (percent c ++ s) ≡ percent c ++ encoded s
unfolding percent
encoded-percent c s h =
    percent_plain (hex_digit (c / 16) ∷ hex_digit (c % 16) ∷ s)
    ∙ ap (λ (t : Bytes). b'%' ∷ t)
        (encoded-digit (c / 16) (hex_digit (c % 16) ∷ s) (nibbles c h).0
          ∙ ap (λ (t : Bytes). hex_digit (c / 16) ∷ t) (encoded-digit (c % 16) s (nibbles c h).1))

space-digit :
    (d : ℕ) (s : Bytes) → d < 16 → space_for_plus (hex_digit d ∷ s) ≡ hex_digit d ∷ space_for_plus s
space-digit d s h = ground (arith, digit_facts d h)

space-percent :
    (c : ℕ) (s : Bytes) → c < 256 → space_for_plus (percent c ++ s) ≡ percent c ++ space_for_plus s
unfolding percent
space-percent c s h =
    ap (λ (t : Bytes). b'%' ∷ t)
      (space-digit (c / 16) (hex_digit (c % 16) ∷ s) (nibbles c h).0
        ∙ ap (λ (t : Bytes). hex_digit (c / 16) ∷ t) (space-digit (c % 16) s (nibbles c h).1))

module _ (decode : Bytes → Bytes) (p : PercentDecoding decode) where
  decode-percent : (c : ℕ) (s : Bytes) → c < 256 → decode (percent c ++ s) ≡ c ∷ decode s
  unfolding percent
  decode-percent c s h =
      p.decode_hex (hex_digit (c / 16)) (hex_digit (c % 16)) s
        (ground (arith, digit_facts (c / 16) (nibbles c h).0))
        (ground (arith, digit_facts (c % 16) (nibbles c h).1))
      ∙ ap (λ (x : ℕ). x ∷ decode s)
          (ground (
            arith,
            digit_facts (c / 16) (nibbles c h).0,
            digit_facts (c % 16) (nibbles c h).1,
            nibbles c h,
          ))

  -- What the signature reads out of a text.
  abbrev pub reading : Bytes → Bytes
  reading s = decode (space_for_plus s)

  pub reading-percent : (c : ℕ) (s : Bytes) → c < 256 → reading (percent c ++ s) ≡ c ∷ reading s
  reading-percent c s h = rw (space-percent c s h) (decode-percent c (space_for_plus s) h)

  pub reading-byte :
      (c : ℕ) (s : Bytes)
      → (c == b'+') ≡ false
      → (c == b'%') ≡ false
      → reading (c ∷ s) ≡ c ∷ reading s
  reading-byte c s plus h = rw plus (p.decode_byte c (space_for_plus s) (λ e. ground (arith, e)))

  -- A byte that is encoded and read comes back.
  reading-encoded :
      (c : ℕ) (s : Bytes)
      → c < 256
      → IsKept c
      → (c == b'+') ≡ false
      → (c == b'%') ≡ false
      → reading (encoded (c ∷ s)) ≡ c ∷ reading (encoded s)
  reading-encoded c s h kept plus other = elim (Bool-cases (is_plain c)) [
    | inl e ↦ rw (encoded-plain c s kept e) (reading-byte c (encoded s) plus other)
    | inr e ↦ rw (encoded-special c s kept e) (reading-percent c (encoded s) h)
  ]

  reading-raw : (v : Bytes) → All IsByte v → reading (raw v) ≡ v
  unfolding raw uri_encoded
  reading-raw [] b = p.decode_end
  reading-raw (c ∷ s) (h, b) = elim (Bool-cases (is_unreserved c)) [
    | inl e ↦ rw e (
        reading-encoded c (uri_encoded s) h (ground (arith, unreserved_facts c h))
          (ground (arith, unreserved_facts c h)) (ground (arith, unreserved_facts c h))
        ∙ ap (λ (t : Bytes). c ∷ t) (reading-raw s b))
    | inr e ↦ rw e (
        ap reading (encoded-percent c (uri_encoded s) h)
        ∙ reading-percent c (encoded (uri_encoded s)) h
        ∙ ap (λ (t : Bytes). c ∷ t) (reading-raw s b))
  ]

  -- Where the percent decoding does what is documented: a value of UTF-8 bytes, encoded for the
  -- form by `raw`, is decoded for the signature as the value itself.
  pub decoded-raw : (v : Bytes) → All IsByte v → is_utf8 v ≡ true → decoded decode (raw v) ≡ ok v
  unfolding decoded
  decoded-raw v b u = rw (reading-raw v b, u) refl
