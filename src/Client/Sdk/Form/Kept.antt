-- ===== src/Client/Sdk/Form/Kept.antt =====
-- client/src/sdk_http/form.rs: `encoded` leaves an encoded value as the signature reads it.
use moenotes_api.Prelude.{
  ==_iff, All, Bool-cases, [], ap, arith, false, if◌then◌else◌, inl, inr, refl, subst, sym, true, ℕ,
  ◌*◌, ◌++◌, ◌+◌, ◌<◌, ◌==◌, ◌∙◌, ◌∷◌, ◌≡◌,
}
use moenotes_api.Client.Sdk.Base.{Bytes}
use moenotes_api.Client.Sdk.Form.{decoded, encoded, is_plain, percent, space_for_plus}
use moenotes_api.Client.Sdk.Form.Coding.{
  IsByte, IsKept, PercentDecoding, encoded-plain, encoded-special, hex_value, percent_plain,
  plain_facts, reading, reading-byte, reading-percent, starts_hex,
}

starts_hex-space : (s : Bytes) → starts_hex (space_for_plus s) ≡ starts_hex s
starts_hex-space [] = refl
starts_hex-space (h ∷ []) = refl
starts_hex-space (h ∷ l ∷ s) = ground arith

-- An escape begins with `%`, which is no hex digit.
starts_hex-percent : (c : ℕ) (s : Bytes) → starts_hex (percent c ++ s) ≡ false
unfolding percent
starts_hex-percent c s = refl

starts_hex_behind-percent : (c d : ℕ) (s : Bytes) → starts_hex (c ∷ (percent d ++ s)) ≡ false
unfolding percent
starts_hex_behind-percent c d s = ground arith

starts_hex-encoded :
    (s : Bytes)
    → All IsByte s
    → All IsKept s
    → starts_hex s ≡ false
    → starts_hex (encoded s) ≡ false
unfolding encoded
starts_hex-encoded [] b k e = refl
starts_hex-encoded (h ∷ []) (bh, b) (kh, k) e = elim (Bool-cases (is_plain h)) [
  | inl plain ↦ rw (kh, plain) refl
  | inr special ↦ rw (kh, special) (starts_hex-percent h [])
]
starts_hex-encoded (h ∷ l ∷ s) (bh, bl) (kh, kl) e = elim (Bool-cases (is_plain h)) [
  | inl plain ↦ elim (Bool-cases (is_plain l)) [
    | inl next ↦ rw (kh, plain, kl.0, next) e
    | inr next ↦ rw (kh, plain, kl.0, next) (starts_hex_behind-percent h l (encoded s))
  ]
  | inr special ↦ rw (kh, special) (starts_hex-percent h (encoded (l ∷ s)))
]

-- A plain byte and a plain byte behind an escape sign are encoded as they are.
encoded-hex :
    (h l : ℕ) (s : Bytes)
    → h < 256
    → l < 256
    → starts_hex (h ∷ l ∷ s) ≡ true
    → encoded (h ∷ l ∷ s) ≡ h ∷ l ∷ encoded s
encoded-hex h l s bh bl e =
    encoded-plain h (l ∷ s) (ground (arith, e, plain_facts h bh))
      (ground (arith, e, plain_facts h bh))
    ∙ ap (λ (t : Bytes). h ∷ t)
        (encoded-plain l s (ground (arith, e, plain_facts l bl))
          (ground (arith, e, plain_facts l bl)))

module _ (decode : Bytes → Bytes) (p : PercentDecoding decode) where
  -- `%` where no escape begins.
  read_kept :
      (s : Bytes)
      → All IsByte s
      → All IsKept s
      → starts_hex s ≡ false
      → reading decode p (encoded s) ≡ reading decode p s
      → reading decode p (encoded (b'%' ∷ s)) ≡ reading decode p (b'%' ∷ s)
  read_kept s b k e ih =
      ap (reading decode p) (percent_plain s)
      ∙ p.decode_kept (space_for_plus (encoded s))
          (starts_hex-space (encoded s) ∙ starts_hex-encoded s b k e)
      ∙ ap (λ (t : Bytes). b'%' ∷ t) ih
      ∙ sym (p.decode_kept (space_for_plus s) (starts_hex-space s ∙ e))

  reading-hex :
      (h l : ℕ) (s : Bytes)
      → starts_hex (h ∷ l ∷ s) ≡ true
      → reading decode p (b'%' ∷ h ∷ l ∷ s) ≡ (hex_value h * 16 + hex_value l) ∷ reading decode p s
  reading-hex h l s e =
      let not_plus : (h == b'+') ≡ false = ground (arith, e) in
      let next_not_plus : (l == b'+') ≡ false = ground (arith, e) in
      rw (not_plus, next_not_plus)
        (p.decode_hex h l (space_for_plus s) (ground (arith, e)) (ground (arith, e)))

  read_escape :
      (h l : ℕ) (s : Bytes)
      → h < 256
      → l < 256
      → starts_hex (h ∷ l ∷ s) ≡ true
      → reading decode p (encoded s) ≡ reading decode p s
      → reading decode p (encoded (b'%' ∷ h ∷ l ∷ s)) ≡ reading decode p (b'%' ∷ h ∷ l ∷ s)
  read_escape h l s bh bl e ih =
      ap (reading decode p)
        (percent_plain (h ∷ l ∷ s) ∙ ap (λ (t : Bytes). b'%' ∷ t) (encoded-hex h l s bh bl e))
      ∙ reading-hex h l (encoded s) e
      ∙ ap (λ (t : Bytes). (hex_value h * 16 + hex_value l) ∷ t) ih
      ∙ sym (reading-hex h l s e)

  read_percent :
      (s : Bytes)
      → All IsByte s
      → All IsKept s
      → ((h l : ℕ) (t : Bytes) → s ≡ h ∷ l ∷ t → reading decode p (encoded t) ≡ reading decode p t)
      → reading decode p (encoded s) ≡ reading decode p s
      → reading decode p (encoded (b'%' ∷ s)) ≡ reading decode p (b'%' ∷ s)
  read_percent [] b k behind ih = read_kept [] b k refl ih
  read_percent (h ∷ []) b k behind ih = read_kept (h ∷ []) b k refl ih
  read_percent (h ∷ l ∷ s) b k behind ih = elim (Bool-cases (starts_hex (h ∷ l ∷ s))) [
    | inl e ↦ read_escape h l s b.0 b.1.0 e (behind h l s refl)
    | inr e ↦ read_kept (h ∷ l ∷ s) b k e ih
  ]

  reading-other :
      (c : ℕ) (s : Bytes)
      → (c == b'%') ≡ false
      → reading decode p (c ∷ s) ≡ (if c == b'+' then b' ' else c) ∷ reading decode p s
  reading-other c s e = p.decode_byte _ (space_for_plus s) (λ f. ground (arith, f))

  -- One byte: the escapes behind it are read as the bytes that they stand for.
  read_byte :
      (c : ℕ) (s : Bytes)
      → c < 256
      → IsKept c
      → (c == b'%') ≡ false
      → reading decode p (encoded s) ≡ reading decode p s
      → reading decode p (encoded (c ∷ s)) ≡ reading decode p (c ∷ s)
  read_byte c s h kept e ih = elim (Bool-cases (is_plain c)) [
    | inl plain ↦ rw (encoded-plain c s kept plain) (
        reading-other c (encoded s) e
        ∙ ap (λ (t : Bytes). (if c == b'+' then b' ' else c) ∷ t) ih
        ∙ sym (reading-other c s e))
    | inr special ↦ rw (encoded-special c s kept special) (
        reading-percent decode p c (encoded s) h
        ∙ ap (λ (t : Bytes). c ∷ t) ih
        ∙ sym (reading-byte decode p c s (ground (arith, plain_facts c h)) e))
  ]

  read_next :
      (c : ℕ) (s : Bytes)
      → All IsByte (c ∷ s)
      → All IsKept (c ∷ s)
      → ((h l : ℕ) (t : Bytes) → s ≡ h ∷ l ∷ t → reading decode p (encoded t) ≡ reading decode p t)
      → reading decode p (encoded s) ≡ reading decode p s
      → reading decode p (encoded (c ∷ s)) ≡ reading decode p (c ∷ s)
  read_next c s (bc, b) (kc, k) behind ih = elim (Bool-cases (c == b'%')) [
    | inl e ↦ rw ((==_iff c b'%').0 e) (read_percent s b k behind ih)
    | inr e ↦ read_byte c s bc kc e ih
  ]

  reading-encoded_text :
      (v : Bytes) → All IsByte v → All IsKept v → reading decode p (encoded v) ≡ reading decode p v
  unfolding encoded
  reading-encoded_text [] b k = refl
  reading-encoded_text (c ∷ []) b k = read_next c [] b k (λ h l t e. cc) refl
  reading-encoded_text (c ∷ h ∷ []) b k =
      read_next c (h ∷ []) b k (λ h' l t e. cc) (reading-encoded_text (h ∷ []) b.1 k.1)
  reading-encoded_text (c ∷ h ∷ l ∷ s) b k =
      let behind = reading-encoded_text s b.1.1.1 k.1.1.1 in
      read_next c (h ∷ l ∷ s) b k
        (λ h' l' t e.
          subst (λ (x : Bytes). reading decode p (encoded x) ≡ reading decode p x) (cc) behind)
        (reading-encoded_text (h ∷ l ∷ s) b.1 k.1)

  -- A value that is encoded already, without tabs, line feeds, form feeds and carriage returns: the
  -- signature reads the same out of it before and after `encoded`.
  pub decoded-encoded :
      (v : Bytes) → All IsByte v → All IsKept v → decoded decode (encoded v) ≡ decoded decode v
  unfolding decoded
  decoded-encoded v b k = rw (reading-encoded_text v b k) refl
