-- ===== src/Decimal/Laws.antt =====
-- A printed number is read back.
use Prim.Native.Char.{code}
use mathlib.Core.Path.{ap₂}
use native.Mathlib.Nat.{pow-suc}
use moenotes_api.Prelude.{
  ==_iff, ==_refl, All, Bool, Bool-cases, List, [], all, all_below, all_below_sound, ap, arith,
  codes, false, inl, inr, is_digit, is_empty, length, ltb, not, refl, some, split_on, suc, true,
  zero, ℕ, ◌%◌, ◌++◌, ◌+◌, ◌/◌, ◌<◌, ◌==◌, ◌^◌, ◌||◌, ◌∙◌, ◌∷◌, ◌≡◌, ◌≤◌, ◌⊎◌,
}
use moenotes_api.Decimal.{char_of, digits_from, parse_below, print, text_of, value_from}

abbrev pub IsDigit : ℕ → Type 0
IsDigit c = is_digit c ≡ true

-- Printing in front of digits: read together they are the number and then the digits.
digits_from-value :
    (fuel n acc : ℕ) (out : List ℕ)
    → n < fuel
    → value_from 0 (digits_from fuel n out) ≡ value_from n out
unfolding digits_from
digits_from-value zero n acc out h = absurd (omega arith)
digits_from-value (suc fuel) n acc out h = elim (Bool-cases (ltb n 10)) [
  | inl small ↦ rw (small, digits_from) (ap (λ x. value_from x out) (omega arith))
  | inr large ↦
      rw (large, digits_from)
        (digits_from-value fuel (n / 10) acc ((b'0' + n % 10) ∷ out) (ground arith)
          ∙ ap (λ x. value_from x out) (omega arith))
]

digits_from-IsDigit :
    (fuel n : ℕ) (out : List ℕ) → All IsDigit out → All IsDigit (digits_from fuel n out)
unfolding digits_from
digits_from-IsDigit zero n out h = h
digits_from-IsDigit (suc fuel) n out h = elim (Bool-cases (ltb n 10)) [
  | inl small ↦ rw (small, digits_from) (ground arith, h)
  | inr large ↦
      rw (large, digits_from)
        (digits_from-IsDigit fuel (n / 10) ((b'0' + n % 10) ∷ out) (ground arith, h))
]

tenth : (k n : ℕ) → n < 10 ^ suc (suc k) → n / 10 < 10 ^ suc k
tenth k n h = let e = pow-suc 10 (suc k) in omega (arith, e)

-- A number below `10 ^ (k + 1)` has at most `k + 1` digits.
length-digits_from :
    (k fuel n : ℕ) (out : List ℕ)
    → n < 10 ^ suc k
    → length (digits_from fuel n out) ≤ suc k + length out
unfolding digits_from
length-digits_from k zero n out h = omega arith
length-digits_from zero (suc fuel) n out h = elim (Bool-cases (ltb n 10)) [
  | inl small ↦ rw (small, digits_from) (omega arith)
  | inr large ↦ absurd (ground arith)
]
length-digits_from (suc k) (suc fuel) n out h = elim (Bool-cases (ltb n 10)) [
  | inl small ↦ rw (small, digits_from) (omega arith)
  | inr large ↦
      rw (large, digits_from)
        (omega (arith, length-digits_from k fuel (n / 10) ((b'0' + n % 10) ∷ out) (tenth k n h)))
]

digits_from-nonempty :
    (fuel n : ℕ) (out : List ℕ) → is_empty out ≡ false → is_empty (digits_from fuel n out) ≡ false
unfolding digits_from
digits_from-nonempty zero n out h = h
digits_from-nonempty (suc fuel) n out h =
    ground (arith, digits_from-nonempty fuel (n / 10) ((b'0' + n % 10) ∷ out))

pub print-value : (n : ℕ) → value_from 0 (print n) ≡ n
unfolding print
print-value n = digits_from-value (suc n) n 0 [] (omega arith)

pub print-IsDigit : (n : ℕ) → All IsDigit (print n)
unfolding print
print-IsDigit n = digits_from-IsDigit (suc n) n [] tt

pub print-nonempty : (n : ℕ) → is_empty (print n) ≡ false
unfolding print
print-nonempty n = ground (arith, digits_from-nonempty n (n / 10) ((b'0' + n % 10) ∷ []))

pub length-print : (k n : ℕ) → n < 10 ^ suc k → length (print n) ≤ suc k
unfolding print
length-print k n h = omega (arith, length-digits_from k (suc n) n [] h)

pub all-IsDigit : (s : List ℕ) → All IsDigit s → all is_digit s ≡ true
all-IsDigit [] h = refl
all-IsDigit (c ∷ s) (d, h) = rw d (all-IsDigit s h)

-- A printed number is read back.
pub parse_below-print : (bound n : ℕ) → n < bound → parse_below bound (print n) ≡ some n
unfolding parse_below
parse_below-print bound n h =
    let below : ltb n bound ≡ true = ground arith in
    rw (print-nonempty n, all-IsDigit (print n) (print-IsDigit n), print-value n, below)

-- What is read is below the bound, and the text is one or more digits.
pub parse_below-bound :
    (bound : ℕ) (s : List ℕ) (n : ℕ)
    → parse_below bound s ≡ some n
    → (n < bound) × (n ≡ value_from 0 s) × (all is_digit s ≡ true) × (is_empty s ≡ false)
unfolding parse_below
parse_below-bound bound s n h = ground arith

-- Splitting at a separator that the digits in front of it do not hold.
pub split_on-digits :
    (sep : ℕ) (s rest : List ℕ)
    → is_digit sep ≡ false
    → All IsDigit s
    → split_on sep (s ++ sep ∷ rest) ≡ s ∷ split_on sep rest
unfolding split_on
split_on-digits sep [] rest no_digit h = rw (==_refl sep)
split_on-digits sep (c ∷ s) rest no_digit (d, h) =
    let other : (c == sep) ≡ false = differs c d in
    rw (split_on-digits sep s rest no_digit h, other)
  where
    differs : (c : ℕ) → is_digit c ≡ true → (c == sep) ≡ false
    differs c d = elim (Bool-cases (c == sep)) [
      | inl same ↦ cc (no_digit, d, (==_iff c sep).0 same)
      | inr other ↦ other
    ]

pub split_on-digits_last :
    (sep : ℕ) (s : List ℕ) → is_digit sep ≡ false → All IsDigit s → split_on sep s ≡ s ∷ []
unfolding split_on
split_on-digits_last sep [] no_digit h = refl
split_on-digits_last sep (c ∷ s) no_digit (d, h) =
    let other : (c == sep) ≡ false = differs c d in
    rw (split_on-digits_last sep s no_digit h, other)
  where
    differs : (c : ℕ) → is_digit c ≡ true → (c == sep) ≡ false
    differs c d = elim (Bool-cases (c == sep)) [
      | inl same ↦ cc (no_digit, d, (==_iff c sep).0 same)
      | inr other ↦ other
    ]

-- The characters that are printed have the codes that were meant.
abbrev pub IsPrinted : ℕ → Type 0
IsPrinted c = (is_digit c ≡ true) ⊎ ((c ≡ b'.') ⊎ (c ≡ b'-'))

abbrev printed_right : ℕ → Bool
printed_right c = not (is_digit c || (c == b'.' || c == b'-')) || code (char_of c) == c

printed_table : all_below 58 printed_right ≡ true
unfolding all_below char_of
printed_table = refl

code-char_of : (c : ℕ) → IsPrinted c → code (char_of c) ≡ c
code-char_of c h =
    let small : c < 58 = ground arith in
    let right : printed_right c ≡ true = all_below_sound 58 printed_right c printed_table small in
    ground arith

pub codes-text_of : (s : List ℕ) → All IsPrinted s → codes (text_of s) ≡ s
unfolding text_of
codes-text_of [] h = refl
codes-text_of (c ∷ s) (d, h) = ap₂ ◌∷◌ (code-char_of c d) (codes-text_of s h)

pub digits-IsPrinted : (s : List ℕ) → All IsDigit s → All IsPrinted s
digits-IsPrinted [] h = tt
digits-IsPrinted (x ∷ s) (d, h) = (inl d, digits-IsPrinted s h)
