-- ===== src/Decimal.antt =====
-- Decimal numbers: Rust's `to_string` of an unsigned integer, and `parse` of a text of digits.
pub mod Laws
use Prim.Native.Char.{Char}
use Prim.Native.String
use moenotes_api.Prelude.{
  List, Option, String, [], all, if◌then◌else◌, is_digit, is_empty, ltb, none, not, some, suc, zero,
  ℕ, ◌%◌, ◌&&◌, ◌*◌, ◌+◌, ◌-◌, ◌/◌, ◌==◌, ◌∷◌,
}

-- The number that a list of digits stands for, behind `acc`.
abbrev pub value_from : ℕ → List ℕ → ℕ
value_from acc [] = acc
value_from acc (c ∷ s) = value_from (acc * 10 + (c - b'0')) s

-- `parse` into an unsigned integer below `bound`, of a text that has been tested for digits.
unfoldable pub parse_below : ℕ → List ℕ → Option ℕ
parse_below bound s =
    if not (is_empty s) && (all is_digit s && ltb (value_from 0 s) bound)
    then some (value_from 0 s)
    else none

-- The digits of `n` in front of `out`; `fuel` bounds their number.
pub digits_from : ℕ → ℕ → List ℕ → List ℕ
digits_from zero n out = out
digits_from (suc fuel) n out =
    let rest = digits_from fuel (n / 10) ((b'0' + n % 10) ∷ out) in
    if ltb n 10 then (b'0' + n) ∷ out else rest

-- `to_string`: a number has at most as many digits as it is large, and one.
unfoldable pub print : ℕ → List ℕ
unfolding digits_from
print n = digits_from (suc n) n []

-- The characters that numbers and versions are printed with.
unfoldable pub char_of : ℕ → Char
char_of c =
    if c == b'0'
    then "0"
    else if c == b'1'
    then "1"
    else if c == b'2'
    then "2"
    else if c == b'3'
    then "3"
    else if c == b'4'
    then "4"
    else if c == b'5'
    then "5"
    else if c == b'6'
    then "6"
    else if c == b'7'
    then "7"
    else if c == b'8'
    then "8"
    else if c == b'9'
    then "9"
    else if c == b'-'
    then "-"
    else "."

unfoldable pub text_of : List ℕ → String
unfolding char_of
text_of [] = String.[]
text_of (c ∷ s) = String.◌∷◌ (char_of c) (text_of s)
