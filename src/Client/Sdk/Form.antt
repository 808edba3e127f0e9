-- ===== src/Client/Sdk/Form.antt =====
-- client/src/sdk_http/form.rs: the form of a request and its signature. `percent_encoding` and
-- `md5` are outside: `percent_decode` and `md5_hex` stand for them.
pub mod Coding
pub mod Kept
pub mod Signing
pub mod Unsigned
pub mod Body
use moenotes_api.Prelude.{
  Bool, List, Option, [], any, codes, false, if◌then◌else◌, is_alphanumeric, is_empty, leb, length,
  ltb, map, none, not, some, suc, true, zero, ℕ, ◌%◌, ◌&&◌, ◌*◌, ◌++◌, ◌+◌, ◌-◌, ◌/◌, ◌==◌, ◌||◌,
  ◌∷◌,
}
use moenotes_api.Client.Sdk.Base.{
  Bytes, Field, SdkResult, bytes_eq, err, error, invalid_input, ok, ◌>>=◌,
}

-- ` "':;<=>@[]^`{}|/\?#&!$(),~`
abbrev pub form_set : Bytes
form_set = codes " \"':;<=>@[]^`{}|/\\?#&!$(),~"

-- A digit of `{:X}`.
unfoldable pub hex_digit : ℕ → ℕ
hex_digit d = if ltb d 10 then b'0' + d else b'A' + (d - 10)

-- `%{byte:02X}`
unfoldable pub percent : ℕ → Bytes
unfolding hex_digit
percent c = b'%' ∷ hex_digit (c / 16) ∷ hex_digit (c % 16) ∷ []

abbrev pub is_dropped : ℕ → Bool
is_dropped c = c == 9 || c == 10 || c == 12 || c == 13

-- What stands for itself in an encoded value.
unfoldable pub is_plain : ℕ → Bool
is_plain c = leb 32 c && ltb c 127 && not (any (λ d. d == c) form_set)

unfoldable pub encoded : Bytes → Bytes
unfolding percent is_plain
encoded [] = []
encoded (c ∷ s) =
    if is_dropped c then encoded s else (if is_plain c then c ∷ [] else percent c) ++ encoded s

-- `Uri.encode`: letters, digits and `_-!.~'()*` stand for themselves.
unfoldable pub is_unreserved : ℕ → Bool
is_unreserved c = is_alphanumeric c || any (λ d. d == c) (codes "_-!.~'()*")

unfoldable pub uri_encoded : Bytes → Bytes
unfolding percent is_unreserved
uri_encoded [] = []
uri_encoded (c ∷ s) = (if is_unreserved c then c ∷ [] else percent c) ++ uri_encoded s

unfoldable pub raw : Bytes → Bytes
unfolding encoded uri_encoded
raw value = encoded (uri_encoded value)

-- `str::from_utf8`: how many bytes follow a first byte, and between which bounds the next one lies.
unfoldable pub continuation : ℕ → Option (ℕ × ℕ × ℕ)
continuation c =
    if ltb c 128
    then some (0, 128, 191)
    else if leb 194 c && leb c 223
    then some (1, 128, 191)
    else if c == 224
    then some (2, 160, 191)
    else if c == 237
    then some (2, 128, 159)
    else if leb 225 c && leb c 239
    then some (2, 128, 191)
    else if c == 240
    then some (3, 144, 191)
    else if c == 244
    then some (3, 128, 143)
    else if leb 241 c && leb c 243
    then some (3, 128, 191)
    else none

unfoldable pub utf8_from : ℕ → ℕ → ℕ → Bytes → Bool
unfolding continuation
utf8_from zero low high [] = true
utf8_from (suc n) low high [] = false
utf8_from zero low high (c ∷ s) = elim (continuation c) [
  | none ↦ false
  | some (n, low', high') ↦ utf8_from n low' high' s
]
utf8_from (suc n) low high (c ∷ s) = leb low c && leb c high && utf8_from n 128 191 s

abbrev pub is_utf8 : Bytes → Bool
is_utf8 s = utf8_from zero 128 191 s

abbrev pub space_for_plus : Bytes → Bytes
space_for_plus [] = []
space_for_plus (c ∷ s) = (if c == b'+' then b' ' else c) ∷ space_for_plus s

-- The order of `String`, which a `BTreeMap` keeps its keys in.
abbrev pub bytes_ltb : Bytes → Bytes → Bool
bytes_ltb _ [] = false
bytes_ltb [] (y ∷ ys) = true
bytes_ltb (x ∷ xs) (y ∷ ys) = ltb x y || (x == y && bytes_ltb xs ys)

-- `BTreeMap::insert`: a value for a key that is there is replaced.
unfoldable pub insert : Bytes → Bytes → List Field → List Field
insert k v [] = (k, v) ∷ []
insert k v ((j, w) ∷ m) =
    let rest = (j, w) ∷ insert k v m in
    if bytes_eq k j then (j, v) ∷ m else if bytes_ltb k j then (k, v) ∷ (j, w) ∷ m else rest

-- `eq_ignore_ascii_case`
abbrev pub lower : ℕ → ℕ
lower c = if leb b'A' c && leb c b'Z' then c + 32 else c

unfoldable pub is_unsigned : Bytes → Bool
is_unsigned name =
    bytes_eq (map lower name) (codes "item_name") || bytes_eq (map lower name) (codes "item_desc")

-- The values that are signed, in the order of their names.
unfoldable pub signed_text : List Field → Bytes
unfolding is_unsigned
signed_text [] = []
signed_text ((name, value) ∷ m) = (if is_unsigned name then [] else value) ++ signed_text m

-- The fields with `=` and `&`, behind what stands in the body already.
unfoldable pub joined : Bytes → List Field → Bytes
joined body [] = body
joined body ((name, value) ∷ fields) =
    joined ((if is_empty body then [] else body ++ (b'&' ∷ [])) ++ (name ++ (b'=' ∷ value))) fields

module _ (percent_decode : Bytes → Bytes) where
  unfoldable pub decoded : Bytes → SdkResult Bytes
  decoded value =
      let bytes = percent_decode (space_for_plus value) in
      if is_utf8 bytes then ok bytes else err (error invalid_input)

  unfoldable pub values_into : List Field → List Field → SdkResult (List Field)
  unfolding insert decoded
  values_into m [] = ok m
  values_into m ((name, value) ∷ fields) =
      decoded value >>= λ v. values_into (insert name v m) fields

  unfoldable pub sign_form : (Bytes → Bytes) → List Field → Bytes → SdkResult Bytes
  unfolding values_into signed_text joined
  sign_form md5_hex fields key = values_into [] fields >>= λ values.
      let body = joined [] fields ++ (codes "&sign=" ++ md5_hex (signed_text values ++ key)) in
      if ltb (64 * 1024) (length body) then err (error invalid_input) else ok body
