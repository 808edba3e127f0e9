-- ===== src/Server/Params.antt =====
-- server/src/query_params.rs: from a query string to a JSON object. The descriptors of the request
-- messages, `form_urlencoded::parse` and `Query::from_json` are the protocol's and other crates':
-- the fields of a message and the decoded pairs are arguments.
pub mod Laws
pub mod Filling
mod Tests
use moenotes_api.Prelude.{
  Bool, List, Option, String, [], all, codes, false, if◌then◌else◌, is_digit, is_empty, is_hexdigit,
  is_none, leb, len, ltb, none, not, some, str_eq, suc, true, zero, ℕ, ◌&&◌, ◌+◌, ◌==◌, ◌^◌, ◌||◌,
  ◌∷◌,
}
use moenotes_api.Errors.{Result, err, error_of, guard, invalid_request, ok, require, ◌>>=◌, ◌>>◌}
use moenotes_api.Int.{negsuc, pos, ℤ}
use moenotes_api.Decimal.{parse_below, print, text_of}
use moenotes_api.Server.Json.{
  Members, Value, Values, array_value, bool_value, lookup, member, no_members, no_values,
  number_value, object_value, push, put, string_value,
}

-- `prost_reflect::Kind`; the two integer widths are told apart by the kind.
pub data Kind : Type 0 where
  string_kind int64_kind uint64_kind int32_kind uint32_kind enum_kind bool_kind other_kind : Kind

-- A scalar field as `fields` lists it: its dotted name, its kind, and whether it repeats.
pub record Field : Type 0 where
  pub name : String
  pub kind : Kind
  pub is_list : Bool

abbrev pub invalid {ℓ} : {A : Type ℓ} → Result A
invalid = err (error_of invalid_request)

abbrev pub elements : Option Value → Result Values
elements none = ok no_values
elements (some (array_value vs)) = ok vs
elements (some _) = invalid

abbrev pub nested : Option Value → Result Members
nested none = ok no_members
nested (some (object_value m)) = ok m
nested (some _) = invalid

-- `insert`, at a path of names. A path that `split` gives is not empty.
unfoldable pub insert : List String → Value → Bool → Members → Result Members
insert [] value repeated m = invalid
insert (k ∷ j ∷ path) value repeated m = do
  inner ← nested (lookup k m)
  inner' ← insert (j ∷ path) value repeated inner
  ok (put k (object_value inner') m)
insert (k ∷ []) value true m = do
  vs ← elements (lookup k m)
  ok (put k (array_value (push value vs)) m)
insert (k ∷ []) value false m = if is_none (lookup k m) then ok (put k value m) else invalid

abbrev pub digits : List ℕ → Bool
digits s = not (is_empty s) && all is_digit s

-- `strip_prefix('-')`
abbrev pub unsigned : List ℕ → Option (List ℕ)
unsigned [] = none
unsigned (c ∷ s) = if c == b'-' then some s else none

abbrev pub signed_digits : List ℕ → Bool
signed_digits s = elim (unsigned s) [ none ↦ digits s | some t ↦ digits t ]

-- The integer `-n`.
abbrev pub negated : ℕ → ℤ
negated zero = pos 0
negated (suc n) = negsuc n

-- `parse` into a signed integer of half range `half`, of a text that `signed_digits` accepts.
unfoldable pub parse_signed : ℕ → List ℕ → Option ℤ
parse_signed half s = elim (unsigned s) [
  | none ↦ elim (parse_below half s) [ none ↦ none | some n ↦ some (pos n) ]
  | some t ↦ elim (parse_below (half + 1) t) [ none ↦ none | some n ↦ some (negated n) ]
]

abbrev pub print_signed : ℤ → List ℕ
print_signed (pos n) = print n
print_signed (negsuc n) = b'-' ∷ print (n + 1)

abbrev pub text_value : Option ℤ → Result Value
text_value none = invalid
text_value (some z) = ok (string_value (text_of (print_signed z)))

abbrev pub unsigned_text : Option ℕ → Result Value
unsigned_text none = invalid
unsigned_text (some n) = ok (string_value (text_of (print n)))

abbrev pub number : Option ℤ → Result Value
number none = invalid
number (some z) = ok (number_value z)

abbrev pub unsigned_number : Option ℕ → Result Value
unsigned_number none = invalid
unsigned_number (some n) = ok (number_value (pos n))

unfoldable pub scalar : Kind → String → Result Value
scalar string_kind text = ok (string_value text)
scalar int64_kind text =
    if signed_digits (codes text) then text_value (parse_signed (2 ^ 63) (codes text)) else invalid
scalar uint64_kind text =
    if digits (codes text) then unsigned_text (parse_below (2 ^ 64) (codes text)) else invalid
scalar int32_kind text =
    if signed_digits (codes text) then number (parse_signed (2 ^ 31) (codes text)) else invalid
scalar uint32_kind text =
    if digits (codes text) then unsigned_number (parse_below (2 ^ 32) (codes text)) else invalid
scalar enum_kind text =
    if signed_digits (codes text)
    then number (parse_signed (2 ^ 31) (codes text))
    else ok (string_value text)
scalar bool_kind text =
    if str_eq text "true" || str_eq text "false"
    then ok (bool_value (str_eq text "true"))
    else invalid
scalar other_kind text = invalid

abbrev pub max_query_bytes : ℕ
max_query_bytes = 8192

abbrev pub max_parameters : ℕ
max_parameters = 256

abbrev pub find_field : String → List Field → Option Field
find_field k [] = none
find_field k (f ∷ fs) = if str_eq f.name k then some f else find_field k fs

-- The loop over the decoded pairs, from the one of index `index` on; `split` is `str::split('.')`.
unfoldable pub fill :
    (String → List String) → List Field → ℕ → List (String × String) → Members → Result Members
unfolding insert scalar
fill split fields index [] m = ok m
fill split fields index ((key, text) ∷ pairs) m = do
  guard (ltb index max_parameters) invalid_request
  field ← require (find_field key fields) invalid_request
  value ← scalar field.kind text
  m' ← insert (split key) value field.is_list m
  fill split fields (index + 1) pairs m'

-- The object that the loop starts from.
abbrev pub initial_members : String → Members
initial_members name =
    if str_eq name "circle-search"
    then member "options" (object_value no_members) no_members
    else no_members

abbrev pub two_hexdigits : List ℕ → Bool
two_hexdigits (a ∷ b ∷ s) = is_hexdigit a && is_hexdigit b
two_hexdigits _ = false

-- Every `%` has two hexadecimal digits behind it.
abbrev pub percents_ok : List ℕ → Bool
percents_ok [] = true
percents_ok (c ∷ s) = (not (c == b'%') || two_hexdigits s) && percents_ok s

-- `parse` up to `Query::from_json`: the object that it is given. `decoded` says whether the text is
-- UTF-8 once its escapes are decoded, `pairs` is the crate's reading of it.
unfoldable pub parse :
    (String → List String)
    → (String → Bool)
    → (String → List (String × String))
    → (String → Option (List Field))
    → String
    → Option String
    → Result Members
unfolding fill
parse split decoded pairs fields_of name raw = parse_text (elim raw [ none ↦ "" | some t ↦ t ])
  where
    parse_text : String → Result Members
    parse_text t = do
      guard (leb (len t) max_query_bytes) invalid_request
      guard (percents_ok (codes t)) invalid_request
      guard (decoded t) invalid_request
      fields ← require (fields_of name) invalid_request
      fill split fields 0 (pairs t) (initial_members name)
