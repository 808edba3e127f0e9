-- ===== src/Client/Patch.antt =====
-- client/src/versions.rs: the texts of versions.
pub mod Laws
use moenotes_api.Prelude.{
  Bool, List, Option, String, [], all, codes, if◌then◌else◌, is_alphanumeric, is_digit, is_empty,
  is_nil, leb, len, length, ltb, none, not, some, split_on, str_eq, suc, zero, ℕ, ◌&&◌, ◌++◌, ◌+◌,
  ◌==◌, ◌^◌, ◌||◌, ◌∷◌,
}
use moenotes_api.Decimal.{parse_below, print, text_of}

-- `valid`: a data version that may stand in a path.
abbrev pub is_version_byte : ℕ → Bool
is_version_byte c = is_alphanumeric c || (c == b'.' || (c == b'_' || c == b'-'))

pub valid : String → Bool
valid value =
    not (is_nil value)
    && (leb (len value) 128
        && (all is_version_byte (codes value)
            && (not (str_eq value ".") && not (str_eq value ".."))))

-- One part of `MAJOR.MINOR.PATCH`.
unfoldable pub patch_part : List ℕ → Option ℕ
patch_part s =
    if is_empty s || (ltb 9 (length s) || not (all is_digit s))
    then none
    else parse_below (2 ^ 32) s

unfoldable pub patch_parts : List (List ℕ) → Option (ℕ × ℕ × ℕ)
patch_parts (a ∷ b ∷ c ∷ []) = elim (patch_part a) [
  | none ↦ none
  | some x ↦ elim (patch_part b) [
    | none ↦ none
    | some y ↦ elim (patch_part c) [ none ↦ none | some z ↦ some (x, y, z) ]
  ]
]
patch_parts _ = none

unfoldable pub patch_version : String → Option (ℕ × ℕ × ℕ)
patch_version value = patch_parts (split_on b'.' (codes value))

-- `format!("{major}.{minor}.{next}")`
pub version_text : ℕ → ℕ → ℕ → String
version_text major minor next = text_of (print major ++ b'.' ∷ (print minor ++ b'.' ∷ print next))

-- `(1..=count).filter_map(|step| patch.checked_add(step))`, from `step` on.
pub successors_from : ℕ → ℕ → ℕ → ℕ → ℕ → List String
successors_from major minor patch step zero = []
successors_from major minor patch step (suc left) =
    let rest = successors_from major minor patch (step + 1) left in
    if ltb (patch + step) (2 ^ 32) then version_text major minor (patch + step) ∷ rest else rest

pub patch_successors : String → ℕ → List String
patch_successors current count = elim (patch_version current) [
  | none ↦ []
  | some (major, minor, patch) ↦ successors_from major minor patch 1 count
]
