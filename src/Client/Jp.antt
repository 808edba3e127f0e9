-- ===== src/Client/Jp.antt =====
-- client/src/jp.rs: the version texts of the JP game. Registration is not modelled: it writes files.
pub mod Laws
use Prim.Native.Char.{code}
use Prim.Native.String
use moenotes_api.Prelude.{
  Bool, List, Option, String, [], all, codes, false, if◌then◌else◌, is_alphanumeric, is_digit,
  is_hexdigit, is_nil, is_none, leb, len, length, ltb, none, not, some, split_on, str_eq, suc, true,
  zero, ℕ, ◌&&◌, ◌*◌, ◌==◌, ◌^◌, ◌||◌, ◌∷◌,
}
use moenotes_api.Decimal.{parse_below}

-- `str::split_once` at one character.
pub split_once : ℕ → List ℕ → Option (List ℕ × List ℕ)
split_once sep [] = none
split_once sep (c ∷ s) =
    let rest = split_once sep s in
    if c == sep then some ([], s) else elim rest [ none ↦ none | some (a, b) ↦ some (c ∷ a, b) ]

-- The parts of a release: each a decimal number that an `i32` holds.
unfoldable pub release_parts : List (List ℕ) → Option (List ℕ)
release_parts [] = some []
release_parts (p ∷ ps) =
    let rest = release_parts ps in
    elim (parse_below (2 ^ 31) p) [
      | none ↦ none
      | some n ↦ elim rest [ none ↦ none | some ns ↦ some (n ∷ ns) ]
    ]

-- `[u32; 4]`, the parts that are not given being 0.
abbrev pub pad : ℕ → List ℕ → List ℕ
pad zero ns = []
pad (suc k) [] = 0 ∷ pad k []
pad (suc k) (n ∷ ns) = n ∷ pad k ns

unfoldable pub numeric_version : List ℕ → Option (List ℕ)
unfolding release_parts
numeric_version value =
    let parts = split_on b'.' value in
    if leb 2 (length parts) && leb (length parts) 4
    then elim (release_parts parts) [ none ↦ none | some ns ↦ some (pad 4 ns) ]
    else none

abbrev pub is_lower_hexdigit : ℕ → Bool
is_lower_hexdigit c = is_digit c || (leb b'a' c && leb c b'f')

-- `RELEASE/HASH`
pub valid_master : String → Bool
unfolding split_once numeric_version
valid_master value = elim (split_once b'/' (codes value)) [
  | none ↦ false
  | some (release, hash) ↦
      leb (len value) 128
      && (not (is_none (numeric_version release))
          && (length hash == 32 && all is_lower_hexdigit hash))
]

-- The order of arrays.
abbrev pub version_leb : List ℕ → List ℕ → Bool
version_leb [] ys = true
version_leb (x ∷ xs) [] = false
version_leb (x ∷ xs) (y ∷ ys) = ltb x y || (x == y && version_leb xs ys)

-- One element of `live`, and the payload that `serde_json` reads.
pub record Entry : Type 0 where
  pub min : String
  pub version : String
  pub android : Option String

pub record Payload : Type 0 where
  pub version : Option String
  pub android : Option String
  pub live : Option (List (Option Entry))

-- `min > *old`, where there is an old one.
abbrev pub is_better : Option (List ℕ × Entry) → List ℕ → Bool
is_better none min = true
is_better (some (old, e)) min = not (version_leb min old)

-- One round of the loop over `live`.
pub consider : List ℕ → Option (List ℕ × Entry) → Option Entry → Option (List ℕ × Entry)
unfolding numeric_version
consider current best none = best
consider current best (some e) = elim (numeric_version (codes e.min)) [
  | none ↦ best
  | some m ↦ if version_leb m current && is_better best m then some (m, e) else best
]

pub best_entry : List ℕ → Option (List ℕ × Entry) → List (Option Entry) → Option (List ℕ × Entry)
unfolding consider
best_entry current best [] = best
best_entry current best (e ∷ es) = best_entry current (consider current best e) es

-- The version and the hash that the payload gives for a client.
pub select_version : Payload → String → Option (String × String)
unfolding best_entry
select_version p client = elim (present p.live) [
  | [] ↦ both p.version p.android
  | live ↦ elim (numeric_version (codes client)) [
    | none ↦ none
    | some current ↦ elim (best_entry current none live) [
      | none ↦ none
      | some (m, e) ↦ both (some e.version) e.android
    ]
  ]
]
  where
    present : Option (List (Option Entry)) → List (Option Entry)
    present none = []
    present (some l) = l

    both : Option String → Option String → Option (String × String)
    both (some v) (some h) = some (v, h)
    both _ _ = none

-- `char::is_whitespace`, and `str::trim`.
abbrev pub is_whitespace : ℕ → Bool
is_whitespace c =
    (leb 9 c && leb c 13)
    || c == 32
    || c == 133
    || c == 160
    || c == 5760
    || (leb 8192 c && leb c 8202)
    || c == 8232
    || c == 8233
    || c == 8239
    || c == 8287
    || c == 12288

unfoldable pub trim_start : String → String
trim_start String.[] = String.[]
trim_start (String.◌∷◌ c s) =
    let rest = trim_start s in if is_whitespace (code c) then rest else String.◌∷◌ c s

unfoldable pub trim_end : String → String
trim_end String.[] = String.[]
trim_end (String.◌∷◌ c s) =
    let rest = trim_end s in
    if is_nil rest && is_whitespace (code c) then String.[] else String.◌∷◌ c rest

abbrev pub trim : String → String
trim s = trim_end (trim_start s)

abbrev pub is_version_char : ℕ → Bool
is_version_char c = is_alphanumeric c || (c == b'.' || (c == b'_' || c == b'-'))

-- `asset_version`: `parse_payload` is `serde_json`'s reading of the header.
pub asset_version : (String → Option Payload) → Option String → String → Option String
unfolding select_version trim_start trim_end
asset_version parse_payload none client = none
asset_version parse_payload (some raw) client =
    if leb (len raw) (64 * 1024)
    then elim (parse_payload raw) [
      | none ↦ none
      | some p ↦ elim (select_version p client) [
        | none ↦ none
        | some (v, h) ↦
            let version = trim v in
            let hash = trim h in
            if is_nil version
              || (ltb 128 (len version)
                  || (not (all is_version_char (codes version))
                      || ((str_eq version "." || str_eq version "..")
                          || (not (len hash == 32) || not (all is_hexdigit (codes hash))))))
            then none
            else some version
      ]
    ]
    else none
