-- ===== src/Server/Startup/Given.antt =====
-- server/src/startup.rs: what it means that a setting is given, said of the values themselves.
use Prim.Native.Char.{code}
use moenotes_api.Prelude.{
  All, Bool-cases, List, Option, Option-cases, String, [], all, ap, arith, codes, false, inl, inr,
  is_nil, leb, len, none, refl, some, sym, true, ℕ, ◌&&◌, ◌∙◌, ◌∷◌, ◌≡◌, ◌≤◌, ◌⊎◌,
}
use moenotes_api.Errors.{err, error_of, guard, invalid_config, ok, ◌>>◌}
use moenotes_api.Errors.Laws.{guard-ok, ok->>=, ok_injective}
use moenotes_api.Client.Jp.{is_whitespace, trim_end, trim_start}
use moenotes_api.Server.Config.ApiKey.{is_visible, validate_api_key}
use moenotes_api.Server.Config.Reading.{
  Items, Keys, Toml, array, get, get_key, integer, item, no_items, other, table, text,
}
use moenotes_api.Server.Startup.{
  all_blank, all_texts, field_at, is_blank, is_table, list_missing, string_missing,
}

-- The value at the end of a path of keys.
abbrev pub At : List String → Toml → Toml → Type 0
At [] v w = v ≡ w
At (k ∷ path) v w =
    (keys : Keys) × (next : Toml) × (v ≡ table keys) × (get_key k keys ≡ some next) × At path next w

abbrev pub Has : List String → Toml → Type 0
Has path v = (w : Toml) × At path v w

-- A text with a character that is not white space.
abbrev pub Visible : String → Type 0
Visible String.[] = ⊥
Visible (String.◌∷◌ c s) = (is_whitespace (code c) ≡ false) ⊎ Visible s

abbrev pub Given : List String → Toml → Type 0
Given path v = (s : String) × At path v (text s) × Visible s

-- A list of texts, one of which is visible.
abbrev pub AllTexts : Items → Type 0
AllTexts no_items = Unit
AllTexts (item (text s) items) = AllTexts items
AllTexts (item _ items) = ⊥

abbrev pub SomeVisible : Items → Type 0
SomeVisible no_items = ⊥
SomeVisible (item (text s) items) = Visible s ⊎ SomeVisible items
SomeVisible (item _ items) = ⊥

abbrev pub GivesTexts : List String → Toml → Type 0
GivesTexts path v = (items : Items) × At path v (array items) × AllTexts items × SomeVisible items

-- A key of 32 to 4096 visible ASCII characters.
abbrev pub IsApiKey : String → Type 0
IsApiKey k = (32 ≤ len k) × (len k ≤ 4096) × All (λ (c : ℕ). (33 ≤ c) × (c ≤ 126)) (codes k)

field_at-none : (path : List String) → field_at path none ≡ none
field_at-none [] = refl
field_at-none (k ∷ path) = field_at-none path

not_some : (w : Toml) → none ≡ some w → ⊥
not_some w e = cc

some_value : (v w : Toml) → some v ≡ some w → v ≡ w
some_value v w e = cc

pub field_at-At : (path : List String) (v w : Toml) → field_at path (some v) ≡ some w → At path v w
field_at-At [] v w e = some_value v w e
field_at-At (k ∷ path) (table keys) w e = elim (Option-cases (get_key k keys)) [
  | inl z ↦ absurd (not_some w (sym (field_at-none path) ∙ ap (field_at path) (sym z) ∙ e))
  | inr (next, z) ↦ (keys, next, refl, z, field_at-At path next w (ap (field_at path) (sym z) ∙ e))
]
field_at-At (k ∷ path) (text s) w e = absurd (not_some w (sym (field_at-none path) ∙ e))
field_at-At (k ∷ path) (array items) w e = absurd (not_some w (sym (field_at-none path) ∙ e))
field_at-At (k ∷ path) (integer n) w e = absurd (not_some w (sym (field_at-none path) ∙ e))
field_at-At (k ∷ path) other w e = absurd (not_some w (sym (field_at-none path) ∙ e))

pub At-field_at : (path : List String) (v w : Toml) → At path v w → field_at path (some v) ≡ some w
At-field_at [] v w e = ap some e
At-field_at (k ∷ path) v w (keys, next, is_table, found, rest) =
    ap (λ (t : Toml). field_at path (get k t)) is_table
    ∙ ap (field_at path) found
    ∙ At-field_at path next w rest

true_not : true ≡ false → ⊥
true_not e = cc

trim_end-Visible : (s : String) → is_nil (trim_end s) ≡ false → Visible s
unfolding trim_end
trim_end-Visible String.[] h = cc
trim_end-Visible (String.◌∷◌ c s) h = elim (Bool-cases (is_nil (trim_end s))) [
  | inr z ↦ inr (trim_end-Visible s z)
  | inl z ↦ elim (Bool-cases (is_whitespace (code c))) [
    | inr y ↦ inl y
    | inl y ↦ absurd (true_not (rw (z, y, trim_end) at h))
  ]
]

trim_start-Visible : (s : String) → Visible (trim_start s) → Visible s
unfolding trim_start
trim_start-Visible String.[] h = h
trim_start-Visible (String.◌∷◌ c s) h = elim (Bool-cases (is_whitespace (code c))) [
  | inl z ↦ inr (trim_start-Visible s (rw (z, trim_start) at h))
  | inr z ↦ inl z
]

pub is_blank-Visible : (s : String) → is_blank s ≡ false → Visible s
unfolding is_blank
is_blank-Visible s h = trim_start-Visible s (trim_end-Visible (trim_start s) h)

-- What the checks of a start say of a value, where they find nothing missing.
pub string_missing-Given :
    (v : Toml) (path : List String) → string_missing v path ≡ ok false → Given path v
unfolding string_missing
string_missing-Given v path e = of_value (field_at path (some v)) refl
  where
    refused : err (error_of invalid_config) ≡ ok false → ⊥
    refused h = cc

    text_of : (s : String) → ok (is_blank s) ≡ ok false → Visible s
    text_of s h = is_blank-Visible s (cc)

    of_value : (o : Option Toml) → field_at path (some v) ≡ o → Given path v
    of_value none z = absurd (true_not (ok_injective true false (rw (z, string_missing) at e)))
    of_value (some (text s)) z =
        (s, field_at-At path v (text s) z, text_of s (rw (z, string_missing) at e))
    of_value (some (table keys)) z = absurd (refused (rw (z, string_missing) at e))
    of_value (some (array items)) z = absurd (refused (rw (z, string_missing) at e))
    of_value (some (integer n)) z = absurd (refused (rw (z, string_missing) at e))
    of_value (some other) z = absurd (refused (rw (z, string_missing) at e))

all_texts-AllTexts : (items : Items) → all_texts items ≡ true → AllTexts items
all_texts-AllTexts no_items e = tt
all_texts-AllTexts (item (text s) items) e = all_texts-AllTexts items e
all_texts-AllTexts (item (table keys) items) e = cc
all_texts-AllTexts (item (array l) items) e = cc
all_texts-AllTexts (item (integer n) items) e = cc
all_texts-AllTexts (item other items) e = cc

all_blank-SomeVisible :
    (items : Items) → AllTexts items → all_blank items ≡ false → SomeVisible items
all_blank-SomeVisible no_items a e = cc
all_blank-SomeVisible (item (text s) items) a e = elim (Bool-cases (is_blank s)) [
  | inl z ↦ inr (all_blank-SomeVisible items a (rw z at e))
  | inr z ↦ inl (is_blank-Visible s z)
]
all_blank-SomeVisible (item (table keys) items) a e = elim a [ ]
all_blank-SomeVisible (item (array l) items) a e = elim a [ ]
all_blank-SomeVisible (item (integer n) items) a e = elim a [ ]
all_blank-SomeVisible (item other items) a e = elim a [ ]

-- The key's characters.
visible-All : (cs : List ℕ) → all is_visible cs ≡ true → All (λ (c : ℕ). (33 ≤ c) × (c ≤ 126)) cs
visible-All [] h = tt
visible-All (c ∷ cs) h =
    ((ground (arith, h), ground (arith, h)), visible-All cs (ground (arith, h)))

pub validate_api_key-IsApiKey : (k : String) (u : Unit {0}) → validate_api_key k ≡ ok u → IsApiKey k
unfolding validate_api_key
validate_api_key-IsApiKey k u e =
    let fits =
      guard-ok (leb 32 (len k) && leb (len k) 4096 && all is_visible (codes k)) invalid_config u
        e in
    (ground (arith, fits), ground (arith, fits), visible-All (codes k) (ground (arith, fits)))

pub list_missing-GivesTexts :
    (v : Toml) (path : List String)
    → list_missing (field_at path (some v)) ≡ ok false
    → GivesTexts path v
unfolding list_missing
list_missing-GivesTexts v path e = of_value (field_at path (some v)) refl
  where
    refused : err (error_of invalid_config) ≡ ok false → ⊥
    refused h = cc

    of_items :
        (items : Items)
        → At path v (array items)
        → (guard (all_texts items) invalid_config >> ok (all_blank items)) ≡ ok false
        → GivesTexts path v
    of_items items at h =
        let (u, g, r) = ok->>= (guard (all_texts items) invalid_config) _ h in
        let texts = all_texts-AllTexts items (guard-ok (all_texts items) invalid_config u g) in
        (
          items,
          at,
          texts,
          all_blank-SomeVisible items texts (ok_injective (all_blank items) false r),
        )

    of_value : (o : Option Toml) → field_at path (some v) ≡ o → GivesTexts path v
    of_value none z = absurd (true_not (ok_injective true false (rw (z, list_missing) at e)))
    of_value (some (text s)) z = absurd (refused (rw (z, list_missing) at e))
    of_value (some (table keys)) z = absurd (refused (rw (z, list_missing) at e))
    of_value (some (array items)) z =
        of_items items (field_at-At path v (array items) z) (rw (z, list_missing) at e)
    of_value (some (integer n)) z = absurd (refused (rw (z, list_missing) at e))
    of_value (some other) z = absurd (refused (rw (z, list_missing) at e))
