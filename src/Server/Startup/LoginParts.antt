-- ===== src/Server/Startup/LoginParts.antt =====
-- server/src/startup.rs: the settings of a login, and the key, where none is missing.
use moenotes_api.Prelude.{
  All, Bool, Bool-cases, List, Option, String, [], ap, arith, false, if◌then◌else◌, inl, inr,
  is_none, none, not, refl, some, str_eq, str_eq_iff, sym, true, ◌&&◌, ◌++◌, ◌||◌, ◌∙◌, ◌∷◌, ◌≡◌,
  ◌⊎◌,
}
use moenotes_api.Errors.{Result, err, error_of, invalid_config, ok, ◌>>◌}
use moenotes_api.Errors.Laws.{ok->>=}
use moenotes_api.Server.Config.ApiKey.{validate_api_key}
use moenotes_api.Server.Config.Reading.{Toml, array, get, integer, other, table, text}
use moenotes_api.Server.Startup.{
  Setting, field_at, has, is_blank, is_text, jp_session, key_setting, login_settings, missing_key,
  only_if,
}
use moenotes_api.Server.Startup.Given.{
  At, At-field_at, Given, Has, field_at-At, string_missing-Given, validate_api_key-IsApiKey,
}
use moenotes_api.Server.Startup.Needs.{GivesKey, IsGiven, NeedsLogin, NotJp}

some_none : (o : Option Toml) (w : Toml) → o ≡ some w → not (is_none o) ≡ true
some_none none w e = cc
some_none (some u) w e = refl

pub Has-has : (path : List String) (v : Toml) → Has path v → has path v ≡ true
Has-has path v (w, at) = some_none (field_at path (some v)) w (At-field_at path v w at)

has-Has : (path : List String) (v : Toml) → has path v ≡ true → Has path v
has-Has path v h = of_value (field_at path (some v)) refl h
  where
    of_value : (o : Option Toml) → field_at path (some v) ≡ o → not (is_none o) ≡ true → Has path v
    of_value none z e = cc
    of_value (some w) z e = (w, field_at-At path v w z)

jp_session-NotJp : (v : Toml) → NotJp v → jp_session v ≡ false
jp_session-NotJp v other_region = of_value (field_at ("session" ∷ "region" ∷ []) (some v)) refl
  where
    of_value :
        (o : Option Toml)
        → field_at ("session" ∷ "region" ∷ []) (some v) ≡ o
        → is_text "jp" o ≡ false
    of_value none z = refl
    of_value (some (table keys)) z = refl
    of_value (some (array items)) z = refl
    of_value (some (integer n)) z = refl
    of_value (some other) z = refl
    of_value (some (text s)) z = elim (Bool-cases (str_eq s "jp")) [
      | inr y ↦ y
      | inl y ↦ absurd (
          other_region (
            field_at-At ("session" ∷ "region" ∷ []) v (text "jp")
              (z ∙ ap (λ (t : String). some (text t)) ((str_eq_iff s "jp").0 y))))
    ]

pub All-split :
    (P : Setting → Type 0) (xs ys : List Setting) → All P (xs ++ ys) → All P xs × All P ys
All-split P [] ys a = (tt, a)
All-split P (x ∷ xs) ys (p, a) = let (front, back) = All-split P xs ys a in ((p, front), back)

All-only_if :
    (P : Setting → Type 0) (b : Bool) (xs : List Setting)
    → All P (only_if b xs)
    → b ≡ true
    → All P xs
All-only_if P true xs a e = a
All-only_if P false xs a e = cc

All-key :
    (v : Toml) (setting : Setting) (b : Bool)
    → b ≡ true
    → All (IsGiven v) (if b then setting ∷ [] else [])
    → IsGiven v setting
All-key v setting true e a = a.0
All-key v setting false e a = cc

NeedsLogin-true :
    (v : Toml)
    → NeedsLogin v
    → (has ("login" ∷ []) v || (has ("accounts" ∷ []) v && not (jp_session v))) ≡ true
NeedsLogin-true v (inl login) = let h = Has-has ("login" ∷ []) v login in ground (arith, h)
NeedsLogin-true v (inr (not_jp, accounts)) =
    let h = Has-has ("accounts" ∷ []) v accounts in
    let k = jp_session-NotJp v not_jp in ground (arith, h, k)

-- What `login_settings` names.
module _ (v : Toml) (given : All (IsGiven v) (login_settings v)) where
  pub login_parts :
      NeedsLogin v
      → All (IsGiven v) (
          only_if
            (not (has ("login" ∷ "context" ∷ []) v))
            (("login.context_file", "login" ∷ "context_file" ∷ []) ∷ []))
        × IsGiven v ("login.state_dir", "login" ∷ "state_dir" ∷ [])
  login_parts needs =
      let (front, back) =
        All-split (IsGiven v)
          (only_if (has ("login" ∷ []) v || (has ("accounts" ∷ []) v && not (jp_session v))) _) _
          given in
      let (files, dirs) =
        All-split (IsGiven v) _ _ (All-only_if (IsGiven v) _ _ front (NeedsLogin-true v needs)) in
      (files, dirs.0)

  pub device_of :
      NeedsLogin v → Has ("login" ∷ "context" ∷ []) v ⊎ Given ("login" ∷ "context_file" ∷ []) v
  device_of needs = elim (Bool-cases (has ("login" ∷ "context" ∷ []) v)) [
    | inl z ↦ inl (has-Has ("login" ∷ "context" ∷ []) v z)
    | inr z ↦
        let files =
          All-only_if (IsGiven v) (not (has ("login" ∷ "context" ∷ []) v))
            (("login.context_file", "login" ∷ "context_file" ∷ []) ∷ []) (login_parts needs).0
            (ap not z) in
        inr (string_missing-Given v ("login" ∷ "context_file" ∷ []) files.0)
  ]

  pub sdk_of :
      NotJp v
      → Has ("accounts" ∷ []) v
      → Has ("login" ∷ "sdk_http" ∷ []) v ⊎ Given ("login" ∷ "sdk_http_file" ∷ []) v
  sdk_of not_jp accounts = elim (Bool-cases (has ("login" ∷ "sdk_http" ∷ []) v)) [
    | inl z ↦ inl (has-Has ("login" ∷ "sdk_http" ∷ []) v z)
    | inr z ↦
        let h = Has-has ("accounts" ∷ []) v accounts in
        let k = jp_session-NotJp v not_jp in
        let back =
          (All-split (IsGiven v)
            (only_if (has ("login" ∷ []) v || (has ("accounts" ∷ []) v && not (jp_session v))) _) _
            given).1 in
        let files =
          All-only_if (IsGiven v)
            (not (jp_session v)
              && has ("accounts" ∷ []) v
              && not (has ("login" ∷ "sdk_http" ∷ []) v))
            (("login.sdk_http_file", "login" ∷ "sdk_http_file" ∷ []) ∷ []) back
            (needed (jp_session v) (has ("accounts" ∷ []) v) (has ("login" ∷ "sdk_http" ∷ []) v) k h
              z) in
        inr (string_missing-Given v ("login" ∷ "sdk_http_file" ∷ []) files.0)
  ]
    where
      needed : (a b c : Bool) → a ≡ false → b ≡ true → c ≡ false → (not a && b && not c) ≡ true
      needed a b c e f h = ground (arith, e, f, h)

pub key_of :
    (v : Toml)
    → missing_key (get "api_key" v) ≡ ok []
    → All (IsGiven v) (key_setting v)
    → GivesKey v
unfolding missing_key
key_of v e given = of_value (get "api_key" v) refl
  where
    refused : Path (Result (List String)) (err (error_of invalid_config)) (ok []) → ⊥
    refused h = cc

    named_key : Path (Result (List String)) (ok ("api_key" ∷ [])) (ok []) → ⊥
    named_key h = cc

    absent : get "api_key" v ≡ none → Has ("api_key" ∷ []) v → ⊥
    absent z (w, at) = different w (sym z ∙ At-field_at ("api_key" ∷ []) v w at)
      where
        different : (w : Toml) → none ≡ some w → ⊥
        different w h = cc

    of_text :
        (s : String)
        → At ("api_key" ∷ []) v (text s)
        → Path
            (Result (List String))
            (if is_blank s then ok ("api_key" ∷ []) else (validate_api_key s >> ok []))
            (ok [])
        → GivesKey v
    of_text s at h = elim (Bool-cases (is_blank s)) [
      | inl z ↦ absurd (named_key (rw z at h))
      | inr z ↦
          let (u, fits, r) = ok->>= (validate_api_key s) _ (rw z at h) in
          inl (s, at, validate_api_key-IsApiKey s u fits)
    ]

    of_value : (o : Option Toml) → get "api_key" v ≡ o → GivesKey v
    of_value none z = inr (
      absent z,
      string_missing-Given v ("api_key_file" ∷ []) (
          All-key v ("api_key_file", "api_key_file" ∷ []) (is_none (get "api_key" v)) (ap is_none z)
            given),
    )
    of_value (some (text s)) z =
        of_text s (field_at-At ("api_key" ∷ []) v (text s) z) (rw (z, missing_key) at e)
    of_value (some (table keys)) z = absurd (refused (rw (z, missing_key) at e))
    of_value (some (array items)) z = absurd (refused (rw (z, missing_key) at e))
    of_value (some (integer n)) z = absurd (refused (rw (z, missing_key) at e))
    of_value (some other) z = absurd (refused (rw (z, missing_key) at e))

-- The parts that are given directly are looked at.
