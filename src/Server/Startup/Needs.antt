-- ===== src/Server/Startup/Needs.antt =====
-- server/src/startup.rs: the settings that a start needs.
use moenotes_api.Prelude.{
  All, Bool, List, Option, String, [], ap, false, if◌then◌else◌, refl, some, true, ◌++◌, ◌∙◌, ◌∷◌,
  ◌≡◌, ◌⊎◌,
}
use moenotes_api.Errors.{Result, err, ok}
use moenotes_api.Errors.Laws.{ok->>=, ok_injective}
use moenotes_api.Server.Config.ApiKey.{KeyFile}
use moenotes_api.Server.Config.Reading.{Toml, text}
use moenotes_api.Server.Startup.{
  Setting, field_at, has, key_setting, list_missing, missing_required, missing_texts, push_if,
  required_texts, string_missing,
}
use moenotes_api.Server.Startup.Inspect.{FileUse, missing_file, missing_files, relative}
use moenotes_api.Server.Startup.Given.{At, Given, GivesTexts, Has, IsApiKey}

pub append-nil : {A : Type 0} (xs ys : List A) → xs ++ ys ≡ [] → (xs ≡ []) × (ys ≡ [])
append-nil [] ys e = (refl, e)
append-nil (x ∷ xs) ys e = cc

abbrev pub IsGiven : Toml → Setting → Type 0
IsGiven v (name, path) = string_missing v path ≡ ok false

pushed-nil :
    (b : Bool) (name : String) (rest : Result (List String))
    → push_if b name rest ≡ ok []
    → (b ≡ false) × (rest ≡ ok [])
pushed-nil b name (err e) h = cc
pushed-nil true name (ok l) h = cc
pushed-nil false name (ok l) h = (refl, h)

pub missing_texts-nil :
    (v : Toml) (settings : List Setting)
    → missing_texts v settings ≡ ok []
    → All (IsGiven v) settings
unfolding missing_texts
missing_texts-nil v [] e = tt
missing_texts-nil v ((name, path) ∷ settings) e =
    let (b, h, r) = ok->>= (string_missing v path) _ e in
    let (not_b, rest) = pushed-nil b name (missing_texts v settings) r in
    (h ∙ ap (λ (c : Bool). ok c) not_b, missing_texts-nil v settings rest)

pub missing_files-kept :
    (exists : String → Option Bool) (key_file : String → Option KeyFile) (v : Toml)
    (folder : String) (settings : List (FileUse × Setting)) (missing : List String)
    → missing_files exists key_file v folder settings missing ≡ ok []
    → missing ≡ []
unfolding missing_files
missing_files-kept exists key_file v folder [] missing e = ok_injective missing [] e
missing_files-kept exists key_file v folder ((purpose, (name, path)) ∷ settings) missing e =
    let (place, h, r) = ok->>= (relative v path folder) _ e in
    let (more, h1, r1) =
      ok->>= (missing_file exists key_file purpose name (has path v) missing place) _ r in
    (append-nil missing more
      (missing_files-kept exists key_file v folder settings (missing ++ more) r1)).0

-- The settings in front of the origins.
abbrev pub first_settings : Toml → List Setting
first_settings v =
    key_setting v
    ++ ("session.region", "session" ∷ "region" ∷ [])
      ∷ ("session.origin", "session" ∷ "origin" ∷ [])
      ∷ []

abbrev pub allowed_origins_of : Toml → Option Toml
allowed_origins_of v = field_at ("session" ∷ "allowed_origins" ∷ []) (some v)

pub named :
    (b : Bool) (name : String) (l : List String)
    → (if b then name ∷ l else l) ≡ []
    → (b ≡ false) × (l ≡ [])
named true name l e = cc
named false name l e = (refl, e)

pub missing_required-nil :
    (v : Toml)
    → missing_required v ≡ ok []
    → All (IsGiven v) (first_settings v)
      × (list_missing (allowed_origins_of v) ≡ ok false)
      × All (IsGiven v) required_texts
unfolding missing_required
missing_required-nil v e =
    let (first, h, r) = ok->>= (missing_texts v (first_settings v)) _ e in
    let (no_origins, h1, r1) = ok->>= (list_missing (allowed_origins_of v)) _ r in
    let (last, h2, r2) = ok->>= (missing_texts v required_texts) _ r1 in
    let (no_first, others) = append-nil first _ (
      ok_injective (first ++ (if no_origins then "session.allowed_origins" ∷ last else last)) []
        r2) in
    let (not_b, no_last) = named no_origins "session.allowed_origins" last others in
    (
      missing_texts-nil v (first_settings v) (h ∙ ap (λ (l : List String). ok l) no_first),
      h1 ∙ ap (λ (b : Bool). ok b) not_b,
      missing_texts-nil v required_texts (h2 ∙ ap (λ (l : List String). ok l) no_last),
    )

-- A start in JP needs neither a login nor an SDK for its accounts.
abbrev pub NotJp : Toml → Type 0
NotJp v = At ("session" ∷ "region" ∷ []) v (text "jp") → ⊥

abbrev pub NeedsLogin : Toml → Type 0
NeedsLogin v = Has ("login" ∷ []) v ⊎ (NotJp v × Has ("accounts" ∷ []) v)

-- The texts of a device that is given directly, and those of an SDK.
abbrev pub GivesDevice : Toml → Type 0
GivesDevice v =
    Given ("login" ∷ "context" ∷ "device_model" ∷ []) v
    × Given ("login" ∷ "context" ∷ "operating_system" ∷ []) v
    × Given ("login" ∷ "context" ∷ "device_identifier" ∷ []) v

abbrev pub GivesSdk : Toml → Type 0
GivesSdk v =
    Given ("login" ∷ "sdk_http" ∷ "base_url" ∷ []) v
    × Given ("login" ∷ "sdk_http" ∷ "app_key" ∷ []) v

abbrev pub GivesKey : Toml → Type 0
GivesKey v =
    ((k : String) × At ("api_key" ∷ []) v (text k) × IsApiKey k)
    ⊎ ((Has ("api_key" ∷ []) v → ⊥) × Given ("api_key_file" ∷ []) v)

-- Nothing is missing among the settings.
pub record IsComplete (v : Toml) : Type 0 where
  pub region_given : Given ("session" ∷ "region" ∷ []) v
  pub origin_given : Given ("session" ∷ "origin" ∷ []) v
  pub origins_given : GivesTexts ("session" ∷ "allowed_origins" ∷ []) v
  pub platform_given : Given ("session" ∷ "platform" ∷ []) v
  pub version_given : Given ("session" ∷ "client_version" ∷ []) v
  pub key_given : GivesKey v
  pub state_given : NeedsLogin v → Given ("login" ∷ "state_dir" ∷ []) v
  pub device_given :
      NeedsLogin v → Has ("login" ∷ "context" ∷ []) v ⊎ Given ("login" ∷ "context_file" ∷ []) v
  pub sdk_given :
      NotJp v
      → Has ("accounts" ∷ []) v
      → Has ("login" ∷ "sdk_http" ∷ []) v ⊎ Given ("login" ∷ "sdk_http_file" ∷ []) v
  pub device_texts : Has ("login" ∷ "context" ∷ []) v → GivesDevice v
  pub sdk_texts : Has ("login" ∷ "sdk_http" ∷ []) v → GivesSdk v
