-- ===== src/Server/Startup/Complete.antt =====
-- server/src/startup.rs: what is given where nothing is missing.
use moenotes_api.Prelude.{
  Bool, List, Option, String, [], all, ap, false, some, true, ◌++◌, ◌∙◌, ◌∷◌, ◌≡◌,
}
use moenotes_api.Errors.{Result, guard, invalid_config, ok}
use moenotes_api.Errors.Laws.{ok->>=, ok_injective}
use moenotes_api.Server.Paths.{parent_or_here}
use moenotes_api.Server.Config.ApiKey.{KeyFile}
use moenotes_api.Server.Config.Reading.{Toml, get}
use moenotes_api.Server.Startup.{
  Setting, field_at, has, key_setting, list_missing, login_settings, missing_key, missing_required,
  missing_texts,
}
use moenotes_api.Server.Startup.Inspect.{
  all_missing, file_settings, in_context, in_sdk, is_in, missing_context, missing_numbers,
  missing_sdk, supply_common, supply_omitted, where_given,
}
use moenotes_api.Server.Startup.Given.{list_missing-GivesTexts, string_missing-Given}
use moenotes_api.Client.Sdk.Request.{common_fields}
use moenotes_api.Server.Startup.Needs.{
  GivesDevice, GivesSdk, IsComplete, IsGiven, append-nil, missing_files-kept, missing_required-nil,
  missing_texts-nil,
}
use moenotes_api.Server.Startup.LoginParts.{
  All-split, Has-has, device_of, key_of, login_parts, sdk_of,
}

given_part : (b : Bool) (r : Result (List String)) → where_given b r ≡ ok [] → b ≡ true → r ≡ ok []
given_part true r e h = e
given_part false r e h = cc

missing_context-nil : (v : Toml) → missing_context v ≡ ok [] → GivesDevice v
unfolding missing_context
missing_context-nil v e =
    let (texts, h, r) = ok->>= (missing_texts v device_settings) _ e in
    let (numbers, h1, r1) = ok->>= (missing_numbers v channel_settings) _ r in
    let none_missing = (append-nil texts numbers (ok_injective (texts ++ numbers) [] r1)).0 in
    let given =
      missing_texts-nil v device_settings (h ∙ ap (λ (l : List String). ok l) none_missing) in
    (
      string_missing-Given v ("login" ∷ "context" ∷ "device_model" ∷ []) given.0,
      string_missing-Given v ("login" ∷ "context" ∷ "operating_system" ∷ []) given.1.0,
      string_missing-Given v ("login" ∷ "context" ∷ "device_identifier" ∷ []) given.1.1.0,
    )
  where
    device_settings : List Setting
    device_settings =
        ("login.context.device_model", in_context "device_model")
        ∷ ("login.context.operating_system", in_context "operating_system")
        ∷ ("login.context.device_identifier", in_context "device_identifier")
        ∷ []

    channel_settings : List Setting
    channel_settings =
        ("login.context.global_channel_id", in_context "global_channel_id")
        ∷ ("login.context.brand_id", in_context "brand_id")
        ∷ ("login.context.area_id", in_context "area_id")
        ∷ []

first_nil : (a b c d : List String) → a ++ b ++ c ++ d ≡ [] → a ≡ []
first_nil a b c d e = (append-nil a b (append-nil (a ++ b) c (append-nil (a ++ b ++ c) d e).0).0).0

missing_sdk-nil : (v : Toml) → missing_sdk v ≡ ok [] → GivesSdk v
unfolding missing_sdk
missing_sdk-nil v e =
    let (texts, h, r) = ok->>= (missing_texts v sdk_settings) _ e in
    let (country, h1, r1) =
      ok->>= (missing_numbers v (("login.sdk_http.country_id", in_sdk "country_id") ∷ [])) _ r in
    let (no_urls, h2, r2) =
      ok->>= (list_missing (field_at (in_sdk "allowed_base_urls") (some v))) _ r1 in
    let (supplied, h3, r3) = ok->>= (supply_common (field_at (in_sdk "common") (some v))) _ r2 in
    let (all_supplied, h4, r4) =
      ok->>= (supply_omitted (field_at (in_sdk "omit_common") (some v)) supplied) _ r3 in
    let (u, h5, r5) = ok->>= (guard (all (is_in common_fields) all_supplied) invalid_config) _ r4 in
    let none_missing = first_nil texts _ _ _ (ok_injective _ [] r5) in
    let given =
      missing_texts-nil v sdk_settings (h ∙ ap (λ (l : List String). ok l) none_missing) in
    (
      string_missing-Given v ("login" ∷ "sdk_http" ∷ "base_url" ∷ []) given.0,
      string_missing-Given v ("login" ∷ "sdk_http" ∷ "app_key" ∷ []) given.1.0,
    )
  where
    sdk_settings : List Setting
    sdk_settings =
        ("login.sdk_http.base_url", in_sdk "base_url")
        ∷ ("login.sdk_http.app_key", in_sdk "app_key")
        ∷ []

module _ (parent_of : String → Option String) (exists : String → Option Bool)
    (key_file : String → Option KeyFile) where
  pub all_missing-nil :
      (v : Toml) (path : String) (before : List String)
      → all_missing exists key_file parent_of v path before ≡ ok []
      → (before ≡ []) × IsComplete v
  unfolding all_missing
  all_missing-nil v path before e =
      let (required, h, r) = ok->>= (missing_required v) _ e in
      let (no_key, h1, r1) = ok->>= (missing_key (get "api_key" v)) _ r in
      let (login_missing, h2, r2) = ok->>= (missing_texts v (login_settings v)) _ r1 in
      let (context_missing, h3, r3) =
        ok->>= (where_given (has ("login" ∷ "context" ∷ []) v) (missing_context v)) _ r2 in
      let (sdk_missing, h4, r4) =
        ok->>= (where_given (has ("login" ∷ "sdk_http" ∷ []) v) (missing_sdk v)) _ r3 in
      let kept =
        missing_files-kept exists key_file v (parent_or_here (parent_of path)) file_settings _ r4 in
      let (a, b) = append-nil before _ kept in
      let (a1, b1) = append-nil required _ b in
      let (a2, b2) = append-nil no_key _ b1 in
      let (a3, b3) = append-nil login_missing _ b2 in
      let (a4, b4) = append-nil context_missing sdk_missing b3 in
      let logins =
        missing_texts-nil v (login_settings v) (h2 ∙ ap (λ (l : List String). ok l) a3) in
      let (first, origins, last) = missing_required-nil v (h ∙ ap (λ (l : List String). ok l) a1) in
      let (keys, others) = All-split (IsGiven v) (key_setting v) _ first in
      (
        a,
        record {
          region_given = string_missing-Given v ("session" ∷ "region" ∷ []) others.0;
          origin_given = string_missing-Given v ("session" ∷ "origin" ∷ []) others.1.0;
          origins_given = list_missing-GivesTexts v ("session" ∷ "allowed_origins" ∷ []) origins;
          platform_given = string_missing-Given v ("session" ∷ "platform" ∷ []) last.0;
          version_given = string_missing-Given v ("session" ∷ "client_version" ∷ []) last.1.0;
          key_given = key_of v (h1 ∙ ap (λ (l : List String). ok l) a2) keys;
          state_given = λ needs.
              string_missing-Given v ("login" ∷ "state_dir" ∷ []) (login_parts v logins needs).1;
          device_given = device_of v logins;
          sdk_given = sdk_of v logins;
          device_texts = λ there. missing_context-nil v (
              given_part (has ("login" ∷ "context" ∷ []) v) (missing_context v)
                (h3 ∙ ap (λ (l : List String). ok l) a4)
                (Has-has ("login" ∷ "context" ∷ []) v there));
          sdk_texts = λ there. missing_sdk-nil v (
              given_part (has ("login" ∷ "sdk_http" ∷ []) v) (missing_sdk v)
                (h4 ∙ ap (λ (l : List String). ok l) b4)
                (Has-has ("login" ∷ "sdk_http" ∷ []) v there));
        },
      )
