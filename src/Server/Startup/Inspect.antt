-- ===== src/Server/Startup/Inspect.antt =====
-- server/src/startup.rs: `inspect`. The parameters are those of Server.Startup.
use moenotes_api.Prelude.{
  Bool, List, Option, String, [], all, any, codes, false, if◌then◌else◌, is_nil, ltb, none, not,
  some, str_eq, true, ◌&&◌, ◌++◌, ◌^◌, ◌∷◌,
}
use moenotes_api.Errors.{Result, err, error_of, guard, invalid_config, ok, require, ◌>>=◌, ◌>>◌}
use moenotes_api.Int.{negsuc, pos, ℤ}
use moenotes_api.Client.Config.{Url}
use moenotes_api.Client.Sdk.Base.{Bytes, bytes_eq}
use moenotes_api.Client.Sdk.Request.{common_fields}
use moenotes_api.Server.Paths.{Canonical, join, parent_or_here}
use moenotes_api.Server.Config.{Config, VersionSyncConfig}
use moenotes_api.Server.Config.ApiKey.{KeyFile, read_key_file, validate_api_key}
use moenotes_api.Server.Config.Reading.{
  Items, Keys, Toml, array, check_inline, from_text, get, integer, item, key, no_items, no_keys,
  table, text,
}
use moenotes_api.Server.Startup.{
  ConfigFile, Setting, Startup, configured, field_at, has, is_blank, list_missing, login_settings,
  missing_key, missing_required, missing_texts, no_file, push_if, readable, sources_ok, sync_ok,
  tables_ok, unconfigured, unreadable,
}

abbrev pub fits_u32 : ℤ → Bool
fits_u32 (pos n) = ltb n (2 ^ 32)
fits_u32 (negsuc n) = false

abbrev pub number_missing : Option Toml → Result Bool
number_missing none = ok true
number_missing (some (integer n)) = guard (fits_u32 n) invalid_config >> ok false
number_missing _ = err (error_of invalid_config)

unfoldable pub missing_numbers : Toml → List Setting → Result (List String)
missing_numbers v [] = ok []
missing_numbers v ((setting, path) ∷ settings) =
    number_missing (field_at path (some v)) >>= λ is_missing.
    push_if is_missing setting (missing_numbers v settings)

abbrev pub in_context : String → List String
in_context k = "login" ∷ "context" ∷ k ∷ []

unfoldable pub missing_context : Toml → Result (List String)
unfolding missing_texts missing_numbers
missing_context v = do
  texts ← missing_texts v (
      ("login.context.device_model", in_context "device_model")
      ∷ ("login.context.operating_system", in_context "operating_system")
      ∷ ("login.context.device_identifier", in_context "device_identifier")
      ∷ [])
  numbers ← missing_numbers v (
      ("login.context.global_channel_id", in_context "global_channel_id")
      ∷ ("login.context.brand_id", in_context "brand_id")
      ∷ ("login.context.area_id", in_context "area_id")
      ∷ [])
  ok (texts ++ numbers)

abbrev pub in_sdk : String → List String
in_sdk k = "login" ∷ "sdk_http" ∷ k ∷ []

-- A name of a common parameter may come once.
abbrev pub supply : Bytes → List Bytes → Result (List Bytes)
supply name supplied =
    guard (not (any (bytes_eq name) supplied)) invalid_config >> ok (name ∷ supplied)

unfoldable pub supply_table : Keys → List Bytes → Result (List Bytes)
supply_table no_keys supplied = ok supplied
supply_table (key name (text s) keys) supplied =
    supply (codes name) supplied >>= λ more. supply_table keys more
supply_table (key name v keys) supplied = err (error_of invalid_config)

unfoldable pub supply_items : Items → List Bytes → Result (List Bytes)
supply_items no_items supplied = ok supplied
supply_items (item (text s) items) supplied =
    supply (codes s) supplied >>= λ more. supply_items items more
supply_items (item v items) supplied = err (error_of invalid_config)

abbrev pub supply_common : Option Toml → Result (List Bytes)
supply_common (some (table keys)) = supply_table keys []
supply_common _ = ok []

abbrev pub supply_omitted : Option Toml → List Bytes → Result (List Bytes)
supply_omitted none supplied = ok supplied
supply_omitted (some (array items)) supplied = supply_items items supplied
supply_omitted _ supplied = err (error_of invalid_config)

abbrev pub is_in : List Bytes → Bytes → Bool
is_in names name = any (bytes_eq name) names

unfoldable pub missing_sdk : Toml → Result (List String)
unfolding missing_texts missing_numbers list_missing supply_table supply_items
missing_sdk v = do
  texts ← missing_texts v (
      ("login.sdk_http.base_url", in_sdk "base_url")
      ∷ ("login.sdk_http.app_key", in_sdk "app_key")
      ∷ [])
  country ← missing_numbers v (("login.sdk_http.country_id", in_sdk "country_id") ∷ [])
  no_urls ← list_missing (field_at (in_sdk "allowed_base_urls") (some v))
  given ← supply_common (field_at (in_sdk "common") (some v))
  supplied ← supply_omitted (field_at (in_sdk "omit_common") (some v)) given
  guard (all (is_in common_fields) supplied) invalid_config
  ok (
      texts
      ++ country
      ++ (if no_urls then "login.sdk_http.allowed_base_urls" ∷ [] else [])
      ++ (if all (is_in supplied) common_fields then [] else "login.sdk_http.common" ∷ []))

-- A part that is looked at where it is there.
abbrev pub where_given : Bool → Result (List String) → Result (List String)
where_given true r = r
where_given false r = ok []

unfoldable pub relative : Toml → List String → String → Result (Option String)
unfolding join is_blank
relative v path folder = of_value (field_at path (some v))
  where
    of_value : Option Toml → Result (Option String)
    of_value none = ok none
    of_value (some (text s)) = if is_blank s then ok none else ok (some (join folder s))
    of_value _ = err (error_of invalid_config)

-- How a setting that names a file is looked at.
pub data FileUse : Type 0 where
  api_key_use optional_use other_use : FileUse

abbrev pub file_settings : List (FileUse × Setting)
file_settings =
    (api_key_use, ("api_key_file", "api_key_file" ∷ []))
    ∷ (optional_use, ("credentials_file", "credentials_file" ∷ []))
    ∷ (other_use, ("login.context_file", "login" ∷ "context_file" ∷ []))
    ∷ (optional_use, ("login.sdk_http_file", "login" ∷ "sdk_http_file" ∷ []))
    ∷ (other_use, ("login.state_dir", "login" ∷ "state_dir" ∷ []))
    ∷ []

abbrev pub is_optional : FileUse → Bool
is_optional optional_use = true
is_optional _ = false

unfoldable pub missing_content : String → Result (List String)
unfolding validate_api_key
missing_content value =
    if is_nil value then ok ("api_key_file.content" ∷ []) else (validate_api_key value >> ok [])

module _ (exists : String → Option Bool) (key_file : String → Option KeyFile) where
  -- A file that is there.
  unfoldable pub look_into : FileUse → String → Result (List String)
  unfolding read_key_file missing_content
  look_into api_key_use path = read_key_file (key_file path) >>= λ value. missing_content value
  look_into optional_use path = ok []
  look_into other_use path = ok []

  abbrev pub missing_at :
      FileUse → String → List String → String → Option Bool → Result (List String)
  missing_at purpose setting missing path none = err (error_of invalid_config)
  missing_at purpose setting missing path (some true) = look_into purpose path
  missing_at purpose setting missing path (some false) =
      ok (if any (str_eq setting) missing then [] else setting ∷ [])

  abbrev pub missing_file :
      FileUse → String → Bool → List String → Option String → Result (List String)
  missing_file purpose setting is_set missing none =
      ok (if is_optional purpose && is_set then setting ∷ [] else [])
  missing_file purpose setting is_set missing (some path) =
      missing_at purpose setting missing path (exists path)

  unfoldable pub missing_files :
      Toml → String → List (FileUse × Setting) → List String → Result (List String)
  unfolding relative look_into
  missing_files v folder [] missing = ok missing
  missing_files v folder ((purpose, (setting, path)) ∷ settings) missing = do
    place ← relative v path folder
    more ← missing_file purpose setting (has path v) missing place
    missing_files v folder settings (missing ++ more)

  -- All that is missing, in the order of the code.
  unfoldable pub all_missing :
      (String → Option String) → Toml → String → List String → Result (List String)
  unfolding missing_required missing_key missing_texts missing_context missing_sdk missing_files
  all_missing parent_of v path none_yet = do
    required ← missing_required v
    no_key ← missing_key (get "api_key" v)
    login_missing ← missing_texts v (login_settings v)
    context_missing ← where_given (has ("login" ∷ "context" ∷ []) v) (missing_context v)
    sdk_missing ← where_given (has ("login" ∷ "sdk_http" ∷ []) v) (missing_sdk v)
    missing_files v (parent_or_here (parent_of path)) file_settings
        (none_yet ++ (required ++ (no_key ++ (login_missing ++ (context_missing ++ sdk_missing)))))

abbrev pub config_text : ConfigFile → Result (List String × String)
config_text no_file = ok ("config_file" ∷ [], "")
config_text unreadable = err (error_of invalid_config)
config_text (readable content) = ok ([], content)

abbrev pub listen_of : (String → Option String) → String → Option Toml → Result String
listen_of parse_address fallback none = ok fallback
listen_of parse_address fallback (some (text s)) = require (parse_address s) invalid_config
listen_of parse_address fallback _ = err (error_of invalid_config)

module _ (parse_url : String → Option Url) (metadata_ok : String → Bool) (working : Option String)
    (parent_of : String → Option String) (canonicalize : String → Canonical)
    (read_config : String → Option Config) (read_value : String → Option Toml)
    (read_sync : Toml → Option VersionSyncConfig) (parse_address : String → Option String)
    (exists : String → Option Bool) (key_file : String → Option KeyFile) where
  unfoldable pub decide : Bool → String → String → String → List String → Result Startup
  unfolding from_text
  decide is_private content path listen [] =
      from_text parse_url metadata_ok working parent_of canonicalize read_config read_value
        is_private content path
      >>= λ c. ok (configured c)
  decide is_private content path listen (setting ∷ missing) =
      ok (unconfigured listen (setting ∷ missing))

  unfoldable pub inspect : Bool → ConfigFile → String → String → Result Startup
  unfolding tables_ok sources_ok sync_ok check_inline all_missing decide
  inspect is_private file path fallback = do
    source ← config_text file
    v ← require (read_value source.1) invalid_config
    guard (tables_ok v && sync_ok read_sync (get "version_sync" v) && sources_ok v) invalid_config
    check_inline is_private v
    listen ← listen_of parse_address fallback (get "listen" v)
    missing ← all_missing exists key_file parent_of v path source.0
    decide is_private source.1 path listen missing
