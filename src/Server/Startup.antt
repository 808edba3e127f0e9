-- ===== src/Server/Startup.antt =====
-- server/src/startup.rs: what is missing in a configuration, before the server starts. Outside are
-- `toml` (`read_value`, `read_config`, `read_sync`), the reading of an address (`parse_address`) and
-- the file system: `exists` is what `std::fs::metadata` gives for a path, `key_file` what stands at
-- one. The two readings of a text and the paths are as in Server.Config.Reading.
pub mod Inspect
pub mod Given
pub mod Needs
pub mod LoginParts
pub mod Complete
pub mod Laws
mod Tests
use moenotes_api.Prelude.{
  Bool, List, Option, String, [], false, if◌then◌else◌, is_nil, is_none, leb, none, not, some,
  str_eq, true, ◌&&◌, ◌++◌, ◌||◌, ◌∷◌,
}
use moenotes_api.Errors.{Result, err, error_of, guard, invalid_config, ok, ◌>>=◌, ◌>>◌}
use moenotes_api.Client.Jp.{trim, trim_end, trim_start}
use moenotes_api.Server.Config.{Config, VersionSyncConfig}
use moenotes_api.Server.Config.ApiKey.{validate_api_key}
use moenotes_api.Server.Config.Reading.{
  Items, Toml, array, get, get_within, have_both, item, login_conflicts, no_items, table, text,
}

pub data Startup : Type 0 where
  configured : Config → Startup
  unconfigured : (listen_at : String) → (missing : List String) → Startup

-- What `read_config` of server/src/config.rs finds at the path of the configuration.
pub data ConfigFile : Type 0 where
  no_file unreadable : ConfigFile
  readable : String → ConfigFile

-- `field`, along the keys of a path.
abbrev pub field_at : List String → Option Toml → Option Toml
field_at [] v = v
field_at (k ∷ path) v = field_at path (get_within k v)

-- A name of a setting, and its path.
abbrev pub Setting : Type 0
Setting = String × List String

unfoldable pub is_blank : String → Bool
unfolding trim_start trim_end
is_blank s = is_nil (trim s)

unfoldable pub string_missing : Toml → List String → Result Bool
unfolding is_blank
string_missing v path = of_text (field_at path (some v))
  where
    of_text : Option Toml → Result Bool
    of_text none = ok true
    of_text (some (text s)) = ok (is_blank s)
    of_text _ = err (error_of invalid_config)

-- `if is_missing { missing.push(key) }`, in front of what follows.
abbrev pub push_if : Bool → String → Result (List String) → Result (List String)
push_if is_missing setting rest = rest >>= λ l. ok (if is_missing then setting ∷ l else l)

-- The settings that are missing as texts.
unfoldable pub missing_texts : Toml → List Setting → Result (List String)
unfolding string_missing
missing_texts v [] = ok []
missing_texts v ((setting, path) ∷ settings) =
    string_missing v path >>= λ is_missing. push_if is_missing setting (missing_texts v settings)

abbrev pub is_table : Option Toml → Bool
is_table none = true
is_table (some (table keys)) = true
is_table _ = false

unfoldable pub tables_ok : Toml → Bool
tables_ok v =
    is_table (get "session" v)
    && is_table (get "login" v)
    && is_table (get "recovery" v)
    && is_table (get "accounts" v)
    && is_table (get "version_sync" v)
    && is_table (get "regions" v)
    && is_table (field_at ("login" ∷ "context" ∷ []) (some v))
    && is_table (field_at ("login" ∷ "sdk_http" ∷ []) (some v))
    && is_table (field_at ("login" ∷ "sdk_http" ∷ "common" ∷ []) (some v))

unfoldable pub sources_ok : Toml → Bool
unfolding login_conflicts
sources_ok v = not (have_both (get "api_key" v) (get "api_key_file" v)) && not (login_conflicts v)

unfoldable pub sync_ok : (Toml → Option VersionSyncConfig) → Option Toml → Bool
sync_ok read_sync none = true
sync_ok read_sync (some v) = in_bounds (read_sync v)
  where
    in_bounds : Option VersionSyncConfig → Bool
    in_bounds none = false
    in_bounds (some sync) = leb 30 sync.interval_seconds && leb sync.interval_seconds 86400

abbrev pub all_texts : Items → Bool
all_texts no_items = true
all_texts (item (text s) items) = all_texts items
all_texts (item v items) = false

abbrev pub all_blank : Items → Bool
all_blank no_items = true
all_blank (item (text s) items) = is_blank s && all_blank items
all_blank (item v items) = false

-- A list of texts: it may be missing, or hold blank texts only.
unfoldable pub list_missing : Option Toml → Result Bool
unfolding is_blank
list_missing none = ok true
list_missing (some (array items)) = guard (all_texts items) invalid_config >> ok (all_blank items)
list_missing _ = err (error_of invalid_config)

abbrev pub required_texts : List Setting
required_texts =
    ("session.platform", "session" ∷ "platform" ∷ [])
    ∷ ("session.client_version", "session" ∷ "client_version" ∷ [])
    ∷ []

abbrev pub key_setting : Toml → List Setting
key_setting v = if is_none (get "api_key" v) then ("api_key_file", "api_key_file" ∷ []) ∷ [] else []

-- `REQUIRED`
unfoldable pub missing_required : Toml → Result (List String)
unfolding missing_texts list_missing
missing_required v = do
  first ← missing_texts v (
      key_setting v
      ++ ("session.region", "session" ∷ "region" ∷ [])
        ∷ ("session.origin", "session" ∷ "origin" ∷ [])
        ∷ [])
  no_origins ← list_missing (field_at ("session" ∷ "allowed_origins" ∷ []) (some v))
  last ← missing_texts v required_texts
  ok (first ++ (if no_origins then "session.allowed_origins" ∷ last else last))

-- The key that is given directly.
unfoldable pub missing_key : Option Toml → Result (List String)
unfolding is_blank validate_api_key
missing_key none = ok []
missing_key (some (text s)) =
    if is_blank s then ok ("api_key" ∷ []) else (validate_api_key s >> ok [])
missing_key _ = err (error_of invalid_config)

abbrev pub is_text : String → Option Toml → Bool
is_text t (some (text s)) = str_eq s t
is_text t _ = false

abbrev pub jp_session : Toml → Bool
jp_session v = is_text "jp" (field_at ("session" ∷ "region" ∷ []) (some v))

abbrev pub has : List String → Toml → Bool
has path v = not (is_none (field_at path (some v)))

abbrev pub only_if : Bool → List Setting → List Setting
only_if true settings = settings
only_if false settings = []

-- The login and the SDK that the accounts need.
abbrev pub login_settings : Toml → List Setting
login_settings v =
    only_if (has ("login" ∷ []) v || (has ("accounts" ∷ []) v && not (jp_session v))) (
      only_if (not (has ("login" ∷ "context" ∷ []) v))
        (("login.context_file", "login" ∷ "context_file" ∷ []) ∷ [])
      ++ ("login.state_dir", "login" ∷ "state_dir" ∷ []) ∷ [])
    ++ only_if
        (not (jp_session v) && has ("accounts" ∷ []) v && not (has ("login" ∷ "sdk_http" ∷ []) v))
        (("login.sdk_http_file", "login" ∷ "sdk_http_file" ∷ []) ∷ [])
