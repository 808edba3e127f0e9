-- ===== src/Server/Config.antt =====
-- server/src/config.rs: the configuration of the server, and what is checked of it. `toml` and the
-- file system are outside: `working` is the current directory, `parent_of` is `Path::parent`, and
-- `canonicalize` what the file system gives for a path. A path's parts are lists of code points.
pub mod Regional
pub mod Laws
pub mod Settled
pub mod Reading
pub mod ApiKey
mod Tests
use moenotes_api.Prelude.{
  Bool, List, Option, String, [], any, codes, false, if◌then◌else◌, is_nil, is_none, ltb, none, not,
  some, true, ℕ, ◌&&◌, ◌*◌, ◌++◌, ◌==◌, ◌||◌, ◌∷◌,
}
use moenotes_api.Errors.{Result, guard, invalid_config, ok, ◌>>=◌, ◌>>◌}
use moenotes_api.Client.Config.{SessionConfig, Url, bool_eq, is_jp, validate}
use moenotes_api.Client.Sdk.Base.{Bytes, bytes_eq}
use moenotes_api.Client.Sdk.Request.{trim_slashes}
use moenotes_api.Server.Regions.{Region, from_session, region_beq, region_eq}
use moenotes_api.Server.Projection.{ResponseMode, public_mode, raw_mode}
use moenotes_api.Server.Accounts.{AccountsConfig, is_round_robin, validate as valid_accounts}
use moenotes_api.Server.Operator.Sources.{LoginConfig, has_sdk_http, is_some, validate_sources}
use moenotes_api.Server.Paths.{
  Canonical, absolute, components, is_absolute, join, optional_path, parent_or_here, paths_eq,
  settle_path, state_identity,
}

pub record RecoveryConfig : Type 0 where
  pub enabled : Bool
  pub cooldown_seconds : ℕ

pub record VersionSyncConfig : Type 0 where
  pub sync_enabled : Bool
  pub interval_seconds : ℕ
  pub follow_client_updates : Bool

pub record RegionConfig : Type 0 where
  pub session : SessionConfig
  pub credentials_file : Option String
  pub login_config : Option LoginConfig
  pub accounts : Option AccountsConfig
  pub recovery : RecoveryConfig
  pub version_sync : VersionSyncConfig

-- What a region has of its own stands in `own`. `listen` is the text of an address.
pub record Config : Type 0 where
  pub listen : String
  pub enable_experimental_raw : Bool
  pub response_mode : Option ResponseMode
  pub access_log : Bool
  pub api_key_file : String
  pub api_key : Option String
  pub own : RegionConfig
  pub regions : List (Region × RegionConfig)
  pub timeout_seconds : ℕ
  pub minimum_interval_ms : ℕ
  pub queue_capacity : ℕ
  pub cache_ttl_seconds : ℕ
  pub cache_capacity : ℕ

abbrev pub default_recovery : RecoveryConfig
default_recovery = record { enabled = false; cooldown_seconds = 300 }

abbrev pub default_sync : VersionSyncConfig
default_sync = record { sync_enabled = true; interval_seconds = 60; follow_client_updates = false }

unfoldable pub for_region : Config → RegionConfig → Config
for_region c settings = record c { own = settings; regions = [] }

-- The mode in which responses are given.
unfoldable pub mode : Config → ResponseMode
mode c = elim c.response_mode [
  | some m ↦ m
  | none ↦ if c.enable_experimental_raw then raw_mode else public_mode
]

-- Durations are milliseconds.
pub record ClientOptions : Type 0 where
  pub timeout_ms : ℕ
  pub interval_ms : ℕ
  pub capacity : ℕ

unfoldable pub client_options : Config → ClientOptions
client_options c = record {
  timeout_ms = c.timeout_seconds * 1000;
  interval_ms = c.minimum_interval_ms;
  capacity = c.queue_capacity;
}

abbrev pub is_not_raw : Option ResponseMode → Bool
is_not_raw none = false
is_not_raw (some raw_mode) = false
is_not_raw (some m) = true

abbrev pub lacks_sdk : Option LoginConfig → Bool
lacks_sdk none = false
lacks_sdk (some l) = not (has_sdk_http l)

-- The numbers of a configuration are out of their bounds.
unfoldable pub out_of_range : Config → Bool
out_of_range c =
    ltb 16384 c.cache_capacity
    || ltb 3600 c.cache_ttl_seconds
    || ltb 60000 c.minimum_interval_ms
    || ltb 4096 c.queue_capacity
    || c.timeout_seconds == 0
    || ltb 120 c.timeout_seconds
    || ltb c.own.recovery.cooldown_seconds 60
    || ltb 86400 c.own.recovery.cooldown_seconds
    || ltb c.own.version_sync.interval_seconds 30
    || ltb 86400 c.own.version_sync.interval_seconds

-- Its parts do not go together.
unfoldable pub is_inconsistent : Config → Bool
is_inconsistent c =
    (c.own.recovery.enabled && is_none c.own.login_config)
    || (is_some c.own.login_config && is_some c.own.credentials_file)
    || (not (is_jp c.own.session) && (is_some c.own.accounts && is_none c.own.login_config))
    || (not (is_jp c.own.session) && (is_some c.own.accounts && lacks_sdk c.own.login_config))
    || (is_jp c.own.session && (is_some c.own.login_config || c.own.recovery.enabled))
    || (is_some c.own.accounts && is_some c.own.credentials_file)
    || bool_eq (is_some c.api_key) (not (is_nil c.api_key_file))
    || (c.enable_experimental_raw && is_not_raw c.response_mode)

unfoldable pub settle_login : String → Option LoginConfig → Result (Option LoginConfig)
unfolding validate_sources settle_path join
settle_login folder none = ok none
settle_login folder (some l) = do
  validate_sources l
  ok (
      some (record l {
        context_file = settle_path folder l.context_file;
        state_dir = join folder l.state_dir;
        sdk_http_file = optional_path folder l.sdk_http_file;
      }))

-- The directory of accounts, whose default is another one for JP.
unfoldable pub accounts_folder : Bool → String → String
unfolding components
accounts_folder in_jp folder =
    if in_jp
      && is_absolute folder
      && paths_eq (components folder) (components "/accounts/international")
    then "/accounts/jp"
    else folder

unfoldable pub settle_accounts :
    String → SessionConfig → Option AccountsConfig → Result (Option AccountsConfig)
unfolding join valid_accounts accounts_folder
settle_accounts folder session none = ok none
settle_accounts folder session (some a) = do
  guard (not (is_round_robin a.strategy && is_none (from_session session.region))) invalid_config
  valid_accounts (record a { directory = accounts_folder (is_jp session) a.directory })
  ok (some (record a { directory = join folder (accounts_folder (is_jp session) a.directory) }))

-- `origin.trim_end_matches('/')`
abbrev pub origin_of : RegionConfig → Bytes
origin_of settings = trim_slashes (codes settings.session.origin)

-- `==` of an optional region with a present one.
abbrev pub is_region : Region → Option Region → Bool
is_region r none = false
is_region r (some q) = region_beq q r

unfoldable pub region_fits : Config → Region → RegionConfig → Bool
region_fits c region settings =
    not (is_region region (from_session c.own.session.region))
    && is_region region (from_session settings.session.region)

abbrev pub holds_path : List (List Bytes) → List Bytes → Bool
holds_path paths p = any (λ q. paths_eq q p) paths

abbrev pub has_origin : List Bytes → Bytes → Bool
has_origin origins o = any (λ q. bytes_eq q o) origins

module _ (parse_url : String → Option Url) (metadata_ok : String → Bool) (working : Option String)
    (parent_of : String → Option String) (canonicalize : String → Canonical) where
  -- `validate_and_resolve`; `path` is that of the configuration.
  unfoldable pub validate_and_resolve : String → Config → Result Config
  unfolding out_of_range is_inconsistent absolute settle_path settle_login settle_accounts join
  validate_and_resolve path c = do
    guard (not (out_of_range c || is_inconsistent c)) invalid_config
    validate parse_url metadata_ok c.own.session
    config_path ← absolute working path
    let folder = parent_or_here (parent_of config_path)
    login_config ← settle_login folder c.own.login_config
    accounts ← settle_accounts folder c.own.session c.own.accounts
    ok (record c {
      api_key_file = settle_path folder c.api_key_file;
      own = record c.own {
        credentials_file = optional_path folder c.own.credentials_file;
        login_config = login_config;
        accounts = accounts;
      };
    })

  -- The state directories so far, with one more.
  unfoldable pub claim_state : Option LoginConfig → List (List Bytes) → Result (List (List Bytes))
  unfolding state_identity
  claim_state none dirs = ok dirs
  claim_state (some l) dirs = do
    identity ← state_identity working canonicalize l.state_dir
    guard (not (holds_path dirs identity)) invalid_config
    ok (dirs ++ identity ∷ [])

  -- The loop over the regions, with the origins and the state directories so far.
  unfoldable pub add_regions :
      String
      → Config
      → List Bytes
      → List (List Bytes)
      → List (Region × RegionConfig)
      → Result (List (Region × RegionConfig))
  unfolding region_fits for_region validate_and_resolve claim_state
  add_regions path c origins dirs [] = ok []
  add_regions path c origins dirs ((region, settings) ∷ rest) = do
    guard (region_fits c region settings) invalid_config
    regional ← validate_and_resolve path (for_region c settings)
    guard (not (has_origin origins (origin_of regional.own))) invalid_config
    claimed ← claim_state regional.own.login_config dirs
    others ← add_regions path c (origins ++ origin_of regional.own ∷ []) claimed rest
    ok ((region, regional.own) ∷ others)

  -- `Config::from_text` behind the reading of the text.
  unfoldable pub resolve_all : String → Config → Result Config
  unfolding validate_and_resolve claim_state add_regions
  resolve_all path c = do
    checked ← validate_and_resolve path c
    dirs ← claim_state checked.own.login_config []
    regions ← add_regions path checked (origin_of checked.own ∷ []) dirs checked.regions
    ok (record checked { regions = regions })
