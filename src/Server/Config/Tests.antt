-- ===== src/Server/Config/Tests.antt =====
-- server/src/config.rs: a configuration of two regions.
use moenotes_api.Prelude.{Option, String, [], false, none, refl, some, split_on, true, ◌∷◌, ◌≡◌}
use moenotes_api.Errors.{err, error_of, invalid_config, ok}
use moenotes_api.Client.Config.{
  SessionConfig, entry, is_consistent, metadata, origin, plain_origin, validate,
}
use moenotes_api.Server.Regions.{from_session, jp, kr, region_eq}
use moenotes_api.Server.Operator.Sources.{LoginConfig, validate_sources}
use moenotes_api.Server.Paths.{
  Canonical, absolute, components, join, not_found, settle_path, state_identity,
}
use moenotes_api.Server.Config.{
  Config, RegionConfig, add_regions, claim_state, default_recovery, default_sync, for_region,
  is_inconsistent, out_of_range, region_fits, resolve_all, settle_accounts, settle_login,
  validate_and_resolve,
}
use moenotes_api.Server.Config.Reading.{
  Toml, check_inline, from_text, has_inline, key, login_conflicts, no_keys, table, text,
}
use moenotes_api.Server.Config.Reading.Secrets.{IsRead, from_text-IsRead}
use moenotes_api.Client.Config.Examples.{any_value, plain_url}

abbrev parent_of : String → Option String
parent_of p = some "/etc/moenotes"

abbrev nowhere : String → Canonical
nowhere p = not_found

abbrev session_of : String → String → SessionConfig
session_of region origin = record {
  region = region;
  origin = origin;
  allowed_origins = origin ∷ [];
  platform = "android";
  client_version = "1.0.3";
  master_version = none;
  resource_version = none;
}

abbrev login_in : String → LoginConfig
login_in dir = record {
  context_file = "context.json";
  context_inline = none;
  sdk_http_file = some "sdk.json";
  sdk_http = none;
  state_dir = dir;
}

abbrev settings_of : String → String → Option LoginConfig → RegionConfig
settings_of region origin login = record {
  session = session_of region origin;
  credentials_file = none;
  login_config = login;
  accounts = none;
  recovery = default_recovery;
  version_sync = default_sync;
}

abbrev written : Config
written = record {
  listen = "127.0.0.1:8080";
  access_log = true;
  enable_experimental_raw = false;
  response_mode = none;
  api_key_file = "key";
  api_key = none;
  own = settings_of "en" "https://en/" (some (login_in "state"));
  regions =
      (kr, settings_of "kr" "https://kr" (some (login_in "/var/kr")))
      ∷ (jp, settings_of "jp" "https://jp" none)
      ∷ [];
  timeout_seconds = 10;
  minimum_interval_ms = 1000;
  queue_capacity = 32;
  cache_ttl_seconds = 15;
  cache_capacity = 1024;
}

abbrev resolved_login : String → LoginConfig
resolved_login dir = record (login_in dir) {
  context_file = "/etc/moenotes/context.json";
  sdk_http_file = some "/etc/moenotes/sdk.json";
}

abbrev resolved : Config
resolved = record written {
  api_key_file = "/etc/moenotes/key";
  own = settings_of "en" "https://en/" (some (resolved_login "/etc/moenotes/state"));
  regions =
      (kr, settings_of "kr" "https://kr" (some (resolved_login "/var/kr")))
      ∷ (jp, settings_of "jp" "https://jp" none)
      ∷ [];
}

reads :
    resolve_all plain_url any_value none parent_of nowhere "/etc/moenotes/config.toml" written
    ≡ ok resolved
unfolding resolve_all validate_and_resolve claim_state add_regions out_of_range is_inconsistent
    validate origin plain_origin is_consistent metadata entry absolute settle_path settle_login
    settle_accounts join validate_sources state_identity components split_on region_fits for_region
    from_session
reads = refl

abbrev keep_text : String → Option Config
keep_text t = some written

abbrev login_value : Toml
login_value =
    table (key "context_file" (text "context.json") (key "sdk_http_file" (text "sdk.json") no_keys))

abbrev values : String → Option Toml
values t = some (
    table (
      key "api_key_file" (text "key") (
        key "login" login_value (
          key "regions" (table (key "kr" (table (key "login" login_value no_keys)) no_keys))
            no_keys))))

is_read :
    from_text plain_url any_value none parent_of nowhere keep_text values false ""
      "/etc/moenotes/config.toml"
    ≡ ok resolved
unfolding from_text has_inline login_conflicts check_inline
is_read = reads

from_text-IsRead_example :
    IsRead plain_url any_value none parent_of nowhere keep_text values false "" resolved
from_text-IsRead_example =
    from_text-IsRead plain_url any_value none parent_of nowhere keep_text values false ""
      "/etc/moenotes/config.toml" resolved is_read

-- The key of an application, given for a region in a file that others may read.
open_secret :
    check_inline false (
      table (
        key "regions"
          (table (
            key "kr"
              (table (
                key "login"
                  (table (key "sdk_http" (table (key "app_key" (text "k") no_keys)) no_keys))
                  no_keys))
              no_keys))
          no_keys))
    ≡ err (error_of invalid_config)
unfolding has_inline login_conflicts check_inline
open_secret = refl

-- The state directory of another region, on a way round.
shared_state :
    resolve_all plain_url any_value none parent_of nowhere "/etc/moenotes/config.toml"
      (record written {
        regions = (kr, settings_of "kr" "https://kr" (some (login_in "x/../state"))) ∷ [];
      })
    ≡ err (error_of invalid_config)
unfolding resolve_all validate_and_resolve claim_state add_regions out_of_range is_inconsistent
    validate origin plain_origin is_consistent metadata entry absolute settle_path settle_login
    settle_accounts join validate_sources state_identity components split_on region_fits for_region
    from_session
shared_state = refl
