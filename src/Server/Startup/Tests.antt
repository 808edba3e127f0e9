-- ===== src/Server/Startup/Tests.antt =====
-- server/src/startup.rs: a start with what is needed, and one without a key.
use moenotes_api.Prelude.{Bool, Option, String, [], false, none, refl, some, true, ◌∷◌, ◌≡◌}
use moenotes_api.Errors.{ok}
use moenotes_api.Client.Config.{entry, is_consistent, metadata, origin, plain_origin, validate}
use moenotes_api.Client.Jp.{trim_end, trim_start}
use moenotes_api.Server.Paths.{Canonical, absolute, join, not_found, settle_path}
use moenotes_api.Server.Operator.Sources.{validate_sources}
use moenotes_api.Server.Config.{
  Config, VersionSyncConfig, add_regions, claim_state, default_recovery, default_sync,
  is_inconsistent, out_of_range, resolve_all, settle_accounts, settle_login, validate_and_resolve,
}
use moenotes_api.Server.Config.ApiKey.{KeyFile, validate_api_key}
use moenotes_api.Server.Config.Reading.{
  Toml, array, check_inline, from_text, has_inline, item, key, login_conflicts, no_items, no_keys,
  table, text,
}
use moenotes_api.Server.Startup.{
  configured, is_blank, list_missing, missing_key, missing_required, missing_texts, readable,
  sources_ok, string_missing, sync_ok, tables_ok, unconfigured,
}
use moenotes_api.Server.Startup.Inspect.{all_missing, decide, inspect, missing_files, relative}
use moenotes_api.Server.Startup.Laws.{StartedAs, inspect-StartedAs}
use moenotes_api.Client.Config.Examples.{any_value, plain_url}

abbrev no_parent : String → Option String
no_parent p = some "/etc"

abbrev nowhere : String → Canonical
nowhere p = not_found

abbrev written : Config
written = record {
  listen = "127.0.0.1:8080";
  access_log = true;
  enable_experimental_raw = false;
  response_mode = none;
  api_key_file = "";
  api_key = some "0123456789abcdef0123456789abcdef";
  own = record {
    session = record {
      region = "en";
      origin = "https://en";
      allowed_origins = "https://en" ∷ [];
      platform = "android";
      client_version = "1.0.3";
      master_version = none;
      resource_version = none;
    };
    credentials_file = none;
    login_config = none;
    accounts = none;
    recovery = default_recovery;
    version_sync = default_sync;
  };
  regions = [];
  timeout_seconds = 10;
  minimum_interval_ms = 1000;
  queue_capacity = 32;
  cache_ttl_seconds = 15;
  cache_capacity = 1024;
}

abbrev session_value : Toml
session_value = table (
    key "region" (text "en") (
      key "origin" (text "https://en") (
        key "allowed_origins" (array (item (text "https://en") no_items))
          (key "platform" (text "android") (key "client_version" (text "1.0.3") no_keys)))))

abbrev with_api_key : String → Toml
with_api_key k = table (key "api_key" (text k) (key "session" session_value no_keys))

abbrev keep_config : String → Option Config
keep_config t = some written

abbrev keep_value : String → Option Toml
keep_value t = some (with_api_key t)

abbrev no_sync : Toml → Option VersionSyncConfig
no_sync v = none

abbrev any_address : String → Option String
any_address s = some s

abbrev no_entry : String → Option Bool
no_entry p = some false

abbrev no_key_file : String → Option KeyFile
no_key_file p = none

abbrev a_key : String
a_key = "0123456789abcdef0123456789abcdef"

started :
    inspect plain_url any_value none no_parent nowhere keep_config keep_value no_sync any_address
      no_entry no_key_file true
      (readable a_key)
      "/etc/c.toml"
      "l"
    ≡ ok (configured written)
unfolding inspect tables_ok sources_ok sync_ok check_inline has_inline login_conflicts all_missing
    missing_required missing_key missing_texts string_missing list_missing is_blank trim_start
    trim_end validate_api_key missing_files relative decide from_text resolve_all
    validate_and_resolve claim_state add_regions out_of_range is_inconsistent validate origin
    plain_origin is_consistent metadata entry absolute settle_path settle_login settle_accounts join
    validate_sources
started = refl

inspect-StartedAs_example :
    StartedAs plain_url any_value none no_parent nowhere keep_config keep_value no_sync any_address
      no_entry no_key_file true
      (readable a_key)
      "/etc/c.toml"
      (configured written)
inspect-StartedAs_example =
    inspect-StartedAs plain_url any_value none no_parent nowhere keep_config keep_value no_sync
      any_address no_entry no_key_file true (readable a_key) "/etc/c.toml" "l" (configured written)
      started

no_key_yet :
    inspect plain_url any_value none no_parent nowhere keep_config keep_value no_sync any_address
      no_entry no_key_file true
      (readable " ")
      "/etc/c.toml"
      "l"
    ≡ ok (unconfigured "l" ("api_key" ∷ []))
unfolding inspect tables_ok sources_ok sync_ok check_inline has_inline login_conflicts all_missing
    missing_required missing_key missing_texts string_missing list_missing is_blank trim_start
    trim_end validate_api_key missing_files relative decide from_text resolve_all
    validate_and_resolve claim_state add_regions out_of_range is_inconsistent validate origin
    plain_origin is_consistent metadata entry absolute settle_path settle_login settle_accounts join
    validate_sources
no_key_yet = refl
