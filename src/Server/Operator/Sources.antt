-- ===== src/Server/Operator/Sources.antt =====
-- server/src/operator.rs: where a login takes its device and its SDK client from. `serde_json` is
-- outside: `read_context` and `read_sdk_config`; `read_private` is what `private_read` gives for a
-- path. `parse_url`, `header_ok` and `built` as in Client.Sdk.Request.
use moenotes_api.Prelude.{
  Bool, List, Option, String, [], false, if◌then◌else◌, is_nil, is_none, none, not, some, true, ℕ,
  ◌&&◌, ◌||◌, ◌∷◌,
}
use moenotes_api.Errors.{Result, err, error_of, guard, invalid_config, ok, require, ◌>>=◌, ◌>>◌}
use moenotes_api.Client.Config.{SessionConfig, Url, bool_eq, validate}
use moenotes_api.Client.Sdk.Base.{Bytes, SdkResult, err as failed, ok as done}
use moenotes_api.Client.Sdk.Request.{
  SdkHttpClient, app_key, common_parameters, default_options, has_name, new_client,
}
use moenotes_api.Server.Operator.{Context, check_context}

pub record SdkConfig : Type 0 where
  pub base_url : String
  pub allowed_base_urls : List String
  pub app_key_text : Bytes
  pub common : List (Bytes × Option Bytes)
  pub omit_common : List Bytes
  pub country_id : ℕ
  pub one_sdk_version : Option Bytes

pub record LoginConfig : Type 0 where
  pub context_file : String
  pub context_inline : Option Context
  pub sdk_http_file : Option String
  pub sdk_http : Option SdkConfig
  pub state_dir : String

abbrev pub is_some {ℓ} : {A : Type ℓ} → Option A → Bool
is_some o = not (is_none o)

abbrev pub is_empty_path : Option String → Bool
is_empty_path none = false
is_empty_path (some p) = is_nil p

unfoldable pub validate_sources : LoginConfig → Result (Unit {0})
validate_sources l =
    if bool_eq (is_some l.context_inline) (not (is_nil l.context_file))
      || (is_some l.sdk_http && is_some l.sdk_http_file)
      || is_empty_path l.sdk_http_file
      || is_nil l.state_dir
    then err (error_of invalid_config)
    else ok tt

-- A check that is made where a condition holds.
abbrev pub when : Bool → Result (Unit {0}) → Result (Unit {0})
when true r = r
when false r = ok tt

abbrev pub has_sdk_http : LoginConfig → Bool
has_sdk_http l = is_some l.sdk_http || is_some l.sdk_http_file

-- `map_err(|_| invalid())` of an error of the SDK.
abbrev pub as_invalid : {A : Type 0} → SdkResult A → Result A
as_invalid (done a) = ok a
as_invalid (failed e) = err (error_of invalid_config)

-- The names to omit are put into the map without a value. The order of the map matters for the
-- entries with a value only.
unfoldable pub omit :
    List Bytes → List (Bytes × Option Bytes) → Result (List (Bytes × Option Bytes))
omit [] common = ok common
omit (key ∷ keys) common = do
  guard (not (has_name common key)) invalid_config
  omit keys ((key, none) ∷ common)

unfoldable pub context :
    (Bytes → Option Context) → (String → Result Bytes) → LoginConfig → Result Context
unfolding validate_sources check_context
context read_context read_private l = do
  validate_sources l
  c ← elim l.context_inline [
    | some c ↦ ok c
    | none ↦
        (read_private l.context_file >>= λ content. require (read_context content) invalid_config)
  ]
  check_context c

module _ (parse_url : String → Option Url) (header_ok : Bytes → Bool) (built : Bool) where
  -- `SdkConfig::client`
  unfoldable pub client : SdkConfig → ℕ → Result (SdkHttpClient × ℕ)
  unfolding omit common_parameters app_key new_client
  client config binding = do
    common ← omit config.omit_common config.common
    parameters ← as_invalid (common_parameters common)
    key ← as_invalid (app_key config.app_key_text)
    sdk ← as_invalid (
        new_client parse_url header_ok built
          (record { base_url = config.base_url; allowed_base_urls = config.allowed_base_urls })
          parameters key (record { trace_id = none; one_sdk_version = config.one_sdk_version })
          (record default_options { timeout = 30000 }) binding)
    ok (sdk, config.country_id)

  unfoldable pub sdk_client :
      (Bytes → Option SdkConfig)
      → (String → Result Bytes)
      → LoginConfig
      → ℕ
      → Result (SdkHttpClient × ℕ)
  unfolding client
  sdk_client read_sdk_config read_private l binding = from_sources l.sdk_http l.sdk_http_file
    where
      from_sources : Option SdkConfig → Option String → Result (SdkHttpClient × ℕ)
      from_sources (some config) none = client config binding
      from_sources none (some path) = read_private path >>= λ content.
          require (read_sdk_config content) invalid_config >>= λ config. client config binding
      from_sources _ _ = err (error_of invalid_config)

  -- `LoginConfig::validate`; `state_dir_ok` is the answer of `private_dir`.
  unfoldable pub validate_login :
      (String → Bool)
      → (Bytes → Option Context)
      → (Bytes → Option SdkConfig)
      → (String → Result Bytes)
      → Result (Unit {0})
      → LoginConfig
      → SessionConfig
      → Result (Unit {0})
  unfolding sdk_client validate_sources context
  validate_login metadata_ok read_context read_sdk_config read_private state_dir_ok l config = do
    validate_sources l
    state_dir_ok
    _ ← context read_context read_private l
    validate parse_url metadata_ok config
    when (has_sdk_http l) (sdk_client read_sdk_config read_private l 0 >>= λ c. ok tt)
