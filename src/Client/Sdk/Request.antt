-- ===== src/Client/Sdk/Request.antt =====
-- client/src/sdk_http.rs: the parts of the SDK's HTTP client, `new`, and the form of a request.
-- `url` and `reqwest` are outside: `parse_url` is `Url::parse`, `header_ok` says whether
-- `HeaderValue::from_str` takes a text, `built` whether the HTTP client could be built.
pub mod Laws
use moenotes_api.Prelude.{
  Bool, List, Option, String, [], all, any, codes, false, if◌then◌else◌, is_empty, is_nil, leb,
  length, ltb, none, not, some, str_eq, true, ℕ, ◌&&◌, ◌++◌, ◌==◌, ◌||◌, ◌∷◌,
}
use moenotes_api.Client.Config.{Url}
use moenotes_api.Client.Sdk.Base.{
  Bytes, Field, SdkResult, bytes_eq, err, error, guard, invalid_config, invalid_input, ok,
  validate_secret, ◌>>=◌, ◌>>◌,
}
use moenotes_api.Decimal.{print}
use moenotes_api.Client.Sdk.Form.{encoded, raw, sign_form}

abbrev pub common_fields : List Bytes
common_fields =
    codes "game_id"
    ∷ codes "server_id"
    ∷ codes "merchant_id"
    ∷ codes "app_ver"
    ∷ codes "sdk_ver"
    ∷ codes "channel_id"
    ∷ codes "platform"
    ∷ codes "platform_type"
    ∷ codes "net"
    ∷ codes "operators"
    ∷ codes "model"
    ∷ codes "pf_ver"
    ∷ codes "udid"
    ∷ codes "dp"
    ∷ codes "adid"
    ∷ codes "lang"
    ∷ codes "sdk_log_type"
    ∷ codes "ad_ext"
    ∷ codes "time_zone"
    ∷ codes "isRoot"
    ∷ []

-- `AppKey::new`
unfoldable pub app_key : Bytes → SdkResult Bytes
app_key value =
    if is_empty value || ltb 4096 (length value) then err (error invalid_input) else ok value

abbrev pub has_name : List (Bytes × Option Bytes) → Bytes → Bool
has_name values k = any (λ f. bytes_eq f.0 k) values

abbrev pub longer : ℕ → Option Bytes → Bool
longer max none = false
longer max (some v) = ltb max (length v)

-- The parameters that have a value.
abbrev pub present_fields : List (Bytes × Option Bytes) → List Field
present_fields [] = []
present_fields ((k, none) ∷ values) = present_fields values
present_fields ((k, some v) ∷ values) = (k, v) ∷ present_fields values

-- `CommonParameters::new`: the map is given by its entries, in the order of their names.
unfoldable pub common_parameters : List (Bytes × Option Bytes) → SdkResult (List Field)
common_parameters values =
    if not (length values == length common_fields)
      || not (all (has_name values) common_fields)
      || any (λ f. longer 4096 f.1) values
    then err (error invalid_input)
    else ok (present_fields values)

pub record SdkHttpConfig : Type 0 where
  pub base_url : String
  pub allowed_base_urls : List String

-- Durations are milliseconds.
pub record SdkHttpOptions : Type 0 where
  pub timeout : ℕ
  pub minimum_interval : ℕ

abbrev pub default_options : SdkHttpOptions
default_options = record { timeout = 10000; minimum_interval = 1000 }

pub record SdkHeaders : Type 0 where
  pub trace_id : Option Bytes
  pub one_sdk_version : Option Bytes

pub record CurrentSdkUser : Type 0 where
  pub uid : Bytes
  pub mid : Bytes

pub record SdkHttpClient : Type 0 where
  pub base_url : Bytes
  pub allowed_base_urls : List String
  pub parameters : List Field
  pub key : Bytes
  pub headers : SdkHeaders
  pub options : SdkHttpOptions
  pub binding : ℕ

-- `trim_end_matches('/')`
abbrev pub trim_slashes : Bytes → Bytes
trim_slashes [] = []
trim_slashes (c ∷ s) =
    let rest = trim_slashes s in if c == b'/' && is_empty rest then [] else c ∷ rest

unfoldable pub plain_base : Option Url → SdkResult Bytes
plain_base none = err (error invalid_config)
plain_base (some u) =
    if not (str_eq u.scheme "https")
      || not u.has_host
      || not (is_nil u.username)
      || u.has_password
      || u.has_query
      || u.has_fragment
      || not (str_eq u.path "/" || str_eq u.path "/passport" || str_eq u.path "/passport/")
    then err (error invalid_config)
    else ok (codes u.serialized ++ trim_slashes (codes u.path))

abbrev pub same_base : SdkResult Bytes → Bytes → Bool
same_base (ok s) t = bytes_eq s t
same_base (err e) t = false

abbrev pub header_fits : (Bytes → Bool) → Option Bytes → Bool
header_fits header_ok none = true
header_fits header_ok (some v) = leb (length v) 1024 && header_ok v

module _ (parse_url : String → Option Url) (header_ok : Bytes → Bool) (built : Bool) where
  unfoldable pub normalize_base : String → SdkResult Bytes
  unfolding plain_base
  normalize_base value = plain_base (parse_url value)

  unfoldable pub new_client :
      SdkHttpConfig → List Field → Bytes → SdkHeaders → SdkHttpOptions → ℕ → SdkResult SdkHttpClient
  unfolding normalize_base
  new_client config parameters key headers options binding = do
    base ← normalize_base config.base_url
    guard
        (any (λ v. same_base (normalize_base v) base) config.allowed_base_urls
          && not (options.timeout == 0)
          && leb options.timeout 120000
          && leb options.minimum_interval 120000)
        invalid_config
    guard (header_fits header_ok headers.trace_id) invalid_config
    guard (header_fits header_ok headers.one_sdk_version) invalid_config
    guard built invalid_config
    ok (record {
      base_url = base;
      allowed_base_urls = config.allowed_base_urls;
      parameters = parameters;
      key = key;
      headers = headers;
      options = options;
      binding = binding;
    })

-- The current user's fields behind those of the call.
unfoldable pub user_fields : List Field → Option CurrentSdkUser → SdkResult (List Field)
unfolding validate_secret
user_fields fields none = ok fields
user_fields fields (some user) = do
  validate_secret user.uid 256
  guard (leb (length user.mid) 256) invalid_input
  ok (fields ++ (codes "uid", user.uid) ∷ (codes "mid", user.mid) ∷ [])

abbrev pub encode_fields : (Bytes → Bytes) → List Field → List Field
encode_fields coding [] = []
encode_fields coding ((k, v) ∷ fields) = (k, coding v) ∷ encode_fields coding fields

-- `to_string` of a `u64`.
abbrev pub stamp : ℕ → List Field
stamp timestamp_ms = (codes "timestamp", print timestamp_ms) ∷ (codes "web_code", codes "6") ∷ []

-- The fields in the order of the form: those of the call, the common ones, and the last two.
unfoldable pub wire_fields : SdkHttpClient → List Field → Bool → ℕ → List Field
unfolding encoded raw
wire_fields client fields already_encoded timestamp_ms =
    encode_fields (if already_encoded then encoded else raw) fields
    ++ (encode_fields encoded client.parameters ++ stamp timestamp_ms)

module _ (percent_decode md5_hex : Bytes → Bytes) where
  unfoldable pub form :
      SdkHttpClient → List Field → Bool → Option CurrentSdkUser → ℕ → SdkResult Bytes
  unfolding user_fields wire_fields sign_form
  form client fields already_encoded current_user timestamp_ms =
      user_fields fields current_user >>= λ all_fields.
      sign_form percent_decode md5_hex (wire_fields client all_fields already_encoded timestamp_ms)
        client.key
