-- ===== src/Client/Auth.antt =====
-- client/src/auth.rs: the login to the game with an authorization of the SDK. `serde_json`, `prost`
-- and `tonic` are outside: `read_callback` and `read_stored` are what is read out of a text,
-- `metadata_ok` says whether a text is a metadata value, and answers come decoded.
pub mod Laws
mod Tests
use moenotes_api.Prelude.{
  Bool, Option, String, [], false, if◌then◌else◌, is_nil, leb, len, length, ltb, none, not, some,
  str_eq, true, ℕ, ◌&&◌, ◌*◌, ◌++◌, ◌==◌, ◌||◌, ◌∷◌,
}
use moenotes_api.Errors.{
  Result, cancelled, err, error_of, guard, invalid_config, invalid_request, ok, protocol, require,
  session_changed, ◌>>=◌, ◌>>◌,
}
use moenotes_api.Client.Config.{
  Credentials, Metadata, SessionConfig, Url, metadata, origin as target_of, validate,
}
use moenotes_api.Client.Session.{Session, State, install, new_session}
use moenotes_api.Client.Session.Operation.{Response}
use moenotes_api.Client.Sdk.Base.{Bytes}

pub record Callback : Type 0 where
  pub uid : String
  pub access_token : String
  pub id_token : Option String

pub record SdkAuthorization : Type 0 where
  pub region : String
  pub origin : String
  pub callback : Callback

pub record AndroidLoginContext : Type 0 where
  pub device_model : String
  pub operating_system : String
  pub device_identifier : String
  pub global_channel_id : ℕ
  pub brand_id : ℕ
  pub area_id : ℕ

abbrev pub longer : ℕ → Option String → Bool
longer max none = false
longer max (some v) = ltb max (len v)

unfoldable pub callback_fits : Callback → Bool
callback_fits c = not (
    is_nil c.uid
    || ltb 256 (len c.uid)
    || is_nil c.access_token
    || ltb (16 * 1024) (len c.access_token)
    || longer (16 * 1024) c.id_token)

-- The two methods.
pub data LoginMethod : Type 0 where
  login pre_login : LoginMethod

abbrev pub is_login_rpc : LoginMethod → Bool
is_login_rpc login = true
is_login_rpc pre_login = false

-- `PlayerLoginRequest`; the fields of its `uuid` are `ad_id` and `identifier`.
pub record LoginRequest : Type 0 where
  pub sdk_uid : String
  pub sdk_access_token : String
  pub id_token : String
  pub platform : ℕ
  pub device_model : String
  pub operating_system : String
  pub client_version : String
  pub ad_id : String
  pub identifier : String
  pub client_package : String
  pub initial_data_group : String
  pub global_channel_id : ℕ
  pub brand_id : ℕ
  pub area_id : ℕ

abbrev pub bad_text : String → Bool
bad_text v = is_nil v || ltb 1024 (len v)

abbrev pub or_empty : Option String → String
or_empty none = ""
or_empty (some v) = v

-- `MetadataMap::remove`
unfoldable pub without : String → Metadata → Metadata
without key [] = []
without key ((k, v, secret) ∷ entries) =
    let rest = without key entries in if str_eq k key then rest else (k, v, secret) ∷ rest

unfoldable pub login_request :
    SessionConfig → SdkAuthorization → AndroidLoginContext → LoginMethod → LoginRequest
login_request config sdk context method = record {
  sdk_uid = sdk.callback.uid;
  sdk_access_token = sdk.callback.access_token;
  id_token = if is_login_rpc method then or_empty sdk.callback.id_token else "";
  platform = 0;
  device_model = context.device_model;
  operating_system = context.operating_system;
  client_version = config.client_version;
  ad_id = "";
  identifier = context.device_identifier;
  client_package = "com.bilibili.sirius";
  initial_data_group = "";
  global_channel_id = context.global_channel_id;
  brand_id = context.brand_id;
  area_id = context.area_id;
}

-- The answer of a login: the player's credential, if there is one, and `is_new_user`.
pub record LoginAnswer : Type 0 where
  pub credential : Option (String × String)
  pub is_new_user : ℕ

pub record LoginReceipt : Type 0 where
  pub generation : ℕ
  pub is_new_user : ℕ

abbrev pub new_credentials : String × String → String → Credentials
new_credentials (id, credential) uid = record {
  player_id = id;
  credential = credential;
  device_id = none;
  bid = some uid;
}

-- `map_err(|_| protocol())`
abbrev pub as_protocol : {A : Type 0} → Result A → Result A
as_protocol (ok a) = ok a
as_protocol (err e) = err (error_of protocol)

module _ (parse_url : String → Option Url) (metadata_ok : String → Bool) where
  unfoldable pub check_binding : SessionConfig → SdkAuthorization → Result (Unit {0})
  check_binding config sdk = do
    guard (not (str_eq config.region "jp")) invalid_config
    guard (str_eq config.platform "android") invalid_config
    guard (str_eq sdk.region config.region) invalid_config
    target ← target_of parse_url metadata_ok config.origin
    guard (str_eq sdk.origin target) invalid_config

  unfoldable pub from_callback_json :
      (Bytes → Option Callback) → SessionConfig → Bytes → Result SdkAuthorization
  unfolding callback_fits
  from_callback_json read_callback config json = do
    validate parse_url metadata_ok config
    guard (str_eq config.platform "android" && leb (length json) (64 * 1024)) invalid_request
    callback ← require (read_callback json) invalid_request
    guard (callback_fits callback) invalid_request
    guard (metadata_ok callback.uid) invalid_request
    target ← target_of parse_url metadata_ok config.origin
    ok (record { region = config.region; origin = target; callback = callback })

  -- `from_file`, of a text that was read; `print_callback` is `callback_bytes`.
  unfoldable pub from_stored :
      (Bytes → Option Callback)
      → (Callback → Bytes)
      → (Bytes → Option SdkAuthorization)
      → SessionConfig
      → Bytes
      → Result SdkAuthorization
  unfolding check_binding from_callback_json
  from_stored read_callback print_callback read_stored config content = do
    stored ← require (read_stored content) invalid_request
    target ← target_of parse_url metadata_ok stored.origin
    check_binding config (record stored { origin = target })
    from_callback_json read_callback config (print_callback stored.callback)

  unfoldable pub login_metadata :
      SessionConfig → SdkAuthorization → String → LoginMethod → Result Metadata
  unfolding without
  login_metadata config sdk request_id method = do
    entries ← metadata parse_url metadata_ok config none request_id true
    guard (metadata_ok sdk.callback.uid) invalid_request
    ok (
        without "x-player-bid"
          (if is_login_rpc method then entries else without "x-client-version" entries)
        ++ ("x-player-bid", sdk.callback.uid, true) ∷ [])

  unfoldable pub build_request :
      SessionConfig
      → SdkAuthorization
      → AndroidLoginContext
      → String
      → LoginMethod
      → Result (LoginRequest × Metadata)
  unfolding check_binding login_request login_metadata
  build_request config sdk context request_id method = do
    check_binding config sdk
    guard
        (not (
          bad_text context.device_model
          || bad_text context.operating_system
          || bad_text context.device_identifier))
        invalid_request
    entries ← login_metadata config sdk request_id method
    ok (login_request config sdk context method, entries)

  -- What is installed, where the answer holds and the session is still the current one.
  unfoldable pub accept_login :
      ℕ → SessionConfig → String → Bool → Option LoginAnswer → State → Result (Session × ℕ)
  accept_login g config uid stop answer y = do
    response ← require answer protocol
    pair ← require response.credential protocol
    _ ←
        as_protocol (
          metadata parse_url metadata_ok config (some (new_credentials pair uid)) "validation"
            false)
    guard (y.current == g) session_changed
    guard (not stop) cancelled
    ok (new_session config (some (new_credentials pair uid)), response.is_new_user)

  abbrev pub logged_in : Result (Session × ℕ) → State → Result LoginReceipt × State
  logged_in (err e) y = (err e, y)
  logged_in (ok (s, is_new_user)) y =
      (ok (record { generation = length y.sessions; is_new_user = is_new_user }), install s y)

  -- The finish of a login.
  unfoldable pub finish_login :
      {M : Type 0}
      → (M → Option LoginAnswer)
      → ℕ
      → SessionConfig
      → String
      → Bool
      → Response M
      → State
      → Result LoginReceipt × State
  unfolding accept_login install
  finish_login decode_login g config uid stop response y =
      logged_in (accept_login g config uid stop (decode_login response.message) y) y

-- The finish of a pre-login: whether the account was created.
unfoldable pub finish_pre_login :
    {M : Type 0} → (M → Option Bool) → Response M → State → Result Bool × State
finish_pre_login decode_answer response y = (require (decode_answer response.message) protocol, y)
