-- ===== src/Client/Auth/Tests.antt =====
-- client/src/auth.rs: one login.
use moenotes_api.Prelude.{[], false, none, refl, some, true, ◌∷◌, ◌≡◌}
use moenotes_api.Errors.{err, error_of, invalid_config, ok}
use moenotes_api.Client.Config.{Metadata, SessionConfig, entry, metadata, origin, plain_origin}
use moenotes_api.Client.Auth.{
  AndroidLoginContext, LoginRequest, SdkAuthorization, build_request, check_binding, login,
  login_metadata, login_request, without,
}
use moenotes_api.Client.Auth.Laws.{IsBound, build_request-IsBound}
use moenotes_api.Client.Config.Examples.{any_value, plain_url}

abbrev config : SessionConfig
config = record {
  region = "en";
  origin = "https://game";
  allowed_origins = "https://game" ∷ [];
  platform = "android";
  client_version = "1.0.3";
  master_version = none;
  resource_version = none;
}

abbrev sdk : SdkAuthorization
sdk = record {
  region = "en";
  origin = "https://game";
  callback = record { uid = "u1"; access_token = "t"; id_token = some "i" };
}

abbrev phone : AndroidLoginContext
phone = record {
  device_model = "m";
  operating_system = "o";
  device_identifier = "d";
  global_channel_id = 1;
  brand_id = 2;
  area_id = 3;
}

abbrev sent : LoginRequest × Metadata
sent = (
  record {
    sdk_uid = "u1";
    sdk_access_token = "t";
    id_token = "i";
    platform = 0;
    device_model = "m";
    operating_system = "o";
    client_version = "1.0.3";
    ad_id = "";
    identifier = "d";
    client_package = "com.bilibili.sirius";
    initial_data_group = "";
    global_channel_id = 1;
    brand_id = 2;
    area_id = 3;
  },
  ("x-request-id", "r", false)
      ∷ ("x-platform", "android", false)
      ∷ ("x-client-version", "1.0.3", false)
      ∷ ("x-player-bid", "u1", true)
      ∷ [],
)

built : build_request plain_url any_value config sdk phone "r" login ≡ ok sent
unfolding build_request check_binding login_request login_metadata without metadata entry origin
    plain_origin
built = refl

build_request-IsBound_example : IsBound plain_url any_value config sdk phone login "r" sent
build_request-IsBound_example =
    build_request-IsBound plain_url any_value config sdk phone "r" login sent built

other_region :
    build_request plain_url any_value config (record sdk { region = "kr" }) phone "r" login
    ≡ err (error_of invalid_config)
unfolding build_request check_binding origin plain_origin
other_region = refl
