-- ===== src/Client/Auth/Laws.antt =====
-- client/src/auth.rs: what a login sends, and for which session.
use moenotes_api.Prelude.{
  Bool, Option, String, [], ap, arith, false, if◌then◌else◌, is_nil, len, none, not, refl, some,
  str_eq, str_eq_iff, subst, sym, true, ◌++◌, ◌||◌, ◌∙◌, ◌∷◌, ◌≡◌, ◌≤◌,
}
use moenotes_api.Errors.{guard, invalid_config, invalid_request, ok}
use moenotes_api.Errors.Laws.{guard-ok, ok->>=, ok_injective}
use moenotes_api.Client.Config.{Metadata, SessionConfig, Url, metadata, origin as target_of}
use moenotes_api.Client.Config.Laws.{metadata-anonymous}
use moenotes_api.Client.Auth.{
  AndroidLoginContext, LoginMethod, LoginRequest, SdkAuthorization, bad_text, build_request,
  check_binding, is_login_rpc, login, login_metadata, login_request, or_empty, pre_login, without,
}

-- What each method sends of the authorization and of the client's version.
abbrev pub token_of : LoginMethod → Option String → String
token_of pre_login token = ""
token_of login none = ""
token_of login (some t) = t

abbrev pub version_entries : LoginMethod → String → Metadata
version_entries login value = ("x-client-version", value, false) ∷ []
version_entries pre_login value = []

-- A text of a device.
abbrev pub FitsDevice : String → Type 0
FitsDevice v = (is_nil v ≡ false) × (len v ≤ 1024)

-- The request is that of an authorization and a device.
pub record IsLoginRequest (config : SessionConfig) (sdk : SdkAuthorization)
    (context : AndroidLoginContext) (method : LoginMethod) (r : LoginRequest) : Type 0 where
  pub uid_is : r.sdk_uid ≡ sdk.callback.uid
  pub token_is : r.sdk_access_token ≡ sdk.callback.access_token
  pub id_token_is : r.id_token ≡ token_of method sdk.callback.id_token
  pub version_is : r.client_version ≡ config.client_version
  pub device_is :
      (r.device_model ≡ context.device_model)
      × (r.operating_system ≡ context.operating_system)
      × (r.identifier ≡ context.device_identifier)
  pub channel_is :
      (r.global_channel_id ≡ context.global_channel_id)
      × (r.brand_id ≡ context.brand_id)
      × (r.area_id ≡ context.area_id)
  pub constants :
      (r.platform ≡ 0)
      × (r.ad_id ≡ "")
      × (r.client_package ≡ "com.bilibili.sirius")
      × (r.initial_data_group ≡ "")

login_request-IsLoginRequest :
    (config : SessionConfig) (sdk : SdkAuthorization) (context : AndroidLoginContext)
    (method : LoginMethod)
    → IsLoginRequest config sdk context method (login_request config sdk context method)
unfolding login_request
login_request-IsLoginRequest config sdk context method = record {
  uid_is = refl;
  token_is = refl;
  id_token_is = token method sdk.callback.id_token;
  version_is = refl;
  device_is = (refl, refl, refl);
  channel_is = (refl, refl, refl);
  constants = (refl, refl, refl, refl);
}
  where
    token :
        (m : LoginMethod) (t : Option String)
        → (if is_login_rpc m then or_empty t else "") ≡ token_of m t
    token login none = refl
    token login (some t) = refl
    token pre_login t = refl

-- A request that is bound to a session: an authorization of the session's region and origin, in an
-- Android session outside JP. `parse_url` and `metadata_ok` as in Client.Auth.
pub record IsBound (parse_url : String → Option Url) (metadata_ok : String → Bool)
    (config : SessionConfig) (sdk : SdkAuthorization) (context : AndroidLoginContext)
    (method : LoginMethod) (request_id : String) (sent : LoginRequest × Metadata) : Type 0 where
  pub not_jp : str_eq config.region "jp" ≡ false
  pub is_android : config.platform ≡ "android"
  pub same_region : sdk.region ≡ config.region
  pub same_origin : target_of parse_url metadata_ok config.origin ≡ ok sdk.origin
  pub has_device :
      FitsDevice context.device_model
      × FitsDevice context.operating_system
      × FitsDevice context.device_identifier
  pub request_is : IsLoginRequest config sdk context method sent.0
  pub entries_are :
      sent.1
      ≡ ("x-request-id", request_id, false)
          ∷ ("x-platform", "android", false)
          ∷ version_entries method config.client_version
        ++ ("x-player-bid", sdk.callback.uid, true) ∷ []

fits_device : (v : String) → bad_text v ≡ false → FitsDevice v
fits_device v h = (ground (arith, h), ground (arith, h))

three_fit :
    (a b c : String)
    → not (bad_text a || bad_text b || bad_text c) ≡ true
    → FitsDevice a × FitsDevice b × FitsDevice c
three_fit a b c h = (
  fits_device a (ground (arith, h)),
  fits_device b (ground (arith, h)),
  fits_device c (ground (arith, h)),
)

module _ (parse_url : String → Option Url) (metadata_ok : String → Bool) where
  -- The entries of a login, out of those of a call without a player.
  login_entries :
      (config : SessionConfig) (sdk : SdkAuthorization) (request_id : String) (method : LoginMethod)
      (entries out : Metadata)
      → entries
        ≡ ("x-request-id", request_id, false)
          ∷ ("x-platform", config.platform, false)
          ∷ ("x-client-version", config.client_version, false)
          ∷ []
      → without "x-player-bid"
            (if is_login_rpc method then entries else without "x-client-version" entries)
          ++ ("x-player-bid", sdk.callback.uid, true) ∷ []
        ≡ out
      → out
        ≡ ("x-request-id", request_id, false)
            ∷ ("x-platform", config.platform, false)
            ∷ version_entries method config.client_version
          ++ ("x-player-bid", sdk.callback.uid, true) ∷ []
  unfolding without
  login_entries config sdk request_id login entries out a b =
      sym b
      ∙ ap
          (λ (l : Metadata).
            without "x-player-bid" l ++ ("x-player-bid", sdk.callback.uid, true) ∷ [])
          a
  login_entries config sdk request_id pre_login entries out a b =
      sym b
      ∙ ap
          (λ (l : Metadata).
            without "x-player-bid" (without "x-client-version" l)
            ++ ("x-player-bid", sdk.callback.uid, true) ∷ [])
          a

  login_metadata-entries :
      (config : SessionConfig) (sdk : SdkAuthorization) (request_id : String) (method : LoginMethod)
      (out : Metadata)
      → login_metadata parse_url metadata_ok config sdk request_id method ≡ ok out
      → out
        ≡ ("x-request-id", request_id, false)
            ∷ ("x-platform", config.platform, false)
            ∷ version_entries method config.client_version
          ++ ("x-player-bid", sdk.callback.uid, true) ∷ []
  unfolding login_metadata
  login_metadata-entries config sdk request_id method out e =
      let (entries, h, r) =
        ok->>= (metadata parse_url metadata_ok config none request_id true) _ e in
      let (u, g, r1) = ok->>= (guard (metadata_ok sdk.callback.uid) invalid_request) _ r in
      login_entries config sdk request_id method entries out
        (metadata-anonymous parse_url metadata_ok config request_id entries h)
        (ok_injective _ out r1)

  -- A request of a login or a pre-login is built only in an Android session outside JP, with an
  -- authorization of the region and the origin of the session, and with three device texts of 1 to
  -- 1024 bytes. It holds the authorization's uid and token, in a login its id token and in a pre-
  -- login none, the client version, the three device texts, the numbers of the channel and the
  -- constants of the game. Its metadata is the request id, the platform, in a login the client
  -- version, and the uid as the only sensitive entry.
  pub build_request-IsBound :
      (config : SessionConfig) (sdk : SdkAuthorization) (context : AndroidLoginContext)
      (request_id : String) (method : LoginMethod) (sent : LoginRequest × Metadata)
      → build_request parse_url metadata_ok config sdk context request_id method ≡ ok sent
      → IsBound parse_url metadata_ok config sdk context method request_id sent
  unfolding build_request check_binding
  build_request-IsBound config sdk context request_id method sent e =
      let (u, h, r) = ok->>= (check_binding parse_url metadata_ok config sdk) _ e in
      let (u1, h1, r1) =
        ok->>=
          (guard
            (not (
              bad_text context.device_model
              || bad_text context.operating_system
              || bad_text context.device_identifier))
            invalid_request)
          _ r in
      let (entries, h2, r2) =
        ok->>= (login_metadata parse_url metadata_ok config sdk request_id method) _ r1 in
      let (a, b, c) = ok->>= (guard (not (str_eq config.region "jp")) invalid_config) _ h in
      let (a1, b1, c1) = ok->>= (guard (str_eq config.platform "android") invalid_config) _ c in
      let (a2, b2, c2) = ok->>= (guard (str_eq sdk.region config.region) invalid_config) _ c1 in
      let (target, b3, c3) = ok->>= (target_of parse_url metadata_ok config.origin) _ c2 in
      let not_jp = guard-ok (not (str_eq config.region "jp")) invalid_config a b in
      let android =
        (str_eq_iff config.platform "android").0
          (guard-ok (str_eq config.platform "android") invalid_config a1 b1) in
      let fits =
        guard-ok
          (not (
            bad_text context.device_model
            || bad_text context.operating_system
            || bad_text context.device_identifier))
          invalid_request u1 h1 in
      let same =
        (str_eq_iff sdk.origin target).0
          (guard-ok (str_eq sdk.origin target) invalid_config u c3) in
      let is = ok_injective (login_request config sdk context method, entries) sent r2 in
      record {
        not_jp = ground (arith, not_jp);
        is_android = android;
        same_region =
            (str_eq_iff sdk.region config.region).0
              (guard-ok (str_eq sdk.region config.region) invalid_config a2 b2);
        same_origin = b3 ∙ ap (λ (t : String). ok t) (sym same);
        has_device = three_fit _ _ _ fits;
        request_is =
            subst (λ (p : LoginRequest × Metadata). IsLoginRequest config sdk context method p.0) is
              (login_request-IsLoginRequest config sdk context method);
        entries_are =
            sym (ap (λ (p : LoginRequest × Metadata). p.1) is)
            ∙ login_metadata-entries config sdk request_id method entries h2
            ∙ ap
                (λ (t : String).
                  ("x-request-id", request_id, false)
                    ∷ ("x-platform", t, false)
                    ∷ version_entries method config.client_version
                  ++ ("x-player-bid", sdk.callback.uid, true) ∷ [])
                android;
      }
