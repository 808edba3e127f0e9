-- ===== src/Client/Config.antt =====
-- client/src/session.rs: a session's configuration and credentials, and the metadata of a call.
-- `url` and `tonic` are outside: `parse_url` is `Url::parse`, `metadata_ok` says whether
-- `MetadataValue::try_from` takes a text.
pub mod Examples
pub mod Laws
use moenotes_api.Prelude.{
  Bool, List, Option, String, [], any, false, if◌then◌else◌, is_nil, is_none, none, not, some,
  str_eq, true, ◌&&◌, ◌||◌, ◌∷◌,
}
use moenotes_api.Errors.{Result, err, error_of, guard, invalid_config, ok, ◌>>=◌, ◌>>◌}
use moenotes_api.Client.Jp.{valid_master}

pub record Credentials : Type 0 where
  pub player_id : String
  pub credential : String
  pub device_id : Option String
  pub bid : Option String

pub record SessionConfig : Type 0 where
  pub region : String
  pub origin : String
  pub allowed_origins : List String
  pub platform : String
  pub client_version : String
  pub master_version : Option String
  pub resource_version : Option String

-- What `Url` answers about a parsed address.
pub record Url : Type 0 where
  pub scheme : String
  pub has_host : Bool
  pub username : String
  pub has_password : Bool
  pub has_query : Bool
  pub has_fragment : Bool
  pub path : String
  pub serialized : String

-- A metadata entry: its key, its value and whether it is sensitive.
abbrev pub Metadata : Type 0
Metadata = List (String × String × Bool)

abbrev pub is_jp : SessionConfig → Bool
is_jp c = str_eq c.region "jp"

abbrev pub is_present {ℓ} : {A : Type ℓ} → Option A → Bool
is_present o = not (is_none o)

abbrev pub bool_eq : Bool → Bool → Bool
bool_eq true b = b
bool_eq false b = not b

abbrev pub master_ok : Option String → Bool
master_ok none = true
master_ok (some v) = valid_master v

unfoldable pub plain_origin : Option Url → Result String
plain_origin none = err (error_of invalid_config)
plain_origin (some u) =
    if not (str_eq u.scheme "https")
      || (not u.has_host
          || (not (is_nil u.username)
              || (u.has_password || (u.has_query || (u.has_fragment || not (str_eq u.path "/"))))))
    then err (error_of invalid_config)
    else ok u.serialized

abbrev pub same_origin : Result String → String → Bool
same_origin (ok s) t = str_eq s t
same_origin (err e) t = false

module _ (parse_url : String → Option Url) (metadata_ok : String → Bool) where
  unfoldable pub origin : String → Result String
  unfolding plain_origin
  origin value = plain_origin (parse_url value)

  -- `insert`, in front of the entries that follow it.
  unfoldable pub entry : String → String → Bool → Result Metadata → Result Metadata
  entry key value secret rest =
      if metadata_ok value
      then (rest >>= λ l. ok ((key, value, secret) ∷ l))
      else err (error_of invalid_config)

  pub optional : String → Option String → Bool → Result Metadata → Result Metadata
  optional key none secret rest = rest
  optional key (some value) secret rest = entry key value secret rest

  -- The part of `metadata` that is attached to calls of a player.
  pub player_metadata : SessionConfig → Credentials → Result Metadata
  player_metadata c auth =
      if is_nil auth.player_id || is_nil auth.credential
      then err (error_of invalid_config)
      else if is_jp c && is_present auth.bid
      then err (error_of invalid_config)
      else entry "x-player-id" auth.player_id true (
          entry "x-player-credential" auth.credential true (
            optional "x-device-id" auth.device_id true (
              optional "x-player-bid" (if is_jp c then none else auth.bid) true (
                optional "x-master-version" c.master_version false (
                  optional "x-resource-version" (if is_jp c then none else c.resource_version) false
                    (ok []))))))

  unfoldable pub metadata : SessionConfig → Option Credentials → String → Bool → Result Metadata
  metadata c credentials request_id anonymous = entry "x-request-id" request_id false (
      entry "x-platform" c.platform false (
        entry "x-client-version" c.client_version false (elim credentials [
          | none ↦ ok []
          | some auth ↦ if anonymous then ok [] else player_metadata c auth
        ])))

  -- The conditions of `validate` behind the origin.
  unfoldable pub is_consistent : SessionConfig → String → Bool
  unfolding origin
  is_consistent c target =
      not (is_nil c.region)
      && (not (is_nil c.platform)
          && (not (is_nil c.client_version)
              && (any (λ v. same_origin (origin v) target) c.allowed_origins
                  && (if is_jp c
                      then str_eq c.platform "android"
                        && (not (is_present c.resource_version && is_none c.master_version)
                            && master_ok c.master_version)
                      else bool_eq (is_present c.master_version) (is_present c.resource_version)))))

  unfoldable pub validate : SessionConfig → Result (Unit {0})
  unfolding is_consistent metadata
  validate c = do
    target ← origin c.origin
    guard (is_consistent c target) invalid_config
    _ ← metadata c none "validation" false
    ok tt
