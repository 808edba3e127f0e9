-- ===== src/Client/Session/Versions.antt =====
-- client/src/versions.rs: discovering versions. `fresh` is the answer of the Version call, as the
-- generated code decodes it, `none` where that fails.
use moenotes_api.Prelude.{
  Bool, Option, String, false, if◌then◌else◌, is_none, none, not, some, str_eq, true, ℕ, ◌&&◌, ◌||◌,
}
use moenotes_api.Errors.{
  ErrorKind, Result, cancelled, err, guard, invalid_request, is_version, ok, protocol, require,
  ◌>>=◌, ◌>>◌,
}
use moenotes_api.Client.Patch.{patch_version, valid}
use moenotes_api.Client.Jp.{Payload, asset_version, valid_master}
use moenotes_api.Client.Config.{SessionConfig}
use moenotes_api.Client.Session.{Session, State, install, option_str_eq, session_for}

pub record VersionResponse : Type 0 where
  pub version : String
  pub resource_version : String

abbrev pub resource_of :
    (String → Option Payload) → SessionConfig → Option String → VersionResponse → Option String
resource_of parse_payload presented header r =
    if str_eq presented.region "jp"
    then asset_version parse_payload header presented.client_version
    else some r.resource_version

abbrev pub versions_ok : SessionConfig → VersionResponse → Bool
versions_ok presented r =
    if str_eq presented.region "jp"
    then valid_master r.version
    else valid r.version && valid r.resource_version

abbrev pub unchanged : SessionConfig → SessionConfig → VersionResponse → Option String → Bool
unchanged c presented r resource =
    option_str_eq c.master_version (some r.version)
    && (option_str_eq c.resource_version resource
        && str_eq c.client_version presented.client_version)

abbrev pub is_version_block : Option ErrorKind → Bool
is_version_block (some k) = is_version k
is_version_block none = false

-- The session that is installed in place of `s`.
unfoldable pub refreshed : Session → SessionConfig → VersionResponse → Option String → Session
refreshed s presented r resource = record {
  config = record s.config {
    master_version = some r.version;
    resource_version = resource;
    client_version = presented.client_version;
  };
  credentials = s.credentials;
  stopped = false;
  blocked =
      if is_version_block s.blocked
        && (not (str_eq s.config.client_version presented.client_version) || s.master_mismatch)
      then none
      else s.blocked;
  master_mismatch = false;
  jp_override_pending = s.jp_override_pending;
}

-- The tests of the closure that `discover_versions` runs behind the call's tests; `stop` is the
-- call's token, read under the lock.
unfoldable pub accept_versions :
    ℕ → SessionConfig → Bool → Option VersionResponse → State → Result (VersionResponse × Session)
accept_versions g presented stop fresh y = do
  r ← require fresh protocol
  guard (versions_ok presented r) protocol
  s ← session_for g y
  guard (not stop) cancelled
  ok (r, s)

-- The closure itself.
unfoldable pub adopt_versions :
    (String → Option Payload)
    → ℕ
    → SessionConfig
    → Bool
    → Option String
    → Option VersionResponse
    → State
    → Result Bool × State
unfolding refreshed accept_versions
adopt_versions parse_payload g presented stop header fresh y =
    elim (accept_versions g presented stop fresh y) [
      | err e ↦ (err e, y)
      | ok (r, s) ↦
          let resource = resource_of parse_payload presented header r in
          if unchanged s.config presented r resource
          then (ok false, y)
          else (ok true, install (refreshed s presented r resource) y)
    ]

abbrev pub present_as : Option String → SessionConfig → SessionConfig
present_as none c = c
present_as (some v) c = record c { client_version = v }

-- `discover_versions` up to its call: the configuration that it presents.
unfoldable pub begin_discovery : ℕ → Option String → State → Result SessionConfig
begin_discovery g candidate y = do s ← session_for g y; ok (present_as candidate s.config)

-- `adopt_client_version` refuses a candidate that is no `MAJOR.MINOR.PATCH`.
unfoldable pub begin_adoption : ℕ → String → State → Result SessionConfig
unfolding begin_discovery
begin_adoption g candidate y =
    guard (not (is_none (patch_version candidate))) invalid_request
    >> begin_discovery g (some candidate) y
