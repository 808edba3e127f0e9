-- ===== src/Server/Config/Laws.antt =====
-- server/src/config.rs: what holds of a configuration that is accepted.
use moenotes_api.Prelude.{All, Bool, List, Option, String, [], ap, refl, subst, ◌++◌, ◌∙◌, ◌∷◌, ◌≡◌}
use moenotes_api.Errors.{ok}
use moenotes_api.Errors.Laws.{ok->>=, ok_injective}
use moenotes_api.Client.Config.{Url}
use moenotes_api.Server.Regions.{Region, region_eq}
use moenotes_api.Server.Paths.{Canonical}
use moenotes_api.Server.Config.{
  Config, RegionConfig, add_regions, claim_state, has_origin, holds_path, origin_of, resolve_all,
  validate_and_resolve,
}
use moenotes_api.Server.Config.Settled.{InRange, IsSettled, validate_and_resolve-InRange}
use moenotes_api.Server.Config.Regional.{
  Apart, IsRegional, add_regions-IsRegional, all_identities, all_origins, claims_first, identities,
  sessions,
}

module _ (parse_url : String → Option Url) (metadata_ok : String → Bool) (working : Option String)
    (parent_of : String → Option String) (canonicalize : String → Canonical) where
  -- What holds of a configuration that was read.
  pub record IsAccepted (c out : Config) : Type 0 where
    pub in_range : InRange out
    pub settled : IsSettled parse_url metadata_ok out.own
    pub same_session : out.own.session ≡ c.own.session
    pub same_sessions : sessions out.regions ≡ sessions c.regions
    pub regional :
        All (IsRegional parse_url metadata_ok working parent_of canonicalize out.own) out.regions
    pub origins_apart : Apart has_origin [] (origin_of out.own ∷ all_origins out.regions)
    pub states_apart : Apart holds_path [] (
        identities parse_url metadata_ok working parent_of canonicalize out.own.login_config
        ++ all_identities parse_url metadata_ok working parent_of canonicalize out.regions)

  InRange-regions :
      (c : Config) (l : List (Region × RegionConfig))
      → InRange c
      → InRange (record c { regions = l })
  InRange-regions c l w = record {
    cache_bound = w.cache_bound;
    ttl_bound = w.ttl_bound;
    pause_bound = w.pause_bound;
    queue_bound = w.queue_bound;
    timeout_bound = w.timeout_bound;
  }

  -- A configuration that is accepted has its numbers within their bounds and keeps the sessions
  -- and the regions that were written, in their order. No two of its regions, the main one
  -- included, have the same origin (without slashes at the end) or the same state directory. Each
  -- further region is not the main session's and has a session of its own region; in every region
  -- the session is valid, the pauses are within their bounds, a recovery has a login, credentials
  -- from a file are the only source, accounts outside JP have a login with the SDK, and JP has
  -- neither a login nor a recovery.
  pub resolve_all-IsAccepted :
      (path : String) (c out : Config)
      → resolve_all parse_url metadata_ok working parent_of canonicalize path c ≡ ok out
      → IsAccepted c out
  unfolding resolve_all
  resolve_all-IsAccepted path c out e =
      let (main, h, r) =
        ok->>= (validate_and_resolve parse_url metadata_ok working parent_of canonicalize path c) _
          e in
      let (dirs, h1, r1) =
        ok->>=
          (claim_state parse_url metadata_ok working parent_of canonicalize main.own.login_config
            [])
          _ r in
      let (l, h2, r2) =
        ok->>=
          (add_regions parse_url metadata_ok working parent_of canonicalize path main
            (origin_of main.own ∷ []) dirs main.regions)
          _ r1 in
      let (inside, settled, keeps, same) =
        validate_and_resolve-InRange parse_url metadata_ok working parent_of canonicalize path c
          main h in
      let added =
        add_regions-IsRegional parse_url metadata_ok working parent_of canonicalize path main
          (origin_of main.own ∷ []) dirs main.regions l h2 in
      subst (IsAccepted c) (ok_injective (record main { regions = l }) out r2) (record {
        in_range = InRange-regions main l inside;
        settled = settled;
        same_session = keeps;
        same_sessions = added.same_sessions ∙ ap sessions same;
        regional = added.regional;
        origins_apart = (refl, added.origins_apart);
        states_apart =
            claims_first parse_url metadata_ok working parent_of canonicalize main.own.login_config
              [] dirs (all_identities parse_url metadata_ok working parent_of canonicalize l) h1
              added.states_apart;
      })
