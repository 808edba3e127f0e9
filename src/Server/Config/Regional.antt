-- ===== src/Server/Config/Regional.antt =====
-- server/src/config.rs: what holds of the regions of a configuration that are accepted.
use moenotes_api.Prelude.{
  All, Bool, List, Option, String, [], ap, arith, false, inl, inr, none, not, refl, some, subst,
  sym, true, ◌++◌, ◌∙◌, ◌∷◌, ◌≡◌, ◌⊎◌,
}
use moenotes_api.Errors.{Result, err, guard, invalid_config, ok}
use moenotes_api.Errors.Laws.{guard-ok, ok->>=, ok_injective}
use moenotes_api.Client.Config.{SessionConfig, Url}
use moenotes_api.Client.Sdk.Base.{Bytes}
use moenotes_api.Server.Regions.{Region, from_session, region_beq_iff, region_eq}
use moenotes_api.Server.Operator.Sources.{LoginConfig}
use moenotes_api.Server.Paths.{Canonical, state_identity}
use moenotes_api.Server.Config.{
  Config, RegionConfig, add_regions, claim_state, for_region, has_origin, holds_path, is_region,
  origin_of, region_fits, validate_and_resolve,
}
use moenotes_api.Server.Config.Settled.{IsSettled, validate_and_resolve-InRange}

-- No element stands among `seen` or twice in the list.
abbrev pub Apart : {A : Type 0} → (List A → A → Bool) → List A → List A → Type 0
Apart holds seen [] = Unit
Apart holds seen (x ∷ xs) = (holds seen x ≡ false) × Apart holds (seen ++ x ∷ []) xs

pub not-true : (b : Bool) → not b ≡ true → b ≡ false
not-true true h = cc
not-true false h = refl

abbrev pub just_one : {A : Type 0} → Result A → List A
just_one (ok a) = a ∷ []
just_one (err e) = []

-- The regions with their sessions, and the origins.
abbrev pub sessions : List (Region × RegionConfig) → List (Region × SessionConfig)
sessions [] = []
sessions ((r, s) ∷ l) = (r, s.session) ∷ sessions l

abbrev pub all_origins : List (Region × RegionConfig) → List Bytes
all_origins [] = []
all_origins ((r, s) ∷ l) = origin_of s ∷ all_origins l

module _ (parse_url : String → Option Url) (metadata_ok : String → Bool) (working : Option String)
    (parent_of : String → Option String) (canonicalize : String → Canonical) where
  -- The identity of a state directory, if there is one.
  abbrev pub identities : Option LoginConfig → List (List Bytes)
  unfolding state_identity
  identities none = []
  identities (some l) = just_one (state_identity working canonicalize l.state_dir)

  claim_state-Apart :
      (l : Option LoginConfig) (dirs out : List (List Bytes))
      → claim_state parse_url metadata_ok working parent_of canonicalize l dirs ≡ ok out
      → ((identities l ≡ []) × (l ≡ none) × (out ≡ dirs))
        ⊎ ((p : List Bytes) × (identities l ≡ p ∷ [])
            × (holds_path dirs p ≡ false)
            × (out ≡ dirs ++ p ∷ []))
  unfolding claim_state
  claim_state-Apart none dirs out e = inl (refl, refl, sym (ok_injective dirs out e))
  claim_state-Apart (some l) dirs out e =
      let (p, h, r) = ok->>= (state_identity working canonicalize l.state_dir) _ e in
      let (u, g, r1) = ok->>= (guard (not (holds_path dirs p)) invalid_config) _ r in
      let free = guard-ok _ invalid_config u g in
      inr (p, ap just_one h, ground (arith, free), sym (ok_injective _ out r1))

  -- A region's settings: they are of the region, which is not that of the configuration.
  pub record IsRegional (main : RegionConfig) (entry : Region × RegionConfig) : Type 0 where
    pub another : is_region entry.0 (from_session main.session.region) ≡ false
    pub its_own : from_session entry.1.session.region ≡ some entry.0
    pub settled : IsSettled parse_url metadata_ok entry.1

  abbrev pub all_identities : List (Region × RegionConfig) → List (List Bytes)
  all_identities [] = []
  all_identities ((r, s) ∷ l) = identities s.login_config ++ all_identities l

  -- One more state directory, in front of others.
  pub claims_first :
      (l : Option LoginConfig) (dirs claimed others : List (List Bytes))
      → claim_state parse_url metadata_ok working parent_of canonicalize l dirs ≡ ok claimed
      → Apart holds_path claimed others
      → Apart holds_path dirs (identities l ++ others)
  claims_first l dirs claimed others e apart = elim (claim_state-Apart l dirs claimed e) [
    | inl (a, b, c) ↦
        subst (λ (i : List (List Bytes)). Apart holds_path dirs (i ++ others)) (sym a)
          (subst (λ (d : List (List Bytes)). Apart holds_path d others) c apart)
    | inr (p, a, b, c) ↦
        subst (λ (i : List (List Bytes)). Apart holds_path dirs (i ++ others)) (sym a)
          (b, subst (λ (d : List (List Bytes)). Apart holds_path d others) c apart)
  ]

  is_region-some : (r : Region) (o : Option Region) → is_region r o ≡ true → o ≡ some r
  is_region-some r none h = cc
  is_region-some r (some q) h = ap some ((region_beq_iff q r).0 h)

  -- What the loop over the regions gives.
  pub record IsAdded (c : Config) (origins : List Bytes) (dirs : List (List Bytes))
      (l out : List (Region × RegionConfig)) : Type 0 where
    pub same_sessions : sessions out ≡ sessions l
    pub regional : All (IsRegional c.own) out
    pub origins_apart : Apart has_origin origins (all_origins out)
    pub states_apart : Apart holds_path dirs (all_identities out)

  region_fits-IsRegional :
      (c : Config) (region : Region) (settings : RegionConfig) (own : RegionConfig)
      → region_fits c region settings ≡ true
      → own.session ≡ settings.session
      → IsSettled parse_url metadata_ok own
      → IsRegional c.own (region, own)
  unfolding region_fits
  region_fits-IsRegional c region settings own fits keeps settled = record {
    another = ground (arith, fits);
    its_own =
        ap (λ (s : SessionConfig). from_session s.region) keeps
        ∙ is_region-some region (from_session settings.session.region) (ground (arith, fits));
    settled = settled;
  }

  pub add_regions-IsRegional :
      (path : String) (c : Config) (origins : List Bytes) (dirs : List (List Bytes))
      (l out : List (Region × RegionConfig))
      → add_regions parse_url metadata_ok working parent_of canonicalize path c origins dirs l
        ≡ ok out
      → IsAdded c origins dirs l out
  unfolding add_regions for_region
  add_regions-IsRegional path c origins dirs [] out e =
      subst (IsAdded c origins dirs []) (ok_injective [] out e)
        (record { same_sessions = refl; regional = tt; origins_apart = tt; states_apart = tt })
  add_regions-IsRegional path c origins dirs ((region, settings) ∷ rest) out e =
      let (u, h, r) = ok->>= (guard (region_fits c region settings) invalid_config) _ e in
      let (regional, h1, r1) =
        ok->>=
          (validate_and_resolve parse_url metadata_ok working parent_of canonicalize path
            (for_region c settings))
          _ r in
      let (u1, h2, r2) =
        ok->>= (guard (not (has_origin origins (origin_of regional.own))) invalid_config) _ r1 in
      let (claimed, h3, r3) =
        ok->>=
          (claim_state parse_url metadata_ok working parent_of canonicalize
            regional.own.login_config dirs)
          _ r2 in
      let (others, h4, r4) =
        ok->>=
          (add_regions parse_url metadata_ok working parent_of canonicalize path c
            (origins ++ origin_of regional.own ∷ []) claimed rest)
          _ r3 in
      let (_, settled, keeps, _) =
        validate_and_resolve-InRange parse_url metadata_ok working parent_of canonicalize path
          (for_region c settings) regional h1 in
      let added =
        add_regions-IsRegional path c (origins ++ origin_of regional.own ∷ []) claimed rest others
          h4 in
      subst (IsAdded c origins dirs ((region, settings) ∷ rest))
        (ok_injective ((region, regional.own) ∷ others) out r4)
        (record {
          same_sessions =
              ap (λ (s : SessionConfig). (region, s) ∷ sessions others) keeps
              ∙ ap (λ (l : List (Region × SessionConfig)). (region, settings.session) ∷ l)
                  added.same_sessions;
          regional = (
            region_fits-IsRegional c region settings regional.own
                (guard-ok (region_fits c region settings) invalid_config u h) keeps settled,
            added.regional,
          );
          origins_apart = (
            not-true _
                (guard-ok (not (has_origin origins (origin_of regional.own))) invalid_config u1 h2),
            added.origins_apart,
          );
          states_apart =
              claims_first regional.own.login_config dirs claimed (all_identities others) h3
                added.states_apart;
        })
