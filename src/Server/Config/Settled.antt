-- ===== src/Server/Config/Settled.antt =====
-- server/src/config.rs: what holds of the settings of one region that are accepted.
use moenotes_api.Prelude.{
  Bool, Option, String, ap, arith, false, is_none, none, not, refl, some, subst, sym, true, ◌&&◌,
  ◌<◌, ◌||◌, ◌∙◌, ◌≡◌, ◌≤◌,
}
use moenotes_api.Errors.{guard, invalid_config, ok}
use moenotes_api.Errors.Laws.{guard-ok, ok->>=, ok_injective}
use moenotes_api.Client.Config.{SessionConfig, Url, is_jp, validate}
use moenotes_api.Server.Regions.{from_session, region_eq}
use moenotes_api.Server.Accounts.{AccountsConfig, is_round_robin, validate as valid_accounts}
use moenotes_api.Server.Operator.Sources.{LoginConfig, is_some, validate_sources}
use moenotes_api.Server.Paths.{Canonical, absolute, optional_path, parent_or_here}
use moenotes_api.Server.Config.{
  Config, RegionConfig, accounts_folder, is_inconsistent, lacks_sdk, out_of_range, settle_accounts,
  settle_login, validate_and_resolve,
}

-- The numbers that all regions share.
pub record InRange (c : Config) : Type 0 where
  pub cache_bound : c.cache_capacity ≤ 16384
  pub ttl_bound : c.cache_ttl_seconds ≤ 3600
  pub pause_bound : c.minimum_interval_ms ≤ 60000
  pub queue_bound : c.queue_capacity ≤ 4096
  pub timeout_bound : (0 < c.timeout_seconds) × (c.timeout_seconds ≤ 120)

-- The settings of one region.
pub record IsSettled (parse_url : String → Option Url) (metadata_ok : String → Bool)
    (s : RegionConfig) : Type 0 where
  pub session_valid : validate parse_url metadata_ok s.session ≡ ok tt
  pub cooldown_bound : (60 ≤ s.recovery.cooldown_seconds) × (s.recovery.cooldown_seconds ≤ 86400)
  pub interval_bound :
      (30 ≤ s.version_sync.interval_seconds) × (s.version_sync.interval_seconds ≤ 86400)
  pub recovers_by_login : s.recovery.enabled ≡ true → is_some s.login_config ≡ true
  pub one_source : is_some s.login_config ≡ true → s.credentials_file ≡ none
  pub accounts_alone : is_some s.accounts ≡ true → s.credentials_file ≡ none
  pub accounts_have_sdk :
      is_jp s.session ≡ false
      → is_some s.accounts ≡ true
      → (is_some s.login_config ≡ true) × (lacks_sdk s.login_config ≡ false)
  pub jp_without_login :
      is_jp s.session ≡ true → (s.login_config ≡ none) × (s.recovery.enabled ≡ false)

optional_path-none :
    (folder : String) (p : Option String) → is_none (optional_path folder p) ≡ is_none p
optional_path-none folder none = refl
optional_path-none folder (some p) = refl

settle_login-kept :
    (folder : String) (l out : Option LoginConfig)
    → settle_login folder l ≡ ok out
    → (is_none out ≡ is_none l) × (lacks_sdk out ≡ lacks_sdk l)
unfolding settle_login
settle_login-kept folder none out e =
    (ap is_none (sym (ok_injective none out e)), ap lacks_sdk (sym (ok_injective none out e)))
settle_login-kept folder (some l) out e =
    let (u, h, r) = ok->>= (validate_sources l) _ e in
    (
      ap is_none (sym (ok_injective _ out r)),
      ap lacks_sdk (sym (ok_injective _ out r))
          ∙ ap (λ (b : Bool). not (is_some l.sdk_http || not b))
              (optional_path-none folder l.sdk_http_file),
    )

settle_accounts-kept :
    (folder : String) (session : SessionConfig) (a out : Option AccountsConfig)
    → settle_accounts folder session a ≡ ok out
    → is_none out ≡ is_none a
unfolding settle_accounts
settle_accounts-kept folder session none out e = ap is_none (sym (ok_injective none out e))
settle_accounts-kept folder session (some a) out e =
    let (u, h, r) =
      ok->>=
        (guard (not (is_round_robin a.strategy && is_none (from_session session.region)))
          invalid_config)
        _ e in
    let (u1, h1, r1) =
      ok->>= (valid_accounts (record a { directory = accounts_folder (is_jp session) a.directory }))
        _ r in
    ap is_none (sym (ok_injective _ out r1))

none_of : {A : Type 0} (o : Option A) → is_none o ≡ true → o ≡ none
none_of none h = refl
none_of (some a) h = cc

-- The settings, by what decides about them.
IsSettled-resolved :
    (parse_url : String → Option Url) (metadata_ok : String → Bool) (c : Config) (folder : String)
    (l : Option LoginConfig) (a : Option AccountsConfig)
    → out_of_range c ≡ false
    → is_inconsistent c ≡ false
    → validate parse_url metadata_ok c.own.session ≡ ok tt
    → is_none l ≡ is_none c.own.login_config
    → lacks_sdk l ≡ lacks_sdk c.own.login_config
    → is_none a ≡ is_none c.own.accounts
    → IsSettled parse_url metadata_ok (record c.own {
      credentials_file = optional_path folder c.own.credentials_file;
      login_config = l;
      accounts = a;
    })
unfolding out_of_range is_inconsistent
IsSettled-resolved parse_url metadata_ok c folder l a inside together valid kl ks ka = record {
  session_valid = valid;
  cooldown_bound = (ground (arith, inside), ground (arith, inside));
  interval_bound = (ground (arith, inside), ground (arith, inside));
  recovers_by_login = λ h. ground (arith, together);
  one_source = λ h. none_of _ (ground (arith, together));
  accounts_alone = λ h. none_of _ (ground (arith, together));
  accounts_have_sdk = λ j h. (ground (arith, together), ground (arith, together));
  jp_without_login = λ j. (none_of _ (ground (arith, together)), ground (arith, together));
}

neither : (a b : Bool) → not (a || b) ≡ true → (a ≡ false) × (b ≡ false)
neither false false h = (refl, refl)
neither false true h = cc
neither true b h = cc

InRange-resolved :
    (c : Config) (key_file : String) (own : RegionConfig)
    → out_of_range c ≡ false
    → InRange (record c { api_key_file = key_file; own = own })
unfolding out_of_range
InRange-resolved c key_file own inside = record {
  cache_bound = ground (arith, inside);
  ttl_bound = ground (arith, inside);
  pause_bound = ground (arith, inside);
  queue_bound = ground (arith, inside);
  timeout_bound = (ground (arith, inside), ground (arith, inside));
}

module _ (parse_url : String → Option Url) (metadata_ok : String → Bool) (working : Option String)
    (parent_of : String → Option String) (canonicalize : String → Canonical) where
  -- What is read is checked, and the session and the regions are kept.
  pub validate_and_resolve-InRange :
      (path : String) (c out : Config)
      → validate_and_resolve parse_url metadata_ok working parent_of canonicalize path c ≡ ok out
      → InRange out
        × IsSettled parse_url metadata_ok out.own
        × (out.own.session ≡ c.own.session)
        × (out.regions ≡ c.regions)
  unfolding validate_and_resolve
  validate_and_resolve-InRange path c out e =
      let (u, h, r) =
        ok->>= (guard (not (out_of_range c || is_inconsistent c)) invalid_config) _ e in
      let (u1, h1, r1) = ok->>= (validate parse_url metadata_ok c.own.session) _ r in
      let (p, h2, r2) = ok->>= (absolute working path) _ r1 in
      let (l, h3, r3) =
        ok->>= (settle_login (parent_or_here (parent_of p)) c.own.login_config) _ r2 in
      let (a, h4, r4) =
        ok->>= (settle_accounts (parent_or_here (parent_of p)) c.own.session c.own.accounts) _ r3 in
      let sound = guard-ok _ invalid_config u h in
      let (kl, ks) = settle_login-kept (parent_or_here (parent_of p)) c.own.login_config l h3 in
      subst
        (λ (o : Config).
          InRange o
          × IsSettled parse_url metadata_ok o.own
          × (o.own.session ≡ c.own.session)
          × (o.regions ≡ c.regions))
        (ok_injective _ out r4)
        (
          InRange-resolved c _ _ (neither _ _ sound).0,
          IsSettled-resolved parse_url metadata_ok c (parent_or_here (parent_of p)) l a
              (neither _ _ sound).0 (neither _ _ sound).1 h1 kl ks
              (settle_accounts-kept (parent_or_here (parent_of p)) c.own.session c.own.accounts a
                h4),
          refl,
          refl,
        )
