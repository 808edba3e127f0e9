-- ===== src/Server/Config/Reading/Secrets.antt =====
-- server/src/config.rs: secrets in the text of a configuration.
use moenotes_api.Prelude.{
  Bool, Bool-cases, Option, String, arith, false, if◌then◌else◌, inl, inr, not, refl, some, str_eq,
  subst, true, ◌||◌, ◌≡◌,
}
use moenotes_api.Errors.{guard, invalid_config, ok, require}
use moenotes_api.Errors.Laws.{guard-ok, ok->>=, require-ok}
use moenotes_api.Client.Config.{Url}
use moenotes_api.Server.Regions.{region_eq}
use moenotes_api.Server.Paths.{Canonical}
use moenotes_api.Server.Config.{Config}
use moenotes_api.Server.Config.Laws.{IsAccepted, resolve_all-IsAccepted}
use moenotes_api.Server.Config.Reading.{
  Keys, Toml, array, check_each, check_inline, check_regions, check_table, from_text, get, get_key,
  get_within, has_inline, have_both, integer, is_given, key, login_conflicts, no_keys, other, table,
  table_given, text,
}
use moenotes_api.Server.Config.Regional.{not-true}

-- A text that is given directly: a key, a part of the device, or a parameter of the SDK; of the main
-- settings or of a region's, at whatever depth.
pub data Secret : Toml → Type 0 where
  of_api_key : {v : Toml} → is_given (get "api_key" v) ≡ true → Secret v
  of_device : {v : Toml} → table_given (get_within "context" (get "login" v)) ≡ true → Secret v
  of_app_key :
      {v : Toml}
      → is_given (get_within "app_key" (get_within "sdk_http" (get "login" v))) ≡ true
      → Secret v
  of_common :
      {v : Toml}
      → table_given (get_within "common" (get_within "sdk_http" (get "login" v))) ≡ true
      → Secret v
  of_region :
      {v w : Toml} (name : String) (regions : Keys)
      → get "regions" v ≡ some (table regions)
      → get_key name regions ≡ some w
      → Secret w
      → Secret v

taken : {A : Type 0} (b : Bool) (x y z : A) → b ≡ true → (if b then x else y) ≡ z → x ≡ z
taken true x y z h e = e
taken false x y z h e = cc

passed : {A : Type 0} (b : Bool) (x y z : A) → b ≡ false → (if b then x else y) ≡ z → y ≡ z
passed true x y z h e = cc
passed false x y z h e = e

some_injective : {A : Type 0} (a b : A) → some a ≡ some b → a ≡ b
some_injective a b e = cc

-- What is checked of a value, of one of the regions.
check_each-get :
    (is_private : Bool) (name : String) (keys : Keys) (w : Toml)
    → check_each is_private keys ≡ ok tt
    → get_key name keys ≡ some w
    → check_inline is_private w ≡ ok tt
unfolding check_each
check_each-get is_private name no_keys w e g = cc
check_each-get is_private name (key n value keys) w e g =
    let (u, h, r) = ok->>= (check_inline is_private value) _ e in
    let (u1, h1, r1) = ok->>= (guard (not (login_conflicts value)) invalid_config) _ r in
    elim (Bool-cases (str_eq n name)) [
      | inl z ↦
          subst (λ (v : Toml). check_inline is_private v ≡ ok tt)
            (some_injective value w
              (taken (str_eq n name) (some value) (get_key name keys) (some w) z g))
            h
      | inr z ↦
          check_each-get is_private name keys w r1
            (passed (str_eq n name) (some value) (get_key name keys) (some w) z g)
    ]

check_regions-get :
    (is_private : Bool) (keys : Keys) (v : Toml)
    → check_regions is_private keys ≡ ok tt
    → get_key "regions" keys ≡ some v
    → check_table is_private v ≡ ok tt
unfolding check_regions
check_regions-get is_private no_keys v e g = cc
check_regions-get is_private (key n value keys) v e g = elim (Bool-cases (str_eq n "regions")) [
  | inl z ↦
      subst (λ (w : Toml). check_table is_private w ≡ ok tt)
        (some_injective value v
          (taken (str_eq n "regions") (some value) (get_key "regions" keys) (some v) z g))
        (taken (str_eq n "regions") (check_table is_private value) (check_regions is_private keys)
          (ok tt) z e)
  | inr z ↦
      check_regions-get is_private keys v
        (passed (str_eq n "regions") (check_table is_private value) (check_regions is_private keys)
          (ok tt) z e)
        (passed (str_eq n "regions") (some value) (get_key "regions" keys) (some v) z g)
]

only_private : (h p : Bool) → (not h || p) ≡ true → h ≡ true → p ≡ true
only_private true true e h = refl
only_private true false e h = cc
only_private false p e h = cc

region_checked :
    (is_private : Bool) (v w : Toml) (name : String) (regions : Keys)
    → check_inline is_private v ≡ ok tt
    → get "regions" v ≡ some (table regions)
    → get_key name regions ≡ some w
    → check_inline is_private w ≡ ok tt
unfolding check_inline
region_checked is_private (text s) w name regions e g h = cc
region_checked is_private (array items) w name regions e g h = cc
region_checked is_private (integer n) w name regions e g h = cc
region_checked is_private other w name regions e g h = cc
region_checked is_private (table keys) w name regions e g h =
    let (u, c, r) = ok->>= (check_regions is_private keys) _ e in
    check_each-get is_private name regions w (check_regions-get is_private keys (table regions) c g)
      h

-- A value with an inline secret of its own was checked in a private file.
own_secret :
    (is_private : Bool) (v : Toml)
    → check_inline is_private v ≡ ok tt
    → has_inline v ≡ true
    → is_private ≡ true
unfolding check_inline has_inline
own_secret is_private (text s) e h = cc
own_secret is_private (array items) e h = cc
own_secret is_private (integer n) e h = cc
own_secret is_private other e h = cc
own_secret is_private (table keys) e h =
    let (u, h1, r) = ok->>= (check_regions is_private keys) _ e in
    let fine = guard-ok (not (has_inline (table keys)) || is_private) invalid_config _ r in
    only_private (has_inline (table keys)) is_private fine h

pub check_inline-Secret :
    (is_private : Bool) {v : Toml}
    → check_inline is_private v ≡ ok tt
    → Secret v
    → is_private ≡ true
unfolding check_inline has_inline
check_inline-Secret is_private {v} e (of_api_key h) = own_secret is_private v e (ground (arith, h))
check_inline-Secret is_private {v} e (of_device h) = own_secret is_private v e (ground (arith, h))
check_inline-Secret is_private {v} e (of_app_key h) = own_secret is_private v e (ground (arith, h))
check_inline-Secret is_private {v} e (of_common h) = own_secret is_private v e (ground (arith, h))
check_inline-Secret is_private {v} e (of_region name regions g h s) =
    check_inline-Secret is_private (region_checked is_private v _ name regions e g h) s

module _ (parse_url : String → Option Url) (metadata_ok : String → Bool) (working : Option String)
    (parent_of : String → Option String) (canonicalize : String → Canonical)
    (read_config : String → Option Config) (read_value : String → Option Toml) where
  pub record IsRead (is_private : Bool) (content : String) (out : Config) : Type 0 where
    pub written : Config
    pub value : Toml
    pub is_written : read_config content ≡ some written
    pub is_value : read_value content ≡ some value
    pub one_key : have_both (get "api_key" value) (get "api_key_file" value) ≡ false
    pub one_login : login_conflicts value ≡ false
    pub secrets_private : Secret value → is_private ≡ true
    pub accepted : IsAccepted parse_url metadata_ok working parent_of canonicalize written out

  -- A text that is read as a configuration gives neither the API key, nor the device or the SDK of
  -- the main login, both directly and as a file; a key, a device text or an SDK parameter that it
  -- holds itself, for the main settings or for a region at any depth, is held in a private file.
  -- The configuration that comes out has its numbers within their bounds and keeps the sessions
  -- and the regions that were written, in their order. No two of its regions, the main one
  -- included, have the same origin (without slashes at the end) or the same state directory. Each
  -- further region is not the main session's and has a session of its own region; in every region
  -- the session is valid, the pauses are within their bounds, a recovery has a login, credentials
  -- from a file are the only source, accounts outside JP have a login with the SDK, and JP has
  -- neither a login nor a recovery.
  pub from_text-IsRead :
      (is_private : Bool) (content path : String) (out : Config)
      → from_text parse_url metadata_ok working parent_of canonicalize read_config read_value
          is_private content path
        ≡ ok out
      → IsRead is_private content out
  unfolding from_text
  from_text-IsRead is_private content path out e =
      let (c, h, r) = ok->>= (require (read_config content) invalid_config) _ e in
      let (value, h1, r1) = ok->>= (require (read_value content) invalid_config) _ r in
      let (u2, h2, r2) =
        ok->>=
          (guard (not (have_both (get "api_key" value) (get "api_key_file" value))) invalid_config)
          _ r1 in
      let (u3, h3, r3) = ok->>= (guard (not (login_conflicts value)) invalid_config) _ r2 in
      let (u4, h4, r4) = ok->>= (check_inline is_private value) _ r3 in
      record {
        written = c;
        value = value;
        is_written = require-ok (read_config content) invalid_config c h;
        is_value = require-ok (read_value content) invalid_config value h1;
        one_key = not-true _ (
            guard-ok (not (have_both (get "api_key" value) (get "api_key_file" value)))
              invalid_config u2 h2);
        one_login = not-true _ (guard-ok (not (login_conflicts value)) invalid_config u3 h3);
        secrets_private = λ s. check_inline-Secret is_private h4 s;
        accepted =
            resolve_all-IsAccepted parse_url metadata_ok working parent_of canonicalize path c out
              r4;
      }
