-- ===== src/Server/Config/Reading.antt =====
-- server/src/config.rs: `Config::from_text` and `check_inline_permissions`. `toml` is outside: a text
-- is read once as a configuration, by `read_config`, and once as a value, by `read_value`.
-- `is_private` says that the file of the configuration is a regular file that others may not touch.
pub mod Secrets
use moenotes_api.Prelude.{
  Bool, Option, String, false, if◌then◌else◌, is_nil, is_none, none, not, some, str_eq, ◌&&◌, ◌||◌,
}
use moenotes_api.Errors.{Result, err, error_of, guard, invalid_config, ok, require, ◌>>=◌, ◌>>◌}
use moenotes_api.Int.{ℤ}
use moenotes_api.Client.Config.{Url}
use moenotes_api.Server.Paths.{Canonical}
use moenotes_api.Server.Config.{Config, resolve_all}

mutual
  pub data Toml : Type 0 where
    text : String → Toml
    table : Keys → Toml
    array : Items → Toml
    integer : ℤ → Toml
    -- Other numbers, dates and truth values.
    other : Toml

  pub data Items : Type 0 where
    no_items : Items
    item : Toml → Items → Items

  pub data Keys : Type 0 where
    no_keys : Keys
    key : (name : String) → (value : Toml) → Keys → Keys

abbrev pub get_key : String → Keys → Option Toml
get_key k no_keys = none
get_key k (key name value keys) = if str_eq name k then some value else get_key k keys

-- `Value::get`
abbrev pub get : String → Toml → Option Toml
get k (table keys) = get_key k keys
get k _ = none

-- A text that is there and not empty.
abbrev pub is_given : Option Toml → Bool
is_given (some (text s)) = not (is_nil s)
is_given _ = false

abbrev pub any_given : Keys → Bool
any_given no_keys = false
any_given (key name value keys) = is_given (some value) || any_given keys

abbrev pub table_given : Option Toml → Bool
table_given (some (table keys)) = any_given keys
table_given _ = false

abbrev pub get_within : String → Option Toml → Option Toml
get_within k none = none
get_within k (some v) = get k v

unfoldable pub has_inline : Toml → Bool
has_inline v =
    is_given (get "api_key" v)
    || table_given (get_within "context" (get "login" v))
    || is_given (get_within "app_key" (get_within "sdk_http" (get "login" v)))
    || table_given (get_within "common" (get_within "sdk_http" (get "login" v)))

-- Both are there.
abbrev pub have_both : Option Toml → Option Toml → Bool
have_both a b = not (is_none a) && not (is_none b)

unfoldable pub login_conflicts : Toml → Bool
login_conflicts v =
    have_both (get_within "context" (get "login" v)) (get_within "context_file" (get "login" v))
    || have_both (get_within "sdk_http" (get "login" v))
        (get_within "sdk_http_file" (get "login" v))

unfoldable mutual
  pub check_inline : Bool → Toml → Result (Unit {0})
  check_inline is_private (table keys) = do
    check_regions is_private keys
    guard (not (has_inline (table keys)) || is_private) invalid_config
  check_inline is_private (text s) = ok tt
  check_inline is_private (array items) = ok tt
  check_inline is_private (integer n) = ok tt
  check_inline is_private other = ok tt

  -- The entry `regions`, if there is one.
  pub check_regions : Bool → Keys → Result (Unit {0})
  check_regions is_private no_keys = ok tt
  check_regions is_private (key name value keys) =
      let here = check_table is_private value in
      let rest = check_regions is_private keys in if str_eq name "regions" then here else rest

  pub check_table : Bool → Toml → Result (Unit {0})
  check_table is_private (table keys) = check_each is_private keys
  check_table is_private (text s) = err (error_of invalid_config)
  check_table is_private (array items) = err (error_of invalid_config)
  check_table is_private (integer n) = err (error_of invalid_config)
  check_table is_private other = err (error_of invalid_config)

  pub check_each : Bool → Keys → Result (Unit {0})
  check_each is_private no_keys = ok tt
  check_each is_private (key name value keys) = do
    check_inline is_private value
    guard (not (login_conflicts value)) invalid_config
    check_each is_private keys

module _ (parse_url : String → Option Url) (metadata_ok : String → Bool) (working : Option String)
    (parent_of : String → Option String) (canonicalize : String → Canonical)
    (read_config : String → Option Config) (read_value : String → Option Toml) where
  unfoldable pub from_text : Bool → String → String → Result Config
  unfolding check_inline login_conflicts resolve_all
  from_text is_private content path = do
    c ← require (read_config content) invalid_config
    value ← require (read_value content) invalid_config
    guard (not (have_both (get "api_key" value) (get "api_key_file" value))) invalid_config
    guard (not (login_conflicts value)) invalid_config
    check_inline is_private value
    resolve_all parse_url metadata_ok working parent_of canonicalize path c
