-- ===== src/Server/Regions.antt =====
-- server/src/regions.rs: the regions of the game, and the pools that serve them.
pub mod Laws
pub mod ProfileId
mod Tests
use Prim.Native.String
use moenotes_api.Prelude.{
  Bool, List, Option, String, [], all, arith, false, if◌then◌else◌, inl, inr, is_digit, is_none,
  length, none, not, refl, some, str_eq, true, ℕ, ◌==◌, ◌^◌, ◌||◌, ◌↔◌, ◌∷◌, ◌≡◌, ◌⊎◌,
}
use moenotes_api.Errors.{Result, err, error_of, guard, invalid_config, ok, ◌>>=◌, ◌>>◌}
use moenotes_api.Decimal.{parse_below}
use moenotes_api.Table.{Eq, find, insert}

pub data Region : Type 0 where
  tw en kr jp : Region

abbrev pub as_str : Region → String
as_str tw = "tw"
as_str en = "en"
as_str kr = "kr"
as_str jp = "jp"

unfoldable pub from_session : String → Option Region
from_session region =
    if str_eq region "hk" || (str_eq region "tw" || str_eq region "hk-tw-mo")
    then some tw
    else if str_eq region "en"
    then some en
    else if str_eq region "kr"
    then some kr
    else if str_eq region "jp"
    then some jp
    else none

pub data ProfileError : Type 0 where
  invalid_profile_id unsupported_profile_region : ProfileError

abbrev pub first_region : List ℕ → Option Region
first_region [] = none
first_region (c ∷ s) =
    if c == b'2'
    then some tw
    else if c == b'3'
    then some en
    else if c == b'4'
    then some kr
    else none

-- `from_profile_id`, of the id's bytes.
unfoldable pub from_profile_id : List ℕ → ProfileError ⊎ (Region × ℕ)
from_profile_id id =
    if not (length id == 11) || not (all is_digit id)
    then inl invalid_profile_id
    else elim (first_region id) [
      | none ↦ inl unsupported_profile_region
      | some r ↦ elim (parse_below (2 ^ 63) id) [
        | none ↦ inl invalid_profile_id
        | some n ↦ inr (r, n)
      ]
    ]

abbrev pub region_beq : Region → Region → Bool
region_beq tw tw = true
region_beq en en = true
region_beq kr kr = true
region_beq jp jp = true
region_beq _ _ = false

pub region_beq_iff : (a b : Region) → (region_beq a b ≡ true) ↔ (a ≡ b)
region_beq_iff tw tw = (λ h. refl, λ h. refl)
region_beq_iff en en = (λ h. refl, λ h. refl)
region_beq_iff kr kr = (λ h. refl, λ h. refl)
region_beq_iff jp jp = (λ h. refl, λ h. refl)
region_beq_iff a b = (λ h. ground arith, λ h. ground arith)

instance abbrev pub region_eq : Eq Region
region_eq = record { beq = region_beq; beq_iff = region_beq_iff }

-- `RegionClients`, over what a pool is.
pub record RegionClients (P : Type 0) : Type 0 where
  pub backends : List (Region × P)
  pub default_region : Option Region

module _ {P : Type 0} where
  -- The loop of `with_pools`: a region that comes twice is refused.
  unfoldable pub collect : List (Region × P) → List (Region × P) → Result (List (Region × P))
  collect [] built = ok built
  collect ((r, p) ∷ pools) built = elim (find r built) [
    | some q ↦ err (error_of invalid_config)
    | none ↦ collect pools (insert r p built)
  ]

  abbrev pub default_present : Option Region → List (Region × P) → Bool
  default_present none built = true
  default_present (some r) built = not (is_none (find r built))

  unfoldable pub with_pools : Option Region → List (Region × P) → Result (RegionClients P)
  unfolding collect
  with_pools default pools = do
    built ← collect pools []
    guard (default_present default built) invalid_config
    ok (record { backends = built; default_region = default })

  -- `cache` and `default_cache`
  abbrev pub pool_of : RegionClients P → Region → Option P
  pool_of c r = find r c.backends

  abbrev pub default_pool : RegionClients P → Option P
  default_pool c = elim c.default_region [ none ↦ none | some r ↦ pool_of c r ]
