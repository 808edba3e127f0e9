-- ===== src/Server/Routes/Handlers.antt =====
-- server/src/path_routes.rs: what the handlers do with a request, over the pools and the queries of
-- the server.
use moenotes_api.Prelude.{
  Bool, List, Option, String, [], codes, false, if◌then◌else◌, inl, inr, ltb, none, not, some,
  str_eq, true, ℕ, ◌==◌, ◌^◌, ◌||◌, ◌∷◌, ◌⊎◌,
}
use moenotes_api.Errors.{ClientError, Result, err, error_of, invalid_request, ok}
use moenotes_api.Decimal.{parse_below}
use moenotes_api.Client.Query.{find_method, methods}
use moenotes_api.Server.Json.{Value}
use moenotes_api.Server.Regions.{
  ProfileError, Region, RegionClients, from_profile_id, invalid_profile_id, jp, pool_of, region_beq,
  region_eq, unsupported_profile_region,
}
use moenotes_api.Server.Projection.{ResponseMode, Shape, is_public, permitted, project}
use moenotes_api.Server.Routes.{Route, path_query, valid_path}

-- What a handler answers: an error of its own, an error of the query, or a response.
pub data Refusal : Type 0 where
  turned_down : ℕ → String → Refusal
  failed : ClientError → Refusal

pub data Answer : Type 0 where
  refused : Refusal → Answer
  delivered : Value → Option Region → Answer

-- `str::parse::<i64>`, which takes a sign.
abbrev pub positive_i64 : List ℕ → Bool
positive_i64 [] = false
positive_i64 (c ∷ s) =
    elim (if c == b'+' then parse_below (2 ^ 63) s else parse_below (2 ^ 63) (c ∷ s)) [
      | none ↦ false
      | some n ↦ ltb 0 n
    ]

abbrev pub profile_error : ProfileError → String
profile_error invalid_profile_id = "invalid_profile_id"
profile_error unsupported_profile_region = "unsupported_profile_region"

abbrev pub agrees : Option Region → Region → Bool
agrees none r = true
agrees (some s) r = region_beq s r

abbrev pub is_jp_region : Option Region → Bool
is_jp_region (some jp) = true
is_jp_region _ = false

-- The region that a path route's request goes to; a profile's id names its region.
unfoldable pub select_region :
    Route → Option Region → (String → Option String) → Refusal ⊎ Option Region
select_region r region params =
    if not (str_eq r.method "profile") then inr region else elim (params "profileId") [
      | none ↦ inl (failed (error_of invalid_request))
      | some id ↦
          if is_jp_region region
          then (if positive_i64 (codes id)
              then inr (some jp)
              else inl (failed (error_of invalid_request)))
          else elim (from_profile_id (codes id)) [
            | inl e ↦ inl (turned_down 400 (profile_error e))
            | inr (inferred, n) ↦
                if agrees region inferred
                then inr (some inferred)
                else inl (turned_down 400 "profile_region_mismatch")
          ]
    ]

-- A server as the handlers see it, over its pools and queries. `parse_query` is `parse`, with the
-- crate's reading of the object; `ask` is a pool's `query`.
pub record Api (P Q : Type 0) : Type 0 where
  pub mode : ResponseMode
  pub own_pool : P
  pub regions : RegionClients P
  pub parse_query : String → Option String → Result Q
  pub ask : P → Q → Result Value

abbrev pub output_of : String → Option String
output_of method = elim (find_method method methods) [ none ↦ none | some m ↦ some m.output ]

-- A response leaves projected in the public mode, as it is otherwise.
unfoldable pub present :
    (String → String → Option Shape) → ResponseMode → String → Option Region → Value → Answer
present field_of mode method region json =
    if is_public mode
    then elim (project field_of (output_of method) json) [
      | err e ↦ refused (failed e)
      | ok public ↦ delivered public region
    ]
    else delivered json region

module _ {P Q : Type 0} (field_of : String → String → Option Shape) where
  abbrev pub pool_for : Api P Q → Option Region → Option P
  pool_for api none = some api.own_pool
  pool_for api (some r) = pool_of api.regions r

  unfoldable pub execute : Api P Q → String → Option String → Option Region → Answer
  unfolding present permitted
  execute api method raw region =
      if not (permitted api.mode method)
      then refused (turned_down 403 "response_policy")
      else elim (api.parse_query method raw) [
        | err e ↦ refused (failed e)
        | ok q ↦ elim (pool_for api region) [
          | none ↦ refused (turned_down 503 "region_unconfigured")
          | some p ↦ elim (api.ask p q) [
            | err e ↦ refused (failed e)
            | ok json ↦ present field_of api.mode method region json
          ]
        ]
      ]

  -- The handler of a path route; `body_empty` says whether the body was read and is empty, `params`
  -- is none where the path's parameters could not be read.
  unfoldable pub handle_path :
      (String → List String)
      → (String → List (String × String))
      → (List (String × String) → String)
      → Api P Q
      → Route
      → Option Region
      → String
      → Option (String → Option String)
      → Option String
      → Bool
      → Answer
  unfolding execute path_query select_region
  handle_path split pairs serialize api r region path none raw body_empty =
      refused (failed (error_of invalid_request))
  handle_path split pairs serialize api r region path (some params) raw body_empty =
      if not (valid_path path) || not body_empty
      then refused (failed (error_of invalid_request))
      else elim (path_query split pairs serialize r params raw) [
        | err e ↦ refused (failed e)
        | ok query ↦ elim (select_region r region params) [
          | inl answer ↦ refused answer
          | inr selected ↦ execute api r.method (some query) selected
        ]
      ]

  -- The handler of an established path under a region.
  unfoldable pub handle_query : Api P Q → String → Option Region → Option String → Bool → Answer
  unfolding execute
  handle_query api method region raw body_empty =
      if body_empty
      then execute api method raw region
      else refused (failed (error_of invalid_request))
