-- ===== src/Server/Routes/Tests.antt =====
-- server/src/path_routes.rs: the route of a player's favorites, and that of a profile.
use moenotes_api.Prelude.{
  List, Option, String, [], codes, false, inr, none, refl, some, true, ℕ, ◌∷◌, ◌≡◌,
}
use moenotes_api.Errors.{ok}
use moenotes_api.Decimal.{parse_below}
use moenotes_api.Client.Query.{find_method}
use moenotes_api.Server.Json.{Value, bool_value, member, no_members, object_value, string_value}
use moenotes_api.Server.Regions.{from_profile_id, kr, region_eq}
use moenotes_api.Server.Projection.{
  Shape, allowed, field_as, members_as, permitted, plain, project, public_mode, select, single,
}
use moenotes_api.Server.Routes.{
  Route, field_pairs, method_for_path, path_pairs, path_query, plain_path, valid_path,
}
use moenotes_api.Server.Routes.Handlers.{
  Api, delivered, execute, handle_path, present, select_region,
}
use moenotes_api.Server.Routes.Public.{
  IsPublic, ProfileRegion, handle_path-IsPublic, select_region-ProfileRegion,
}
use moenotes_api.Server.Routes.PathQuery.{IsPathQuery, path_query-IsPathQuery}

tw_path : method_for_path (codes "/v1/tw/profile/{profileId}") ≡ some "profile"
unfolding method_for_path plain_path
tw_path = refl

abbrev favorites : Route
favorites = record {
  path = "/v1/player/{playerId}/favorites";
  method = "favorite-status";
  fields = ("playerId", "playerId", false) ∷ [];
}

abbrev profile_route : Route
profile_route = record {
  path = "/v1/profile/{profileId}";
  method = "profile";
  fields = ("profileId", "playerProfileId", false) ∷ [];
}

abbrev no_commas : String → List String
no_commas v = v ∷ []

abbrev no_pairs : String → List (String × String)
no_pairs t = []

abbrev print_first : List (String × String) → String
print_first [] = ""
print_first ((k, v) ∷ ps) = v

abbrev player_seven : String → Option String
player_seven name = some "7"

query_of_seven : path_query no_commas no_pairs print_first favorites player_seven none ≡ ok "7"
unfolding path_query path_pairs field_pairs
query_of_seven = refl

path_query-IsPathQuery_example :
    IsPathQuery no_commas no_pairs print_first favorites player_seven none "7"
path_query-IsPathQuery_example =
    path_query-IsPathQuery no_commas no_pairs print_first favorites player_seven none "7"
      query_of_seven

abbrev korean : String → Option String
korean name = some "40000000007"

korean_region : select_region profile_route none korean ≡ inr (some kr)
unfolding select_region from_profile_id parse_below
korean_region = refl

select_region-ProfileRegion_example :
    (id : String) × (korean "profileId" ≡ some id) × ProfileRegion none id (some kr)
select_region-ProfileRegion_example =
    select_region-ProfileRegion profile_route none (some kr) korean refl korean_region

abbrev fields_of : String → String → Option Shape
fields_of m name = some (single plain)

abbrev response : Value
response = object_value (
    member "isSentFavorite" (bool_value true)
      (member "totalFavorite" (string_value "9") no_members))

abbrev public_response : Value
public_response = object_value (member "totalFavorite" (string_value "9") no_members)

abbrev api : Api ℕ ℕ
api = record {
  mode = public_mode;
  own_pool = 0;
  regions = record { backends = []; default_region = none };
  parse_query = λ method text. ok 1;
  ask = λ pool query. ok response;
}

handled :
    handle_path fields_of no_commas no_pairs print_first api favorites none "/v1/player/7/favorites"
      (some player_seven)
      none
      true
    ≡ delivered public_response none
unfolding handle_path execute select_region present path_query path_pairs field_pairs valid_path
    permitted project field_as members_as select allowed find_method
handled = refl

handle_path-IsPublic_example : IsPublic fields_of "favorite-status" public_response
handle_path-IsPublic_example =
    handle_path-IsPublic fields_of no_commas no_pairs print_first api favorites none
      "/v1/player/7/favorites" (some player_seven) none true public_response none refl handled
