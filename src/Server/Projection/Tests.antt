-- ===== src/Server/Projection/Tests.antt =====
-- server/src/projection.rs: a response with a field that is not public.
use moenotes_api.Prelude.{Option, String, refl, some, true, ◌≡◌}
use moenotes_api.Errors.{ok}
use moenotes_api.Server.Json.{
  Members, Value, bool_value, lookup, member, no_members, object_value, string_value,
}
use moenotes_api.Server.Projection.{
  Shape, allowed, field_as, members_as, plain, project, select, single,
}
use moenotes_api.Server.Projection.Laws.{listed}
use moenotes_api.Server.Projection.Kept.{project-kept}

abbrev fields_of : String → String → Option Shape
fields_of m name = some (single plain)

abbrev response : Members
response =
    member "isSentFavorite" (bool_value true) (member "totalFavorite" (string_value "9") no_members)

abbrev public_response : Members
public_response = member "totalFavorite" (string_value "9") no_members

projected :
    project fields_of (some "app.player.GetPlayerFavoriteStatusResponse") (object_value response)
    ≡ ok (object_value public_response)
unfolding project field_as select allowed members_as
projected = refl

total_listed : listed "totalFavorite" (allowed "app.player.GetPlayerFavoriteStatusResponse") ≡ true
unfolding allowed
total_listed = refl

project-kept_example :
    (w : Value) × (field_as fields_of (some (single plain)) (string_value "9") ≡ ok w)
    × (lookup "totalFavorite" public_response ≡ some w)
project-kept_example =
    project-kept fields_of "app.player.GetPlayerFavoriteStatusResponse" "totalFavorite" response
      public_response (string_value "9") projected total_listed refl
