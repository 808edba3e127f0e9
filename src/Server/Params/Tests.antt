-- ===== src/Server/Params/Tests.antt =====
-- server/src/query_params.rs: parameters of a query.
use moenotes_api.Prelude.{List, String, [], refl, true, ◌∷◌, ◌≡◌}
use moenotes_api.Errors.{ok}
use moenotes_api.Int.{negsuc, pos}
use moenotes_api.Decimal.{parse_below}
use moenotes_api.Server.Json.{
  Values, array_value, lookup, member, no_members, no_values, number_value, value_and,
}
use moenotes_api.Server.Params.{Field, elements, fill, insert, int32_kind, parse_signed, scalar}
use moenotes_api.Server.Params.Filling.{append, fill-scalars, scalars, with_key}

abbrev ranks_field : Field
ranks_field = record { name = "ranks"; kind = int32_kind; is_list = true }

abbrev no_split : String → List String
no_split k = k ∷ []

abbrev three_ranks : List (String × String)
three_ranks = with_key "ranks" ("10" ∷ "-1" ∷ "10" ∷ [])

abbrev three_values : Values
three_values =
    value_and (number_value (pos 10))
      (value_and (number_value (negsuc 0)) (value_and (number_value (pos 10)) no_values))

filled :
    fill no_split (ranks_field ∷ []) 0 three_ranks no_members
    ≡ ok (member "ranks" (array_value three_values) no_members)
unfolding fill scalar insert parse_signed parse_below
filled = refl

fill-scalars_example :
    (vs : Values) × (scalars int32_kind ("10" ∷ "-1" ∷ "10" ∷ []) ≡ ok vs)
    × (elements (lookup "ranks" (member "ranks" (array_value three_values) no_members))
        ≡ ok (append no_values vs))
fill-scalars_example =
    fill-scalars no_split (ranks_field ∷ []) "ranks" ranks_field ("10" ∷ "-1" ∷ "10" ∷ []) 0
      no_members (member "ranks" (array_value three_values) no_members) no_values refl refl refl
      refl filled
