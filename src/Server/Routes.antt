-- ===== src/Server/Routes.antt =====
-- server/src/path_routes.rs: routes with parameters in the path, and what a handler does with a
-- request. `pairs` and `serialize` are `form_urlencoded`, the router and the extraction of path
-- parameters are `axum`'s.
pub mod Handlers
pub mod Laws
pub mod PathQuery
pub mod Public
mod Tests
use Prim.Native.String.{◌++◌ as text_append}
use moenotes_api.Prelude.{
  Bool, List, Option, String, [], all, any, codes, false, if◌then◌else◌, is_control, is_nil, leb,
  len, length, none, not, some, str_eq, true, ℕ, ◌&&◌, ◌++◌, ◌==◌, ◌||◌, ◌∷◌,
}
use moenotes_api.Errors.{Result, err, error_of, guard, invalid_request, ok, require, ◌>>=◌, ◌>>◌}
use moenotes_api.Server.Regions.{region_eq}
use moenotes_api.Server.Gateway.{http_routes, strip}
use moenotes_api.Server.Params.{percents_ok}

-- A field: path parameter, query field, and whether it is a list with commas.
pub record Route : Type 0 where
  pub path : String
  pub method : String
  pub fields : List (String × String × Bool)

abbrev route : String → String → List (String × String × Bool) → Route
route path method fields = record { path = path; method = method; fields = fields }

abbrev pub routes : List Route
routes =
    route "/v1/profile/{profileId}" "profile" (("profileId", "playerProfileId", false) ∷ [])
    ∷ route "/v1/profiles/{accountIds}" "profiles" (("accountIds", "accountIds", true) ∷ [])
    ∷ route "/v1/player/{playerId}/favorites" "favorite-status"
        (("playerId", "playerId", false) ∷ [])
    ∷ route "/v1/announcements/{selectedTab}" "announcements"
        (("selectedTab", "selectedTab", false) ∷ [])
    ∷ route "/v1/announcement/{id}" "announcement" (("id", "id", false) ∷ [])
    ∷ route "/v1/gacha/{gachaId}/rates" "probability" (("gachaId", "gachaId", false) ∷ [])
    ∷ route "/v1/gacha/{gachaId}/rates/{selectedPickUp}" "probability"
        (("gachaId", "gachaId", false) ∷ ("selectedPickUp", "selectedPickUp", true) ∷ [])
    ∷ route "/v1/music/{musicId}/ranking" "music-ranking" (("musicId", "musicId", false) ∷ [])
    ∷ route "/v1/event/{eventId}/ranking/{ranks}" "event-ranking"
        (("eventId", "eventId", false) ∷ ("ranks", "ranks", true) ∷ [])
    ∷ route "/v1/event/challenge/{challengeMusicId}/ranking" "challenge-ranking"
        (("challengeMusicId", "challengeMusicId", false) ∷ [])
    ∷ route "/v1/event/{eventId}/deck/{playerId}" "event-deck"
        (("eventId", "eventId", false) ∷ ("playerId", "playerId", false) ∷ [])
    ∷ route "/v1/arena/{arenaSeasonId}/ranking/{rankingStart}/{rankingEnd}" "arena-ranking" (
        ("arenaSeasonId", "arenaSeasonId", false)
        ∷ ("rankingStart", "rankingStart", false)
        ∷ ("rankingEnd", "rankingEnd", false)
        ∷ [])
    ∷ route "/v1/arena/{arenaSeasonId}/ranking/{rankingStart}/{rankingEnd}/band/{bandId}"
        "arena-ranking"
        (("arenaSeasonId", "arenaSeasonId", false)
          ∷ ("rankingStart", "rankingStart", false)
          ∷ ("rankingEnd", "rankingEnd", false)
          ∷ ("bandId", "bandId", false)
          ∷ [])
    ∷ route "/v1/arena/{arenaSeasonId}/music/{musicId}/deck-trend" "deck-trend"
        (("arenaSeasonId", "arenaSeasonId", false) ∷ ("musicId", "musicId", false) ∷ [])
    ∷ route "/v1/circle/{circleId}" "circle" (("circleId", "circleId", false) ∷ [])
    ∷ route "/v1/circles/search/{name}" "circle-search" (("name", "options.name", false) ∷ [])
    ∷ []

abbrev pub text_eq : List ℕ → List ℕ → Bool
text_eq [] [] = true
text_eq (x ∷ xs) (y ∷ ys) = x == y && text_eq xs ys
text_eq _ _ = false

abbrev pub route_method : List Route → List ℕ → Option String
route_method [] path = none
route_method (r ∷ rs) path =
    if text_eq (codes r.path) path then some r.method else route_method rs path

abbrev pub table_method : List (String × String) → List ℕ → Option String
table_method [] path = none
table_method ((p, m) ∷ table) path =
    if text_eq (codes p) path then some m else table_method table path

-- `find_map` over the prefixes.
abbrev pub unscoped : List String → List ℕ → Option (List ℕ)
unscoped [] path = none
unscoped (p ∷ ps) path = elim (strip (codes p) path) [
  | some suffix ↦ some suffix
  | none ↦ unscoped ps path
]

abbrev pub scopes : List String
scopes = "/v1/tw" ∷ "/v1/en" ∷ "/v1/kr" ∷ "/v1/jp" ∷ []

unfoldable pub plain_path : List ℕ → List ℕ
plain_path path = elim (unscoped scopes path) [ some suffix ↦ codes "/v1" ++ suffix | none ↦ path ]

unfoldable pub method_for_path : List ℕ → Option String
unfolding plain_path
method_for_path path = elim (route_method routes (plain_path path)) [
  | some m ↦ some m
  | none ↦ table_method http_routes (plain_path path)
]

unfoldable pub valid_path : String → Bool
valid_path path = leb (len path) 8192 && percents_ok (codes path)

abbrev pub invalid {ℓ} : {A : Type ℓ} → Result A
invalid = err (error_of invalid_request)

-- Whether a query key is one of the fields that the path gives.
abbrev pub is_path_field : List (String × String × Bool) → String → Bool
is_path_field [] key = false
is_path_field ((path, field, many) ∷ fields) key = str_eq field key || is_path_field fields key

abbrev pub any_path_field : List (String × String × Bool) → List (String × String) → Bool
any_path_field fields [] = false
any_path_field fields ((key, value) ∷ ps) = is_path_field fields key || any_path_field fields ps

abbrev pub valid_value : String → Bool
valid_value v = not (is_nil v) && (leb (len v) 8192 && not (any is_control (codes v)))

abbrev pub with_field : String → List String → List (String × String)
with_field field [] = []
with_field field (v ∷ vs) = (field, v) ∷ with_field field vs

abbrev pub none_nil : List String → Bool
none_nil vs = all (λ v. not (is_nil v)) vs

-- The pairs that one path parameter gives; `split` is `str::split(',')`.
unfoldable pub field_pairs :
    (String → List String) → String → Bool → String → Result (List (String × String))
field_pairs split field many value =
    if not (valid_value value)
    then invalid
    else if many
    then (if leb (length (split value)) 100 && none_nil (split value)
        then ok (with_field field (split value))
        else invalid)
    else ok ((field, value) ∷ [])

-- The loop over the route's fields.
unfoldable pub path_pairs :
    (String → List String)
    → (String → Option String)
    → List (String × String × Bool)
    → Result (List (String × String))
path_pairs split params [] = ok []
path_pairs split params ((path, field, many) ∷ fields) = do
  value ← require (params path) invalid_request
  first ← field_pairs split field many value
  rest ← path_pairs split params fields
  ok (first ++ rest)

abbrev pub join_query : String → String → String
join_query s raw = if is_nil raw then s else text_append s (text_append "&" raw)

abbrev pub raw_text : Option String → String
raw_text none = ""
raw_text (some t) = t

unfoldable pub path_query :
    (String → List String)
    → (String → List (String × String))
    → (List (String × String) → String)
    → Route
    → (String → Option String)
    → Option String
    → Result String
path_query split pairs serialize r params raw = do
  guard (leb (len (raw_text raw)) 8192) invalid_request
  guard (not (any_path_field r.fields (pairs (raw_text raw)))) invalid_request
  own ← path_pairs split params r.fields
  guard (leb (len (join_query (serialize own) (raw_text raw))) 8192) invalid_request
  ok (join_query (serialize own) (raw_text raw))
