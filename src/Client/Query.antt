-- ===== src/Client/Query.antt =====
-- client/src/query.rs: the allowed queries, and the tests of a query's fields. The messages are
-- generated from the protocol's descriptors: here they have the fields that the tests read.
pub mod Laws
use moenotes_api.Prelude.{
  Bool, List, Option, String, [], all, false, if◌then◌else◌, is_empty, is_nil, leb, len, length,
  ltb, none, not, some, str_eq, true, ℕ, ◌&&◌, ◌-◌, ◌∷◌,
}
use moenotes_api.Errors.{Result, err, error_of, guard, invalid_request, ok}
use moenotes_api.Int.{is_nonnegative, is_positive, is_zero, pos_part, ℤ}

pub record Method : Type 0 where
  pub name : String
  pub path : String
  pub input : String
  pub output : String
  pub anonymous : Bool
  pub http : Bool

abbrev method : String → String → String → String → Bool → Bool → Method
method name path input output anonymous http = record {
  name = name;
  path = path;
  input = input;
  output = output;
  anonymous = anonymous;
  http = http;
}

pub data Query : Type 0 where
  announcement : (id : ℤ) → Query
  announcements : (selected_tab : ℤ) → Query
  arena_ranking : (season start finish : ℤ) → Option ℤ → Query
  deck_trend : (music season : ℤ) → Query
  circle : (id : ℕ) → Query
  circle_recommendations : Query
  circle_search : Option String → Query
  challenge_ranking : (music : ℤ) → Query
  event_deck : (event : ℤ) → (player : String) → Query
  event_ranking : (event : ℤ) → (ranks : List ℤ) → Query
  profile : (id : ℤ) → Query
  probability : (gacha product : ℤ) → (pick_up : List ℤ) → Query
  music_ranking : (music : ℤ) → Query
  favorite_status : (player : String) → Query
  profiles : (account_ids : List ℤ) → Query
  server_list version_query whoami : Query

-- The table that the `queries!` macro is given.
abbrev pub methods : List Method
methods =
    method "announcement" "/app.announcement.AnnouncementService/Get" "app.announcement.GetRequest"
      "app.announcement.GetResponse" true true
    ∷ method "announcements" "/app.announcement.AnnouncementService/GetList"
        "app.announcement.GetListRequest" "app.announcement.GetListResponse" true true
    ∷ method "arena-ranking" "/app.arena.ArenaService/ArenaRanking" "app.arena.ArenaRankingRequest"
        "app.arena.ArenaRankingResponse" false true
    ∷ method "deck-trend" "/app.arena.ArenaService/DeckTrend" "app.arena.DeckTrendRequest"
        "app.arena.DeckTrendResponse" false true
    ∷ method "circle" "/app.circle.CircleService/GetCircleDetail" "app.circle.GetCircleRequest"
        "app.circle.GetCircleResponse" false true
    ∷ method "circle-recommendations" "/app.circle.CircleService/GetRecommendedCircleList"
        "app.circle.GetRecommendedCircleListRequest" "app.circle.GetRecommendedCircleListResponse"
        false true
    ∷ method "circle-search" "/app.circle.CircleService/Search" "app.circle.SearchRequest"
        "app.circle.SearchResponse" false true
    ∷ method "challenge-ranking" "/app.event.EventService/GetChallengeMusicRanking"
        "app.event.GetChallengeMusicRankingRequest" "app.event.GetChallengeMusicRankingResponse"
        false true
    ∷ method "event-deck" "/app.event.EventService/GetDeck" "app.event.GetDeckRequest"
        "app.event.GetDeckResponse" false true
    ∷ method "event-ranking" "/app.event.EventService/GetRankingList"
        "app.event.GetRankingListRequest" "app.event.GetRankingListResponse" false true
    ∷ method "profile" "/app.friend.FriendService/FindByProfileID"
        "app.friend.FindByProfileIDRequest" "app.friend.FindByProfileIDResponse" false true
    ∷ method "probability" "/app.gacha.GachaService/Probability" "app.gacha.ProbabilityRequest"
        "app.gacha.ProbabilityResponse" false true
    ∷ method "music-ranking" "/app.livemusic.LiveMusicService/GetRanking"
        "app.livemusic.GetRankingRequest" "app.livemusic.GetRankingResponse" false true
    ∷ method "favorite-status" "/app.player.PlayerService/GetPlayerFavoriteStatus"
        "app.player.GetPlayerFavoriteStatusRequest" "app.player.GetPlayerFavoriteStatusResponse"
        false true
    ∷ method "profiles" "/app.playerext.PlayerExtService/GetPlayerList"
        "app.playerext.GetPlayerListRequest" "app.playerext.GetPlayerListResponse" false true
    ∷ method "server-list" "/app.playerlogin.PlayerLoginService/GetServerList"
        "app.playerlogin.GetServerListRequest" "app.playerlogin.GetServerListResponse" true false
    ∷ method "version" "/app.masterdata.MasterdataService/Version" "app.masterdata.VersionRequest"
        "app.masterdata.VersionResponse" true false
    ∷ method "whoami" "/app.player.PlayerService/Whoami" "app.player.WhoamiRequest"
        "app.player.WhoamiResponse" false false
    ∷ []

-- The name of each variant, in the macro's `match`.
abbrev pub name_of : Query → String
name_of (announcement id) = "announcement"
name_of (announcements tab) = "announcements"
name_of (arena_ranking season start finish band) = "arena-ranking"
name_of (deck_trend music season) = "deck-trend"
name_of (circle id) = "circle"
name_of circle_recommendations = "circle-recommendations"
name_of (circle_search options) = "circle-search"
name_of (challenge_ranking music) = "challenge-ranking"
name_of (event_deck event player) = "event-deck"
name_of (event_ranking event ranks) = "event-ranking"
name_of (profile id) = "profile"
name_of (probability gacha product pick_up) = "probability"
name_of (music_ranking music) = "music-ranking"
name_of (favorite_status player) = "favorite-status"
name_of (profiles ids) = "profiles"
name_of server_list = "server-list"
name_of version_query = "version"
name_of whoami = "whoami"

unfoldable pub find_method : String → List Method → Option Method
find_method name [] = none
find_method name (m ∷ ms) = if str_eq m.name name then some m else find_method name ms

-- `Query::method`; the `unwrap` panics where a name is not in the table.
unfoldable pub method_of : Query → Option Method
unfolding find_method
method_of q = find_method (name_of q) methods

abbrev pub is_server_list : Query → Bool
is_server_list server_list = true
is_server_list _ = false

abbrev pub is_profiles : Query → Bool
is_profiles (profiles ids) = true
is_profiles _ = false

unfoldable pub method_for_region : Query → String → Option (Result Method)
unfolding method_of
method_for_region q region = elim (method_of q) [
  | none ↦ none
  | some m ↦ some (
      if str_eq region "jp"
      then if is_server_list q
        then err (error_of invalid_request)
        else if is_profiles q
        then ok (record m {
          path = "/app.player.PlayerService/GetPlayerList";
          input = "app.player.GetPlayerListRequest";
          output = "app.player.GetPlayerListResponse";
        })
        else ok m
      else ok m)
]

abbrev pub valid_player : String → Bool
valid_player value = not (is_nil value) && leb (len value) 256

abbrev pub valid_list : List ℤ → Bool
valid_list vs = leb (length vs) 100 && all is_positive vs

abbrev pub valid_band : Option ℤ → Bool
valid_band none = true
valid_band (some v) = is_nonnegative v

abbrev pub valid_name : Option String → Bool
valid_name none = false
valid_name (some name) = leb (len name) 256

-- The ranks from `start` to `finish`, both positive: fewer than 101 of them.
abbrev pub valid_ranks : ℤ → ℤ → Bool
valid_ranks start finish =
    is_positive start
    && (leb (pos_part start) (pos_part finish) && ltb (pos_part finish - pos_part start) 100)

unfoldable pub is_valid : Query → Bool
is_valid (announcement id) = is_positive id
is_valid (announcements tab) = is_nonnegative tab && leb (pos_part tab) 2
is_valid (arena_ranking season start finish band) =
    is_positive season && (valid_band band && valid_ranks start finish)
is_valid (deck_trend music season) = is_positive music && is_positive season
is_valid (circle id) = ltb 0 id
is_valid (circle_search options) = valid_name options
is_valid (challenge_ranking music) = is_positive music
is_valid (event_deck event player) = is_positive event && valid_player player
is_valid (event_ranking event ranks) =
    is_positive event && (not (is_empty ranks) && valid_list ranks)
is_valid (profile id) = is_positive id
is_valid (probability gacha product pick_up) =
    is_positive gacha && (is_zero product && valid_list pick_up)
is_valid (music_ranking music) = is_positive music
is_valid (favorite_status player) = valid_player player
is_valid (profiles ids) = not (is_empty ids) && valid_list ids
is_valid _ = true

unfoldable pub validate : Query → Result (Unit {0})
unfolding is_valid
validate q = guard (is_valid q) invalid_request
