-- ===== src/Client/Query/Laws.antt =====
-- client/src/query.rs: the method table, and what a valid query promises.
use moenotes_api.Prelude.{Option, arith, refl, some, ℕ, ◌+◌, ◌-◌, ◌≡◌, ◌≤◌}
use moenotes_api.Errors.{ok}
use moenotes_api.Int.{negsuc, pos, ℤ}
use moenotes_api.Client.Query.{
  Method, Query, announcement, announcements, arena_ranking, challenge_ranking, circle,
  circle_recommendations, circle_search, deck_trend, event_deck, event_ranking, favorite_status,
  method_of, music_ranking, name_of, probability, profile, profiles, server_list, validate,
  version_query, whoami,
}

-- Every query has a method in the table, and the method has the query's name: the lookup never
-- fails.
method_of_total : (q : Query) → (m : Method) × (method_of q ≡ some m) × (m.name ≡ name_of q)
unfolding method_of
method_of_total (announcement id) = (_, refl, refl)
method_of_total (announcements tab) = (_, refl, refl)
method_of_total (arena_ranking season start finish band) = (_, refl, refl)
method_of_total (deck_trend music season) = (_, refl, refl)
method_of_total (circle id) = (_, refl, refl)
method_of_total circle_recommendations = (_, refl, refl)
method_of_total (circle_search options) = (_, refl, refl)
method_of_total (challenge_ranking music) = (_, refl, refl)
method_of_total (event_deck event player) = (_, refl, refl)
method_of_total (event_ranking event ranks) = (_, refl, refl)
method_of_total (profile id) = (_, refl, refl)
method_of_total (probability gacha product pick_up) = (_, refl, refl)
method_of_total (music_ranking music) = (_, refl, refl)
method_of_total (favorite_status player) = (_, refl, refl)
method_of_total (profiles ids) = (_, refl, refl)
method_of_total server_list = (_, refl, refl)
method_of_total version_query = (_, refl, refl)
method_of_total whoami = (_, refl, refl)

-- An arena ranking query that validates asks for places from a positive one on, at least one and
-- at most a hundred of them.
pub validate-arena_ranking :
    (season start finish : ℤ) (band : Option ℤ)
    → validate (arena_ranking season start finish band) ≡ ok tt
    → (n : ℕ) × (m : ℕ) × (start ≡ pos n) × (finish ≡ pos m) × (1 ≤ n) × (n ≤ m) × (m - n + 1 ≤ 100)
unfolding validate
validate-arena_ranking season (pos n) (pos m) band h =
    (n, m, refl, refl, ground arith, ground arith, ground arith)
validate-arena_ranking season (pos n) (negsuc m) band h = absurd (ground arith)
validate-arena_ranking season (negsuc n) finish band h = absurd (ground arith)
