-- ===== src/Server/Cache/Tests.antt =====
-- server/src/cache.rs: one query that is admitted, answered and read.
use moenotes_api.Prelude.{[], arith, false, length, none, refl, some, ℕ, ◌∷◌, ◌≡◌}
use moenotes_api.Errors.{ok}
use moenotes_api.Table.{find, insert, remove, retain}
use moenotes_api.Server.Cache.{
  Ask, CacheOptions, CachedResponse, ClientView, Key, State, admit, complete, deliver, empty_state,
  evict, finish, join_or_start, key_eq, key_of, may_store, must_evict, precheck, purge, store,
  validate,
}
use moenotes_api.Server.Cache.Answers.{Granted, owner_after}
use moenotes_api.Server.Cache.Isolation.{Run, admit-Granted, deliver-Granted}
use moenotes_api.Server.Cache.Admitted.{Inv}
use moenotes_api.Server.Cache.Invariant.{Reach, Reach-Inv, Step, next}
use moenotes_api.Server.Cache.Room.{MakesRoom, evict-MakesRoom}
use moenotes_api.Server.Cache.Eviction.{Accounted}

abbrev small : CacheOptions
small = record { ttl = 1000; capacity = 1; max_bytes = 100; max_inflight = 1 }

abbrev view : ClientView
view = record { generation = 7; query_error = λ anonymous. none }

abbrev ask : Ask
ask = record { checked = ok tt; anonymous = false; method = "circle"; request = 8 ∷ 1 ∷ [] }

abbrev answer : CachedResponse ℕ
answer = record { json = 2; fetched_at = 10; size = 40 }

-- Here an answer belongs to a key if it is the length of the request.
abbrev Belongs : Key → CachedResponse ℕ → Type 0
Belongs k r = r.json ≡ length k.request

abbrev asked : State ℕ
asked = (admit small ask view false 5 view empty_state).1

abbrev answered : State ℕ
answered = complete small false (key_of 7 ask) 0 (ok answer) view 20 asked

asked-flies : find (key_of 7 ask) asked.flights ≡ some 0
unfolding admit find insert precheck purge retain join_or_start validate
asked-flies = refl

asked-Reach : Reach small asked
asked-Reach = next Reach.start (Step.admits ask view false 5 view empty_state)

asked-Run : Run Belongs small ((key_of 7 ask) ∷ []) asked
unfolding admit find insert precheck purge retain join_or_start validate
asked-Run = Run.admits ask view false 5 view Run.start

answered-Run : Run Belongs small ((key_of 7 ask) ∷ []) answered
answered-Run = Run.completes false (key_of 7 ask) 0 (ok answer) view 20 asked-flies refl asked-Run

delivered : deliver false 7 0 view answered ≡ some (ok answer)
unfolding admit find insert remove precheck purge retain join_or_start validate complete finish
    may_store store evict must_evict deliver
delivered = refl

answered-Reach : Reach small answered
answered-Reach =
    next asked-Reach (Step.completes false (key_of 7 ask) 0 (ok answer) view 20 asked asked-flies)

Reach-Inv_example : Inv small answered
Reach-Inv_example = Reach-Inv small answered-Reach

answered-Accounted : Accounted answered
answered-Accounted =
    let i = Reach-Inv small answered-Reach in record { keys = i.keys; summed = i.summed }

admit-Granted_example :
    Granted Belongs
      (key_of 7 ask)
      (owner_after Belongs (admit small ask view false 30 view answered).0 ((key_of 7 ask) ∷ []))
      (admit small ask view false 30 view answered).0
admit-Granted_example = admit-Granted Belongs small ask view false 30 view answered-Run

deliver-Granted_example :
    Belongs (key_of 7 ask) answer × (view.generation ≡ 7) × (view.query_error false ≡ none)
deliver-Granted_example =
    deliver-Granted Belongs small false (key_of 7 ask) 0 view answer answered-Run refl delivered

evict-MakesRoom_example :
    MakesRoom small 80 answered (evict (length answered.cache) small 80 answered)
evict-MakesRoom_example =
    evict-MakesRoom small 80 (length answered.cache) answered answered-Accounted (omega arith)
      (omega arith) (omega arith)
