-- ===== src/Server/Cache/Isolation.antt =====
-- server/src/cache.rs: over every run, a call is answered from its own key only.
use moenotes_api.Prelude.{
  ==_iff, Bool, List, Option, [], arith, get_elem?, none, refl, some, subst, true, ℕ, ◌==◌, ◌≡◌,
}
use moenotes_api.Errors.{ClientError, guard, is_ok, ok, session_changed, ◌>>◌}
use moenotes_api.Table.{find}
use moenotes_api.Server.Cache.{
  Ask, CacheOptions, CachedResponse, ClientView, Key, Shared, State, admit, complete, deliver,
  empty_state, key_eq, key_of, no_error,
}
use moenotes_api.Server.Cache.Answers.{
  Fetched, Granted, Right, Sound, empty_state-Right, owner_after,
}
use moenotes_api.Server.Cache.Rights.{admit-Right, complete-Right}
use moenotes_api.Server.Cache.Admitted.{Inv}
use moenotes_api.Server.Cache.Invariant.{Reach, Reach-Inv, Step, Step-Inv}

-- A run: calls are admitted, and flights end with an answer that was fetched for their key.
pub data Run {J : Type 0} (P : Key → CachedResponse J → Type 0) (o : CacheOptions)
    : List Key → State J → Type 0 where
  start : Run P o [] empty_state
  admits :
      {owner : List Key} {s : State J} (q : Ask) (v : ClientView) (stop : Bool) (now : ℕ)
      (w : ClientView)
      → Run P o owner s
      → Run P o (owner_after P (admit o q v stop now w s).0 owner) (admit o q v stop now w s).1
  completes :
      {owner : List Key} {s : State J} (anonymous : Bool) (k : Key) (c : ℕ) (converted : Shared J)
      (w : ClientView) (now : ℕ)
      → find k s.flights ≡ some c
      → Fetched P k converted
      → Run P o owner s
      → Run P o owner (complete o anonymous k c converted w now s)

read_ok :
    {J : Type 0} (denied : Option ClientError) (same : Bool) (result : Shared J)
    (r : CachedResponse J)
    → some (no_error denied >> (guard same session_changed >> result)) ≡ some (ok r)
    → (result ≡ ok r) × (same ≡ true) × (denied ≡ none)
read_ok denied same result r h = ground arith

module _ {J : Type 0} (P : Key → CachedResponse J → Type 0) (o : CacheOptions) where
  pub Run-Inv : {owner : List Key} {s : State J} → Run P o owner s → Inv o s
  Run-Inv start = Reach-Inv o Reach.start
  Run-Inv (admits {s = s} q v stop now w r) = Step-Inv o (Step.admits q v stop now w s) (Run-Inv r)
  Run-Inv (completes {s = s} anonymous k c converted w now flying p r) =
      Step-Inv o (Step.completes anonymous k c converted w now s flying) (Run-Inv r)

  pub Run-Right : {owner : List Key} {s : State J} → Run P o owner s → Right P owner s
  Run-Right start = empty_state-Right P
  Run-Right (admits {owner = owner} {s = s} q v stop now w r) =
      (admit-Right P owner o q v stop now w s (Run-Right r)).0
  Run-Right (completes {owner = owner} {s = s} anonymous k c converted w now flying p r) =
      complete-Right P owner o anonymous k c converted w now s (Run-Inv r) (Run-Right r) flying p

  -- For any property P of responses: after any run in which each fetched answer has P for the key
  -- of its flight, a call for the key k is told an error, a cached answer that has P for k, or a
  -- channel that belongs to k. No answer crosses from another generation, method or request.
  pub admit-Granted :
      {owner : List Key} {s : State J} (q : Ask) (v : ClientView) (stop : Bool) (now : ℕ)
      (w : ClientView)
      → Run P o owner s
      → Granted P
          (key_of v.generation q)
          (owner_after P (admit o q v stop now w s).0 owner)
          (admit o q v stop now w s).0
  admit-Granted {owner} {s} q v stop now w r =
      (admit-Right P owner o q v stop now w s (Run-Right r)).1

  -- For any property P of responses, after any run in which each fetched answer has P for the key
  -- of its flight: what a waiter takes from a channel of the key k has P for k, and it is taken
  -- only while the client still has the generation of k and does not refuse the query.
  pub deliver-Granted :
      {owner : List Key} {s : State J} (anonymous : Bool) (k : Key) (c : ℕ) (w : ClientView)
      (r : CachedResponse J)
      → Run P o owner s
      → get_elem? owner c ≡ some k
      → deliver anonymous k.generation c w s ≡ some (ok r)
      → P k r × (w.generation ≡ k.generation) × (w.query_error anonymous ≡ none)
  unfolding deliver
  deliver-Granted {owner} {s} anonymous k c w r run own h =
      from_channel (get_elem? s.channels c) refl ((Run-Right run).sound k c own) h
    where
      from_channel :
          (x : Option (Option (Shared J)))
          → get_elem? s.channels c ≡ x
          → Sound P k x
          → deliver anonymous k.generation c w s ≡ some (ok r)
          → P k r × (w.generation ≡ k.generation) × (w.query_error anonymous ≡ none)
      from_channel none z p d = cc (rw (z, deliver) at d)
      from_channel (some none) z p d = cc (rw (z, deliver) at d)
      from_channel (some (some result)) z p d =
          let (is_ok, same, free) =
            read_ok (w.query_error anonymous) (w.generation == k.generation) result r
              (rw (z, deliver) at d) in
          (subst (Fetched P k) is_ok p, (==_iff _ _).0 same, free)
