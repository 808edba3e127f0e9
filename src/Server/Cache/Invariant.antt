-- ===== src/Server/Cache/Invariant.antt =====
-- server/src/cache.rs: the invariant over every run of calls and ends of flights.
use moenotes_api.Prelude.{Bool, some, ℕ, ◌≡◌}
use moenotes_api.Table.{find}
use moenotes_api.Server.Cache.{
  Ask, CacheOptions, ClientView, Key, Shared, State, admit, complete, empty_state, key_eq,
}
use moenotes_api.Server.Cache.Admitted.{Inv, admit-Inv, empty_state-Inv}
use moenotes_api.Server.Cache.Completed.{complete-Inv}

-- What can happen to the state: a call is admitted, or the task of a flight ends. Waiters only read.
pub data Step {J : Type 0} (o : CacheOptions) : State J → State J → Type 0 where
  admits :
      (q : Ask) (v : ClientView) (stop : Bool) (now : ℕ) (w : ClientView) (s : State J)
      → Step o s (admit o q v stop now w s).1
  completes :
      (anonymous : Bool) (k : Key) (c : ℕ) (converted : Shared J) (w : ClientView) (now : ℕ)
      (s : State J)
      → find k s.flights ≡ some c
      → Step o s (complete o anonymous k c converted w now s)

pub data Reach {J : Type 0} (o : CacheOptions) : State J → Type 0 where
  start : Reach o empty_state
  next : {s t : State J} → Reach o s → Step o s t → Reach o t

module _ {J : Type 0} where
  pub Step-Inv : (o : CacheOptions) {s t : State J} → Step o s t → Inv o s → Inv o t
  Step-Inv o (admits q v stop now w s) i = admit-Inv o q v stop now w s i
  Step-Inv o (completes anonymous k c converted w now s flying) i =
      complete-Inv o anonymous k c converted w now s flying i

  -- Whatever calls are made and however their tasks end: no key stands twice in the cache, it
  -- holds at most `capacity` entries of at most `max_bytes` bytes together, `bytes` is the sum of
  -- their sizes, at most `max_inflight` flights are open and at most one for a key, no flight is
  -- open for a cached key, and each has its channel.
  pub Reach-Inv : (o : CacheOptions) {s : State J} → Reach o s → Inv o s
  Reach-Inv o start = empty_state-Inv o
  Reach-Inv o (next r st) = Step-Inv o st (Reach-Inv o r)
