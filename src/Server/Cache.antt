-- ===== src/Server/Cache.antt =====
-- server/src/cache.rs: the bounded cache of one session, and the coalescing of equal requests.
-- A call is cut where the source awaits or takes the lock: `admit` up to the lookup under the
-- lock, `complete` for the end of the spawned task, `deliver` for the waiter that reads its
-- channel. What the client answers at each of these moments is an argument.
pub mod Eviction
pub mod Room
pub mod Admitted
pub mod Completed
pub mod Invariant
pub mod Answers
pub mod Rights
pub mod Isolation
mod Tests
use moenotes_api.Prelude.{
  Bool, List, Option, String, [], arith, false, get_elem?, if◌then◌else◌, is_empty, is_none, leb,
  length, ltb, none, not, refl, set, some, str_eq, str_eq_iff, suc, true, zero, ℕ, ◌&&◌, ◌*◌, ◌++◌,
  ◌+◌, ◌-◌, ◌==◌, ◌||◌, ◌↔◌, ◌∷◌, ◌≡◌,
}
use moenotes_api.Errors.{
  ClientError, Result, cancelled, err, error_of, guard, invalid_config, ok, protocol, queue_full,
  require, session_changed, ◌>>=◌, ◌>>◌,
}
use moenotes_api.Table.{Eq, find, insert, remove, retain, total, update}
use moenotes_api.Client.Session.Operation.{QueryResponse}

pub record Key : Type 0 where
  pub generation : ℕ
  pub method : String
  pub request : List ℕ

abbrev pub bytes_eq : List ℕ → List ℕ → Bool
bytes_eq [] [] = true
bytes_eq (x ∷ xs) (y ∷ ys) = x == y && bytes_eq xs ys
bytes_eq _ _ = false

abbrev pub key_beq : Key → Key → Bool
key_beq a b =
    a.generation == b.generation && str_eq a.method b.method && bytes_eq a.request b.request

pub bytes_eq_iff : (xs ys : List ℕ) → (bytes_eq xs ys ≡ true) ↔ (xs ≡ ys)
bytes_eq_iff [] [] = (λ h. refl, λ h. refl)
bytes_eq_iff [] (y ∷ ys) = (λ h. cc, λ h. cc)
bytes_eq_iff (x ∷ xs) [] = (λ h. cc, λ h. cc)
bytes_eq_iff (x ∷ xs) (y ∷ ys) =
    (λ h. ground (arith, bytes_eq_iff xs ys), λ h. ground (arith, bytes_eq_iff xs ys))

pub key_beq_iff : (a b : Key) → (key_beq a b ≡ true) ↔ (a ≡ b)
key_beq_iff a b = (
  λ h. ground (arith, str_eq_iff a.method b.method, bytes_eq_iff a.request b.request),
  λ h. ground (arith, str_eq_iff a.method b.method, bytes_eq_iff a.request b.request),
)

instance abbrev pub key_eq : Eq Key
key_eq = record { beq = key_beq; beq_iff = key_beq_iff }

-- Times and durations are in milliseconds.
pub record CacheOptions : Type 0 where
  pub ttl : ℕ
  pub capacity : ℕ
  pub max_bytes : ℕ
  pub max_inflight : ℕ

abbrev pub default_options : CacheOptions
default_options = record {
  ttl = 15000;
  capacity = 1024;
  max_bytes = 64 * 1024 * 1024;
  max_inflight = 32;
}

pub validate : CacheOptions → Result (Unit {0})
validate o =
    if ltb 3600000 o.ttl || ltb 16384 o.capacity then err (error_of invalid_config) else ok tt

-- `QueryClient::generation` and `query_error`, as they answer at one moment.
pub record ClientView : Type 0 where
  pub generation : ℕ
  pub query_error : Bool → Option ClientError

-- A query as the cache reads it: `validate()`, `method()` and `encode()`.
pub record Ask : Type 0 where
  pub checked : Result (Unit {0})
  pub anonymous : Bool
  pub method : String
  pub request : List ℕ

pub record CachedResponse (J : Type 0) : Type 0 where
  pub json : J
  pub fetched_at : ℕ
  pub size : ℕ

pub record Entry (J : Type 0) : Type 0 where
  pub response : CachedResponse J
  pub expires : ℕ
  pub touched : ℕ

-- `SharedResult`; a flight is the index of its watch channel, which holds `none` until the send.
abbrev pub Shared : Type 0 → Type 0
Shared J = Result (CachedResponse J)

pub record State (J : Type 0) : Type 0 where
  pub cache : List (Key × Entry J)
  pub flights : List (Key × ℕ)
  pub bytes : ℕ
  pub channels : List (Option (Shared J))

pub data Admission (J : Type 0) : Type 0 where
  hit : CachedResponse J → Admission J
  coalesced : ℕ → Admission J
  miss : Key → ℕ → Admission J

abbrev pub key_of : ℕ → Ask → Key
key_of g q = record { generation = g; method = q.method; request = q.request }

-- `if let Some(error) = ... { return Err(error) }`
abbrev pub no_error : Option ClientError → Result (Unit {0})
no_error none = ok tt
no_error (some e) = err e

-- The tests before the lock.
pub precheck : CacheOptions → Ask → ClientView → Bool → Result (Unit {0})
unfolding validate
precheck o q v stop = do
  validate o
  q.checked
  no_error (v.query_error q.anonymous)
  guard (not stop) cancelled

-- A channel's value, none also where there is no such channel.
abbrev pub sent : {J : Type 0} → Option (Option J) → Option J
sent none = none
sent (some v) = v

-- After the call has come back a change of generation replaces the result.
abbrev pub current : {J : Type 0} → Key → ClientView → Shared J → Shared J
current k w result = if w.generation == k.generation then result else err (error_of session_changed)

module _ {J : Type 0} where
  abbrev pub entry_size : Entry J → ℕ
  entry_size e = e.response.size

  abbrev pub empty_state : State J
  empty_state = record { cache = []; flights = []; bytes = 0; channels = [] }

  -- `retain` drops what is of another generation or has expired, and `bytes` is summed anew.
  pub purge : ℕ → ℕ → State J → State J
  purge g now s = record s { cache = live; bytes = total entry_size live }
    where
      live : List (Key × Entry J)
      live = retain (λ k v. k.generation == g && ltb now v.expires) s.cache

  -- An entry is found: the client is asked again before it is handed out.
  pub serve_hit :
      Key → CachedResponse J → Ask → ClientView → ℕ → State J → Result (Admission J) × State J
  serve_hit k r q w now s = elim (w.query_error q.anonymous) [
    | some e ↦ (err e, s)
    | none ↦ (
      if w.generation == k.generation then ok (hit r) else err (error_of session_changed),
      record s { cache = update k (λ v. record v { touched = now }) s.cache },
    )
  ]

  -- Nothing cached: join the flight of the same key, or start one.
  pub join_or_start : CacheOptions → Key → State J → Result (Admission J) × State J
  join_or_start o k s = elim (find k s.flights) [
    | some c ↦ (ok (coalesced c), s)
    | none ↦ if leb o.max_inflight (length s.flights) then (err (error_of queue_full), s) else (
      ok (miss k (length s.channels)),
      record s {
        flights = insert k (length s.channels) s.flights;
        channels = s.channels ++ none ∷ [];
      },
    )
  ]

  -- `query` up to the point where it drops the lock. `v` is the client before the lock, `w` under it.
  pub admit :
      CacheOptions
      → Ask
      → ClientView
      → Bool
      → ℕ
      → ClientView
      → State J
      → Result (Admission J) × State J
  unfolding precheck purge serve_hit join_or_start
  admit o q v stop now w s = elim (precheck o q v stop) [
    | err e ↦ (err e, s)
    | ok _ ↦
        let k = key_of v.generation q in
        let live = purge v.generation now s in
        elim (find k live.cache) [
          | some e ↦ serve_hit k e.response q w now live
          | none ↦ join_or_start o k live
        ]
  ]

  -- `min_by_key` gives the first of several least elements.
  pub oldest_from : Key → ℕ → List (Key × Entry J) → Key
  oldest_from k t [] = k
  oldest_from k t ((j, f) ∷ m) =
      if ltb f.touched t then oldest_from j f.touched m else oldest_from k t m

  pub oldest : List (Key × Entry J) → Option Key
  unfolding oldest_from
  oldest [] = none
  oldest ((k, e) ∷ m) = some (oldest_from k e.touched m)

  pub drop_entry : Key → State J → State J
  drop_entry k s = elim (find k s.cache) [
    | none ↦ s
    | some e ↦ record s { cache = remove k s.cache; bytes = s.bytes - entry_size e }
  ]

  pub evict_oldest : State J → State J
  unfolding oldest drop_entry
  evict_oldest s = elim (oldest s.cache) [ none ↦ s | some k ↦ drop_entry k s ]

  -- The `while` loop that makes room for `size` more bytes; each round removes the entry that was
  -- touched longest ago. Its fuel is the number of entries.
  pub must_evict : CacheOptions → ℕ → State J → Bool
  must_evict o size s =
      not (is_empty s.cache)
      && (leb o.capacity (length s.cache) || ltb o.max_bytes (s.bytes + size))

  pub evict : ℕ → CacheOptions → ℕ → State J → State J
  unfolding must_evict evict_oldest
  evict zero o size s = s
  evict (suc fuel) o size s = elim (must_evict o size s) [
    | true ↦ evict fuel o size (evict_oldest s)
    | false ↦ s
  ]

  -- The condition under which a response is stored.
  pub may_store : CacheOptions → Option ClientError → CachedResponse J → Bool
  may_store o denied r =
      is_none denied && (not (o.capacity == 0) && (not (o.ttl == 0) && leb r.size o.max_bytes))

  pub store : CacheOptions → Key → CachedResponse J → ℕ → State J → State J
  unfolding evict
  store o k r now s =
      let room = evict (length s.cache) o r.size s in
      record room {
        bytes = room.bytes + r.size;
        cache = insert k (record { response = r; expires = now + o.ttl; touched = now }) room.cache;
      }

  -- `sender.send_replace(Some(result))` and `flights.remove(&key)`.
  pub finish : Key → ℕ → Shared J → State J → State J
  finish k c result s = record s {
    channels = set s.channels c (some result);
    flights = remove k s.flights;
  }

  -- The end of the spawned task, under the lock: `converted` is the executed and converted response,
  -- `w` the client as it answers now.
  pub complete : CacheOptions → Bool → Key → ℕ → Shared J → ClientView → ℕ → State J → State J
  unfolding may_store store finish
  complete o anonymous k c converted w now s = elim (current k w converted) [
    | err e ↦ finish k c (err e) s
    | ok r ↦
        finish k c (ok r) (if may_store o (w.query_error anonymous) r then store o k r now s else s)
  ]

  -- A waiter reads its channel: `none` while it has to wait.
  pub deliver : Bool → ℕ → ℕ → ClientView → State J → Option (Shared J)
  deliver anonymous g c w s = elim (sent (get_elem? s.channels c)) [
    | none ↦ none
    | some result ↦
        some
          (do no_error (w.query_error anonymous); guard (w.generation == g) session_changed; result)
  ]

-- What ends a waiter's `select!`: the service stops, the sender is gone, or there is a value to read.
pub data Wake : Type 0 where
  service_stopped sender_dropped value_changed : Wake

abbrev pub woken : Wake → Result (Unit {0})
woken service_stopped = err (error_of cancelled)
woken sender_dropped = err (error_of protocol)
woken value_changed = ok tt

-- `execute(...).await.and_then(...)`: `to_json` and the length of its print are those of
-- `prost_reflect` and `serde_json`; `after` is the client's generation once the call is back.
module _ {J M : Type 0} (to_json : M → Option J) (json_size : J → Option ℕ) where
  pub convert : ℕ → ℕ → Result (QueryResponse M) → Shared J
  convert g after executed = do
    r ← executed
    guard (r.generation == g && after == g) session_changed
    json ← require (to_json r.message) protocol
    size ← require (json_size json) protocol
    ok (record { json = json; fetched_at = r.fetched_at; size = size })
