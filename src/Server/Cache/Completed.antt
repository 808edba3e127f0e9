-- ===== src/Server/Cache/Completed.antt =====
-- server/src/cache.rs: the end of a flight keeps the cache's invariant.
use moenotes_api.Prelude.{
  All, Bool, Bool-cases, List, List-cases, Option, [], ap, arith, false, inl, inr, length,
  length-set, none, some, true, ℕ, ◌+◌, ◌<◌, ◌∙◌, ◌∷◌, ◌≡◌, ◌≤◌,
}
use moenotes_api.Errors.{ClientError, err, ok}
use moenotes_api.Errors.Laws.{Result-cases}
use moenotes_api.Table.{find, insert, remove, total}
use moenotes_api.Table.Laws.{insert-Distinct, length-remove-le, remove-Distinct, remove-none}
use moenotes_api.Server.Cache.{
  CacheOptions, CachedResponse, ClientView, Entry, Key, Shared, State, complete, current,
  entry_size, evict, finish, key_beq_iff, key_eq, may_store, must_evict, store,
}
use moenotes_api.Server.Cache.Eviction.{Accounted, evict-keeps, evict_done}
use moenotes_api.Server.Cache.Admitted.{Apart, Apart-insert, Apart-mono, Apart-remove, Inv}

module _ {J : Type 0} where
  -- Where the eviction loop has ended, one more entry fits.
  pub room_fits :
      (o : CacheOptions) (denied : Option ClientError) (r : CachedResponse J) (t : State J)
      → Accounted t
      → must_evict o r.size t ≡ false
      → may_store o denied r ≡ true
      → (length t.cache < o.capacity) × (t.bytes + r.size ≤ o.max_bytes)
  unfolding must_evict may_store
  room_fits o denied r t a done may = elim (List-cases t.cache) [
    | inl z ↦ (rw z (ground arith), omega (arith, a.summed ∙ ap (total entry_size) z, may_size))
    | inr z ↦ (ground arith, ground arith)
  ]
    where
      may_size : r.size ≤ o.max_bytes
      may_size = ground arith

  -- Storing a response for which there is no entry keeps within the limits.
  pub store-Inv :
      (o : CacheOptions) (k : Key) (r : CachedResponse J) (now : ℕ) (denied : Option ClientError)
      (s : State J)
      → find k s.cache ≡ none
      → may_store o denied r ≡ true
      → Inv o s
      → Inv o (record (store o k r now s) { flights = remove k (store o k r now s).flights })
  unfolding store insert
  store-Inv o k r now denied s absent may i =
      let room = evict (length s.cache) o r.size s in
      let (acc, shr) =
        evict-keeps o r.size (length s.cache) s (record { keys = i.keys; summed = i.summed }) in
      let ready = evict_done o r.size (length s.cache) s (omega arith) in
      let (few, small) = room_fits o denied r room acc ready may in
      let gone = shr.absent k absent in
      let same = remove-none k room.cache gone in
      let e : Entry J = record { response = r; expires = now + o.ttl; touched = now } in
      record {
        keys = insert-Distinct k e room.cache acc.keys;
        summed = rw same (omega (arith, acc.summed));
        count = rw same few;
        size = small;
        flight_keys = remove-Distinct k room.flights (rw shr.flights i.flight_keys);
        inflight = rw shr.flights (omega (arith, length-remove-le k s.flights, i.inflight));
        apart = Apart-insert room.cache (length room.channels) k e room.flights (
            rw (shr.flights, shr.channels)
              (Apart-mono s.cache room.cache _ (length s.channels) s.flights shr.absent
                (omega arith) i.apart));
      }

  pub finish-Inv :
      (o : CacheOptions) (k : Key) (c : ℕ) (result : Shared J) (s : State J)
      → Inv o (record s { flights = remove k s.flights })
      → Inv o (finish k c result s)
  unfolding finish
  finish-Inv o k c result s i = record {
    keys = i.keys;
    summed = i.summed;
    count = i.count;
    size = i.size;
    flight_keys = i.flight_keys;
    inflight = i.inflight;
    apart = rw (length-set s.channels c (some result)) i.apart;
  }

  -- A flight's end drops it.
  pub drop_flight-Inv :
      (o : CacheOptions) (k : Key) (s : State J)
      → Inv o s
      → Inv o (record s { flights = remove k s.flights })
  drop_flight-Inv o k s i = record {
    keys = i.keys;
    summed = i.summed;
    count = i.count;
    size = i.size;
    flight_keys = remove-Distinct k s.flights i.flight_keys;
    inflight = omega (arith, length-remove-le k s.flights, i.inflight);
    apart = Apart-remove s.cache (length s.channels) k s.flights i.apart;
  }

  pub Apart-find :
      (c : List (Key × Entry J)) (n : ℕ) (k : Key) (i : ℕ) (fs : List (Key × ℕ))
      → All (Apart c n) fs
      → find k fs ≡ some i
      → (find k c ≡ none) × (i < n)
  unfolding find
  Apart-find c n k i [] h e = cc
  Apart-find c n k i ((j, x) ∷ fs) ((a, b), h) e =
      ground (arith, Apart-find c n k i fs h, key_beq_iff j k)

  pub complete-Inv :
      (o : CacheOptions) (anonymous : Bool) (k : Key) (c : ℕ) (converted : Shared J)
      (w : ClientView) (now : ℕ) (s : State J)
      → find k s.flights ≡ some c
      → Inv o s
      → Inv o (complete o anonymous k c converted w now s)
  unfolding complete
  complete-Inv o anonymous k c converted w now s flying i =
      let (absent, _) = Apart-find s.cache (length s.channels) k c s.flights i.apart flying in
      elim (Result-cases (current k w converted)) [
        | inr (e, z) ↦ rw (z, complete) (finish-Inv o k c (err e) s (drop_flight-Inv o k s i))
        | inl (r, z) ↦ elim (Bool-cases (may_store o (w.query_error anonymous) r)) [
          | inl may ↦
              rw (z, complete, may)
                (finish-Inv o k c (ok r) (store o k r now s)
                  (store-Inv o k r now (w.query_error anonymous) s absent may i))
          | inr not_may ↦
              rw (z, complete, not_may) (finish-Inv o k c (ok r) s (drop_flight-Inv o k s i))
        ]
      ]
