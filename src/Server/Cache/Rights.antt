-- ===== src/Server/Cache/Rights.antt =====
-- server/src/cache.rs: admitting a call and ending a flight keep every answer at its key.
use moenotes_api.Prelude.{
  Bool, Bool-cases, List, Option-cases, arith, get_elem?, get_elem?-set_ne, get_elem?-set_self, inl,
  inr, length, length-set, lt-get_elem?, refl, set, some, subst, suc, sym, zero, ℕ, ℕ_discrete,
  ◌==◌, ◌∙◌, ◌≡◌,
}
use moenotes_api.Errors.{err, error_of, ok, session_changed}
use moenotes_api.Errors.Laws.{Result-cases}
use moenotes_api.Table.{find, insert}
use moenotes_api.Table.Laws.{AllEntries, AllEntries-find, AllEntries-remove}
use moenotes_api.Server.Cache.{
  Ask, CacheOptions, CachedResponse, ClientView, Key, Shared, State, admit, complete, current,
  drop_entry, evict, evict_oldest, finish, key_eq, key_of, may_store, must_evict, oldest, precheck,
  purge, store,
}
use moenotes_api.Server.Cache.Eviction.{evict-keeps}
use moenotes_api.Server.Cache.Answers.{
  EntryRight, Fetched, Granted, Owned, Right, Sound, join_or_start-Right, owner_after, purge-Right,
  serve_hit-Right,
}
use moenotes_api.Server.Cache.Admitted.{Inv}

module _ {J : Type 0} (P : Key → CachedResponse J → Type 0) where
  pub admit-Right :
      (owner : List Key) (o : CacheOptions) (q : Ask) (v : ClientView) (stop : Bool) (now : ℕ)
      (w : ClientView) (s : State J)
      → Right P owner s
      → Right P (owner_after P (admit o q v stop now w s).0 owner) (admit o q v stop now w s).1
        × Granted P
            (key_of v.generation q)
            (owner_after P (admit o q v stop now w s).0 owner)
            (admit o q v stop now w s).0
  unfolding admit
  admit-Right owner o q v stop now w s h = elim (Result-cases (precheck o q v stop)) [
    | inr (e, z) ↦ rw (z, admit) (h, tt)
    | inl (_, z) ↦
        let k = key_of v.generation q in
        let live = purge-Right P owner v.generation now s h in
        elim (Option-cases (find k (purge v.generation now s).cache)) [
          | inr (e, found) ↦
              rw (z, admit, found)
                (serve_hit-Right P owner k e.response q w now (purge v.generation now s) live
                  (AllEntries-find (EntryRight P) k _ e live.cached found))
          | inl absent ↦
              rw (z, admit, absent)
                (join_or_start-Right P owner o k (purge v.generation now s) live)
        ]
  ]

  evict-Right :
      (fuel : ℕ) (o : CacheOptions) (size : ℕ) (s : State J)
      → AllEntries (EntryRight P) s.cache
      → AllEntries (EntryRight P) (evict fuel o size s).cache
  unfolding evict
  evict-Right zero o size s h = h
  evict-Right (suc fuel) o size s h = elim (Bool-cases (must_evict o size s)) [
    | inr done ↦ rw (done, evict) h
    | inl more ↦ rw (more, evict) (evict-Right fuel o size (evict_oldest s) dropped)
  ]
    where
      dropped : AllEntries (EntryRight P) (evict_oldest s).cache
      dropped = elim (Option-cases (oldest s.cache)) [
        | inl z ↦ rw (z, evict_oldest) h
        | inr (k, z) ↦ elim (Option-cases (find k s.cache)) [
          | inl y ↦ rw (z, evict_oldest, y, drop_entry) h
          | inr (e, y) ↦
              rw (z, evict_oldest, y, drop_entry) (AllEntries-remove (EntryRight P) k s.cache h)
        ]
      ]

  -- The end of a flight of `k` writes its own channel only.
  finish-Right :
      (owner : List Key) (k : Key) (c : ℕ) (result : Shared J) (s t : State J)
      → Right P owner s
      → find k s.flights ≡ some c
      → Fetched P k result
      → t.channels ≡ s.channels
      → t.flights ≡ s.flights
      → AllEntries (EntryRight P) t.cache
      → Right P owner (finish k c result t)
  unfolding finish
  finish-Right owner k c result s t h flying p chans flights cached = record {
    cached = cached;
    owned = rw flights (AllEntries-remove (Owned P owner) k s.flights h.owned);
    sized = rw chans (h.sized ∙ sym (length-set s.channels c (some result)));
    sound = sound;
  }
    where
      mine : get_elem? owner c ≡ some k
      mine = AllEntries-find (Owned P owner) k s.flights c h.owned flying

      one_owner : (i : ℕ) (j : Key) → c ≡ i → get_elem? owner i ≡ some j → k ≡ j
      one_owner i j same o = cc (mine)

      sound :
          (j : Key) (i : ℕ)
          → Owned P owner j i
          → Sound P j (get_elem? (set t.channels c (some result)) i)
      sound j i o = elim (ℕ_discrete c i) [
        | yes same ↦
            rw (chans, ← same)
              (rw
                (get_elem?-set_self s.channels c (some result)
                  (omega (arith, lt-get_elem? owner c k mine, h.sized)))
                (subst (λ x. Fetched P x result) (one_owner i j same o) p))
        | no other ↦ rw (chans, get_elem?-set_ne s.channels c i (some result) other) (h.sound j i o)
      ]

  store-cached :
      (o : CacheOptions) (k : Key) (r : CachedResponse J) (now : ℕ) (s : State J)
      → AllEntries (EntryRight P) s.cache
      → P k r
      → AllEntries (EntryRight P) (store o k r now s).cache
  unfolding store insert
  store-cached o k r now s h p =
      (p, AllEntries-remove (EntryRight P) k _ (evict-Right (length s.cache) o r.size s h))

  store_flights :
      (o : CacheOptions) (k : Key) (r : CachedResponse J) (now : ℕ) (s : State J)
      → Inv o s
      → ((store o k r now s).flights ≡ s.flights) × ((store o k r now s).channels ≡ s.channels)
  unfolding store
  store_flights o k r now s i =
      let (_, shr) =
        evict-keeps o r.size (length s.cache) s (record { keys = i.keys; summed = i.summed }) in
      (shr.flights, shr.channels)

  pub complete-Right :
      (owner : List Key) (o : CacheOptions) (anonymous : Bool) (k : Key) (c : ℕ)
      (converted : Shared J) (w : ClientView) (now : ℕ) (s : State J)
      → Inv o s
      → Right P owner s
      → find k s.flights ≡ some c
      → Fetched P k converted
      → Right P owner (complete o anonymous k c converted w now s)
  unfolding complete
  complete-Right owner o anonymous k c converted w now s i h flying p =
      elim (Result-cases (current k w converted)) [
        | inr (e, z) ↦
            rw (z, complete) (finish-Right owner k c (err e) s s h flying tt refl refl h.cached)
        | inl (r, z) ↦
            let fetched = ok_fetched r z in
            elim (Bool-cases (may_store o (w.query_error anonymous) r)) [
              | inl may ↦
                  let (fl, ch) = store_flights o k r now s i in
                  rw (z, complete, may)
                    (finish-Right owner k c (ok r) s (store o k r now s) h flying fetched ch fl
                      (store-cached o k r now s h.cached fetched))
              | inr not_may ↦
                  rw (z, complete, not_may)
                    (finish-Right owner k c (ok r) s s h flying fetched refl refl h.cached)
            ]
      ]
    where
      ok_fetched : (r : CachedResponse J) → current k w converted ≡ ok r → P k r
      ok_fetched r z = elim (Bool-cases (w.generation == k.generation)) [
        | inl same ↦ subst (Fetched P k) (rw same at z) p
        | inr other ↦ absurd (no_result (rw other at z))
      ]
        where
          no_result : err (error_of session_changed) ≡ ok r → ⊥
          no_result e = cc
