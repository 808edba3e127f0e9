-- ===== src/Server/Cache/Admitted.antt =====
-- server/src/cache.rs: what a state of the cache keeps to, and that admitting a call keeps to it.
use moenotes_api.Prelude.{
  All, Bool, Bool-cases, List, Option-cases, [], arith, inl, inr, leb, length, length-append, ltb,
  none, refl, sym, ℕ, ◌&&◌, ◌++◌, ◌<◌, ◌==◌, ◌∙◌, ◌∷◌, ◌≡◌, ◌≤◌,
}
use moenotes_api.Errors.Laws.{Result-cases}
use moenotes_api.Table.{Distinct, find, insert, remove, total}
use moenotes_api.Table.Laws.{
  find-remove-none, find-retain-none, find-update-none, insert-Distinct, length-retain-le,
  length-update, remove-none, retain-Distinct, total-retain-le, total-update, update-Distinct,
}
use moenotes_api.Server.Cache.{
  Ask, CacheOptions, CachedResponse, ClientView, Entry, Key, State, admit, empty_state, entry_size,
  join_or_start, key_beq_iff, key_eq, key_of, precheck, purge, serve_hit,
}

module _ {J : Type 0} where
  -- Every flight's key is not cached, and its channel exists.
  abbrev pub Apart : List (Key × Entry J) → ℕ → Key × ℕ → Type 0
  Apart cache channels f = (find f.0 cache ≡ none) × (f.1 < channels)

  pub record Inv (o : CacheOptions) (s : State J) : Type 0 where
    pub keys : Distinct s.cache
    pub summed : s.bytes ≡ total entry_size s.cache
    pub count : length s.cache ≤ o.capacity
    pub size : s.bytes ≤ o.max_bytes
    pub flight_keys : Distinct s.flights
    pub inflight : length s.flights ≤ o.max_inflight
    pub apart : All (Apart s.cache (length s.channels)) s.flights

  pub empty_state-Inv : (o : CacheOptions) → Inv o empty_state
  empty_state-Inv o = record {
    keys = tt;
    summed = omega arith;
    count = omega arith;
    size = omega arith;
    flight_keys = tt;
    inflight = omega arith;
    apart = tt;
  }

  -- A cache with fewer keys, and more channels, keeps the flights apart.
  pub Apart-mono :
      (c d : List (Key × Entry J)) (m n : ℕ) (fs : List (Key × ℕ))
      → ((k : Key) → find k c ≡ none → find k d ≡ none)
      → m ≤ n
      → All (Apart c m) fs
      → All (Apart d n) fs
  Apart-mono c d m n [] sub le h = tt
  Apart-mono c d m n ((k, i) ∷ fs) sub le ((a, b), h) =
      ((sub k a, omega arith), Apart-mono c d m n fs sub le h)

  pub Apart-remove :
      (c : List (Key × Entry J)) (n : ℕ) (k : Key) (fs : List (Key × ℕ))
      → All (Apart c n) fs
      → All (Apart c n) (remove k fs)
  unfolding remove
  Apart-remove c n k [] h = tt
  Apart-remove c n k ((j, i) ∷ fs) h = ground (arith, Apart-remove c n k fs h.1)

  -- With the key's own flight gone, the key may enter the cache.
  pub Apart-insert :
      (c : List (Key × Entry J)) (n : ℕ) (k : Key) (e : Entry J) (fs : List (Key × ℕ))
      → All (Apart c n) fs
      → All (Apart (insert k e c) n) (remove k fs)
  unfolding remove insert find
  Apart-insert c n k e [] h = tt
  Apart-insert c n k e ((j, i) ∷ fs) ((a, b), h) =
      ground (
        arith,
        Apart-insert c n k e fs h,
        find-remove-none j k c a,
        key_beq_iff j k,
        key_beq_iff k j,
      )

  pub purge-Inv : (o : CacheOptions) (g now : ℕ) (s : State J) → Inv o s → Inv o (purge g now s)
  unfolding purge
  purge-Inv o g now s v =
      let p = λ (k : Key) (e : Entry J). k.generation == g && ltb now e.expires in
      record {
        keys = retain-Distinct p s.cache v.keys;
        summed = refl;
        count = omega (arith, length-retain-le p s.cache, v.count);
        size = omega (arith, total-retain-le entry_size p s.cache, v.size, v.summed);
        flight_keys = v.flight_keys;
        inflight = v.inflight;
        apart =
            Apart-mono s.cache _ _ _ s.flights (λ k. find-retain-none k p s.cache) (omega arith)
              v.apart;
      }

  pub serve_hit-Inv :
      (o : CacheOptions) (k : Key) (r : CachedResponse J) (q : Ask) (w : ClientView) (now : ℕ)
      (s : State J)
      → Inv o s
      → Inv o (serve_hit k r q w now s).1
  unfolding serve_hit
  serve_hit-Inv o k r q w now s v = elim (Option-cases (w.query_error q.anonymous)) [
    | inr (e, z) ↦ rw (z, serve_hit) v
    | inl z ↦
        rw (z, serve_hit)
          (let f = λ (x : Entry J). record x { touched = now } in
            record {
              keys = update-Distinct k f s.cache v.keys;
              summed = v.summed ∙ sym (total-update entry_size k f s.cache (λ x. refl));
              count = omega (arith, length-update k f s.cache, v.count);
              size = v.size;
              flight_keys = v.flight_keys;
              inflight = v.inflight;
              apart =
                  Apart-mono s.cache _ _ _ s.flights (λ j. find-update-none j k f s.cache)
                    (omega arith) v.apart;
            })
  ]

  pub join_or_start-Inv :
      (o : CacheOptions) (k : Key) (s : State J)
      → find k s.cache ≡ none
      → Inv o s
      → Inv o (join_or_start o k s).1
  unfolding join_or_start insert
  join_or_start-Inv o k s absent v = elim (Option-cases (find k s.flights)) [
    | inr (c, z) ↦ rw (z, join_or_start) v
    | inl z ↦ elim (Bool-cases (leb o.max_inflight (length s.flights))) [
      | inl full ↦ rw (z, join_or_start, full) v
      | inr free ↦
          rw (z, join_or_start, free)
            (record {
              keys = v.keys;
              summed = v.summed;
              count = v.count;
              size = v.size;
              flight_keys = insert-Distinct k (length s.channels) s.flights v.flight_keys;
              inflight = ground (arith, remove-none k s.flights z);
              apart = (
                (absent, omega (arith, length-append s.channels (none ∷ []))),
                Apart-remove s.cache (length (s.channels ++ none ∷ [])) k s.flights (
                    Apart-mono s.cache s.cache _ _ s.flights (λ j h. h)
                      (omega (arith, length-append s.channels (none ∷ []))) v.apart),
              );
            })
    ]
  ]

  pub admit-Inv :
      (o : CacheOptions) (q : Ask) (v : ClientView) (stop : Bool) (now : ℕ) (w : ClientView)
      (s : State J)
      → Inv o s
      → Inv o (admit o q v stop now w s).1
  unfolding admit
  admit-Inv o q v stop now w s i = elim (Result-cases (precheck o q v stop)) [
    | inr (e, z) ↦ rw (z, admit) i
    | inl (_, z) ↦
        elim (Option-cases (find (key_of v.generation q) (purge v.generation now s).cache)) [
          | inr (e, found) ↦
              rw (z, admit, found)
                (serve_hit-Inv o (key_of v.generation q) e.response q w now _
                  (purge-Inv o v.generation now s i))
          | inl absent ↦
              rw (z, admit, absent)
                (join_or_start-Inv o (key_of v.generation q) _ absent
                  (purge-Inv o v.generation now s i))
        ]
  ]
