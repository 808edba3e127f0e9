-- ===== src/Server/Cache/Answers.antt =====
-- server/src/cache.rs: no answer crosses a key. `P k r` is any property that a response fetched for
-- the key `k` has; `owner` is a ghost list that names the key of each channel.
use moenotes_api.Prelude.{
  Bool-cases, List, Option, Option-cases, [], arith, get_elem?, get_elem?-append_left,
  get_elem?-concat, get_elem?-concat_cases, get_elem?_lt, inl, inr, leb, length, length-append,
  lt-get_elem?, ltb, none, refl, some, ℕ, ◌&&◌, ◌++◌, ◌==◌, ◌∙◌, ◌∷◌, ◌≡◌,
}
use moenotes_api.Errors.{Result, err, ok}
use moenotes_api.Table.{find, insert, update}
use moenotes_api.Table.Laws.{
  AllEntries, AllEntries-find, AllEntries-remove, AllEntries-retain, AllEntries-update,
}
use moenotes_api.Server.Cache.{
  Admission, Ask, CacheOptions, CachedResponse, ClientView, Entry, Key, Shared, State, coalesced,
  empty_state, hit, join_or_start, key_eq, miss, purge, serve_hit,
}

module _ {J : Type 0} (P : Key → CachedResponse J → Type 0) where
  -- A result is an error, or an answer for its key.
  abbrev pub Fetched : Key → Shared J → Type 0
  Fetched k (ok r) = P k r
  Fetched k (err e) = Unit

  -- So is what a channel holds, once it holds something.
  abbrev pub Sound : Key → Option (Option (Shared J)) → Type 0
  Sound k (some (some result)) = Fetched k result
  Sound k _ = Unit

  abbrev pub EntryRight : Key → Entry J → Type 0
  EntryRight k e = P k e.response

  abbrev pub Owned : List Key → Key → ℕ → Type 0
  Owned owner k c = get_elem? owner c ≡ some k

  pub record Right (owner : List Key) (s : State J) : Type 0 where
    pub cached : AllEntries EntryRight s.cache
    pub owned : AllEntries (Owned owner) s.flights
    pub sized : length owner ≡ length s.channels
    pub sound : (k : Key) (c : ℕ) → Owned owner k c → Sound k (get_elem? s.channels c)

  -- A call that starts a flight owns the new channel.
  abbrev pub owner_after : Result (Admission J) → List Key → List Key
  owner_after (ok (miss k c)) owner = owner ++ k ∷ []
  owner_after _ owner = owner

  -- What a call for the key `k` may be told: an answer for `k`, or a channel of `k`.
  abbrev pub Granted : Key → List Key → Result (Admission J) → Type 0
  Granted k owner (ok (hit r)) = P k r
  Granted k owner (ok (coalesced c)) = Owned owner k c
  Granted k owner (ok (miss j c)) = (j ≡ k) × Owned owner k c
  Granted k owner (err e) = Unit

  pub empty_state-Right : Right [] empty_state
  empty_state-Right = record {
    cached = tt;
    owned = tt;
    sized = refl;
    sound = λ k c h. absurd (no_owner k c h);
  }
    where
      no_owner : (k : Key) (c : ℕ) → Owned [] k c → ⊥
      no_owner k c h = cc

  pub purge-Right :
      (owner : List Key) (g now : ℕ) (s : State J) → Right owner s → Right owner (purge g now s)
  unfolding purge
  purge-Right owner g now s h = record {
    cached =
        AllEntries-retain EntryRight (λ k v. k.generation == g && ltb now v.expires) s.cache
          h.cached;
    owned = h.owned;
    sized = h.sized;
    sound = h.sound;
  }

  pub serve_hit-Right :
      (owner : List Key) (k : Key) (r : CachedResponse J) (q : Ask) (w : ClientView) (now : ℕ)
      (s : State J)
      → Right owner s
      → P k r
      → Right (owner_after (serve_hit k r q w now s).0 owner) (serve_hit k r q w now s).1
        × Granted k (owner_after (serve_hit k r q w now s).0 owner) (serve_hit k r q w now s).0
  unfolding serve_hit
  serve_hit-Right owner k r q w now s h p = elim (Option-cases (w.query_error q.anonymous)) [
    | inr (e, z) ↦ rw (z, serve_hit) (h, tt)
    | inl z ↦ elim (Bool-cases (w.generation == k.generation)) [
      | inl same ↦ rw (z, serve_hit, same) (touched, p)
      | inr other ↦ rw (z, serve_hit, other) (touched, tt)
    ]
  ]
    where
      touched :
          Right owner (record s { cache = update k (λ v. record v { touched = now }) s.cache })
      touched = record {
        cached =
            AllEntries-update EntryRight k (λ v. record v { touched = now }) s.cache (λ j v g. g)
              h.cached;
        owned = h.owned;
        sized = h.sized;
        sound = h.sound;
      }

  Owned-append :
      (owner : List Key) (k : Key) (fs : List (Key × ℕ))
      → AllEntries (Owned owner) fs
      → AllEntries (Owned (owner ++ k ∷ [])) fs
  Owned-append owner k [] h = tt
  Owned-append owner k ((j, c) ∷ fs) (o, h) =
      (get_elem?-append_left owner (k ∷ []) c j o, Owned-append owner k fs h)

  -- A new channel is empty, and the others are as they were.
  Sound-append :
      (owner : List Key) (j : Key) (s : State J)
      → Right owner s
      → (k : Key) (c : ℕ) → Owned (owner ++ j ∷ []) k c
      → Sound k (get_elem? (s.channels ++ none ∷ []) c)
  Sound-append owner j s h k c o = elim (get_elem?-concat_cases owner j k c o) [
    | inl old ↦
        let (v, at) =
          get_elem?_lt s.channels c (omega (arith, lt-get_elem? owner c k old, h.sized)) in
        rw (get_elem?-append_left s.channels (none ∷ []) c v at) (rw at at (h.sound k c old))
    | inr (last, same) ↦ rw (last ∙ h.sized) (rw (get_elem?-concat s.channels none) tt)
  ]

  pub join_or_start-Right :
      (owner : List Key) (o : CacheOptions) (k : Key) (s : State J)
      → Right owner s
      → Right (owner_after (join_or_start o k s).0 owner) (join_or_start o k s).1
        × Granted k (owner_after (join_or_start o k s).0 owner) (join_or_start o k s).0
  unfolding join_or_start insert
  join_or_start-Right owner o k s h = elim (Option-cases (find k s.flights)) [
    | inr (c, z) ↦ rw (z, join_or_start) (h, AllEntries-find (Owned owner) k s.flights c h.owned z)
    | inl z ↦ elim (Bool-cases (leb o.max_inflight (length s.flights))) [
      | inl full ↦ rw (z, join_or_start, full) (h, tt)
      | inr free ↦
          rw (z, join_or_start, free)
            (
              record {
                cached = h.cached;
                owned = (
                  new_channel,
                  AllEntries-remove (Owned (owner ++ k ∷ [])) k s.flights
                      (Owned-append owner k s.flights h.owned),
                );
                sized = omega (
                  arith,
                  h.sized,
                  length-append owner (k ∷ []),
                  length-append s.channels (none ∷ []),
                );
                sound = Sound-append owner k s h;
              },
              (refl, new_channel),
            )
    ]
  ]
    where
      new_channel : Owned (owner ++ k ∷ []) k (length s.channels)
      new_channel = rw (← h.sized) (get_elem?-concat owner k)
