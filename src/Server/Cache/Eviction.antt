-- ===== src/Server/Cache/Eviction.antt =====
-- server/src/cache.rs: the eviction loop makes room and removes nothing else.
use moenotes_api.Prelude.{
  Bool-cases, List, Option-cases, [], arith, false, inl, inr, is_empty, is_empty-pos, length, none,
  refl, some, suc, true, zero, ℕ, ◌<◌, ◌∙◌, ◌∷◌, ◌≡◌, ◌≢◌, ◌≤◌,
}
use moenotes_api.Table.{Distinct, find, total}
use moenotes_api.Table.Laws.{
  find-remove-none, length-remove-le, length-remove-lt, remove-Distinct, total-remove,
}
use moenotes_api.Server.Cache.{
  CacheOptions, Entry, Key, State, drop_entry, entry_size, evict, evict_oldest, key_beq_iff, key_eq,
  must_evict, oldest, oldest_from,
}

module _ {J : Type 0} where
  oldest_from-mem :
      (k : Key) (t : ℕ) (e : Entry J) (m : List (Key × Entry J))
      → find (oldest_from k t m) ((k, e) ∷ m) ≢ none
  unfolding oldest_from find
  oldest_from-mem k t e [] h = ground (arith, key_beq_iff k k)
  oldest_from-mem k t e ((j, f) ∷ m) h =
      ground (arith, oldest_from-mem k t e m, oldest_from-mem j f.touched f m)

  oldest-mem : (m : List (Key × Entry J)) (k : Key) → oldest m ≡ some k → find k m ≢ none
  unfolding oldest
  oldest-mem [] k h = cc
  oldest-mem ((k', e) ∷ m) k h = ground (arith, oldest_from-mem k' e.touched e m)

  oldest_some : (m : List (Key × Entry J)) → is_empty m ≡ false → oldest m ≢ none
  unfolding oldest
  oldest_some [] h = cc
  oldest_some (x ∷ m) h = ground arith

  -- What the eviction loop keeps: the keys are distinct and the byte count is the sum.
  pub record Accounted (s : State J) : Type 0 where
    pub keys : Distinct s.cache
    pub summed : s.bytes ≡ total entry_size s.cache

  -- `t` is `s` with some entries dropped.
  pub record Shrunk (s t : State J) : Type 0 where
    pub flights : t.flights ≡ s.flights
    pub channels : t.channels ≡ s.channels
    pub count : length t.cache ≤ length s.cache
    pub bytes : t.bytes ≤ s.bytes
    pub absent : (k : Key) → find k s.cache ≡ none → find k t.cache ≡ none

  Shrunk-refl : (s : State J) → Shrunk s s
  Shrunk-refl s = record {
    flights = refl;
    channels = refl;
    count = omega arith;
    bytes = omega arith;
    absent = λ k h. h;
  }

  Shrunk-trans : (s t u : State J) → Shrunk s t → Shrunk t u → Shrunk s u
  Shrunk-trans s t u p q = record {
    flights = q.flights ∙ p.flights;
    channels = q.channels ∙ p.channels;
    count = omega arith;
    bytes = omega arith;
    absent = λ k h. q.absent k (p.absent k h);
  }

  drop_entry-Accounted : (k : Key) (s : State J) → Accounted s → Accounted (drop_entry k s)
  unfolding drop_entry
  drop_entry-Accounted k s a = elim (Option-cases (find k s.cache)) [
    | inl z ↦ rw (z, drop_entry) a
    | inr (e, z) ↦
        rw (z, drop_entry)
          (record {
            keys = remove-Distinct k s.cache a.keys;
            summed = omega (arith, total-remove entry_size k s.cache e a.keys z, a.summed);
          })
  ]

  drop_entry-Shrunk : (k : Key) (s : State J) → Shrunk s (drop_entry k s)
  unfolding drop_entry
  drop_entry-Shrunk k s = elim (Option-cases (find k s.cache)) [
    | inl z ↦ rw (z, drop_entry) (Shrunk-refl s)
    | inr (e, z) ↦
        rw (z, drop_entry)
          (record {
            flights = refl;
            channels = refl;
            count = length-remove-le k s.cache;
            bytes = omega arith;
            absent = λ j h. find-remove-none j k s.cache h;
          })
  ]

  drop_entry-shorter :
      (k : Key) (s : State J)
      → find k s.cache ≢ none
      → length (drop_entry k s).cache < length s.cache
  unfolding drop_entry
  drop_entry-shorter k s h = elim (Option-cases (find k s.cache)) [
    | inl z ↦ absurd (h z)
    | inr (e, z) ↦ rw (z, drop_entry) (length-remove-lt k s.cache e z)
  ]

  evict_oldest-keeps :
      (s : State J) → Accounted s → Accounted (evict_oldest s) × Shrunk s (evict_oldest s)
  unfolding evict_oldest
  evict_oldest-keeps s a = elim (Option-cases (oldest s.cache)) [
    | inl z ↦ rw (z, evict_oldest) (a, Shrunk-refl s)
    | inr (k, z) ↦ rw (z, evict_oldest) (drop_entry-Accounted k s a, drop_entry-Shrunk k s)
  ]

  evict_oldest-shorter :
      (s : State J) → is_empty s.cache ≡ false → length (evict_oldest s).cache < length s.cache
  unfolding evict_oldest
  evict_oldest-shorter s h = elim (Option-cases (oldest s.cache)) [
    | inl z ↦ absurd (oldest_some s.cache h z)
    | inr (k, z) ↦ rw (z, evict_oldest) (drop_entry-shorter k s (oldest-mem s.cache k z))
  ]

  module _ (o : CacheOptions) (size : ℕ) where
    pub evict-keeps :
        (fuel : ℕ) (s : State J)
        → Accounted s
        → Accounted (evict fuel o size s) × Shrunk s (evict fuel o size s)
    unfolding evict
    evict-keeps zero s a = (a, Shrunk-refl s)
    evict-keeps (suc fuel) s a = elim (Bool-cases (must_evict o size s)) [
      | inl more ↦
          rw (more, evict)
            (let (a', p) = evict_oldest-keeps s a in
              let (b, q) = evict-keeps fuel (evict_oldest s) a' in
              (b, Shrunk-trans s (evict_oldest s) _ p q))
      | inr done ↦ rw (done, evict) (a, Shrunk-refl s)
    ]

    must_evict-nonempty : (s : State J) → must_evict o size s ≡ true → is_empty s.cache ≡ false
    unfolding must_evict
    must_evict-nonempty s h = ground arith

    -- With as much fuel as the cache has entries the eviction loop ends by its own test: there is
    -- room for the response, or the cache is empty.
    pub evict_done :
        (fuel : ℕ) (s : State J)
        → length s.cache ≤ fuel
        → must_evict o size (evict fuel o size s) ≡ false
    unfolding evict
    evict_done zero s h = elim (Bool-cases (must_evict o size s)) [
      | inl more ↦ absurd (omega (arith, is_empty-pos s.cache (must_evict-nonempty s more)))
      | inr done ↦ done
    ]
    evict_done (suc fuel) s h = elim (Bool-cases (must_evict o size s)) [
      | inl more ↦
          rw (more, evict)
            (evict_done fuel (evict_oldest s)
              (omega (arith, evict_oldest-shorter s (must_evict-nonempty s more))))
      | inr done ↦ rw (done, evict) done
    ]
