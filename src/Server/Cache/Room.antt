-- ===== src/Server/Cache/Room.antt =====
-- server/src/cache.rs: the eviction loop, with the room that it makes.
use moenotes_api.Prelude.{
  List-cases, ap, arith, false, inl, inr, length, refl, suc, zero, ℕ, ◌+◌, ◌<◌, ◌∙◌, ◌≡◌, ◌≤◌,
}
use moenotes_api.Table.{total}
use moenotes_api.Server.Cache.{CacheOptions, State, entry_size, evict, key_eq, must_evict}
use moenotes_api.Server.Cache.Eviction.{Accounted, Shrunk, evict-keeps, evict_done}

module _ {J : Type 0} where
  -- `t` is what the eviction loop leaves of `s`, for a response of `size` bytes.
  pub record MakesRoom (o : CacheOptions) (size : ℕ) (s t : State J) : Type 0 where
    pub count_fits : length t.cache < o.capacity
    pub bytes_fit : t.bytes + size ≤ o.max_bytes
    pub accounted : Accounted t
    pub shrunk : Shrunk s t
    pub unneeded : length s.cache < o.capacity → s.bytes + size ≤ o.max_bytes → t ≡ s

  evict-unneeded :
      (o : CacheOptions) (size fuel : ℕ) (s : State J)
      → length s.cache < o.capacity
      → s.bytes + size ≤ o.max_bytes
      → evict fuel o size s ≡ s
  unfolding evict must_evict
  evict-unneeded o size zero s few small = refl
  evict-unneeded o size (suc fuel) s few small = ground (arith, few, small)

  empty-fits :
      (o : CacheOptions) (size : ℕ) (t : State J)
      → Accounted t
      → 0 < o.capacity
      → size ≤ o.max_bytes
      → must_evict o size t ≡ false
      → (length t.cache < o.capacity) × (t.bytes + size ≤ o.max_bytes)
  unfolding must_evict
  empty-fits o size t a some_room small ended = elim (List-cases t.cache) [
    | inl z ↦ (rw z some_room, omega (arith, a.summed ∙ ap (total entry_size) z, small))
    | inr z ↦ (ground arith, ground arith)
  ]

  -- Where the cache may hold an entry and the response is not larger than the cache: with as much
  -- fuel as the cache has entries the eviction loop ends with room for the response, fewer entries
  -- than `capacity` and bytes for it below `max_bytes`. The keys stay distinct and `bytes` the
  -- sum; flights and channels stay, nothing comes into the cache, and where there was room before
  -- nothing is changed.
  pub evict-MakesRoom :
      (o : CacheOptions) (size fuel : ℕ) (s : State J)
      → Accounted s
      → 0 < o.capacity
      → size ≤ o.max_bytes
      → length s.cache ≤ fuel
      → MakesRoom o size s (evict fuel o size s)
  evict-MakesRoom o size fuel s a some_room small enough =
      let (acc, shr) = evict-keeps o size fuel s a in
      let (few, fits) =
        empty-fits o size (evict fuel o size s) acc some_room small
          (evict_done o size fuel s enough) in
      record {
        count_fits = few;
        bytes_fit = fits;
        accounted = acc;
        shrunk = shr;
        unneeded = evict-unneeded o size fuel s;
      }
