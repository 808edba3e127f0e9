-- ===== src/Server/Regions/Tests.antt =====
-- server/src/regions.rs: the pools of a server.
use moenotes_api.Prelude.{List, [], refl, some, true, ℕ, ◌∷◌, ◌≡◌}
use moenotes_api.Errors.{ok}
use moenotes_api.Table.{Distinct, find, insert, remove}
use moenotes_api.Server.Regions.{
  Region, RegionClients, collect, default_present, jp, pool_of, region_eq, tw, with_pools,
}
use moenotes_api.Server.Regions.Laws.{with_pools-pool_of}

abbrev pools : List (Region × ℕ)
pools = (tw, 1) ∷ (jp, 2) ∷ []

abbrev served : RegionClients ℕ
served = record { backends = (jp, 2) ∷ (tw, 1) ∷ []; default_region = some tw }

served_well : with_pools (some tw) pools ≡ ok served
unfolding with_pools collect find insert remove
served_well = refl

with_pools-pool_of_example :
    Distinct pools
    × (default_present (some tw) pools ≡ true)
    × (served.default_region ≡ some tw)
    × (pool_of served jp ≡ find jp pools)
with_pools-pool_of_example = with_pools-pool_of (some tw) pools served jp served_well
