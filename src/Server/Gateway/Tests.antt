-- ===== src/Server/Gateway/Tests.antt =====
-- server/src/lib.rs: requests on their way.
use moenotes_api.Prelude.{List, [], arith, length, refl, some, ℕ, ◌++◌, ◌<◌, ◌∷◌, ◌≡◌, ◌≤◌}
use moenotes_api.Server.Gateway.{
  accepts, admission_limit, bearer, enter, entered, new_gateway, open_request,
}
use moenotes_api.Server.Gateway.Laws.{Counted, Reach-Counted, enter-accepts, next, opens, start}

Reach-Counted_example : Counted (record { waiting = 1; holding = 0 }, open_request new_gateway)
Reach-Counted_example =
    Reach-Counted
      (next start (opens (record { waiting = 0; holding = 0 }) new_gateway (omega arith)))

let_in :
    (enter (accepts (λ key. key) (65 ∷ []) (some (bearer ++ 65 ∷ []) ∷ [])) new_gateway).0 ≡ entered
unfolding enter accepts
let_in = refl

enter-accepts_example :
    (key : List ℕ) × (some (bearer ++ 65 ∷ []) ∷ [] ≡ some (bearer ++ key) ∷ [])
    × (length key ≤ 4096)
    × (key ≡ 65 ∷ [])
    × (0 < admission_limit)
enter-accepts_example =
    enter-accepts (λ key. key) (65 ∷ []) (some (bearer ++ 65 ∷ []) ∷ []) new_gateway let_in
