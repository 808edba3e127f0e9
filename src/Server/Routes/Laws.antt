-- ===== src/Server/Routes/Laws.antt =====
-- server/src/path_routes.rs: which methods paths are matched to.
use moenotes_api.Prelude.{
  Bool, Bool-cases, List, Option, Option-cases, String, [], all, arith, codes, inl, inr, is_none,
  none, not, refl, some, subst, true, ℕ, ◌∷◌, ◌≡◌,
}
use moenotes_api.Client.Query.{Method, find_method, methods}
use moenotes_api.Server.Regions.{region_eq}
use moenotes_api.Server.Gateway.{http_routes}
use moenotes_api.Server.Routes.{
  Route, method_for_path, plain_path, route_method, routes, table_method, text_eq,
}

abbrev known : String → Bool
known m = not (is_none (find_method m methods))

routes-known : all (λ r. known r.method) routes ≡ true
unfolding find_method
routes-known = refl

table_known : all (λ (e : String × String). known e.1) http_routes ≡ true
unfolding find_method
table_known = refl

route_method-known :
    (rs : List Route) (path : List ℕ) (m : String)
    → all (λ r. known r.method) rs ≡ true
    → route_method rs path ≡ some m
    → known m ≡ true
route_method-known [] path m h z = cc
route_method-known (r ∷ rs) path m h z = elim (Bool-cases (text_eq (codes r.path) path)) [
  | inl here ↦ subst (λ x. known x ≡ true) (one_method (rw here at z)) (ground (arith, h))
  | inr other ↦ route_method-known rs path m (ground (arith, h)) (rw other at z)
]
  where
    one_method : some r.method ≡ some m → r.method ≡ m
    one_method e = cc

table_method-known :
    (table : List (String × String)) (path : List ℕ) (m : String)
    → all (λ (e : String × String). known e.1) table ≡ true
    → table_method table path ≡ some m
    → known m ≡ true
table_method-known [] path m h z = cc
table_method-known ((p, n) ∷ table) path m h z = elim (Bool-cases (text_eq (codes p) path)) [
  | inl here ↦ subst (λ x. known x ≡ true) (one_method (rw here at z)) (ground (arith, h))
  | inr other ↦ table_method-known table path m (ground (arith, h)) (rw other at z)
]
  where
    one_method : some n ≡ some m → n ≡ m
    one_method e = cc

-- The method that a path is matched to, under a region or not, is one of the method table.
method_for_path-known :
    (path : List ℕ) (m : String)
    → method_for_path path ≡ some m
    → (found : Method) × (find_method m methods ≡ some found)
unfolding method_for_path
method_for_path-known path m h = of_known (find_method m methods) (is_known h)
  where
    of_known : (o : Option Method) → not (is_none o) ≡ true → (found : Method) × (o ≡ some found)
    of_known none e = cc
    of_known (some f) e = (f, refl)

    is_known : method_for_path path ≡ some m → known m ≡ true
    is_known z = elim (Option-cases (route_method routes (plain_path path))) [
      | inr (n, y) ↦
          subst (λ x. known x ≡ true) (one_method n (rw (y, method_for_path) at z))
            (route_method-known routes (plain_path path) n routes-known y)
      | inl y ↦
          table_method-known http_routes (plain_path path) m table_known
            (rw (y, method_for_path) at z)
    ]
      where
        one_method : (n : String) → some n ≡ some m → n ≡ m
        one_method n e = cc
