-- ===== src/Table.antt =====
-- Hash maps as association lists over a key type with a Boolean equality. The list's order stands
-- for the map's order of iteration, which Rust leaves open.
pub mod Laws
use moenotes_api.Prelude.{
  Bool, List, Option, [], if◌then◌else◌, none, refl, some, true, ℕ, ◌+◌, ◌↔◌, ◌∷◌, ◌≡◌,
}

pub record Eq {ℓ} (K : Type ℓ) : Type ℓ where
  pub beq : K → K → Bool
  pub beq_iff : (a b : K) → (beq a b ≡ true) ↔ (a ≡ b)

pub beq_refl {ℓ} : {K : Type ℓ} ⦃e : Eq K⦄ (a : K) → e.beq a a ≡ true
beq_refl ⦃e⦄ a = (e.beq_iff a a).1 refl

module _ {ℓ κ} {K : Type ℓ} {V : Type κ} ⦃e : Eq K⦄ where
  unfoldable pub find : K → List (K × V) → Option V
  find k [] = none
  find k ((j, v) ∷ m) = if e.beq j k then some v else find k m

  unfoldable pub remove : K → List (K × V) → List (K × V)
  remove k [] = []
  remove k ((j, v) ∷ m) = let rest = remove k m in if e.beq j k then rest else (j, v) ∷ rest

  unfoldable pub insert : K → V → List (K × V) → List (K × V)
  insert k v m = (k, v) ∷ remove k m

  -- `retain`: the test sees the key and the value.
  unfoldable pub retain : (K → V → Bool) → List (K × V) → List (K × V)
  retain p [] = []
  retain p ((j, v) ∷ m) = let rest = retain p m in if p j v then (j, v) ∷ rest else rest

  -- `get_mut` and an assignment through it.
  unfoldable pub update : K → (V → V) → List (K × V) → List (K × V)
  update k f [] = []
  update k f ((j, v) ∷ m) = (j, if e.beq j k then f v else v) ∷ update k f m

  abbrev pub total : (V → ℕ) → List (K × V) → ℕ
  total size [] = 0
  total size ((k, v) ∷ m) = size v + total size m

  abbrev pub Distinct : List (K × V) → Type κ
  Distinct [] = Unit
  Distinct ((k, v) ∷ m) = (find k m ≡ none) × Distinct m
