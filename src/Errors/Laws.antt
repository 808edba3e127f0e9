-- ===== src/Errors/Laws.antt =====
-- client/src/error.rs: what the classification promises.
use moenotes_api.Prelude.{
  Bool, List, Option, Option-cases, String, ap, arith, false, inl, inr, none, refl, some,
  str_eq_iff, true, ◌↔◌, ◌≡◌, ◌⊎◌,
}
use moenotes_api.Errors.{
  ClientError, Code, ErrorKind, Result, client_update_required, err, from_metadata, guard,
  kind_of_code, kind_of_status, last_code, ok, ok_code, require, version, ◌>>=◌,
}

from_metadata-none_iff :
    (code : Code) (initial trailing : List String)
    → (from_metadata code initial trailing ≡ none)
      ↔ ((code ≡ ok_code) × (last_code initial trailing ≡ none))
unfolding from_metadata kind_of_code kind_of_status
from_metadata-none_iff code initial trailing = (λ h. ground arith, λ h. ground arith)

-- The classification of a code's text, as a table.
kind_of_code-client_update : kind_of_code "CLIENT_UPDATE_REQUIRED" ≡ version
unfolding kind_of_code
kind_of_code-client_update = refl

-- `client_update_required` recognises exactly the answers whose last code asks for an update.
update_required_iff :
    (code : Code) (initial trailing : List String) (e : ClientError)
    → from_metadata code initial trailing ≡ some e
    → (client_update_required e ≡ true)
      ↔ (last_code initial trailing ≡ some "CLIENT_UPDATE_REQUIRED")
unfolding from_metadata client_update_required
update_required_iff code initial trailing e h = elim (Option-cases (last_code initial trailing)) [
  | inl z ↦ (λ u. ground arith, λ l. ground arith)
  | inr (c, z) ↦ (
    λ u. ground (arith, str_eq_iff c "CLIENT_UPDATE_REQUIRED"),
    λ l. ground (arith, str_eq_iff c "CLIENT_UPDATE_REQUIRED", kind_of_code-client_update),
  )
]

pub Result-cases {ℓ} :
    {A : Type ℓ} (r : Result A) → ((a : A) × (r ≡ ok a)) ⊎ ((e : ClientError) × (r ≡ err e))
Result-cases (ok a) = inl (a, refl)
Result-cases (err e) = inr (e, refl)

-- A bind that succeeds had a first step that succeeded.
pub ok->>= {ℓ κ} :
    {A : Type ℓ} {B : Type κ} (first : Result A) (next : A → Result B) {out : B}
    → (first >>= next) ≡ ok out
    → (v : A) × (first ≡ ok v) × (next v ≡ ok out)
ok->>= (err e) next done = cc
ok->>= (ok v) next done = (v, refl, done)

pub ok_injective {ℓ} : {A : Type ℓ} (a b : A) → ok a ≡ ok b → a ≡ b
ok_injective a b e = cc

-- What holds of a guard that succeeds.
pub guard-ok : (b : Bool) (k : ErrorKind) (u : Unit {0}) → guard b k ≡ ok u → b ≡ true
guard-ok true k u e = refl
guard-ok false k u e = cc

pub require-ok {ℓ} :
    {A : Type ℓ} (o : Option A) (k : ErrorKind) (a : A) → require o k ≡ ok a → o ≡ some a
require-ok none k a e = cc
require-ok (some b) k a e = ap some (ok_injective b a e)
