-- ===== src/Server/Regions/ProfileId.antt =====
-- server/src/regions.rs, from_profile_id: which ids name which regions.
use moenotes_api.Prelude.{
  Bool, Bool-cases, List, Option-cases, [], all, ap, arith, inl, inr, is_digit, length, not, refl,
  some, true, ℕ, ◌==◌, ◌^◌, ◌||◌, ◌∙◌, ◌∷◌, ◌≡◌, ◌⊎◌,
}
use moenotes_api.Decimal.{parse_below}
use moenotes_api.Server.Regions.{
  ProfileError, Region, en, first_region, from_profile_id, jp, kr, region_eq, tw,
}

-- The digit that an id of a region begins with; no id names JP.
abbrev pub Names : Region → ℕ → Type 0
Names tw c = c ≡ b'2'
Names en c = c ≡ b'3'
Names kr c = c ≡ b'4'
Names jp c = ⊥

-- An id of a region: eleven digits, the first of which names it, and a number below 2^63.
pub record IsProfileId (r : Region) (n : ℕ) (id : List ℕ) : Type 0 where
  pub first : ℕ
  pub others : List ℕ
  pub is_id : id ≡ first ∷ others
  pub has_eleven : length id ≡ 11
  pub digits : all is_digit id ≡ true
  pub names : Names r first
  pub number_is : parse_below (2 ^ 63) id ≡ some n

first_region-Names : (c : ℕ) (s : List ℕ) (r : Region) → first_region (c ∷ s) ≡ some r → Names r c
first_region-Names c s tw e = ground arith
first_region-Names c s en e = ground arith
first_region-Names c s kr e = ground arith
first_region-Names c s jp e = ground arith

abbrev Found : Type 0
Found = ProfileError ⊎ (Region × ℕ)

found_pair : (q r : Region) (m n : ℕ) → Path Found (inr (q, m)) (inr (r, n)) → (q ≡ r) × (m ≡ n)
found_pair q r m n e = (cc, cc)

found_error : (x : ProfileError) (r : Region) (n : ℕ) → Path Found (inl x) (inr (r, n)) → ⊥
found_error x r n e = cc

abbrev is_ill_formed : List ℕ → Bool
is_ill_formed id = not (length id == 11) || not (all is_digit id)

pub from_profile_id-IsProfileId :
    (id : List ℕ) (r : Region) (n : ℕ) → from_profile_id id ≡ inr (r, n) → IsProfileId r n id
unfolding from_profile_id
from_profile_id-IsProfileId [] r n e = cc
from_profile_id-IsProfileId (c ∷ s) r n e = elim (Bool-cases (is_ill_formed (c ∷ s))) [
  | inl bad ↦ absurd (found_error _ r n (rw bad at e))
  | inr good ↦ elim (Option-cases (first_region (c ∷ s))) [
    | inl z ↦ absurd (found_error _ r n (rw (good, z) at e))
    | inr (q, z) ↦ elim (Option-cases (parse_below (2 ^ 63) (c ∷ s))) [
      | inl y ↦ absurd (found_error _ r n (rw (good, z, y) at e))
      | inr (m, y) ↦
          let (same, number) = found_pair q r m n (rw (good, z, y) at e) in
          record {
            first = c;
            others = s;
            is_id = refl;
            has_eleven = ground (arith, good);
            digits = ground (arith, good);
            names = first_region-Names c s r (z ∙ ap some same);
            number_is = y ∙ ap some number;
          }
    ]
  ]
]
