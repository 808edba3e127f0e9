-- ===== src/Client/Sdk/Form/Unsigned.antt =====
-- client/src/sdk_http/form.rs, sign_form: which values are signed, and which are left out.
use moenotes_api.Prelude.{
  Bool-cases, List, [], all, arith, codes, false, inl, inr, ltb, map, refl, true, ℕ, ◌++◌, ◌+◌, ◌<◌,
  ◌==◌, ◌∷◌, ◌≡◌, ◌≤◌, ◌⊎◌,
}
use moenotes_api.Client.Sdk.Base.{Bytes, Field, bytes_eq}
use moenotes_api.Client.Sdk.Form.{is_unsigned, lower, signed_text}

-- A letter that is `d` when the case of ASCII letters is ignored, for a `d` that is not upper case.
abbrev pub SameLetter : ℕ → ℕ → Type 0
SameLetter c d = (c ≡ d) ⊎ ((b'A' ≤ c) × (c ≤ b'Z') × (c + 32 ≡ d))

abbrev pub SameLetters : Bytes → Bytes → Type 0
SameLetters [] [] = Unit
SameLetters (c ∷ s) (d ∷ t) = SameLetter c d × SameLetters s t
SameLetters _ _ = ⊥

-- `item_name` or `item_desc`, in whatever case.
abbrev pub IsItemText : Bytes → Type 0
IsItemText name = SameLetters name (codes "item_name") ⊎ SameLetters name (codes "item_desc")

-- What is signed of a map: its values in order, without those of the item texts.
pub data SignedText : List Field → Bytes → Type 0 where
  ends : SignedText [] []
  leaves_out :
      (name value : Bytes) (values : List Field) (text : Bytes)
      → IsItemText name
      → SignedText values text
      → SignedText ((name, value) ∷ values) text
  signs :
      (name value : Bytes) (values : List Field) (text : Bytes)
      → ¬ IsItemText name
      → SignedText values text
      → SignedText ((name, value) ∷ values) (value ++ text)

lower-SameLetter : (c d : ℕ) → (lower c == d) ≡ true → SameLetter c d
lower-SameLetter c d e = ground arith

SameLetter-lower : (c d : ℕ) → b'Z' < d → SameLetter c d → (lower c == d) ≡ true
SameLetter-lower c d l (inl e) = ground arith
SameLetter-lower c d l (inr (a, z, e)) = ground arith

lower-SameLetters : (s t : Bytes) → bytes_eq (map lower s) t ≡ true → SameLetters s t
lower-SameLetters [] [] e = tt
lower-SameLetters [] (d ∷ t) e = cc
lower-SameLetters (c ∷ s) [] e = cc
lower-SameLetters (c ∷ s) (d ∷ t) e =
    (lower-SameLetter c d (ground (arith, e)), lower-SameLetters s t (ground (arith, e)))

SameLetters-lower :
    (s t : Bytes)
    → all (λ d. ltb b'Z' d) t ≡ true
    → SameLetters s t
    → bytes_eq (map lower s) t ≡ true
SameLetters-lower [] [] l h = refl
SameLetters-lower [] (d ∷ t) l h = elim h [ ]
SameLetters-lower (c ∷ s) [] l h = elim h [ ]
SameLetters-lower (c ∷ s) (d ∷ t) l (h, hs) =
    rw (SameLetter-lower c d (ground (arith, l)) h, SameLetters-lower s t (ground (arith, l)) hs)
      refl

is_unsigned-IsItemText : (name : Bytes) → is_unsigned name ≡ true → IsItemText name
unfolding is_unsigned
is_unsigned-IsItemText name e =
    ground (
      arith,
      lower-SameLetters name (codes "item_name"),
      lower-SameLetters name (codes "item_desc"),
    )

IsItemText-is_unsigned : (name : Bytes) → IsItemText name → is_unsigned name ≡ true
unfolding is_unsigned
IsItemText-is_unsigned name (inl h) = rw (SameLetters-lower name (codes "item_name") refl h) refl
IsItemText-is_unsigned name (inr h) =
    let k = SameLetters-lower name (codes "item_desc") refl h in ground (arith, k)

is_signed : (name : Bytes) → is_unsigned name ≡ false → ¬ IsItemText name
is_signed name e h = let k = IsItemText-is_unsigned name h in ground (arith, k, e)

pub signed_text-SignedText : (values : List Field) → SignedText values (signed_text values)
unfolding signed_text
signed_text-SignedText [] = ends
signed_text-SignedText ((name, value) ∷ values) = elim (Bool-cases (is_unsigned name)) [
  | inl e ↦ rw e (
      leaves_out name value values _ (is_unsigned-IsItemText name e)
        (signed_text-SignedText values))
  | inr e ↦ rw e (signs name value values _ (is_signed name e) (signed_text-SignedText values))
]
