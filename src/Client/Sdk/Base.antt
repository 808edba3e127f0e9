-- ===== src/Client/Sdk/Base.antt =====
-- client/src/sdk_http.rs: the errors of the SDK's HTTP client, its limits, and the helpers of its
-- calls. Texts are given by their bytes.
use moenotes_api.Prelude.{
  Bool, List, Option, [], false, if◌then◌else◌, is_empty, length, ltb, none, refl, some, true, ℕ,
  ◌&&◌, ◌*◌, ◌++◌, ◌==◌, ◌||◌, ◌∷◌, ◌≡◌,
}

abbrev pub Bytes : Type 0
Bytes = List ℕ

pub data SdkErrorKind : Type 0 where
  invalid_config invalid_input protocol transport : SdkErrorKind
  http_status timeout cancelled busy : SdkErrorKind

pub record SdkError : Type 0 where
  pub kind : SdkErrorKind
  pub status : Option ℕ

abbrev pub error : SdkErrorKind → SdkError
error k = record { kind = k; status = none }

-- Results of the SDK's operations.
pub data SdkResult {ℓ} (A : Type ℓ) : Type ℓ where
  ok : A → SdkResult A
  err : SdkError → SdkResult A

-- `?`
infixl 5 ◌>>=◌
abbrev pub ◌>>=◌ {ℓ κ} :
    {A : Type ℓ} {B : Type κ} (first : SdkResult A) (next : A → SdkResult B) → SdkResult B
err e >>= next = err e
ok v >>= next = next v

infixl 5 ◌>>◌
abbrev pub ◌>>◌ {ℓ} :
    {B : Type ℓ} (first : SdkResult (Unit {0})) (second : SdkResult B) → SdkResult B
first >> second = first >>= λ u. second

-- What a chain that succeeds has done.
pub ok->>= {ℓ κ} :
    {A : Type ℓ} {B : Type κ} (first : SdkResult A) (next : A → SdkResult B) {out : B}
    → (first >>= next) ≡ ok out
    → (between : A) × (first ≡ ok between) × (next between ≡ ok out)
ok->>= (err e) next h = cc
ok->>= (ok between) next h = (between, refl, h)

pub ok_injective {ℓ} : {A : Type ℓ} (a b : A) → ok a ≡ ok b → a ≡ b
ok_injective a b e = cc

-- `if !condition { return Err(error(kind)) }`
abbrev pub guard : Bool → SdkErrorKind → SdkResult (Unit {0})
guard true k = ok tt
guard false k = err (error k)

-- `.ok_or_else(..)?` and `.map_err(..)?`
abbrev pub require {ℓ} : {A : Type ℓ} → Option A → SdkErrorKind → SdkResult A
require none k = err (error k)
require (some a) k = ok a

abbrev pub bytes_eq : Bytes → Bytes → Bool
bytes_eq [] [] = true
bytes_eq (x ∷ xs) (y ∷ ys) = x == y && bytes_eq xs ys
bytes_eq _ _ = false

-- A form field: its name and its value, in the order of the form.
abbrev pub Field : Type 0
Field = Bytes × Bytes

unfoldable pub validate_secret : Bytes → ℕ → SdkResult (Unit {0})
validate_secret value max =
    if is_empty value || ltb max (length value) then err (error invalid_input) else ok tt

-- A field that is present and not empty is checked and put behind the others.
unfoldable pub optional : List Field → Bytes → Option Bytes → SdkResult (List Field)
unfolding validate_secret
optional fields name none = ok fields
optional fields name (some value) =
    if is_empty value
    then ok fields
    else (validate_secret value (16 * 1024) >> ok (fields ++ (name, value) ∷ []))
