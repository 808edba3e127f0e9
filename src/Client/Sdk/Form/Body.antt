-- ===== src/Client/Sdk/Form/Body.antt =====
-- client/src/sdk_http/form.rs, sign_form: the text of the form, taken apart again.
use mathlib.Core.List.{append-nil, append_assoc}
use moenotes_api.Prelude.{
  All, All-append, List, [], ap, arith, codes, false, if◌then◌else◌, is_empty, length, ltb, map,
  refl, split_on, sym, ℕ, ◌++◌, ◌==◌, ◌∙◌, ◌∷◌, ◌≡◌, ◌≤◌,
}
use moenotes_api.Client.Sdk.Base.{Bytes, Field, err, error, invalid_input, ok, ok->>=, ok_injective}
use moenotes_api.Client.Sdk.Form.{joined, sign_form, signed_text, values_into}
use moenotes_api.Client.Sdk.Form.Signing.{Signed, values_into-Signed}
use moenotes_api.Client.Sdk.Form.Unsigned.{SignedText, signed_text-SignedText}

-- A field up to its first `=`.
abbrev pub cut : Bytes → Field
cut [] = ([], [])
cut (c ∷ s) = let (name, value) = cut s in if c == b'=' then ([], s) else (c ∷ name, value)

unfoldable pub split_fields : Bytes → List Field
split_fields body = map cut (split_on b'&' body)

abbrev pub Lacks : ℕ → ℕ → Type 0
Lacks separator c = (c == separator) ≡ false

-- A name without `=` and `&`, and a value without `&`.
abbrev pub IsClean : Field → Type 0
IsClean (name, value) = All (Lacks b'=') name × All (Lacks b'&') name × All (Lacks b'&') value

-- `&name=value` for each field.
abbrev pub chain : List Field → Bytes
chain [] = []
chain ((name, value) ∷ fields) = b'&' ∷ ((name ++ b'=' ∷ value) ++ chain fields)

split_on-last :
    (separator : ℕ) (s : Bytes) → All (Lacks separator) s → split_on separator s ≡ s ∷ []
unfolding split_on
split_on-last separator [] l = refl
split_on-last separator (c ∷ s) (h, l) = rw (h, split_on-last separator s l) refl

split_on-first :
    (separator : ℕ) (s rest : Bytes)
    → All (Lacks separator) s
    → split_on separator (s ++ separator ∷ rest) ≡ s ∷ split_on separator rest
unfolding split_on
split_on-first separator [] rest l = ground arith
split_on-first separator (c ∷ s) rest (h, l) = rw (h, split_on-first separator s rest l) refl

cut-field :
    (name value : Bytes) → All (Lacks b'=') name → cut (name ++ b'=' ∷ value) ≡ (name, value)
cut-field [] value l = refl
cut-field (c ∷ name) value (h, l) = rw (h, cut-field name value l) refl

clean_text : (name value : Bytes) → IsClean (name, value) → All (Lacks b'&') (name ++ b'=' ∷ value)
clean_text name value c = All-append (Lacks b'&') name (b'=' ∷ value) c.1 (refl, c.2)

split_fields-chain :
    (name value : Bytes) (fields : List Field)
    → IsClean (name, value)
    → All IsClean fields
    → split_fields ((name ++ b'=' ∷ value) ++ chain fields) ≡ (name, value) ∷ fields
unfolding split_fields
split_fields-chain name value [] c cs =
    rw
      (
        append-nil (name ++ b'=' ∷ value),
        split_on-last b'&' _ (clean_text name value c),
        cut-field name value c.0,
      )
      refl
split_fields-chain name value ((next, v) ∷ fields) c (d, cs) =
    rw
      (
        split_on-first b'&' (name ++ b'=' ∷ value) ((next ++ b'=' ∷ v) ++ chain fields)
            (clean_text name value c),
        cut-field name value c.0,
      )
      (ap (λ (t : List Field). (name, value) ∷ t) (split_fields-chain next v fields d cs))

is_empty-append : (s t : Bytes) → is_empty s ≡ false → is_empty (s ++ t) ≡ false
is_empty-append [] t h = cc
is_empty-append (c ∷ s) t h = refl

joined-chain :
    (body : Bytes) (fields : List Field)
    → is_empty body ≡ false
    → joined body fields ≡ body ++ chain fields
unfolding joined
joined-chain body [] h = sym (append-nil body)
joined-chain body ((name, value) ∷ fields) h = rw h (
    joined-chain ((body ++ b'&' ∷ []) ++ (name ++ b'=' ∷ value)) fields
      (is_empty-append (body ++ b'&' ∷ []) _ (is_empty-append body _ h))
    ∙ simp append_assoc)

is_empty-field : (name value : Bytes) → is_empty (name ++ b'=' ∷ value) ≡ false
is_empty-field [] value = refl
is_empty-field (c ∷ name) value = refl

chain-append : (fields more : List Field) → chain (fields ++ more) ≡ chain fields ++ chain more
chain-append [] more = refl
chain-append ((name, value) ∷ fields) more = rw (chain-append fields more) (simp append_assoc)

-- The body of a form that has a field, as its fields and the signature behind them.
split_fields-body :
    (f : Field) (fields : List Field) (signature : Bytes)
    → All IsClean (f ∷ fields)
    → All (Lacks b'&') signature
    → split_fields (joined [] (f ∷ fields) ++ (codes "&sign=" ++ signature))
      ≡ (f ∷ fields) ++ (codes "sign", signature) ∷ []
unfolding joined
split_fields-body (name, value) fields signature (c, cs) l =
    ap split_fields (
      rw
        (
          joined-chain (name ++ b'=' ∷ value) fields (is_empty-field name value),
          chain-append fields ((codes "sign", signature) ∷ []),
        )
        (simp (append_assoc, append-nil)))
    ∙ split_fields-chain name value (fields ++ (codes "sign", signature) ∷ []) c (
        All-append IsClean fields ((codes "sign", signature) ∷ []) cs
          (((refl, (refl, (refl, (refl, tt)))), (refl, (refl, (refl, (refl, tt)))), l), tt))

-- A signed form: its fields, then the digest of what is signed, in a body of bounded length.
pub record IsSigned (percent_decode md5_hex : Bytes → Bytes) (fields : List Field)
    (key body : Bytes) : Type 0 where
  pub values : List Field
  pub signed : Signed percent_decode fields values
  pub text : Bytes
  pub text_is : SignedText values text
  pub parts : split_fields body ≡ fields ++ (codes "sign", md5_hex (text ++ key)) ∷ []
  pub bounded : length body ≤ 65536

sized :
    (body out : Bytes)
    → (if ltb 65536 (length body) then err (error invalid_input) else ok body) ≡ ok out
    → (body ≡ out) × (length out ≤ 65536)
sized body out e = ground (arith, ok_injective body out)

pub sign_form-IsSigned :
    (percent_decode md5_hex : Bytes → Bytes) (fields : List Field) (key body : Bytes)
    → is_empty fields ≡ false
    → All IsClean fields
    → ((t : Bytes) → All (Lacks b'&') (md5_hex t))
    → sign_form percent_decode md5_hex fields key ≡ ok body
    → IsSigned percent_decode md5_hex fields key body
unfolding sign_form
sign_form-IsSigned percent_decode md5_hex [] key body ne clean hex e = cc
sign_form-IsSigned percent_decode md5_hex (f ∷ fields) key body ne clean hex e =
    let (values, v, rest) = ok->>= (values_into percent_decode [] (f ∷ fields)) _ e in
    let (same, fits) = sized _ body rest in
    record {
      values = values;
      signed = values_into-Signed percent_decode (f ∷ fields) values v;
      text = signed_text values;
      text_is = signed_text-SignedText values;
      parts = ap split_fields (sym same) ∙ split_fields-body f fields _ clean (hex _);
      bounded = fits;
    }
