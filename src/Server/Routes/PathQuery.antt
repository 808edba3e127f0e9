-- ===== src/Server/Routes/PathQuery.antt =====
-- server/src/path_routes.rs, path_query: the query text that a path route builds.
use Prim.Native.String.{◌++◌ as text_append}
use moenotes_api.Prelude.{
  All, Bool, Bool-cases, List, Option, String, [], any, ap, arith, codes, false, if◌then◌else◌, inl,
  inr, is_control, is_nil, leb, len, length, map, not, refl, some, str_eq, str_eq_iff, subst, sym,
  true, ◌&&◌, ◌++◌, ◌∙◌, ◌∷◌, ◌≡◌, ◌≢◌, ◌≤◌, ◌⊎◌,
}
use moenotes_api.Errors.{guard, invalid_request, ok, require}
use moenotes_api.Errors.Laws.{guard-ok, ok->>=, require-ok}
use moenotes_api.Server.Routes.{
  Route, any_path_field, field_pairs, invalid, is_path_field, join_query, none_nil, path_pairs,
  path_query, raw_text, valid_value, with_field,
}
use moenotes_api.Server.Projection.Laws.{ok_inj}

-- A field of a route: the parameter of the path, the field of the query, and whether it is a list.
abbrev pub PathField : Type 0
PathField = String × String × Bool

-- No name in the query string is a field of the route.
abbrev pub IsOther : List PathField → String × String → Type 0
IsOther fields (key, value) = All (λ (f : PathField). f.1 ≢ key) fields

abbrev pub NotEmpty : String → Type 0
NotEmpty v = is_nil v ≡ false

-- What one parameter gives: itself, or each part of a list of at most 100 parts.
abbrev pub GivesField :
    (String → List String) → String → Bool → String → List (String × String) → Type 0
GivesField split field false value out = out ≡ (field, value) ∷ []
GivesField split field true value out =
    (length (split value) ≤ 100)
    × All NotEmpty (split value)
    × (out ≡ map (λ v. (field, v)) (split value))

-- What the parameters give for the fields of a route, in their order.
abbrev pub Gives :
    (String → List String)
    → (String → Option String)
    → List PathField
    → List (String × String)
    → Type 0
Gives split params [] own = own ≡ []
Gives split params ((name, field, many) ∷ fields) own =
    (value : String) × (first : List (String × String)) × (others : List (String × String))
    × (params name ≡ some value)
    × NotEmpty value
    × (len value ≤ 8192)
    × (any is_control (codes value) ≡ false)
    × GivesField split field many value first
    × Gives split params fields others
    × (own ≡ first ++ others)

pub record IsPathQuery (split : String → List String) (pairs : String → List (String × String))
    (serialize : List (String × String) → String) (r : Route) (params : String → Option String)
    (raw : Option String) (query : String) : Type 0 where
  pub raw_fits : len (raw_text raw) ≤ 8192
  pub others_only : All (IsOther r.fields) (pairs (raw_text raw))
  pub own : List (String × String)
  pub gives : Gives split params r.fields own
  pub text_is :
      ((is_nil (raw_text raw) ≡ true) × (query ≡ serialize own))
      ⊎ ((is_nil (raw_text raw) ≡ false)
          × (query ≡ text_append (serialize own) (text_append "&" (raw_text raw))))
  pub fits : len query ≤ 8192

is_path_field-ne :
    (fields : List PathField) (key : String)
    → is_path_field fields key ≡ false
    → All (λ (f : PathField). f.1 ≢ key) fields
is_path_field-ne [] key h = tt
is_path_field-ne ((name, field, many) ∷ fields) key h = (
  λ e. different (str_eq field key) ((str_eq_iff field key).1 e) (ground (arith, h)),
  is_path_field-ne fields key (ground (arith, h)),
)
  where
    different : (b : Bool) → b ≡ true → b ≡ false → ⊥
    different b e f = cc

any_path_field-IsOther :
    (fields : List PathField) (ps : List (String × String))
    → any_path_field fields ps ≡ false
    → All (IsOther fields) ps
any_path_field-IsOther fields [] h = tt
any_path_field-IsOther fields ((key, value) ∷ ps) h = (
  is_path_field-ne fields key (ground (arith, h)),
  any_path_field-IsOther fields ps (ground (arith, h)),
)

none_nil-NotEmpty : (vs : List String) → none_nil vs ≡ true → All NotEmpty vs
none_nil-NotEmpty [] h = tt
none_nil-NotEmpty (v ∷ vs) h = (ground (arith, h), none_nil-NotEmpty vs (ground (arith, h)))

with_field-map :
    (field : String) (vs : List String) → with_field field vs ≡ map (λ v. (field, v)) vs
with_field-map field [] = refl
with_field-map field (v ∷ vs) =
    ap (λ (l : List (String × String)). (field, v) ∷ l) (with_field-map field vs)

field_pairs-GivesField :
    (split : String → List String) (field : String) (many : Bool) (value : String)
    (out : List (String × String))
    → field_pairs split field many value ≡ ok out
    → NotEmpty value
      × (len value ≤ 8192)
      × (any is_control (codes value) ≡ false)
      × GivesField split field many value out
unfolding field_pairs
field_pairs-GivesField split field many value out e = elim (Bool-cases (valid_value value)) [
  | inr bad ↦ absurd (refused out (rw (bad, field_pairs) at e))
  | inl good ↦ (
    ground (arith, good),
    ground (arith, good),
    ground (arith, good),
    of_kind many (rw (good, field_pairs) at e),
  )
]
  where
    refused : (l : List (String × String)) → invalid ≡ ok l → ⊥
    refused l h = cc

    of_kind :
        (b : Bool)
        → (if b
            then (if leb (length (split value)) 100 && none_nil (split value)
                then ok (with_field field (split value))
                else invalid)
            else ok ((field, value) ∷ []))
          ≡ ok out
        → GivesField split field b value out
    of_kind false h = sym (ok_inj h)
    of_kind true h = elim (Bool-cases (leb (length (split value)) 100 && none_nil (split value))) [
      | inl few ↦ (
        ground (arith, few),
        none_nil-NotEmpty (split value) (ground (arith, few)),
        sym (ok_inj (rw few at h)) ∙ with_field-map field (split value),
      )
      | inr many_parts ↦ absurd (refused out (rw many_parts at h))
    ]

path_pairs-Gives :
    (split : String → List String) (params : String → Option String) (fields : List PathField)
    (own : List (String × String))
    → path_pairs split params fields ≡ ok own
    → Gives split params fields own
unfolding path_pairs
path_pairs-Gives split params [] own e = sym (ok_inj e)
path_pairs-Gives split params ((name, field, many) ∷ fields) own e =
    let (value, h, r) = ok->>= (require (params name) invalid_request) _ e in
    let (first, h1, r1) = ok->>= (field_pairs split field many value) _ r in
    let (others, h2, r2) = ok->>= (path_pairs split params fields) _ r1 in
    let (given, short, printable, gives) = field_pairs-GivesField split field many value first h1 in
    (
      value,
      first,
      others,
      require-ok (params name) invalid_request value h,
      given,
      short,
      printable,
      gives,
      path_pairs-Gives split params fields others h2,
      sym (ok_inj r2),
    )

join_query-cases :
    (s raw query : String)
    → join_query s raw ≡ query
    → ((is_nil raw ≡ true) × (query ≡ s))
      ⊎ ((is_nil raw ≡ false) × (query ≡ text_append s (text_append "&" raw)))
join_query-cases s raw query e = elim (Bool-cases (is_nil raw)) [
  | inl z ↦ inl (z, sym (rw (z, join_query) at e))
  | inr z ↦ inr (z, sym (rw (z, join_query) at e))
]

-- A query text that a path route builds has at most 8192 bytes, as the query string that came has.
-- No name in that is a field of the route. The text is the route's fields in their order, then `&`
-- and the query string if that is not empty; each field has the value of its parameter, which is
-- there, is not empty, has at most 8192 bytes and no control characters, or, if it is a list, each
-- of its 100 parts at most, none of which is empty.
pub path_query-IsPathQuery :
    (split : String → List String) (pairs : String → List (String × String))
    (serialize : List (String × String) → String) (r : Route) (params : String → Option String)
    (raw : Option String) (query : String)
    → path_query split pairs serialize r params raw ≡ ok query
    → IsPathQuery split pairs serialize r params raw query
unfolding path_query
path_query-IsPathQuery split pairs serialize r params raw query h =
    let (u, size, h1) = ok->>= (guard (leb (len (raw_text raw)) 8192) invalid_request) _ h in
    let (w, clear, h2) =
      ok->>= (guard (not (any_path_field r.fields (pairs (raw_text raw)))) invalid_request) _ h1 in
    let (own, gives, h3) = ok->>= (path_pairs split params r.fields) _ h2 in
    let (v, short, made) =
      ok->>= (guard (leb (len (join_query (serialize own) (raw_text raw))) 8192) invalid_request) _
        h3 in
    let small = guard-ok (leb (len (raw_text raw)) 8192) invalid_request u size in
    let untouched =
      guard-ok (not (any_path_field r.fields (pairs (raw_text raw)))) invalid_request w clear in
    record {
      raw_fits = ground (arith, small);
      others_only =
          any_path_field-IsOther r.fields (pairs (raw_text raw)) (ground (arith, untouched));
      own = own;
      gives = path_pairs-Gives split params r.fields own gives;
      text_is = join_query-cases (serialize own) (raw_text raw) query (ok_inj made);
      fits =
          subst (λ x. len x ≤ 8192) (ok_inj made)
            (fitting own (guard-ok _ invalid_request v short));
    }
  where
    fitting :
        (own : List (String × String))
        → leb (len (join_query (serialize own) (raw_text raw))) 8192 ≡ true
        → len (join_query (serialize own) (raw_text raw)) ≤ 8192
    fitting own e = ground (arith, e)
