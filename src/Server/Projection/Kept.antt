-- ===== src/Server/Projection/Kept.antt =====
-- server/src/projection.rs: an allowed field that a response has is not lost.
use moenotes_api.Prelude.{
  Bool-cases, List, Option, Option-cases, String, [], ap, inl, inr, none, some, str_eq, str_eq_iff,
  subst, sym, true, ◌∙◌, ◌∷◌, ◌≡◌, ◌⊎◌,
}
use moenotes_api.Errors.{ClientError, Result, err, ok}
use moenotes_api.Errors.Laws.{ok->>=}
use moenotes_api.Server.Json.{Members, Value, lookup, member, no_members, object_value, put}
use moenotes_api.Server.Json.Laws.{lookup-put, lookup-put_other}
use moenotes_api.Server.Projection.{Shape, allowed, field_as, found, members_as, project, select}
use moenotes_api.Server.Projection.Laws.{listed, ok_inj}

module _ (rs : List (String × Result Value)) where
  select-cons :
      (n : String) (names : List String) (m out : Members)
      → select (n ∷ names) rs m ≡ ok out
      → ((found n rs ≡ none) × (select names rs m ≡ ok out))
        ⊎ ((v : Value) × (found n rs ≡ some (ok v)) × (select names rs (put n v m) ≡ ok out))
  unfolding select
  select-cons n names m out h = elim (Option-cases (found n rs)) [
    | inl absent ↦ inl (absent, rw (absent, select) at h)
    | inr (ok v, present) ↦ inr (v, present, rw (present, select) at h)
    | inr (err e, present) ↦ absurd (failed e (rw (present, select) at h))
  ]
    where
      failed : (e : ClientError) → err e ≡ ok out → ⊥
      failed e q = cc

  -- What stands in the object already is what the field was projected to: it stays.
  select-lookup :
      (names : List String) (m out : Members) (name : String) (w : Value)
      → select names rs m ≡ ok out
      → found name rs ≡ some (ok w)
      → lookup name m ≡ some w
      → lookup name out ≡ some w
  unfolding select
  select-lookup [] m out name w h f l = subst (λ x. lookup name x ≡ some w) (ok_inj h) l
  select-lookup (n ∷ names) m out name w h f l = elim (select-cons n names m out h) [
    | inl (_, rest) ↦ select-lookup names m out name w rest f l
    | inr (v, present, rest) ↦ elim (Bool-cases (str_eq n name)) [
      | inr other ↦
          select-lookup names (put n v m) out name w rest f (lookup-put_other n name v m other ∙ l)
      | inl same ↦
          let is_name = (str_eq_iff n name).0 same in
          let is_w : v ≡ w = one_value v (sym present ∙ (ap (λ x. found x rs) is_name ∙ f)) in
          select-lookup names (put n v m) out name w rest f
            (ap (λ x. lookup x (put n v m)) (sym is_name) ∙ (lookup-put n v m ∙ ap some is_w))
    ]
  ]
    where
      one_value : (v : Value) → some (ok v) ≡ some (ok w) → v ≡ w
      one_value v e = cc

  select-listed :
      (names : List String) (m out : Members) (name : String) (r : Result Value)
      → select names rs m ≡ ok out
      → listed name names ≡ true
      → found name rs ≡ some r
      → (w : Value) × (r ≡ ok w) × (lookup name out ≡ some w)
  select-listed [] m out name r h l f = cc
  select-listed (n ∷ names) m out name r h l f = elim (Bool-cases (str_eq n name)) [
    | inr other ↦ elim (select-cons n names m out h) [
      | inl (_, rest) ↦ select-listed names m out name r rest (rw other at l) f
      | inr (v, _, rest) ↦ select-listed names (put n v m) out name r rest (rw other at l) f
    ]
    | inl same ↦
        let is_name = (str_eq_iff n name).0 same in
        elim (select-cons n names m out h) [
          | inl (absent, _) ↦ absurd (nothing (sym absent ∙ (ap (λ x. found x rs) is_name ∙ f)))
          | inr (v, present, rest) ↦ (
            v,
            sym (one_result v (sym present ∙ (ap (λ x. found x rs) is_name ∙ f))),
            select-lookup names (put n v m) out name v rest
                (ap (λ x. found x rs) (sym is_name) ∙ present)
                (ap (λ x. lookup x (put n v m)) (sym is_name) ∙ lookup-put n v m),
          )
        ]
  ]
    where
      nothing : none ≡ some r → ⊥
      nothing e = cc

      one_result : (v : Value) → some (ok v) ≡ some r → ok v ≡ r
      one_result v e = cc

module _ (field_of : String → String → Option Shape) where
  found-members_as :
      (d name : String) (m : Members) (v : Value)
      → lookup name m ≡ some v
      → found name (members_as field_of d m) ≡ some (field_as field_of (field_of d name) v)
  unfolding members_as
  found-members_as d name no_members v h = cc
  found-members_as d name (member n w m) v h = elim (Bool-cases (str_eq n name)) [
    | inr other ↦ rw other (found-members_as d name m v (rw other at h))
    | inl same ↦
        rw (same, (str_eq_iff n name).0 same)
          (ap (λ x. some (field_as field_of (field_of d name) x)) (one_value (rw same at h)))
  ]
    where
      one_value : some w ≡ some v → w ≡ v
      one_value e = cc

  -- Where the projection of an object succeeds, an allowed field that the object has stands in the
  -- result, projected by its kind.
  pub project-kept :
      (output name : String) (m o : Members) (v : Value)
      → project field_of (some output) (object_value m) ≡ ok (object_value o)
      → listed name (allowed output) ≡ true
      → lookup name m ≡ some v
      → (w : Value) × (field_as field_of (field_of output name) v ≡ ok w) × (lookup name o ≡ some w)
  unfolding project field_as
  project-kept output name m o v h l at =
      let (out, picked, made) =
        ok->>= (select (allowed output) (members_as field_of output m) no_members) _ h in
      let is_o : out ≡ o = one_object out (ok_inj made) in
      select-listed (members_as field_of output m) (allowed output) no_members o name _
        (picked ∙ ap ok is_o) l (found-members_as output name m v at)
    where
      one_object : (x : Members) → object_value x ≡ object_value o → x ≡ o
      one_object x e = cc
