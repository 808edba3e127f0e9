-- ===== src/Server/Json/Laws.antt =====
-- Members of an object after an assignment.
use moenotes_api.Prelude.{
  Bool-cases, String, false, inl, inr, refl, some, str_eq, str_eq_iff, str_eq_refl, subst, sym, ◌≡◌,
}
use moenotes_api.Server.Json.{Members, Value, lookup, member, no_members, put}

pub lookup-put : (k : String) (v : Value) (m : Members) → lookup k (put k v m) ≡ some v
lookup-put k v no_members = rw (str_eq_refl k) refl
lookup-put k v (member j w m) = elim (Bool-cases (str_eq j k)) [
  | inl same ↦ rw (same, same) refl
  | inr other ↦ rw (other, other) (lookup-put k v m)
]

pub lookup-put_other :
    (a b : String) (v : Value) (m : Members)
    → str_eq a b ≡ false
    → lookup b (put a v m) ≡ lookup b m
lookup-put_other a b v no_members ne = rw ne refl
lookup-put_other a b v (member n w m) ne = elim (Bool-cases (str_eq n a)) [
  | inl same ↦
      let other : str_eq n b ≡ false =
        subst (λ x. str_eq x b ≡ false) (sym ((str_eq_iff n a).0 same)) ne in
      rw (same, other) refl
  | inr differs ↦ elim (Bool-cases (str_eq n b)) [
    | inl here ↦ rw (differs, here) refl
    | inr there ↦ rw (differs, there) (lookup-put_other a b v m ne)
  ]
]
