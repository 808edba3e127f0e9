-- ===== src/Server/Projection/Laws.antt =====
-- server/src/projection.rs: a public response holds allowed fields only, and all of those it was given.
use moenotes_api.Prelude.{
  Bool, Bool-cases, List, Option, Option-cases, String, [], all, any, arith, false, inl, inr, none,
  refl, some, str_eq, str_eq_iff, str_eq_refl, subst, sym, true, ◌&&◌, ◌∷◌, ◌≡◌,
}
use moenotes_api.Errors.{ClientError, Result, err, ok}
use moenotes_api.Errors.Laws.{ok->>=, Result-cases}
use moenotes_api.Server.Json.{
  Members, Value, Values, array_value, member, no_members, no_values, object_value, put, value_and,
}
use moenotes_api.Server.Projection.{
  Kind, Shape, allowed, entries_as, field_as, found, keyed, members_as, message, plain, project,
  repeated, select, single, values_as,
}

abbrev pub listed : String → List String → Bool
listed name names = any (λ n. str_eq n name) names

pub ok_inj : {A : Type 0} {x y : A} → ok x ≡ ok y → x ≡ y
ok_inj e = cc

both_true : {a b : Bool} → a ≡ true → b ≡ true → (a && b) ≡ true
both_true h k = rw (h, k) refl

left_true : (a b : Bool) → (a && b) ≡ true → a ≡ true
left_true a b h = ground arith

right_true : (a b : Bool) → (a && b) ≡ true → b ≡ true
right_true a b h = ground arith

-- Every name of a list is listed in it, and in any list that has its names.
all-listed :
    (names ys : List String)
    → ((n : String) → listed n names ≡ true → listed n ys ≡ true)
    → all (λ n. listed n ys) names ≡ true
all-listed [] ys sub = refl
all-listed (name ∷ names) ys sub =
    both_true (sub name (rw (str_eq_refl name) refl))
      (all-listed names ys (λ n h. sub n (listed_tail n h)))
  where
    listed_tail : (n : String) → listed n names ≡ true → listed n (name ∷ names) ≡ true
    listed_tail n h = elim (Bool-cases (str_eq name n)) [
      | inl same ↦ rw same refl
      | inr other ↦ rw other h
    ]

-- Everything in a value, at every depth, is allowed: the specification of a public response.
module _ (field_of : String → String → Option Shape) where
  mutual
    pub clean : Option Shape → Value → Bool
    clean (some (single plain)) v = true
    clean (some (single (message d))) (object_value m) = clean_members d m
    clean (some (repeated k)) (array_value vs) = clean_values k vs
    clean (some (keyed (some k))) (object_value m) = clean_entries k m
    clean _ _ = false

    pub clean_values : Kind → Values → Bool
    clean_values k no_values = true
    clean_values k (value_and v vs) = clean (some (single k)) v && clean_values k vs

    pub clean_entries : Kind → Members → Bool
    clean_entries k no_members = true
    clean_entries k (member key v m) = clean (some (single k)) v && clean_entries k m

    pub clean_members : String → Members → Bool
    clean_members d no_members = true
    clean_members d (member name v m) =
        listed name (allowed d) && (clean (field_of d name) v && clean_members d m)

  -- What the members were projected to is clean, wherever it is a success.
  abbrev CleanFields : String → List (String × Result Value) → Type 0
  CleanFields d [] = Unit
  CleanFields d ((name, ok v) ∷ rs) = (clean (field_of d name) v ≡ true) × CleanFields d rs
  CleanFields d ((name, err e) ∷ rs) = CleanFields d rs

  CleanFields-found :
      (d name : String) (rs : List (String × Result Value)) (v : Value)
      → CleanFields d rs
      → found name rs ≡ some (ok v)
      → clean (field_of d name) v ≡ true
  CleanFields-found d name [] v h z = cc
  CleanFields-found d name ((n, ok w) ∷ rs) v (c, h) z = elim (Bool-cases (str_eq n name)) [
    | inl same ↦
        subst (λ x. clean (field_of d x) v ≡ true) ((str_eq_iff n name).0 same)
          (subst (λ x. clean (field_of d n) x ≡ true) (one_value (rw same at z)) c)
    | inr other ↦ CleanFields-found d name rs v h (rw other at z)
  ]
    where
      one_value : some (ok w) ≡ some (ok v) → w ≡ v
      one_value e = cc
  CleanFields-found d name ((n, err e) ∷ rs) v h z = elim (Bool-cases (str_eq n name)) [
    | inl same ↦ cc (rw same at z)
    | inr other ↦ CleanFields-found d name rs v h (rw other at z)
  ]

  clean_members-put :
      (d name : String) (v : Value) (m : Members)
      → listed name (allowed d) ≡ true
      → clean (field_of d name) v ≡ true
      → clean_members d m ≡ true
      → clean_members d (put name v m) ≡ true
  unfolding clean_members
  clean_members-put d name v no_members here c h = ground arith
  clean_members-put d name v (member n w m) here c h = elim (Bool-cases (str_eq n name)) [
    | inl same ↦
        let is_name = (str_eq_iff n name).0 same in
        rw same (
          both_true (left_true _ _ h) (
            both_true (subst (λ x. clean (field_of d x) v ≡ true) (sym is_name) c)
              (right_true _ _ (right_true _ _ h))))
    | inr other ↦ rw other (
        both_true (left_true _ _ h) (
          both_true (left_true _ _ (right_true _ _ h))
            (clean_members-put d name v m here c (right_true _ _ (right_true _ _ h)))))
  ]

  select-clean :
      (d : String) (names : List String) (rs : List (String × Result Value)) (m out : Members)
      → all (λ n. listed n (allowed d)) names ≡ true
      → CleanFields d rs
      → clean_members d m ≡ true
      → select names rs m ≡ ok out
      → clean_members d out ≡ true
  unfolding select
  select-clean d [] rs m out names_ok h c z = subst (λ x. clean_members d x ≡ true) (same z) c
    where
      same : ok m ≡ ok out → m ≡ out
      same e = cc
  select-clean d (name ∷ names) rs m out names_ok h c z = elim (Option-cases (found name rs)) [
    | inl absent ↦
        select-clean d names rs m out (right_true _ _ names_ok) h c (rw (absent, select) at z)
    | inr (ok v, present) ↦
        select-clean d names rs (put name v m) out (right_true _ _ names_ok) h
          (clean_members-put d name v m (left_true _ _ names_ok)
            (CleanFields-found d name rs v h present) c)
          (rw (present, select) at z)
    | inr (err e, present) ↦ absurd (failed e (rw (present, select) at z))
  ]
    where
      failed : (e : ClientError) → err e ≡ ok out → ⊥
      failed e q = cc

  mutual
    unfolding field_as values_as entries_as members_as clean clean_values clean_entries
        clean_members

    field_as-clean :
        (shape : Option Shape) (v out : Value)
        → field_as field_of shape v ≡ ok out
        → clean shape out ≡ true
    field_as-clean (some (single plain)) v out h = refl
    field_as-clean (some (single (message d))) (object_value m) out h =
        let (o, picked, made) =
          ok->>= (select (allowed d) (members_as field_of d m) no_members) _ h in
        subst (λ x. clean (some (single (message d))) x ≡ true) (ok_inj made)
          (select-clean d (allowed d) (members_as field_of d m) no_members o
            (all-listed (allowed d) (allowed d) (λ n l. l)) (members_as-clean d m) refl picked)
    field_as-clean (some (repeated k)) (array_value vs) out h =
        let (ws, read, made) = ok->>= (values_as field_of k vs) _ h in
        subst (λ x. clean (some (repeated k)) x ≡ true) (ok_inj made) (values_as-clean k vs ws read)
    field_as-clean (some (keyed (some k))) (object_value m) out h =
        let (o, read, made) = ok->>= (entries_as field_of k m) _ h in
        subst (λ x. clean (some (keyed (some k))) x ≡ true) (ok_inj made)
          (entries_as-clean k m o read)
    field_as-clean shape v out h = cc

    values_as-clean :
        (k : Kind) (vs ws : Values) → values_as field_of k vs ≡ ok ws → clean_values k ws ≡ true
    values_as-clean k no_values ws h = subst (λ x. clean_values k x ≡ true) (ok_inj h) refl
    values_as-clean k (value_and v vs) ws h =
        let (w, first, h1) = ok->>= (field_as field_of (some (single k)) v) _ h in
        let (rest, read, made) = ok->>= (values_as field_of k vs) _ h1 in
        subst (λ x. clean_values k x ≡ true) (ok_inj made)
          (both_true (field_as-clean (some (single k)) v w first) (values_as-clean k vs rest read))

    entries_as-clean :
        (k : Kind) (m o : Members) → entries_as field_of k m ≡ ok o → clean_entries k o ≡ true
    entries_as-clean k no_members o h = subst (λ x. clean_entries k x ≡ true) (ok_inj h) refl
    entries_as-clean k (member key v m) o h =
        let (w, first, h1) = ok->>= (field_as field_of (some (single k)) v) _ h in
        let (rest, read, made) = ok->>= (entries_as field_of k m) _ h1 in
        subst (λ x. clean_entries k x ≡ true) (ok_inj made)
          (both_true (field_as-clean (some (single k)) v w first) (entries_as-clean k m rest read))

    members_as-clean : (d : String) (m : Members) → CleanFields d (members_as field_of d m)
    members_as-clean d no_members = tt
    members_as-clean d (member name v m) =
        elim (Result-cases (field_as field_of (field_of d name) v)) [
          | inl (w, z) ↦ rw z (field_as-clean (field_of d name) v w z, members_as-clean d m)
          | inr (e, z) ↦ rw z (members_as-clean d m)
        ]

  -- A projection that succeeds is one of a known message, and holds, at every depth, only fields
  -- that the allowlist names for their message.
  pub project-clean :
      (output : Option String) (v out : Value)
      → project field_of output v ≡ ok out
      → (d : String) × (output ≡ some d) × (clean (some (single (message d))) out ≡ true)
  unfolding project
  project-clean none v out h = cc
  project-clean (some d) v out h = (d, refl, field_as-clean (some (single (message d))) v out h)
