-- ===== src/Client/Sdk/Form/Signing.antt =====
-- client/src/sdk_http/form.rs, sign_form: the values that are signed.
use moenotes_api.Prelude.{
  Bool, Bool-cases, List, Option, [], ap, arith, false, if◌then◌else◌, inl, inr, none, refl, some,
  subst, sym, true, ◌<◌, ◌∙◌, ◌∷◌, ◌≡◌, ◌⊎◌,
}
use moenotes_api.Client.Sdk.Base.{Bytes, Field, bytes_eq, ok, ok->>=}
use moenotes_api.Client.Sdk.Form.{bytes_ltb, decoded, insert, values_into}

-- The value of a name in a map.
abbrev pub look : Bytes → List Field → Option Bytes
look k [] = none
look k ((j, v) ∷ m) = if bytes_eq k j then some v else look k m

-- The value of the last field of a name.
abbrev pub last_value : Bytes → List Field → Option Bytes
last_value k [] = none
last_value k ((j, v) ∷ fields) = elim (last_value k fields) [
  | some w ↦ some w
  | none ↦ if bytes_eq k j then some v else none
]

abbrev pub Before : Bytes → List Field → Type 0
Before k [] = Unit
Before k ((j, w) ∷ m) = bytes_ltb k j ≡ true

-- The names ascend strictly.
abbrev pub Ascending : List Field → Type 0
Ascending [] = Unit
Ascending ((k, v) ∷ m) = Before k m × Ascending m

-- The order of byte texts.
abbrev pub Less : Bytes → Bytes → Type 0
Less _ [] = ⊥
Less [] (y ∷ ys) = Unit
Less (x ∷ xs) (y ∷ ys) = (x < y) ⊎ ((x ≡ y) × Less xs ys)

abbrev pub Below : Bytes → List Field → Type 0
Below k [] = Unit
Below k ((j, w) ∷ m) = Less k j

-- Each name is less than the next one.
abbrev pub Sorted : List Field → Type 0
Sorted [] = Unit
Sorted ((k, v) ∷ m) = Below k m × Sorted m

bytes_ltb-Less : (k j : Bytes) → bytes_ltb k j ≡ true → Less k j
bytes_ltb-Less [] [] e = cc
bytes_ltb-Less [] (y ∷ ys) e = tt
bytes_ltb-Less (x ∷ xs) [] e = cc
bytes_ltb-Less (x ∷ xs) (y ∷ ys) e = ground (arith, bytes_ltb-Less xs ys)

Ascending-Sorted : (m : List Field) → Ascending m → Sorted m
Ascending-Sorted [] a = tt
Ascending-Sorted ((k, v) ∷ []) a = (tt, tt)
Ascending-Sorted ((k, v) ∷ (j, w) ∷ m) (b, a) =
    (bytes_ltb-Less k j b, Ascending-Sorted ((j, w) ∷ m) a)

bytes_total : (k j : Bytes) → bytes_eq k j ≡ false → bytes_ltb k j ≡ false → bytes_ltb j k ≡ true
bytes_total [] [] e f = cc
bytes_total [] (j ∷ js) e f = cc
bytes_total (k ∷ ks) [] e f = refl
bytes_total (k ∷ ks) (j ∷ js) e f = ground (arith, bytes_total ks js)

pub bytes_eq_refl : (k : Bytes) → bytes_eq k k ≡ true
bytes_eq_refl [] = refl
bytes_eq_refl (c ∷ k) = ground (arith, bytes_eq_refl k)

pub bytes_eq-eq : (k j : Bytes) → bytes_eq k j ≡ true → k ≡ j
bytes_eq-eq [] [] e = refl
bytes_eq-eq [] (j ∷ js) e = cc
bytes_eq-eq (k ∷ ks) [] e = cc
bytes_eq-eq (k ∷ ks) (j ∷ js) e = ground (arith, bytes_eq-eq ks js)

insert-Before :
    (k v i : Bytes) (m : List Field) → bytes_ltb i k ≡ true → Before i m → Before i (insert k v m)
unfolding insert
insert-Before k v i [] h b = h
insert-Before k v i ((j, w) ∷ m) h b = ground arith

insert-Ascending : (k v : Bytes) (m : List Field) → Ascending m → Ascending (insert k v m)
unfolding insert
insert-Ascending k v [] a = (tt, tt)
insert-Ascending k v ((j, w) ∷ m) a = elim (Bool-cases (bytes_eq k j)) [
  | inl e ↦ rw e a
  | inr e ↦ elim (Bool-cases (bytes_ltb k j)) [
    | inl l ↦ rw (e, l) (l, a)
    | inr l ↦
        rw (e, l) (insert-Before k v j m (bytes_total k j e l) a.0, insert-Ascending k v m a.1)
  ]
]

-- Two names that equal a third are equal.
bytes_eq-apart : (k j i : Bytes) → bytes_eq j i ≡ false → bytes_eq k j ≡ true → bytes_eq k i ≡ false
bytes_eq-apart k j i ne e = ap (λ (t : Bytes). bytes_eq t i) (bytes_eq-eq k j e) ∙ ne

look-insert :
    (k j v : Bytes) (m : List Field)
    → look k (insert j v m) ≡ (if bytes_eq k j then some v else look k m)
unfolding insert
look-insert k j v [] = refl
look-insert k j v ((i, w) ∷ m) = elim (Bool-cases (bytes_eq j i)) [
  | inl e ↦ rw e (ground (arith, ap (bytes_eq k) (bytes_eq-eq j i e)))
  | inr e ↦ ground (arith, e, bytes_eq-apart k j i e, look-insert k j v m)
]

module _ (percent_decode : Bytes → Bytes) where
  -- What is signed for a name, by what the form has for it.
  abbrev pub Reads : Option Bytes → Option Bytes → Type 0
  Reads none none = Unit
  Reads (some value) (some text) = decoded percent_decode value ≡ ok text
  Reads _ _ = ⊥

  -- The map behind the fields that are left, by the map so far.
  abbrev AfterFields : Option Bytes → Option Bytes → Option Bytes → Type 0
  AfterFields none before now = now ≡ before
  AfterFields (some value) before now = Reads (some value) now

  -- One field more in front of those that are left.
  AfterFields-cons :
      (b : Bool) (value v : Bytes) (later before now : Option Bytes)
      → decoded percent_decode value ≡ ok v
      → AfterFields later (if b then some v else before) now
      → AfterFields
          (elim later [ some w ↦ some w | none ↦ if b then some value else none ])
          before
          now
  AfterFields-cons b value v (some w) before now d h = h
  AfterFields-cons true value v none before now d h = subst (Reads (some value)) (sym h) d
  AfterFields-cons false value v none before now d h = h

  values_into-look :
      (fields m out : List Field) (k : Bytes)
      → values_into percent_decode m fields ≡ ok out
      → AfterFields (last_value k fields) (look k m) (look k out)
  unfolding values_into
  values_into-look [] m out k e = ap (look k) (cc)
  values_into-look ((name, value) ∷ fields) m out k e =
      let (v, d, rest) =
        ok->>= (decoded percent_decode value)
          (λ (v : Bytes). values_into percent_decode (insert name v m) fields) e in
      let ih = values_into-look fields (insert name v m) out k rest in
      AfterFields-cons (bytes_eq k name) value v (last_value k fields) (look k m) (look k out) d (
        subst (λ (t : Option Bytes). AfterFields (last_value k fields) t (look k out))
          (look-insert k name v m) ih)

  values_into-Ascending :
      (fields m out : List Field)
      → values_into percent_decode m fields ≡ ok out
      → Ascending m
      → Ascending out
  unfolding values_into
  values_into-Ascending [] m out e a = subst Ascending (cc) a
  values_into-Ascending ((name, value) ∷ fields) m out e a =
      let (v, d, rest) =
        ok->>= (decoded percent_decode value)
          (λ (v : Bytes). values_into percent_decode (insert name v m) fields) e in
      values_into-Ascending fields (insert name v m) out rest (insert-Ascending name v m a)

  -- The map that is signed: its names ascend, and each has the last value of its field.
  pub Signed : List Field → List Field → Type 0
  Signed fields values = Sorted values × ((k : Bytes) → Reads (last_value k fields) (look k values))

  Reads-from : (later now : Option Bytes) → AfterFields later none now → Reads later now
  Reads-from none none h = tt
  Reads-from none (some v) h = cc
  Reads-from (some w) now h = h

  pub values_into-Signed :
      (fields values : List Field)
      → values_into percent_decode [] fields ≡ ok values
      → Signed fields values
  unfolding Signed
  values_into-Signed fields values e = (
    Ascending-Sorted values (values_into-Ascending fields [] values e tt),
    λ k. Reads-from (last_value k fields) (look k values) (values_into-look fields [] values k e),
  )
