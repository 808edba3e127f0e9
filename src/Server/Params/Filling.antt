-- ===== src/Server/Params/Filling.antt =====
-- server/src/query_params.rs: repeated and duplicate parameters, and their number.
use moenotes_api.Prelude.{
  Bool, List, Option, String, [], ap, arith, false, length, ltb, none, refl, some, subst, sym, true,
  ℕ, ◌+◌, ◌∙◌, ◌∷◌, ◌≡◌, ◌≤◌,
}
use moenotes_api.Errors.{Result, guard, invalid_request, ok, require, ◌>>=◌}
use moenotes_api.Errors.Laws.{ok->>=}
use moenotes_api.Server.Json.{
  Members, Value, Values, array_value, lookup, no_values, push, put, value_and,
}
use moenotes_api.Server.Json.Laws.{lookup-put}
use moenotes_api.Server.Params.{
  Field, Kind, elements, fill, find_field, insert, max_parameters, scalar,
}

ok_inj : {x y : Members} → ok x ≡ ok y → x ≡ y
ok_inj e = cc

-- The values of the texts of a parameter that repeats, in their order.
abbrev pub scalars : Kind → List String → Result Values
scalars kind [] = ok no_values
scalars kind (t ∷ ts) = do v ← scalar kind t; vs ← scalars kind ts; ok (value_and v vs)

abbrev pub append : Values → Values → Values
append no_values ws = ws
append (value_and v vs) ws = value_and v (append vs ws)

append-push :
    (vs : Values) (v : Value) (ws : Values) → append (push v vs) ws ≡ append vs (value_and v ws)
append-push no_values v ws = refl
append-push (value_and u vs) v ws = ap (value_and u) (append-push vs v ws)

append_none : (vs : Values) → append vs no_values ≡ vs
append_none no_values = refl
append_none (value_and v vs) = ap (value_and v) (append_none vs)

abbrev pub with_key : String → List String → List (String × String)
with_key k [] = []
with_key k (t ∷ ts) = (k, t) ∷ with_key k ts

module _ (split : String → List String) (fields : List Field) where
  -- What a pair that is taken went through.
  fill-cons :
      (key text : String) (pairs : List (String × String)) (index : ℕ) (m n : Members)
      → fill split fields index ((key, text) ∷ pairs) m ≡ ok n
      → (ltb index max_parameters ≡ true)
        × ((f : Field) × (find_field key fields ≡ some f)
            × ((v : Value) × (scalar f.kind text ≡ ok v)
                × ((m' : Members) × (insert (split key) v f.is_list m ≡ ok m')
                    × (fill split fields (index + 1) pairs m' ≡ ok n))))
  unfolding fill
  fill-cons key text pairs index m n h =
      let (u, few, h1) = ok->>= (guard (ltb index max_parameters) invalid_request) _ h in
      let (f, known, h2) = ok->>= (require (find_field key fields) invalid_request) _ h1 in
      let (v, read, h3) = ok->>= (scalar f.kind text) _ h2 in
      let (m', put_in, h4) = ok->>= (insert (split key) v f.is_list m) _ h3 in
      (
        guard-true (ltb index max_parameters) u few,
        (f, required (find_field key fields) f known, (v, read, (m', put_in, h4))),
      )
    where
      guard-true : (b : Bool) (u : Unit {0}) → guard b invalid_request ≡ ok u → b ≡ true
      guard-true true u e = refl
      guard-true false u e = cc

      required : (o : Option Field) (f : Field) → require o invalid_request ≡ ok f → o ≡ some f
      required none f e = cc
      required (some g) f e = cc

  -- Where a query with values for one undotted parameter that repeats is accepted, each value is
  -- one of the parameter's kind, and the parameter's array then has all of them behind what it
  -- had, in the order of the query, duplicates included.
  pub fill-scalars :
      (k : String) (f : Field) (texts : List String) (index : ℕ) (m n : Members) (before : Values)
      → split k ≡ k ∷ []
      → find_field k fields ≡ some f
      → f.is_list ≡ true
      → elements (lookup k m) ≡ ok before
      → fill split fields index (with_key k texts) m ≡ ok n
      → (vs : Values) × (scalars f.kind texts ≡ ok vs)
        × (elements (lookup k n) ≡ ok (append before vs))
  unfolding fill insert
  fill-scalars k f [] index m n before whole known repeats start h = (
    no_values,
    refl,
    ap (λ x. elements (lookup k x)) (sym (ok_inj h)) ∙ (start ∙ ap ok (sym (append_none before))),
  )
  fill-scalars k f (t ∷ ts) index m n before whole known repeats start h =
      let (_, (f', is_f, (v, read, (m', put_in, rest)))) =
        fill-cons k t (with_key k ts) index m n h in
      let same : f' ≡ f = one_field f' (sym is_f ∙ known) in
      let pushed : m' ≡ put k (array_value (push v before)) m =
        push_in f'.is_list v m' (subst (λ x. insert x v f'.is_list m ≡ ok m') whole put_in)
          (ap repeats_of same ∙ repeats) in
      let (vs, read_all, kept) =
        fill-scalars k f ts (index + 1) m' n (push v before) whole known repeats
          (rw (pushed, lookup-put k (array_value (push v before)) m) refl) rest in
      (
        value_and v vs,
        rw (subst (λ x. scalar x.kind t ≡ ok v) same read, read_all) refl,
        kept ∙ ap ok (append-push before v vs),
      )
    where
      one_field : (g : Field) → some g ≡ some f → g ≡ f
      one_field g e = cc

      repeats_of : Field → Bool
      repeats_of g = g.is_list

      push_in :
          (b : Bool) (v : Value) (m' : Members)
          → insert (k ∷ []) v b m ≡ ok m'
          → b ≡ true
          → m' ≡ put k (array_value (push v before)) m
      push_in true v m' e r = sym (ok_inj (rw (insert, start) at e))
      push_in false v m' e r = cc

  -- A query is accepted with at most 256 parameters, counting those that came before.
  fill-count :
      (pairs : List (String × String)) (index : ℕ) (m n : Members)
      → index ≤ max_parameters
      → fill split fields index pairs m ≡ ok n
      → index + length pairs ≤ max_parameters
  unfolding fill
  fill-count [] index m n below h = omega arith
  fill-count ((key, text) ∷ pairs) index m n below h =
      let (few, (f, _, (v, _, (m', _, rest)))) = fill-cons key text pairs index m n h in
      omega (arith, fill-count pairs (index + 1) m' n (ground arith) rest)
