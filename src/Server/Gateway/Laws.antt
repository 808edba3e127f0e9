-- ===== src/Server/Gateway/Laws.antt =====
-- server/src/lib.rs and diagnostics.rs: requests that run, and what they hold.
use moenotes_api.Prelude.{
  Bool, List, Option, Option-cases, [], add_one, ap, arith, false, inl, inr, length, none, refl,
  some, true, ℕ, ◌%◌, ◌++◌, ◌+◌, ◌-◌, ◌<◌, ◌^◌, ◌∙◌, ◌∷◌, ◌≡◌, ◌≤◌,
}
use moenotes_api.Server.Gateway.{
  Gateway, accepts, admission_limit, answered, bearer, begin_request, close_request, count_error,
  end_request, enter, entered, hashes_eq, leave, new_gateway, open_request, provided_key, strip,
  sub_one,
}

-- The requests that are open and have not entered, and those that hold a permit.
pub record Running : Type 0 where
  pub waiting : ℕ
  pub holding : ℕ

-- What requests do, one at a time: one arrives, is answered by `authenticate` or
-- without it, enters, or ends.
pub data Step : Running × Gateway → Running × Gateway → Type 0 where
  opens :
      (r : Running) (g : Gateway)
      → r.waiting + r.holding + 1 < 2 ^ 64
      → Step (r, g) (record r { waiting = r.waiting + 1 }, open_request g)
  turned_away :
      (r : Running) (g : Gateway) (w status : ℕ) (accepted : Bool)
      → r.waiting ≡ w + 1
      → (enter accepted g).0 ≡ answered status
      → Step (r, g) (record r { waiting = w }, close_request status (enter accepted g).1)
  unprotected :
      (r : Running) (g : Gateway) (w status : ℕ)
      → r.waiting ≡ w + 1
      → Step (r, g) (record r { waiting = w }, close_request status g)
  enters :
      (r : Running) (g : Gateway) (w : ℕ) (accepted : Bool)
      → r.waiting ≡ w + 1
      → (enter accepted g).0 ≡ entered
      → Step (r, g) (record r { waiting = w; holding = r.holding + 1 }, (enter accepted g).1)
  ends :
      (r : Running) (g : Gateway) (h status : ℕ)
      → r.holding ≡ h + 1
      → Step (r, g) (record r { holding = h }, close_request status (leave g))

pub data Reach : Running × Gateway → Type 0 where
  start : Reach (record { waiting = 0; holding = 0 }, new_gateway)
  next : {y z : Running × Gateway} → Reach y → Step y z → Reach z

-- The permits that are held and free are as many as there are, and `inflight` counts the requests.
abbrev pub Counted : Running × Gateway → Type 0
Counted (r, g) =
    (g.permits + r.holding ≡ admission_limit)
    × (g.diagnostics.inflight ≡ r.waiting + r.holding)
    × (r.waiting + r.holding < 2 ^ 64)

wrap_back : (n : ℕ) → n + 1 < 2 ^ 64 → (n + 1 + (2 ^ 64 - 1)) % 2 ^ 64 ≡ n
wrap_back n h = omega arith

close_request-inflight :
    (status : ℕ) (g : Gateway)
    → ((close_request status g).diagnostics.inflight ≡ sub_one g.diagnostics.inflight)
      × ((close_request status g).permits ≡ g.permits)
unfolding close_request end_request count_error
close_request-inflight status g = ground arith

enter-permits : (accepted : Bool) (g : Gateway) → ((enter accepted g).1.diagnostics ≡ g.diagnostics)
unfolding enter
enter-permits accepted g = ground arith

answered-permits :
    (accepted : Bool) (g : Gateway) (status : ℕ)
    → (enter accepted g).0 ≡ answered status
    → (enter accepted g).1 ≡ g
unfolding enter
answered-permits accepted g status h = ground arith

entered-permits :
    (accepted : Bool) (g : Gateway)
    → (enter accepted g).0 ≡ entered
    → (enter accepted g).1.permits + 1 ≡ g.permits
unfolding enter
entered-permits accepted g h = ground arith

-- A request that ends gives its count back.
closed :
    (status n : ℕ) (g : Gateway)
    → g.diagnostics.inflight ≡ n + 1
    → n + 1 < 2 ^ 64
    → (close_request status g).diagnostics.inflight ≡ n
closed status n g i b = (close_request-inflight status g).0 ∙ (ap sub_one i ∙ wrap_back n b)

turned_away-Counted :
    (r : Running) (g : Gateway) (w status : ℕ)
    → r.waiting ≡ w + 1
    → Counted (r, g)
    → Counted (record r { waiting = w }, close_request status g)
turned_away-Counted r g w status one (p, i, b) = (
  omega (arith, (close_request-inflight status g).1),
  closed status (w + r.holding) g (omega arith) (omega arith),
  omega arith,
)

pub Step-Counted : {y z : Running × Gateway} → Step y z → Counted y → Counted z
unfolding open_request begin_request leave
Step-Counted (opens r g room) (p, i, b) = (p, ap add_one i ∙ omega arith, omega arith)
Step-Counted (turned_away r g w status accepted one out) c =
    rw (answered-permits accepted g status out) (turned_away-Counted r g w status one c)
Step-Counted (unprotected r g w status one) c = turned_away-Counted r g w status one c
Step-Counted (enters r g w accepted one out) (p, i, b) = (
  omega (arith, entered-permits accepted g out),
  ap (λ d. d.inflight) (enter-permits accepted g) ∙ omega arith,
  omega arith,
)
Step-Counted (ends r g h status one) (p, i, b) = (
  omega (arith, (close_request-inflight status (leave g)).1),
  closed status (r.waiting + h) (leave g) (omega arith) (omega arith),
  omega arith,
)

-- However requests arrive, are turned away, enter and end (fewer than 2^64 at a time): the permits
-- that are held and those that are free are 64 together, and `inflight` is the number of the open
-- requests.
pub Reach-Counted : {y : Running × Gateway} → Reach y → Counted y
Reach-Counted start = (refl, refl, omega arith)
Reach-Counted (next r st) = Step-Counted st (Reach-Counted r)

strip-some : (p s k : List ℕ) → strip p s ≡ some k → s ≡ p ++ k
strip-some [] s k h = cc
strip-some (x ∷ p) [] k h = cc
strip-some (x ∷ p) (c ∷ s) k h = ground (arith, strip-some p s k)

hashes_eq_sound : (xs ys : List ℕ) → hashes_eq xs ys ≡ true → xs ≡ ys
hashes_eq_sound [] [] h = refl
hashes_eq_sound [] (y ∷ ys) h = cc
hashes_eq_sound (x ∷ xs) [] h = cc
hashes_eq_sound (x ∷ xs) (y ∷ ys) h = ground (arith, hashes_eq_sound xs ys)

provided_some :
    (values : List (Option (List ℕ))) (key : List ℕ)
    → provided_key values ≡ some key
    → values ≡ some (bearer ++ key) ∷ []
provided_some [] key h = cc
provided_some (none ∷ vs) key h = cc
provided_some (some v ∷ []) key h = ap (λ x. some x ∷ []) (strip-some bearer v key h)
provided_some (some v ∷ w ∷ vs) key h = cc

enter_open :
    (accepted : Bool) (g : Gateway)
    → (enter accepted g).0 ≡ entered
    → (accepted ≡ true) × (0 < g.permits)
unfolding enter
enter_open accepted g h = (ground arith, ground arith)

-- A request enters only with exactly one `authorization` value, which is `Bearer ` and a key of at
-- most 4096 bytes whose digest is the configured one, and only while a permit is free.
pub enter-accepts :
    (digest : List ℕ → List ℕ) (key_hash : List ℕ) (values : List (Option (List ℕ))) (g : Gateway)
    → (enter (accepts digest key_hash values) g).0 ≡ entered
    → (key : List ℕ) × (values ≡ some (bearer ++ key) ∷ [])
      × (length key ≤ 4096)
      × (digest key ≡ key_hash)
      × (0 < g.permits)
unfolding accepts
enter-accepts digest key_hash values g h =
    let (good, free) = enter_open (accepts digest key_hash values) g h in
    elim (Option-cases (provided_key values)) [
      | inl z ↦ absurd (refused (rw (z, accepts) at good))
      | inr (key, z) ↦
          let fits = rw (z, accepts) at good in
          (
            key,
            provided_some values key z,
            ground (arith, fits),
            hashes_eq_sound (digest key) key_hash (ground (arith, fits)),
            free,
          )
    ]
  where
    refused : false ≡ true → ⊥
    refused e = cc
