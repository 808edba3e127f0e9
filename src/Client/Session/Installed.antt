-- ===== src/Client/Session/Installed.antt =====
-- client/src/lib.rs: which session is installed, after a change of one and after an installation.
use moenotes_api.Prelude.{
  Bool, Bool-cases, List, [], ap, arith, false, get_elem?, get_elem?-concat_cases, get_elem?_lt,
  if◌then◌else◌, inl, inr, length, length-append, lt-get_elem?, not, refl, some, suc, sym, true,
  zero, ℕ, ◌+◌, ◌<◌, ◌==◌, ◌∙◌, ◌∷◌, ◌≡◌,
}
use moenotes_api.Errors.{Result, err, ok}
use moenotes_api.Client.Session.{Session, State, at_session, cancel, install}
use moenotes_api.Client.Session.Operation.{Call, is_lasting, record_error, record_reply}

-- The change of a session under a reply: its token stays, and a block that lasts does.
abbrev pub Gentle : (Session → Session) → Type 0
Gentle f =
    (s : Session)
    → ((f s).stopped ≡ s.stopped) × (is_lasting s.blocked ≡ true → (f s).blocked ≡ s.blocked)

pub record_reply-Gentle {ℓ} :
    {A : Type ℓ} (m : Call) (sent : Bool) (result : Result A) → Gentle (record_reply m sent result)
unfolding record_reply record_error
record_reply-Gentle m sent (ok a) s = (ground arith, λ h. ground arith)
record_reply-Gentle m sent (err e) s = (ground arith, λ h. ground arith)

abbrev pub touch : ℕ → ℕ → (Session → Session) → Session → Session
touch i j f s = if i == j then f s else s

pub get_elem?-at_session :
    (ss : List Session) (i j : ℕ) (f : Session → Session) (s : Session)
    → get_elem? ss j ≡ some s
    → get_elem? (at_session ss i f) j ≡ some (touch i j f s)
get_elem?-at_session [] i j f s h = cc
get_elem?-at_session (x ∷ ss) zero zero f s h = ground arith
get_elem?-at_session (x ∷ ss) zero (suc j) f s h = ground arith
get_elem?-at_session (x ∷ ss) (suc i) zero f s h = ground arith
get_elem?-at_session (x ∷ ss) (suc i) (suc j) f s h =
    ground (arith, get_elem?-at_session ss i j f s h)

length-at_session :
    (ss : List Session) (i : ℕ) (f : Session → Session) → length (at_session ss i f) ≡ length ss
length-at_session [] i f = refl
length-at_session (x ∷ ss) zero f = refl
length-at_session (x ∷ ss) (suc i) f = ap suc (length-at_session ss i f)

-- What stands at an index afterwards is what stood there, changed or not.
from-at_session :
    (ss : List Session) (i j : ℕ) (f : Session → Session) (t : Session)
    → get_elem? (at_session ss i f) j ≡ some t
    → (s : Session) × (get_elem? ss j ≡ some s) × (t ≡ touch i j f s)
from-at_session ss i j f t at =
    let (s, old) =
      get_elem?_lt ss j (omega (arith, lt-get_elem? _ j t at, length-at_session ss i f)) in
    (s, old, same_session (sym at ∙ get_elem?-at_session ss i j f s old))
  where
    same_session : {a b : Session} → some a ≡ some b → a ≡ b
    same_session e = cc

-- The installed session is the last one, and its token alone is not cancelled.
pub record Installed (y : State) : Type 0 where
  pub last : y.current + 1 ≡ length y.sessions
  pub tokens :
      (i : ℕ) (s : Session) → get_elem? y.sessions i ≡ some s → s.stopped ≡ not (i == y.current)

pub at_session-Installed :
    (y : State) (i : ℕ) (f : Session → Session)
    → Gentle f
    → Installed y
    → Installed (record y { sessions = at_session y.sessions i f })
at_session-Installed y i f gentle h = record {
  last = h.last ∙ sym (length-at_session y.sessions i f);
  tokens = tokens;
}
  where
    tokens :
        (j : ℕ) (t : Session)
        → get_elem? (at_session y.sessions i f) j ≡ some t
        → t.stopped ≡ not (j == y.current)
    tokens j t at =
        let (s, old, is_t) = from-at_session y.sessions i j f t at in
        elim (Bool-cases (i == j)) [
          | inl same ↦ rw (is_t, same) ((gentle s).0 ∙ h.tokens j s old)
          | inr other ↦ rw (is_t, other) (h.tokens j s old)
        ]

cancelled-at_session :
    (y : State) (j : ℕ) (t : Session)
    → Installed y
    → get_elem? (at_session y.sessions y.current cancel) j ≡ some t
    → (t.stopped ≡ true) × (j < length y.sessions)
cancelled-at_session y j t h at =
    let (s, old, is_t) = from-at_session y.sessions y.current j cancel t at in
    (
      elim (Bool-cases (y.current == j)) [
        | inl same ↦ rw (is_t, same)
        | inr other ↦ rw (is_t, other) (ground (arith, h.tokens j s old))
      ],
      lt-get_elem? y.sessions j s old,
    )

pub install-Installed :
    (new : Session) (y : State) → new.stopped ≡ false → Installed y → Installed (install new y)
unfolding install
install-Installed new y live h = record {
  last = omega (
    arith,
    length-append (at_session y.sessions y.current cancel) (new ∷ []),
    length-at_session y.sessions y.current cancel,
  );
  tokens = λ j t at.
      elim (get_elem?-concat_cases (at_session y.sessions y.current cancel) new t j at) [
        | inl old ↦ ground (arith, cancelled-at_session y j t h old)
        | inr (here, same) ↦ rw same (ground (arith, length-at_session y.sessions y.current cancel))
      ];
}
