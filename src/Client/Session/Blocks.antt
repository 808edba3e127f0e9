-- ===== src/Client/Session/Blocks.antt =====
-- client/src/lib.rs and versions.rs: what holds of the sessions whatever happens: which one is
-- installed, and which blocks last.
use moenotes_api.Prelude.{
  Bool, Bool-cases, Option, String, [], ap, arith, false, get_elem?, get_elem?-append_left, inl,
  inr, is_none, none, not, refl, some, suc, true, zero, ℕ, ◌==◌, ◌↔◌, ◌∙◌, ◌∷◌, ◌≡◌,
}
use moenotes_api.Errors.{ClientError, ErrorKind, Result, err, ok}
use moenotes_api.Client.Jp.{Payload}
use moenotes_api.Client.Config.{Url}
use moenotes_api.Client.Session.{
  Session, State, at_session, cancel, install, query_error, replace_session,
}
use moenotes_api.Client.Session.Operation.{
  Call, Response, begin_call, check_reply, end_call, is_lasting, override_sent, read_answer,
  record_reply, refused,
}
use moenotes_api.Client.Session.Versions.{VersionResponse}
use moenotes_api.Client.Session.Installed.{
  Gentle, Installed, at_session-Installed, get_elem?-at_session, install-Installed,
  record_reply-Gentle, touch,
}
use moenotes_api.Client.Session.Calls.{
  Reach, Step, adopt_versions-keeps, answers, discovers, end_call-keeps, import-keeps, imports,
  installed-keeps, login-keeps, logs_in, next, read_versions, replaces, start,
}
use moenotes_api.Client.Auth.{LoginAnswer, finish_login}

-- A session that is blocked for its version or its device is so afterwards, for the same reason.
abbrev pub KeepsBlock : ℕ → ErrorKind → State → Type 0
KeepsBlock i k y = (s : Session) × (get_elem? y.sessions i ≡ some s) × (s.blocked ≡ some k)

at_session-KeepsBlock :
    (i : ℕ) (k : ErrorKind) (g : ℕ) (f : Session → Session) (y : State)
    → Gentle f
    → is_lasting (some k) ≡ true
    → KeepsBlock i k y
    → KeepsBlock i k (record y { sessions = at_session y.sessions g f })
at_session-KeepsBlock i k g f y gentle lasts (s, at, blocked) = (
  touch g i f s,
  get_elem?-at_session y.sessions g i f s at,
  elim (Bool-cases (g == i)) [
    | inl same ↦ rw same ((gentle s).1 (ap is_lasting blocked ∙ lasts) ∙ blocked)
    | inr other ↦ rw other blocked
  ],
)

cancel-Gentle : (s : Session) → (cancel s).blocked ≡ s.blocked
cancel-Gentle s = refl

install-KeepsBlock :
    (i : ℕ) (k : ErrorKind) (new : Session) (y : State)
    → KeepsBlock i k y
    → KeepsBlock i k (install new y)
unfolding install
install-KeepsBlock i k new y (s, at, blocked) = (
  touch y.current i cancel s,
  get_elem?-append_left _ (new ∷ []) i _ (get_elem?-at_session y.sessions y.current i cancel s at),
  elim (Bool-cases (y.current == i)) [ inl same ↦ rw same blocked | inr other ↦ rw other blocked ],
)

module _ {M : Type 0} (parse_url : String → Option Url) (metadata_ok : String → Bool)
    (parse_payload : String → Option Payload) (decode : M → Option VersionResponse)
    (decode_login : M → Option LoginAnswer) where
  -- What a reply's change of one session and an installation keep, every step keeps.
  Step-keeps :
      (P : State → Type 0)
      → ((g : ℕ) (f : Session → Session) (y : State)
          → Gentle f
          → P y
          → P (record y { sessions = at_session y.sessions g f }))
      → ((new : Session) (y : State) → new.stopped ≡ false → P y → P (install new y))
      → {y z : State} → Step parse_url metadata_ok parse_payload decode decode_login y z
      → P y
      → P z
  unfolding replace_session
  Step-keeps P reply new (replaces channel c provider y) h =
      installed-keeps parse_url metadata_ok P c provider channel y h (λ s live. new s y live h)
  Step-keeps P reply new (imports g provider y) h =
      import-keeps parse_url metadata_ok P g provider y h (λ s live. new s y live h)
  Step-keeps P reply new (answers m g sent stop result now y) h =
      end_call-keeps P m g sent stop result (read_answer g now) y
        (reply g (record_reply m sent result) y (record_reply-Gentle m sent result) h) (λ r z p. p)
  Step-keeps P reply new (discovers m g sent stop later presented result y) h =
      end_call-keeps P m g sent stop result (read_versions parse_payload decode g presented later) y
        (reply g (record_reply m sent result) y (record_reply-Gentle m sent result) h)
        (λ r z p.
          adopt_versions-keeps P parse_payload g presented later r.asset_version (decode r.message)
            z p (λ s live. new s z live p))
  Step-keeps P reply new (logs_in m g sent stop later config uid result y) h =
      end_call-keeps P m g sent stop result
        (finish_login parse_url metadata_ok decode_login g config uid later) y
        (reply g (record_reply m sent result) y (record_reply-Gentle m sent result) h)
        (λ r z p.
          login-keeps parse_url metadata_ok P decode_login g config uid later r z p
            (λ s live. new s z live p))

  -- A session that is blocked for its version or for a device conflict stays blocked for the same
  -- reason through every replacement, import, login, answered query and Version call: only another
  -- session that is installed in its place is free of the block.
  pub Step-KeepsBlock :
      {y z : State} (i : ℕ) (k : ErrorKind)
      → Step parse_url metadata_ok parse_payload decode decode_login y z
      → is_lasting (some k) ≡ true
      → KeepsBlock i k y
      → KeepsBlock i k z
  Step-KeepsBlock i k st lasts =
      Step-keeps (KeepsBlock i k) (λ g f y gentle p. at_session-KeepsBlock i k g f y gentle lasts p)
        (λ new y live p. install-KeepsBlock i k new y p) st

  -- After any run of replacements, imports, logins, answered queries and Version calls the
  -- installed session is the one that was made last, its token is not cancelled, and the token of
  -- every session before it is.
  pub Reach-Installed :
      {y : State} → Reach parse_url metadata_ok parse_payload decode decode_login y → Installed y
  Reach-Installed (start s live free) = record { last = refl; tokens = tokens }
    where
      tokens : (i : ℕ) (t : Session) → get_elem? (s ∷ []) i ≡ some t → t.stopped ≡ not (i == 0)
      tokens zero t at = ground (arith, live)
      tokens (suc i) t at = cc
  Reach-Installed (next r st) =
      Step-keeps Installed at_session-Installed' (λ new y live p. install-Installed new y live p) st
        (Reach-Installed r)
    where
      at_session-Installed' :
          (g : ℕ) (f : Session → Session) (y : State)
          → Gentle f
          → Installed y
          → Installed (record y { sessions = at_session y.sessions g f })
      at_session-Installed' g f y gentle p = at_session-Installed y g f gentle p

-- A call of a session that is not the installed one ends with an error, whatever the reply and its
-- finish, and changes nothing but what the reply records in its own session.
pub end_call-stale :
    {M A : Type 0} (m : Call) (g : ℕ) (sent stop : Bool) (result : Result (Response M))
    (finish : Response M → State → Result A × State) (y : State)
    → (y.current == g) ≡ false
    → ((e : ClientError) × ((end_call m g sent stop result finish y).0 ≡ err e))
      × ((end_call m g sent stop result finish y).1
          ≡ record y { sessions = at_session y.sessions g (record_reply m sent result) })
unfolding end_call check_reply
end_call-stale m g sent stop (err e) finish y stale = ((e, refl), refl)
end_call-stale m g sent stop (ok r) finish y stale = elim (Bool-cases stop) [
  | inl h ↦ rw (h, end_call, check_reply) ((_, refl), refl)
  | inr h ↦ rw (h, stale, end_call, check_reply) ((_, refl), refl)
]

-- For a call that is not anonymous: the local admission test of the installed session refuses
-- nothing exactly if the call would begin and the session has credentials.
pub query_error-begin_call :
    (y : State) (s : Session) (m : Call)
    → get_elem? y.sessions y.current ≡ some s
    → m.anonymous ≡ false
    → (query_error false y ≡ none)
      ↔ ((begin_call m s ≡ ok (override_sent m s)) × (is_none s.credentials ≡ false))
unfolding query_error begin_call refused
query_error-begin_call y s m at player = (λ h. ground arith, λ h. ground arith)
