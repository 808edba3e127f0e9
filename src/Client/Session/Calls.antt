-- ===== src/Client/Session/Calls.antt =====
-- client/src/lib.rs and versions.rs: whatever calls end in whatever order. The steps are those
-- that change a session or install one; a registration is not among them.
use moenotes_api.Prelude.{
  Bool, Bool-cases, Option, String, [], ap, arith, false, inl, inr, none, not, refl, some, sym, ℕ,
  ◌==◌, ◌∷◌, ◌≡◌,
}
use moenotes_api.Errors.{
  Result, cancelled, err, guard, ok, protocol, require, session_changed, ◌>>◌,
}
use moenotes_api.Errors.Laws.{Result-cases, ok->>=, ok_injective}
use moenotes_api.Client.Jp.{Payload}
use moenotes_api.Client.Config.{SessionConfig, Url, metadata}
use moenotes_api.Client.Session.{
  Provider, Session, State, at_session, import_credentials, install, installed, make_session,
  replace_session, session_for,
}
use moenotes_api.Client.Session.Operation.{
  Call, Response, check_reply, end_call, read_answer, record_reply,
}
use moenotes_api.Client.Session.Versions.{
  VersionResponse, accept_versions, adopt_versions, refreshed, resource_of, unchanged,
}
use moenotes_api.Client.Auth.{LoginAnswer, accept_login, as_protocol, finish_login, new_credentials}

-- The finish of a Version call.
abbrev pub read_versions :
    {M : Type 0}
    → (String → Option Payload)
    → (M → Option VersionResponse)
    → ℕ
    → SessionConfig
    → Bool
    → Response M
    → State
    → Result Bool × State
read_versions parse_payload decode g presented stop response y =
    adopt_versions parse_payload g presented stop response.asset_version (decode response.message) y

module _ {M : Type 0} (parse_url : String → Option Url) (metadata_ok : String → Bool)
    (parse_payload : String → Option Payload) (decode : M → Option VersionResponse)
    (decode_login : M → Option LoginAnswer) where
  pub data Step : State → State → Type 0 where
    replaces :
        (channel : Result (Unit {0})) (c : SessionConfig) (provider : Option Provider) (y : State)
        → Step y (replace_session parse_url metadata_ok channel c provider y).1
    imports :
        (g : ℕ) (provider : Provider) (y : State)
        → Step y (import_credentials parse_url metadata_ok g provider y).1
    answers :
        (m : Call) (g : ℕ) (sent stop : Bool) (result : Result (Response M)) (now : ℕ) (y : State)
        → Step y (end_call m g sent stop result (read_answer g now) y).1
    discovers :
        (m : Call) (g : ℕ) (sent stop later : Bool) (presented : SessionConfig)
        (result : Result (Response M)) (y : State)
        → Step y
            (end_call m g sent stop result
              (read_versions parse_payload decode g presented later)
              y).1
    logs_in :
        (m : Call) (g : ℕ) (sent stop later : Bool) (config : SessionConfig) (uid : String)
        (result : Result (Response M)) (y : State)
        → Step y
            (end_call m g sent stop result
              (finish_login parse_url metadata_ok decode_login g config uid later)
              y).1

  pub data Reach : State → Type 0 where
    start :
        (s : Session)
        → s.stopped ≡ false
        → s.blocked ≡ none
        → Reach (record { sessions = s ∷ []; current = 0 })
    next : {y z : State} → Reach y → Step y z → Reach z

-- A property that a reply keeps, and that a finish keeps, is kept by a call's end.
pub end_call-keeps :
    {M A : Type 0} (P : State → Type 0) (m : Call) (g : ℕ) (sent stop : Bool)
    (result : Result (Response M)) (finish : Response M → State → Result A × State) (y : State)
    → P (record y { sessions = at_session y.sessions g (record_reply m sent result) })
    → ((r : Response M) (z : State) → P z → P (finish r z).1)
    → P (end_call m g sent stop result finish y).1
unfolding end_call
end_call-keeps P m g sent stop result finish y mid fin =
    let z : State = record y { sessions = at_session y.sessions g (record_reply m sent result) } in
    elim (Result-cases (check_reply m g stop result z)) [
      | inl (r, e) ↦ rw (e, end_call) (fin r z mid)
      | inr (x, e) ↦ rw (e, end_call) mid
    ]

pub adopt_versions-keeps :
    (P : State → Type 0) (parse_payload : String → Option Payload) (g : ℕ)
    (presented : SessionConfig) (stop : Bool) (header : Option String)
    (fresh : Option VersionResponse) (y : State)
    → P y
    → ((new : Session) → new.stopped ≡ false → P (install new y))
    → P (adopt_versions parse_payload g presented stop header fresh y).1
unfolding adopt_versions refreshed
adopt_versions-keeps P parse_payload g presented stop header fresh y mid fin =
    elim (Result-cases (accept_versions g presented stop fresh y)) [
      | inr (x, e) ↦ rw (e, adopt_versions) mid
      | inl ((r, s), e) ↦
          elim (Bool-cases
            (unchanged s.config presented r (resource_of parse_payload presented header r))) [
              | inl same ↦ rw (e, adopt_versions, same) mid
              | inr other ↦
                  rw (e, adopt_versions, other)
                    (fin (refreshed s presented r (resource_of parse_payload presented header r))
                      refl)
            ]
    ]

module _ (parse_url : String → Option Url) (metadata_ok : String → Bool) where
  make_session-live :
      (c : SessionConfig) (provider : Option Provider) (s : Session)
      → make_session parse_url metadata_ok c provider ≡ ok s
      → s.stopped ≡ false
  unfolding make_session
  make_session-live c provider s h = ground arith

  pub installed-keeps :
      (P : State → Type 0) (c : SessionConfig) (provider : Option Provider)
      (first : Result (Unit {0})) (y : State)
      → P y
      → ((new : Session) → new.stopped ≡ false → P (install new y))
      → P
          (installed parse_url metadata_ok
            (first >> make_session parse_url metadata_ok c provider)
            y).1
  installed-keeps P c provider (err e) y mid fin = mid
  installed-keeps P c provider (ok _) y mid fin =
      elim (Result-cases (make_session parse_url metadata_ok c provider)) [
        | inl (s, e) ↦ rw e (fin s (make_session-live c provider s e))
        | inr (x, e) ↦ rw e mid
      ]

  pub import-keeps :
      (P : State → Type 0) (g : ℕ) (provider : Provider) (y : State)
      → P y
      → ((new : Session) → new.stopped ≡ false → P (install new y))
      → P (import_credentials parse_url metadata_ok g provider y).1
  unfolding import_credentials
  import-keeps P g provider y mid fin = elim (Result-cases (session_for g y)) [
    | inl (s, e) ↦
        rw (e, import_credentials) (installed-keeps P s.config (some provider) (ok tt) y mid fin)
    | inr (x, e) ↦ rw (e, import_credentials) mid
  ]

  accept_login-live :
      (g : ℕ) (config : SessionConfig) (uid : String) (stop : Bool) (answer : Option LoginAnswer)
      (y : State) (s : Session) (n : ℕ)
      → accept_login parse_url metadata_ok g config uid stop answer y ≡ ok (s, n)
      → s.stopped ≡ false
  unfolding accept_login
  accept_login-live g config uid stop answer y s n e =
      let (response, a, r) = ok->>= (require answer protocol) _ e in
      let (pair, b, r1) = ok->>= (require response.credential protocol) _ r in
      let (entries, c, r2) =
        ok->>=
          (as_protocol (
            metadata parse_url metadata_ok config (some (new_credentials pair uid)) "validation"
              false))
          _ r1 in
      let (u, d, r3) = ok->>= (guard (y.current == g) session_changed) _ r2 in
      let (u', d', r4) = ok->>= (guard (not stop) cancelled) _ r3 in
      sym (ap (λ (p : Session × ℕ). p.0.stopped) (ok_injective _ (s, n) r4))

  pub login-keeps :
      {M : Type 0} (P : State → Type 0) (decode_login : M → Option LoginAnswer) (g : ℕ)
      (config : SessionConfig) (uid : String) (stop : Bool) (r : Response M) (y : State)
      → P y
      → ((new : Session) → new.stopped ≡ false → P (install new y))
      → P (finish_login parse_url metadata_ok decode_login g config uid stop r y).1
  unfolding finish_login
  login-keeps P decode_login g config uid stop r y mid fin =
      elim (Result-cases
        (accept_login parse_url metadata_ok g config uid stop (decode_login r.message) y)) [
          | inl ((s, n), e) ↦
              rw (e, finish_login)
                (fin s (accept_login-live g config uid stop (decode_login r.message) y s n e))
          | inr (x, e) ↦ rw (e, finish_login) mid
        ]
