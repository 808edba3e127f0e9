-- ===== src/Server/Operator/Recovery.antt =====
-- server/src/managed.rs, GameRecovery::recover: what a recovery does to the game's server and to the
-- stored session. What the client and the disk answer to it is given, each answer by its place.
pub mod Rules
pub mod Laws
use moenotes_api.Prelude.{Bool, List, Option, [], false, not, true, ℕ, ◌++◌, ◌==◌, ◌∷◌}
use moenotes_api.Errors.{
  Result, authentication, cancelled, err, guard, invalid_config, ok, require, session_changed,
}
use moenotes_api.Client.Session.{SessionStatus, device_conflict_status, version_blocked_status}

-- What is done outside the process: the two calls, a login with the SDK, the storing of a session
-- and its installation, and the choice of an account.
pub data Effect : Type 0 where
  pre_login login sdk_login persist_session install_saved : Effect
  choose_account : ℕ → Effect

abbrev pub Run : Type 0 → Type 0
Run A = Result A × List Effect

abbrev pub and_then : {A B : Type 0} → Run A → (A → Run B) → Run B
and_then (err e, done) next = (err e, done)
and_then (ok a, done) next = ((next a).0, done ++ (next a).1)

infixl 5 ◌>>=◌ ◌>>◌
abbrev pub ◌>>=◌ : {A B : Type 0} → Run A → (A → Run B) → Run B
m >>= next = and_then m next

abbrev pub ◌>>◌ : {B : Type 0} → Run (Unit {0}) → Run B → Run B
m >> second = and_then m (λ u. second)

-- An answer that changes nothing.
abbrev pub read_only : {A : Type 0} → Result A → Run A
read_only r = (r, [])

-- An answer to something that is done.
abbrev pub perform : {A : Type 0} → Effect → Result A → Run A
perform e r = (r, e ∷ [])

abbrev pub is_blocked_status : SessionStatus → Bool
is_blocked_status version_blocked_status = true
is_blocked_status device_conflict_status = true
is_blocked_status _ = false

-- The answers to a recovery. `C` are stored credentials.
pub record GameAnswers (C : Type 0) : Type 0 where
  pub locked : Result (Unit {0})
  pub generation : ℕ
  pub status : SessionStatus
  pub saved : Result (Option C)
  pub matches : C → Result Bool
  pub approved : Result (Unit {0})
  pub context : Result (Unit {0})
  pub exists : Result Bool
  pub logged_in : Result ℕ
  pub matches_after : C → Result Bool
  pub is_cancelled : Bool
  pub persisted : Result (Unit {0})

-- From the first call on.
abbrev pub game_calls : {C : Type 0} → GameAnswers C → C → Run (Unit {0})
game_calls w saved = do
  exists ← perform pre_login w.exists
  read_only (guard exists authentication)
  is_new_user ← perform login w.logged_in
  still ← read_only (w.matches_after saved)
  read_only (guard still invalid_config)
  read_only (guard (not w.is_cancelled) cancelled)
  perform persist_session w.persisted

unfoldable pub recover_game : {C : Type 0} → ℕ → GameAnswers C → Run (Unit {0})
recover_game g w = do
  read_only w.locked
  read_only (guard (w.generation == g) session_changed)
  read_only (guard (not (is_blocked_status w.status)) session_changed)
  found ← read_only w.saved
  saved ← read_only (require found invalid_config)
  same ← read_only (w.matches saved)
  read_only (guard same invalid_config)
  read_only w.approved
  read_only w.context
  game_calls w saved
