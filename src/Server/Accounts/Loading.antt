-- ===== src/Server/Accounts/Loading.antt =====
-- server/src/accounts.rs, AccountDirectoryClient::recover and JpAccountDirectoryClient::recover: what
-- a load of an account does, with the answers to it given, each by its place.
pub mod Laws
use moenotes_api.Prelude.{
  Bool, Option, String, false, if◌then◌else◌, none, not, some, true, ℕ, ◌==◌, ◌||◌,
}
use moenotes_api.Server.Operator.Recovery.{
  GameAnswers, Run, choose_account, install_saved, login, perform, persist_session, pre_login,
  read_only, recover_game, sdk_login, ◌>>=◌, ◌>>◌,
}
use moenotes_api.Errors.{
  Result, authentication, authentication_required, cancelled, err, error_of, guard, invalid_config,
  ok, session_changed,
}
use moenotes_api.Client.Session.{SessionStatus, anonymous_status, authentication_rejected}
use moenotes_api.Server.Accounts.{Account, AccountsConfig}

-- `initial-sdk.json`: a file, with what is read out of it, something else, or nothing.
pub data SdkFile : Type 0 where
  sdk_present : Result (Unit {0}) → SdkFile
  sdk_other sdk_missing : SdkFile

-- `logged_in_sdk` is the answer of the SDK's login, and `sdk_saved` that of the snapshot.
pub record AccountAnswers (C : Type 0) : Type 0 where
  pub cancelled_before : Bool
  pub generation : ℕ
  pub selected : Result Account
  pub previous : Option ℕ
  pub scoped : Result (Unit {0})
  pub status : SessionStatus
  pub game : GameAnswers C
  pub status_again : SessionStatus
  pub locked : Result (Unit {0})
  pub saved : Result (Option C)
  pub cancelled_saved : Bool
  pub installed : Result (Unit {0})
  pub validated : Result (Unit {0})
  pub sdk_file : SdkFile
  pub logged_in_sdk : Bool
  pub sdk_saved : Result (Unit {0})
  pub context : Result (Unit {0})
  pub exists : Result Bool
  pub logged_in : Result ℕ
  pub is_cancelled : Bool
  pub persisted : Result (Unit {0})

abbrev pub is_rejected : SessionStatus → Bool
is_rejected authentication_rejected = true
is_rejected _ = false

abbrev pub is_anonymous : SessionStatus → Bool
is_anonymous anonymous_status = true
is_anonymous _ = false

-- Another account than the one that was chosen first.
abbrev pub is_other : Option ℕ → ℕ → Bool
is_other none identity = false
is_other (some old) identity = not (old == identity)

abbrev pub sdk_answer : Bool → Result (Unit {0})
sdk_answer answered = if answered then ok tt else err (error_of authentication)

-- The SDK's authorization: read from the file, or by a login with the SDK.
unfoldable pub sdk_of : {C : Type 0} → SdkFile → AccountAnswers C → Run (Unit {0})
sdk_of (sdk_present authorized) w = read_only authorized
sdk_of sdk_other w = read_only (err (error_of invalid_config))
sdk_of sdk_missing w = perform sdk_login (sdk_answer w.logged_in_sdk) >> read_only w.sdk_saved

unfoldable pub login_role : {C : Type 0} → Bool → AccountAnswers C → Run (Unit {0})
login_role allow_create w = do
  read_only w.context
  exists ← perform pre_login w.exists
  read_only (guard (exists || allow_create) authentication_required)
  is_new_user ← perform login w.logged_in
  read_only (guard (not w.is_cancelled) cancelled)
  perform persist_session w.persisted

-- Where no session is stored: the first login.
abbrev pub first_login : {C : Type 0} → AccountsConfig → AccountAnswers C → Run (Unit {0})
first_login config w = do
  read_only (guard config.sdk_ready authentication_required)
  read_only w.validated
  sdk_of w.sdk_file w
  login_role config.allow_create w

-- A session without credentials: the stored one is installed, if there is one.
abbrev pub load_anonymous : {C : Type 0} → AccountsConfig → AccountAnswers C → Run (Unit {0})
load_anonymous config w = do
  read_only (guard (is_anonymous w.status_again) session_changed)
  read_only w.locked
  found ← read_only w.saved
  elim found [
    | some saved ↦
        read_only (guard (not w.cancelled_saved) cancelled) >> perform install_saved w.installed
    | none ↦ first_login config w
  ]

module _ (identity_of : String → ℕ) where
  unfoldable pub recover_account :
      {C : Type 0} → AccountsConfig → ℕ → AccountAnswers C → Run (Unit {0})
  unfolding sdk_of login_role recover_game
  recover_account config g w = do
    read_only (guard (not w.cancelled_before) cancelled)
    read_only (guard (w.generation == g) session_changed)
    account ← read_only w.selected
    read_only (guard (not (is_other w.previous (identity_of account.user))) invalid_config)
    perform (choose_account (identity_of account.user)) (ok tt)
    read_only w.scoped
    if is_rejected w.status then recover_game g w.game else load_anonymous config w

-- JP: credentials are imported, and nothing else is done.
unfoldable pub recover_jp : {C : Type 0} → Result C → Bool → Result (Unit {0}) → Run (Unit {0})
recover_jp provider is_cancelled imported = do
  saved ← read_only provider
  read_only (guard (not is_cancelled) cancelled)
  perform install_saved imported
