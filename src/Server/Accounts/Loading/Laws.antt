-- ===== src/Server/Accounts/Loading/Laws.antt =====
-- server/src/accounts.rs, AccountDirectoryClient::recover: what stands before each thing that is done.
use moenotes_api.Prelude.{
  ==_iff, All, Bool, List, Option, String, [], arith, false, if◌then◌else◌, inl, inr, none, not,
  refl, some, true, ℕ, ◌==◌, ◌||◌, ◌∷◌, ◌≡◌, ◌⊎◌,
}
use moenotes_api.Server.Operator.Recovery.{
  Effect, Run, and_then, choose_account, install_saved, login, perform, persist_session, pre_login,
  read_only, recover_game, sdk_login, ◌>>◌,
}
use moenotes_api.Errors.{
  Result, authentication_required, cancelled, err, guard, invalid_config, ok, session_changed,
}
use moenotes_api.Errors.Laws.{guard-ok}
use moenotes_api.Server.Accounts.{Account, AccountsConfig}
use moenotes_api.Server.Accounts.Loading.{
  AccountAnswers, SdkFile, first_login, is_anonymous, is_other, is_rejected, load_anonymous,
  login_role, recover_account, sdk_answer, sdk_missing, sdk_of, sdk_other, sdk_present,
}
use moenotes_api.Server.Operator.Recovery.Rules.{Does, perform_rule, read_rule}
use moenotes_api.Server.Operator.Recovery.Laws.{Allowed, recover_game-Allowed}

-- What a recovery of the game does is nothing but its calls and the storing.
Does-imp :
    (P Q : Effect → Type 0) → ((e : Effect) → P e → Q e) → (l : List Effect) → All P l → All Q l
Does-imp P Q h [] p = tt
Does-imp P Q h (e ∷ l) (p, ps) = (h e p, Does-imp P Q h l ps)

module _ {C : Type 0} (identity_of : String → ℕ) (config : AccountsConfig) (g : ℕ)
    (w : AccountAnswers C) where
  -- An account is selected, and it is the one that was loaded before, if one was.
  pub record IsChosen : Type 0 where
    pub not_cancelled : w.cancelled_before ≡ false
    pub is_current : w.generation ≡ g
    pub account : Account
    pub account_is : w.selected ≡ ok account
    pub is_same : is_other w.previous (identity_of account.user) ≡ false

  -- The session has no credentials, and the account's state is locked.
  pub record IsAnonymous : Type 0 where
    pub chosen : IsChosen
    pub not_rejected : is_rejected w.status ≡ false
    pub no_credentials : is_anonymous w.status_again ≡ true
    pub is_locked : w.locked ≡ ok tt

  -- Nothing is stored, and the operator has confirmed the SDK.
  pub record IsFirst : Type 0 where
    pub anonymous : IsAnonymous
    pub nothing_saved : w.saved ≡ ok none
    pub is_confirmed : config.sdk_ready ≡ true
    pub is_valid : w.validated ≡ ok tt

  -- The session was rejected, and the recovery of the game may do this.
  abbrev pub InRecovery : Effect → Type 0
  InRecovery e = IsChosen × (is_rejected w.status ≡ true) × Allowed g w.game e

  abbrev pub MayDo : Effect → Type 0
  MayDo (choose_account identity) = (c : IsChosen) × (identity ≡ identity_of c.account.user)
  MayDo install_saved =
      IsAnonymous × (saved : C) × (w.saved ≡ ok (some saved)) × (w.cancelled_saved ≡ false)
  MayDo sdk_login = IsFirst × (w.sdk_file ≡ sdk_missing)
  MayDo pre_login = InRecovery pre_login ⊎ IsFirst
  MayDo login =
      InRecovery login
      ⊎ (IsFirst
          × (exists : Bool) × (w.exists ≡ ok exists)
          × ((exists || config.allow_create) ≡ true))
  MayDo persist_session =
      InRecovery persist_session
      ⊎ (IsFirst
          × (exists : Bool) × (w.exists ≡ ok exists)
          × ((exists || config.allow_create) ≡ true)
          × (is_new_user : ℕ) × (w.logged_in ≡ ok is_new_user)
          × (w.is_cancelled ≡ false))

  InRecovery-MayDo :
      IsChosen → is_rejected w.status ≡ true → (e : Effect) → Allowed g w.game e → MayDo e
  InRecovery-MayDo c r pre_login a = inl (c, r, a)
  InRecovery-MayDo c r login a = inl (c, r, a)
  InRecovery-MayDo c r persist_session a = inl (c, r, a)
  InRecovery-MayDo c r sdk_login a = absurd a
  InRecovery-MayDo c r install_saved a = absurd a
  InRecovery-MayDo c r (choose_account i) a = absurd a

  login_role-MayDo : IsFirst → Does MayDo (login_role config.allow_create w)
  unfolding login_role
  login_role-MayDo f = read_rule MayDo w.context _ λ a e.
      perform_rule MayDo pre_login w.exists _ (inr f) λ exists e1.
        read_rule MayDo (guard (exists || config.allow_create) authentication_required) _ λ a2 e2.
          let allowed = guard-ok (exists || config.allow_create) authentication_required a2 e2 in
          perform_rule MayDo login w.logged_in _ (inr (f, exists, e1, allowed)) λ n e3.
            read_rule MayDo (guard (not w.is_cancelled) cancelled) _ λ a4 e4.
              let running = guard-ok (not w.is_cancelled) cancelled a4 e4 in
              (inr (f, exists, e1, allowed, n, e3, ground (arith, running)), tt)

  sdk_of-MayDo :
      {B : Type 0} (file : SdkFile) (next : Unit {0} → Run B)
      → IsFirst
      → w.sdk_file ≡ file
      → ((u : Unit {0}) → Does MayDo (next u))
      → Does MayDo (and_then (sdk_of file w) next)
  unfolding sdk_of
  sdk_of-MayDo (sdk_present authorized) next f e h = read_rule MayDo authorized next (λ u _. h u)
  sdk_of-MayDo sdk_other next f e h = tt
  sdk_of-MayDo sdk_missing next f e h = logged_in w.logged_in_sdk w.sdk_saved
    where
      logged_in :
          (answered : Bool) (saved : Result (Unit {0}))
          → Does MayDo (and_then (perform sdk_login (sdk_answer answered) >> read_only saved) next)
      logged_in false saved = ((f, e), tt)
      logged_in true (ok u) = ((f, e), h u)
      logged_in true (err k) = ((f, e), tt)

  first_login-MayDo : IsAnonymous → w.saved ≡ ok none → Does MayDo (first_login config w)
  first_login-MayDo a s =
      read_rule MayDo (guard config.sdk_ready authentication_required) _ λ a1 e1.
        read_rule MayDo w.validated _ λ a2 e2.
          let f : IsFirst = record {
            anonymous = a;
            nothing_saved = s;
            is_confirmed = guard-ok config.sdk_ready authentication_required a1 e1;
            is_valid = e2;
          } in
          sdk_of-MayDo w.sdk_file _ f refl (λ u. login_role-MayDo f)

  load_anonymous-MayDo :
      IsChosen → is_rejected w.status ≡ false → Does MayDo (load_anonymous config w)
  load_anonymous-MayDo c r =
      read_rule MayDo (guard (is_anonymous w.status_again) session_changed) _ λ a1 e1.
        read_rule MayDo w.locked _ λ a2 e2.
          let a : IsAnonymous = record {
            chosen = c;
            not_rejected = r;
            no_credentials = guard-ok (is_anonymous w.status_again) session_changed a1 e1;
            is_locked = e2;
          } in
          read_rule MayDo w.saved _ (found-MayDo a)
    where
      found-MayDo :
          IsAnonymous
          → (found : Option C) → w.saved ≡ ok found
          → Does MayDo (elim found [
            | some saved ↦
                read_only (guard (not w.cancelled_saved) cancelled)
                >> perform install_saved w.installed
            | none ↦ first_login config w
          ])
      found-MayDo a none e = first_login-MayDo a e
      found-MayDo a (some saved) e =
          read_rule MayDo (guard (not w.cancelled_saved) cancelled) _ λ a4 e4.
            let running = guard-ok (not w.cancelled_saved) cancelled a4 e4 in
            ((a, saved, e, ground (arith, running)), tt)

  chosen-MayDo :
      IsChosen
      → (b : Bool) → is_rejected w.status ≡ b
      → Does MayDo (if b then recover_game g w.game else load_anonymous config w)
  chosen-MayDo c true r =
      Does-imp (Allowed g w.game) MayDo (InRecovery-MayDo c r) (recover_game g w.game).1
        (recover_game-Allowed g w.game)
  chosen-MayDo c false r = load_anonymous-MayDo c r

  -- Whatever the client, the disk and the servers answer to a load of an account: an account is
  -- chosen only if it is the one that was chosen before, if any; a stored session is installed, or
  -- a first login made, only under the lock for a session without credentials; the SDK is asked
  -- only where nothing is stored and the operator has confirmed it; the login, which may create a
  -- role, is sent only where the role exists or creation is allowed; and in a rejected session
  -- only for a stored session of the same player, whose role exists.
  pub recover_account-MayDo : Does MayDo (recover_account identity_of config g w)
  unfolding recover_account
  recover_account-MayDo = read_rule MayDo (guard (not w.cancelled_before) cancelled) _ λ a1 e1.
      read_rule MayDo (guard (w.generation == g) session_changed) _ λ a2 e2.
        read_rule MayDo w.selected _ λ account e3.
          read_rule MayDo
            (guard (not (is_other w.previous (identity_of account.user))) invalid_config) _
            λ a4 e4.
              let running = guard-ok (not w.cancelled_before) cancelled a1 e1 in
              let same =
                guard-ok (not (is_other w.previous (identity_of account.user))) invalid_config a4
                  e4 in
              let c : IsChosen = record {
                not_cancelled = ground (arith, running);
                is_current = (==_iff _ _).0 (guard-ok _ session_changed a2 e2);
                account = account;
                account_is = e3;
                is_same = ground (arith, same);
              } in
              (
                (c, refl),
                read_rule MayDo w.scoped _ λ a6 e6. chosen-MayDo c (is_rejected w.status) refl,
              )
