-- ===== src/Server/Accounts/Tests.antt =====
-- server/src/accounts.rs: an account that is selected, and its first load, with a login.
use moenotes_api.Prelude.{Option, String, [], codes, false, len, none, refl, some, true, ◌∷◌, ◌≡◌}
use moenotes_api.Server.Operator.Recovery.{
  GameAnswers, choose_account, login, persist_session, pre_login, sdk_login,
}
use moenotes_api.Errors.{ok}
use moenotes_api.Client.Session.{anonymous_status}
use moenotes_api.Client.Sdk.Base.{Bytes}
use moenotes_api.Client.SecretFile.{file, folder, name_eq}
use moenotes_api.Server.Accounts.{Account, AccountsConfig, AccountsFolder, single}
use moenotes_api.Server.Accounts.Loading.{AccountAnswers, recover_account, sdk_missing}
use moenotes_api.Server.Accounts.Loading.Laws.{MayDo, recover_account-MayDo}
use moenotes_api.Server.Operator.Recovery.Rules.{Does}

abbrev config : AccountsConfig
config = record {
  directory = "/accounts/international";
  selected = none;
  strategy = single;
  allow_create = false;
  sdk_ready = true;
}

abbrev account : Account
account = record { user = "u@x"; password = "p" }

abbrev read_account : Bytes → Option Account
read_account s = some account

abbrev folder_with_one : AccountsFolder
folder_with_one = record {
  folder_of = record {
    itself = some (folder true);
    entries = (codes "one.json", file true (codes "{}")) ∷ [];
  };
  listing = some (some (codes "readme.md") ∷ some (codes "one.json") ∷ []);
}

abbrev game : GameAnswers String
game = record {
  locked = ok tt;
  generation = 1;
  status = anonymous_status;
  saved = ok none;
  matches = λ c. ok true;
  approved = ok tt;
  context = ok tt;
  exists = ok true;
  logged_in = ok 0;
  matches_after = λ c. ok true;
  is_cancelled = false;
  persisted = ok tt;
}

abbrev answers : AccountAnswers String
answers = record {
  cancelled_before = false;
  generation = 1;
  selected = ok account;
  previous = none;
  scoped = ok tt;
  status = anonymous_status;
  game = game;
  status_again = anonymous_status;
  locked = ok tt;
  saved = ok none;
  cancelled_saved = false;
  installed = ok tt;
  validated = ok tt;
  sdk_file = sdk_missing;
  logged_in_sdk = true;
  sdk_saved = ok tt;
  context = ok tt;
  exists = ok true;
  logged_in = ok 0;
  is_cancelled = false;
  persisted = ok tt;
}

recover_account_test :
    (recover_account len config 1 answers).1
    ≡ choose_account 3 ∷ sdk_login ∷ pre_login ∷ login ∷ persist_session ∷ []
unfolding recover_account
recover_account_test = refl

recover_account-MayDo_example :
    Does (MayDo len config 1 answers) (recover_account len config 1 answers)
recover_account-MayDo_example = recover_account-MayDo len config 1 answers
