-- ===== src/Server/Accounts/Selection.antt =====
-- server/src/accounts.rs, select: which account is taken, and what is known of it.
use moenotes_api.Prelude.{Option, [], false, is_nil, len, some, true, ◌∷◌, ◌≡◌, ◌≤◌}
use moenotes_api.Errors.{ok}
use moenotes_api.Client.Jp.{trim}
use moenotes_api.Client.Sdk.Base.{Bytes}
use moenotes_api.Client.SecretFile.{FileName, name_eq, private_folder, read}
use moenotes_api.Server.Accounts.{Account, AccountsConfig, AccountsFolder, files_in, valid_name}

abbrev pub IsValid : FileName → Type 0
IsValid name = valid_name name ≡ true

-- What a selected account was read from: the only file to choose from, with a valid name, in a
-- private folder.
pub record IsSelected (read_account : Bytes → Option Account) (config : AccountsConfig)
    (d : AccountsFolder) (account : Account) : Type 0 where
  pub name : FileName
  pub content : Bytes
  pub is_private : private_folder d.folder_of.itself ≡ ok tt
  pub is_only : files_in config.selected d ≡ ok (name ∷ [])
  pub is_valid : valid_name name ≡ true
  pub content_is : read name d.folder_of ≡ ok content
  pub account_is : read_account content ≡ some account
  pub has_user : is_nil (trim account.user) ≡ false
  pub user_fits : len account.user ≤ 1024
  pub has_password : is_nil account.password ≡ false
  pub password_fits : len account.password ≤ 4096
