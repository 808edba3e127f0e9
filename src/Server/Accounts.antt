-- ===== src/Server/Accounts.antt =====
-- server/src/accounts.rs: the account files, and what a load of an account does. A folder is that of
-- Client.SecretFile, with the names that a listing of it gives, `none` for an entry that cannot be
-- read or is no text. `serde_json` and the digest of a user are outside: `read_account`,
-- `read_credentials` and `identity_of`.
pub mod Loading
pub mod Selection
mod Tests
use moenotes_api.Prelude.{
  Bool, List, Option, String, [], any, codes, false, if◌then◌else◌, is_control, is_empty, is_nil,
  is_none, leb, len, ltb, none, not, some, suc, true, zero, ℕ, ◌&&◌, ◌+◌, ◌==◌, ◌||◌, ◌∷◌,
}
use moenotes_api.Errors.{
  Result, authentication_required, err, error_of, invalid_config, ok, require, ◌>>=◌, ◌>>◌,
}
use moenotes_api.Table.{find}
use moenotes_api.Client.Jp.{trim}
use moenotes_api.Client.Sdk.Base.{Bytes}
use moenotes_api.Client.SecretFile.{
  FileName, Folder, Node, name_eq, private_folder, read, unreadable,
}
use moenotes_api.Server.Operator.{ends_with, is_separator, starts_with_dot}

abbrev pub max_files : ℕ
max_files = 128

pub data AccountStrategy : Type 0 where
  single round_robin : AccountStrategy

pub record AccountsConfig : Type 0 where
  pub directory : String
  pub selected : Option FileName
  pub strategy : AccountStrategy
  pub allow_create : Bool
  pub sdk_ready : Bool

-- The bytes of a character, and of a name.
abbrev pub char_length : ℕ → ℕ
char_length c = if ltb c 128 then 1 else if ltb c 2048 then 2 else if ltb c 65536 then 3 else 4

abbrev pub name_length : FileName → ℕ
name_length [] = 0
name_length (c ∷ name) = char_length c + name_length name

-- A name without `/` is one component, unless it is empty; `.` and `..` begin with a dot.
unfoldable pub valid_name : FileName → Bool
valid_name name =
    not (starts_with_dot name)
    && ends_with (codes ".json") name
    && leb (name_length name) 200
    && not (any is_separator name)
    && not (any is_control name)
    && not (is_empty name)

abbrev pub is_round_robin : AccountStrategy → Bool
is_round_robin single = false
is_round_robin round_robin = true

abbrev pub selects_invalid : Option FileName → Bool
selects_invalid none = false
selects_invalid (some name) = not (valid_name name)

unfoldable pub validate : AccountsConfig → Result (Unit {0})
unfolding valid_name
validate config =
    if is_nil config.directory
      || selects_invalid config.selected
      || (is_round_robin config.strategy && not (is_none config.selected))
    then err (error_of invalid_config)
    else ok tt

pub record AccountsFolder : Type 0 where
  pub folder_of : Folder
  pub listing : Option (List (Option FileName))

-- The account files among the entries, of which `left` may come.
unfoldable pub account_names : ℕ → List (Option FileName) → Result (List FileName)
unfolding valid_name
account_names left [] = ok []
account_names zero (entry ∷ entries) = err (error_of invalid_config)
account_names (suc left) (none ∷ entries) = err (error_of invalid_config)
account_names (suc left) (some name ∷ entries) =
    account_names left entries >>= λ names. ok (if valid_name name then name ∷ names else names)

-- `sort`
abbrev pub name_ltb : FileName → FileName → Bool
name_ltb _ [] = false
name_ltb [] (y ∷ ys) = true
name_ltb (x ∷ xs) (y ∷ ys) = ltb x y || (x == y && name_ltb xs ys)

unfoldable pub sorted_insert : FileName → List FileName → List FileName
sorted_insert name [] = name ∷ []
sorted_insert name (other ∷ names) =
    let rest = other ∷ sorted_insert name names in
    if name_ltb other name then rest else name ∷ other ∷ names

unfoldable pub sort : List FileName → List FileName
unfolding sorted_insert
sort [] = []
sort (name ∷ names) = sorted_insert name (sort names)

-- A selected file: what stands under its name is not looked at here.
abbrev pub selected_file : FileName → Option Node → Result (List FileName)
selected_file name none = ok []
selected_file name (some unreadable) = err (error_of invalid_config)
selected_file name (some node) = ok (name ∷ [])

-- The files to choose from, in a folder that is there.
unfoldable pub files_in : Option FileName → AccountsFolder → Result (List FileName)
unfolding account_names sort
files_in (some name) d = selected_file name (find name d.folder_of.entries)
files_in none d = require d.listing invalid_config >>= λ entries.
    account_names max_files entries >>= λ names. ok (sort names)

abbrev pub in_folder : Option Node → Result (List FileName) → Result (List FileName)
in_folder none files = ok []
in_folder (some node) files = private_folder (some node) >> files

unfoldable pub file_list : AccountsConfig → AccountsFolder → Result (List FileName)
unfolding validate files_in private_folder
file_list config d = validate config >> in_folder d.folder_of.itself (files_in config.selected d)

-- The one file of a list.
unfoldable pub only_file : List FileName → Result FileName
only_file [] = err (error_of authentication_required)
only_file (name ∷ []) = ok name
only_file _ = err (error_of invalid_config)

pub record Account : Type 0 where
  pub user : String
  pub password : String

unfoldable pub check_account : Account → Result Account
check_account account =
    if is_nil (trim account.user)
      || ltb 1024 (len account.user)
      || is_nil account.password
      || ltb 4096 (len account.password)
    then err (error_of invalid_config)
    else ok account

unfoldable pub select : (Bytes → Option Account) → AccountsConfig → AccountsFolder → Result Account
unfolding file_list only_file read check_account
select read_account config d = do
  files ← file_list config d
  name ← only_file files
  raw ← read name d.folder_of
  account ← require (read_account raw) invalid_config
  check_account account

-- `JpAccountDirectoryClient::provider`: the credentials are bound to the session's configuration by
-- `from_json`.
unfoldable pub jp_provider :
    {C : Type 0} → (Bytes → Result C) → AccountsConfig → AccountsFolder → Result C
unfolding file_list only_file read
jp_provider from_json config d = do
  files ← file_list config d
  name ← only_file files
  raw ← read name d.folder_of
  from_json raw
