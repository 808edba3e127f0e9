-- ===== src/Server/Operator.antt =====
-- server/src/operator.rs: the state of a login on disk. `serde_json` is outside: `read_pointer` and
-- `print_pointer` read and print a pointer, `read_credentials` and `read_sdk` the two snapshots.
pub mod Saved
pub mod Recovery
pub mod Sources
mod Tests
use moenotes_api.Prelude.{
  Bool, List, Option, String, [], any, codes, false, if◌then◌else◌, is_empty, length, ltb, none,
  not, some, str_eq, ℕ, ◌&&◌, ◌++◌, ◌==◌, ◌||◌, ◌∷◌,
}
use moenotes_api.Errors.{
  Result, err, error_of, guard, invalid_config, ok, require, session_changed, ◌>>=◌, ◌>>◌,
}
use moenotes_api.Table.{find}
use moenotes_api.Client.Sdk.Base.{Bytes, bytes_eq}
use moenotes_api.Client.SecretFile.{
  FileName, Folder, Node, Write, checked, create, file, name_eq, private_folder, put, read,
  read_node, unreadable,
}

pub record Pointer : Type 0 where
  pub region : String
  pub origin : String
  pub sdk_file : FileName
  pub game_file : FileName

pub record Context : Type 0 where
  pub device_model : Bytes
  pub operating_system : Bytes
  pub device_identifier : Bytes
  pub global_channel_id : ℕ
  pub brand_id : ℕ
  pub area_id : ℕ

abbrev pub current : FileName
current = codes "current.json"

-- `str::ends_with`
abbrev pub ends_with : List ℕ → List ℕ → Bool
ends_with suffix [] = bytes_eq suffix []
ends_with suffix (c ∷ s) = bytes_eq suffix (c ∷ s) || ends_with suffix s

-- `str::starts_with` of a dot.
abbrev pub starts_with_dot : List ℕ → Bool
starts_with_dot [] = false
starts_with_dot (c ∷ s) = c == b'.'

abbrev pub is_separator : ℕ → Bool
is_separator c = c == b'/' || c == b'\\'

-- A name without `/` is one component, unless it is empty.
unfoldable pub is_snapshot_name : FileName → Bool
is_snapshot_name name =
    not (is_empty name)
    && ends_with (codes ".json") name
    && not (any is_separator name)
    && not (starts_with_dot name)

-- Whether a write goes through: the replacement may stand although it could not be made durable.
pub data Publish : Type 0 where
  replaced kept unsynced : Publish

unfoldable pub swap : Publish → FileName → Bytes → Folder → Result (Unit {0}) × Folder
swap replaced name s f = (ok tt, put name s f)
swap kept name s f = (err (error_of invalid_config), f)
swap unsynced name s f = (err (error_of invalid_config), put name s f)

-- A file that is there already is read before it is replaced.
abbrev pub replaceable : Option Node → Result (Unit {0})
replaceable none = ok tt
replaceable (some unreadable) = ok tt
replaceable (some node) = read_node (some node) >>= λ s. ok tt

unfoldable pub publish : Publish → FileName → Bytes → Folder → Result (Unit {0}) × Folder
unfolding swap private_folder read_node
publish io name s f =
    checked (private_folder f.itself) f
      λ u. checked (replaceable (find name f.entries)) f λ v. swap io name s f

abbrev pub too_long : Bytes → Bool
too_long v = is_empty v || ltb 1024 (length v)

unfoldable pub check_context : Context → Result Context
check_context c =
    if too_long c.device_model || too_long c.operating_system || too_long c.device_identifier
    then err (error_of invalid_config)
    else ok c

module _ (read_pointer : Bytes → Option Pointer) where
  unfoldable pub pointer : String → String → Folder → Result Pointer
  unfolding read is_snapshot_name
  pointer region origin f = do
    s ← read current f
    p ← require (read_pointer s) invalid_config
    guard (str_eq p.region region && str_eq p.origin origin) invalid_config
    guard (is_snapshot_name p.sdk_file && is_snapshot_name p.game_file) invalid_config
    ok p

  -- `StaticCredentials::from_file` of the file that the pointer names.
  unfoldable pub credentials :
      {C : Type 0} → (Bytes → Option C) → String → String → Folder → Result (Option C)
  unfolding pointer read
  credentials read_credentials region origin f = elim (find current f.entries) [
    | none ↦ ok none
    | some (file is_private content) ↦ pointer region origin f >>= λ p.
        read p.game_file f >>= λ s. require (read_credentials s) invalid_config >>= λ c. ok (some c)
    | some _ ↦ err (error_of invalid_config)
  ]

  unfoldable pub approved_sdk :
      {S : Type 0} → (Bytes → Result S) → String → String → Folder → Result S
  unfolding pointer read
  approved_sdk read_sdk region origin f =
      pointer region origin f >>= λ p. read p.sdk_file f >>= read_sdk

-- The writes of `persist`, in their order.
pub record PersistIo : Type 0 where
  pub sdk_write : Write
  pub game_write : Write
  pub pointer_write : Publish

-- What `persist` writes, and the generations before the first write and before the last.
pub record PersistInput : Type 0 where
  pub id : List ℕ
  pub sdk_text : Result Bytes
  pub game_text : Result Bytes
  pub generation : ℕ
  pub generation_after : ℕ

abbrev pub new_pointer : String → String → List ℕ → Pointer
new_pointer region origin id = record {
  region = region;
  origin = origin;
  sdk_file = codes "sdk-" ++ (id ++ codes ".json");
  game_file = codes "game-" ++ (id ++ codes ".json");
}

-- The next operation on the folder, where this one succeeds.
abbrev pub attempt :
    {A B : Type 0} → Result A × Folder → (A → Folder → Result B × Folder) → Result B × Folder
attempt (ok a, f) next = next a f
attempt (err e, f) next = (err e, f)

module _ (print_pointer : Pointer → Bytes) where
  unfoldable pub persist :
      PersistIo → PersistInput → String → String → Folder → Result (Unit {0}) × Folder
  unfolding create publish
  persist io input region origin f =
      let p = new_pointer region origin input.id in
      checked (private_folder f.itself) f λ u. checked input.sdk_text f λ sdk.
        attempt (create io.sdk_write p.sdk_file sdk f) λ a f1. checked input.game_text f1 λ game.
          attempt (create io.game_write p.game_file game f1) λ b f2.
            checked (guard (input.generation_after == input.generation) session_changed) f2
              λ c. publish io.pointer_write current (print_pointer p) f2
