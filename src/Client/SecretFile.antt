-- ===== src/Client/SecretFile.antt =====
-- client/src/secret_file.rs: private files in a folder. A name is given by its code points, a text
-- by its bytes. What the operating system may refuse on the way is given with each operation. One
-- operation sees one state of the folder.
pub mod Laws
use moenotes_api.Prelude.{
  Bool, List, Option, [], arith, if◌then◌else◌, leb, length, none, refl, some, true, ℕ, ◌&&◌, ◌*◌,
  ◌↔◌, ◌∷◌, ◌≡◌,
}
use moenotes_api.Errors.{Result, err, error_of, guard, invalid_config, ok}
use moenotes_api.Table.{Eq, find, insert}
use moenotes_api.Client.Sdk.Base.{Bytes, bytes_eq}

abbrev pub FileName : Type 0
FileName = List ℕ

-- What stands under a name, links not followed: a file or a folder, whether only its owner may
-- use it, something else, or what cannot be looked at.
pub data Node : Type 0 where
  file : Bool → Bytes → Node
  folder : Bool → Node
  other_node unreadable : Node

pub record Folder : Type 0 where
  pub itself : Option Node
  pub entries : List (FileName × Node)

pub names_eq_iff : (a b : FileName) → (bytes_eq a b ≡ true) ↔ (a ≡ b)
names_eq_iff [] [] = (λ h. refl, λ h. refl)
names_eq_iff [] (y ∷ b) = (λ h. cc, λ h. cc)
names_eq_iff (x ∷ a) [] = (λ h. cc, λ h. cc)
names_eq_iff (x ∷ a) (y ∷ b) =
    (λ h. ground (arith, h, names_eq_iff a b), λ h. ground (arith, h, names_eq_iff a b))

instance abbrev pub name_eq : Eq FileName
name_eq = record { beq = bytes_eq; beq_iff = names_eq_iff }

abbrev pub limit : ℕ
limit = 64 * 1024

unfoldable pub read_node : Option Node → Result Bytes
read_node (some (file is_private s)) =
    if leb (length s) limit && is_private then ok s else err (error_of invalid_config)
read_node _ = err (error_of invalid_config)

unfoldable pub private_folder : Option Node → Result (Unit {0})
private_folder (some (folder is_private)) = guard is_private invalid_config
private_folder _ = err (error_of invalid_config)

unfoldable pub read : FileName → Folder → Result Bytes
unfolding read_node
read name f = read_node (find name f.entries)

unfoldable pub put : FileName → Bytes → Folder → Folder
put name s f = record f { entries = insert name (file true s) f.entries }

-- Whether the temporary file could be written.
pub data Write : Type 0 where
  written refused : Write

-- `persist_noclobber`
unfoldable pub place : Write → FileName → Bytes → Folder → Result (Unit {0}) × Folder
unfolding put
place refused name s f = (err (error_of invalid_config), f)
place written name s f = elim (find name f.entries) [
  | none ↦ (ok tt, put name s f)
  | some node ↦ (err (error_of invalid_config), f)
]

-- `?` of a result that leaves the folder as it is.
abbrev pub checked :
    {A B : Type 0} → Result A → Folder → (A → Result B × Folder) → Result B × Folder
checked (ok a) f next = next a
checked (err e) f next = (err e, f)

unfoldable pub create : Write → FileName → Bytes → Folder → Result (Unit {0}) × Folder
unfolding place private_folder
create write name s f =
    checked (guard (leb (length s) limit) invalid_config) f
      λ u. checked (private_folder f.itself) f λ v. place write name s f

unfoldable pub check_new : FileName → Folder → Result (Unit {0})
unfolding private_folder
check_new name f = elim (find name f.entries) [
  | none ↦ private_folder f.itself
  | some unreadable ↦ private_folder f.itself
  | some _ ↦ err (error_of invalid_config)
]
