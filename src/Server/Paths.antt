-- ===== src/Server/Paths.antt =====
-- Paths as server/src/config.rs and server/src/config_file.rs use them: `Path::is_absolute`, `join`
-- and `components` of Unix, and the identity of a directory. `working` is the current directory,
-- and a `Canonical` is what the file system gives for a path.
use Prim.Native.String.{◌++◌ as ◌<>◌}
use Prim.Native.Char.{code}
use moenotes_api.Prelude.{
  Bool, List, Option, String, [], codes, false, if◌then◌else◌, is_empty, is_nil, none, some,
  split_on, true, ◌&&◌, ◌++◌, ◌==◌, ◌||◌, ◌∷◌,
}
use moenotes_api.Errors.{Result, err, error_of, invalid_config, ok, require, ◌>>=◌}
use moenotes_api.Client.Sdk.Base.{Bytes, bytes_eq}

-- `Path::is_absolute` and `Path::join` of Unix.
abbrev pub is_absolute : String → Bool
is_absolute String.[] = false
is_absolute (String.◌∷◌ c p) = code c == b'/'

abbrev pub ends_in_slash : Bytes → Bool
ends_in_slash [] = true
ends_in_slash (c ∷ []) = c == b'/'
ends_in_slash (c ∷ p) = ends_in_slash p

unfoldable pub join : String → String → String
join folder p =
    if is_absolute p
    then p
    else if ends_in_slash (codes folder)
    then folder <> p
    else folder <> ("/" <> p)

-- `config_file::absolute`
unfoldable pub absolute : Option String → String → Result String
unfolding join
absolute working p =
    if is_absolute p
    then ok p
    else (require working invalid_config >>= λ folder. ok (join folder p))

-- A relative path that is not empty stands in the folder of the configuration.
unfoldable pub settle_path : String → String → String
unfolding join
settle_path folder p = if is_nil p then p else join folder p

abbrev pub optional_path : String → Option String → Option String
optional_path folder none = none
optional_path folder (some p) = some (join folder p)

-- `Path::components`, behind the root if there is one.
abbrev pub add_part : Bytes → List Bytes → List Bytes
add_part part parts = if is_empty part || bytes_eq part (codes ".") then parts else part ∷ parts

abbrev pub parts_of : List Bytes → List Bytes
parts_of [] = []
parts_of (part ∷ parts) = add_part part (parts_of parts)

unfoldable pub components : String → List Bytes
unfolding split_on
components p = parts_of (split_on b'/' (codes p))

abbrev pub paths_eq : List Bytes → List Bytes → Bool
paths_eq [] [] = true
paths_eq (x ∷ xs) (y ∷ ys) = bytes_eq x y && paths_eq xs ys
paths_eq _ _ = false

-- What is found at a path.
pub data Canonical : Type 0 where
  found : List Bytes → Canonical
  not_found failed : Canonical

abbrev pub drop_last : List Bytes → List Bytes
drop_last [] = []
drop_last (part ∷ []) = []
drop_last (part ∷ parts) = part ∷ drop_last parts

-- The parts of an absolute path with `..` resolved; above the root there is nothing.
abbrev pub normalized : List Bytes → List Bytes → List Bytes
normalized done [] = done
normalized done (part ∷ parts) =
    normalized (if bytes_eq part (codes "..") then drop_last done else done ++ part ∷ []) parts

-- `parent().unwrap_or(".")`
abbrev pub parent_or_here : Option String → String
parent_or_here none = "."
parent_or_here (some p) = p

-- `state_identity`: what a directory is told from others by.
unfoldable pub state_identity : Option String → (String → Canonical) → String → Result (List Bytes)
unfolding absolute components
state_identity working canonicalize path = identity_at (canonicalize path)
  where
    identity_at : Canonical → Result (List Bytes)
    identity_at (found parts) = ok parts
    identity_at not_found = absolute working path >>= λ p. ok (normalized [] (components p))
    identity_at failed = err (error_of invalid_config)
