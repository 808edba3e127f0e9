-- ===== src/Server/Config/ApiKey.antt =====
-- server/src/config.rs: the API key, given directly or in a file of its own.
use Prim.Native.Char.{code}
use moenotes_api.Prelude.{
  Bool, Option, String, all, ap, arith, codes, if◌then◌else◌, inl, inr, is_nil, leb, len, ltb, none,
  refl, some, subst, true, ℕ, ◌&&◌, ◌==◌, ◌||◌, ◌≡◌, ◌≤◌, ◌⊎◌,
}
use moenotes_api.Errors.{Result, err, error_of, guard, invalid_config, ok, require, ◌>>=◌, ◌>>◌}
use moenotes_api.Errors.Laws.{guard-ok, ok->>=, ok_injective}

-- What stands at a path: `content` is the text, where it is one.
pub record KeyFile : Type 0 where
  pub is_regular : Bool
  pub is_private : Bool
  pub content : Option String

abbrev pub is_newline : ℕ → Bool
is_newline c = c == b'\n' || c == b'\r'

-- `while value.ends_with(['\n', '\r']) { value.pop(); }`
unfoldable pub trim_newlines : String → String
trim_newlines String.[] = String.[]
trim_newlines (String.◌∷◌ c s) =
    let rest = trim_newlines s in
    if is_newline (code c) && is_nil rest then String.[] else String.◌∷◌ c rest

unfoldable pub read_key_file : Option KeyFile → Result String
unfolding trim_newlines
read_key_file none = err (error_of invalid_config)
read_key_file (some f) = do
  guard (f.is_regular && f.is_private) invalid_config
  value ← require f.content invalid_config
  guard (leb (len value) 4096) invalid_config
  ok (trim_newlines value)

-- `validate_api_key`: visible ASCII only.
abbrev pub is_visible : ℕ → Bool
is_visible c = ltb 32 c && ltb c 127

unfoldable pub validate_api_key : String → Result (Unit {0})
validate_api_key key =
    guard (leb 32 (len key) && leb (len key) 4096 && all is_visible (codes key)) invalid_config

abbrev pub key_source : Option String → Option KeyFile → Result String
key_source none f = read_key_file f
key_source (some key) f = ok key

-- `Config::read_api_key`: what was given directly, and what stands at the path.
unfoldable pub read_api_key : Option String → Option KeyFile → Result String
unfolding read_key_file validate_api_key
read_api_key inline f = do value ← key_source inline f; validate_api_key value; ok value

-- A key that the server takes.
pub record IsKey (inline : Option String) (f : Option KeyFile) (key : String) : Type 0 where
  pub is_long : (32 ≤ len key) × (len key ≤ 4096)
  pub visible : all is_visible (codes key) ≡ true
  pub source :
      (inline ≡ some key)
      ⊎ ((file : KeyFile) × (f ≡ some file) × (file.is_regular ≡ true) × (file.is_private ≡ true))

key_source-file :
    (inline : Option String) (f : Option KeyFile) (key : String)
    → key_source inline f ≡ ok key
    → (inline ≡ some key)
      ⊎ ((file : KeyFile) × (f ≡ some file) × (file.is_regular ≡ true) × (file.is_private ≡ true))
unfolding read_key_file
key_source-file (some k) f key e = inl (ap some (ok_injective k key e))
key_source-file none none key e = cc
key_source-file none (some file) key e =
    let (u, h, r) = ok->>= (guard (file.is_regular && file.is_private) invalid_config) _ e in
    let both = guard-ok (file.is_regular && file.is_private) invalid_config u h in
    inr (file, refl, ground (arith, both), ground (arith, both))

IsKey-checked :
    (inline : Option String) (f : Option KeyFile) (key : String)
    → key_source inline f ≡ ok key
    → (leb 32 (len key) && leb (len key) 4096 && all is_visible (codes key)) ≡ true
    → IsKey inline f key
IsKey-checked inline f key e fits = record {
  is_long = (ground (arith, fits), ground (arith, fits));
  visible = ground (arith, fits);
  source = key_source-file inline f key e;
}

read_api_key-IsKey :
    (inline : Option String) (f : Option KeyFile) (key : String)
    → read_api_key inline f ≡ ok key
    → IsKey inline f key
unfolding read_api_key validate_api_key
read_api_key-IsKey inline f key e =
    let (value, h, r) = ok->>= (key_source inline f) _ e in
    let (u, h1, r1) =
      ok->>=
        (guard (leb 32 (len value) && leb (len value) 4096 && all is_visible (codes value))
          invalid_config)
        _ r in
    subst (IsKey inline f) (ok_injective value key r1)
      (IsKey-checked inline f value h (guard-ok _ invalid_config u h1))
