-- ===== src/Server/Startup/Laws.antt =====
-- server/src/startup.rs: what a start has looked at.
use moenotes_api.Prelude.{
  Bool, List, Option, String, [], ap, false, is_empty, refl, some, subst, ◌&&◌, ◌∙◌, ◌∷◌, ◌≡◌,
}
use moenotes_api.Errors.{guard, invalid_config, ok, require}
use moenotes_api.Errors.Laws.{ok->>=, ok_injective, require-ok}
use moenotes_api.Client.Config.{Url}
use moenotes_api.Server.Paths.{Canonical}
use moenotes_api.Server.Config.{Config, VersionSyncConfig}
use moenotes_api.Server.Config.ApiKey.{KeyFile}
use moenotes_api.Server.Config.Reading.{Toml, check_inline, from_text, get}
use moenotes_api.Server.Config.Reading.Secrets.{IsRead, from_text-IsRead}
use moenotes_api.Server.Startup.{
  ConfigFile, Startup, configured, no_file, readable, sources_ok, sync_ok, tables_ok, unconfigured,
  unreadable,
}
use moenotes_api.Server.Startup.Inspect.{all_missing, config_text, decide, inspect, listen_of}
use moenotes_api.Server.Startup.Complete.{all_missing-nil}
use moenotes_api.Server.Startup.Needs.{IsComplete}

module _ (parse_url : String → Option Url) (metadata_ok : String → Bool) (working : Option String)
    (parent_of : String → Option String) (canonicalize : String → Canonical)
    (read_config : String → Option Config) (read_value : String → Option Toml)
    (read_sync : Toml → Option VersionSyncConfig) (parse_address : String → Option String)
    (exists : String → Option Bool) (key_file : String → Option KeyFile) where
  -- A start with a configuration, out of a text in which nothing is missing; or one without, and with
  -- what is missing.
  pub record IsStarted (is_private : Bool) (file : ConfigFile) (path : String) (c : Config)
      : Type 0 where
    pub content : String
    pub value : Toml
    pub is_content : file ≡ readable content
    pub is_value : read_value content ≡ some value
    pub complete : IsComplete value
    pub accepted :
        IsRead parse_url metadata_ok working parent_of canonicalize read_config read_value
          is_private content c

  abbrev pub StartedAs : Bool → ConfigFile → String → Startup → Type 0
  StartedAs is_private file path (configured c) = IsStarted is_private file path c
  StartedAs is_private file path (unconfigured listen missing) = is_empty missing ≡ false

  config_text-readable :
      (file : ConfigFile) (before : List String) (content : String)
      → config_text file ≡ ok (before, content)
      → before ≡ []
      → file ≡ readable content
  config_text-readable no_file before content e h =
      let same =
        ap (λ (p : List String × String). p.0)
          (ok_injective ("config_file" ∷ [], "") (before, content) e) in
      let impossible = same ∙ h in cc
  config_text-readable unreadable before content e h = cc
  config_text-readable (readable s) before content e h =
      ap readable
        (ap (λ (p : List String × String). p.1) (ok_injective ([], s) (before, content) e))

  decided :
      (is_private : Bool) (file : ConfigFile) (path fallback content : String) (v : Toml)
      (before missing : List String) (out : Startup)
      → config_text file ≡ ok (before, content)
      → read_value content ≡ some v
      → all_missing exists key_file parent_of v path before ≡ ok missing
      → decide parse_url metadata_ok working parent_of canonicalize read_config read_value read_sync
          parse_address exists key_file is_private content path fallback missing
        ≡ ok out
      → StartedAs is_private file path out
  unfolding decide
  decided is_private file path fallback content v before (name ∷ missing) out a b c e =
      subst (StartedAs is_private file path)
        (ok_injective (unconfigured fallback (name ∷ missing)) out e) refl
  decided is_private file path fallback content v before [] out a b c e =
      let (no_before, complete) = all_missing-nil parent_of exists key_file v path before c in
      let (config, h, r) =
        ok->>=
          (from_text parse_url metadata_ok working parent_of canonicalize read_config read_value
            is_private content path)
          _ e in
      subst (StartedAs is_private file path) (ok_injective (configured config) out r) (record {
        content = content;
        value = v;
        is_content = config_text-readable file before content a no_before;
        is_value = b;
        complete = complete;
        accepted =
            from_text-IsRead parse_url metadata_ok working parent_of canonicalize read_config
              read_value is_private content path config h;
      })

  -- A start that is let go on without a configuration names at least one setting that is missing.
  -- One with a configuration has read it out of a file that is there, as in from_text-IsRead. In
  -- its text the region, the origin, the platform and the client version of the session are texts
  -- that are not blank, and the allowed origins a list of texts one of which is not blank; the API
  -- key is a text of 32 to 4096 visible ASCII characters, or it is not given and its file is
  -- named. Where there is a login, or accounts outside JP, its state directory is given, and its
  -- device directly or as a file; accounts outside JP have an SDK, directly or as a file; a device
  -- or an SDK that is given directly has its texts.
  pub inspect-StartedAs :
      (is_private : Bool) (file : ConfigFile) (path fallback : String) (out : Startup)
      → inspect parse_url metadata_ok working parent_of canonicalize read_config read_value
          read_sync parse_address exists key_file is_private file path fallback
        ≡ ok out
      → StartedAs is_private file path out
  unfolding inspect
  inspect-StartedAs is_private file path fallback out e =
      let (source, h, r) = ok->>= (config_text file) _ e in
      let (v, h1, r1) = ok->>= (require (read_value source.1) invalid_config) _ r in
      let (u2, h2, r2) =
        ok->>=
          (guard (tables_ok v && sync_ok read_sync (get "version_sync" v) && sources_ok v)
            invalid_config)
          _ r1 in
      let (u3, h3, r3) = ok->>= (check_inline is_private v) _ r2 in
      let (listen, h4, r4) = ok->>= (listen_of parse_address fallback (get "listen" v)) _ r3 in
      let (missing, h5, r5) = ok->>= (all_missing exists key_file parent_of v path source.0) _ r4 in
      decided is_private file path listen source.1 v source.0 missing out h
        (require-ok (read_value source.1) invalid_config v h1) h5 r5
