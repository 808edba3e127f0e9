-- ===== src/Client/Config/Laws.antt =====
-- client/src/session.rs: which metadata goes with a call, and which entries are sensitive.
use moenotes_api.Prelude.{
  All, Bool, Bool-cases, Option, String, [], any, ap, arith, false, if◌then◌else◌, inl, inr, is_nil,
  none, refl, some, str_eq, sym, true, ◌&&◌, ◌||◌, ◌∙◌, ◌∷◌, ◌≡◌,
}
use moenotes_api.Errors.{Result, err, error_of, invalid_config, ok, ◌>>=◌}
use moenotes_api.Errors.Laws.{ok->>=, ok_injective}
use moenotes_api.Client.Config.{
  Credentials, Metadata, SessionConfig, Url, entry, is_consistent, is_jp, is_present, metadata,
  optional, origin, player_metadata, same_origin, validate,
}

abbrev pub is_secret_key : String → Bool
is_secret_key k =
    str_eq k "x-player-id"
    || (str_eq k "x-player-credential" || (str_eq k "x-device-id" || str_eq k "x-player-bid"))

-- An entry is sensitive exactly if its key is one of the player's.
abbrev pub Marked : String × String × Bool → Type 0
Marked (key, value, secret) = secret ≡ is_secret_key key

abbrev pub MarkedResult : Result Metadata → Type 0
MarkedResult (ok l) = All Marked l
MarkedResult (err e) = Unit

module _ (parse_url : String → Option Url) (metadata_ok : String → Bool) where
  entry-Marked :
      (key value : String) (secret : Bool) (rest : Result Metadata)
      → secret ≡ is_secret_key key
      → MarkedResult rest
      → MarkedResult (entry parse_url metadata_ok key value secret rest)
  unfolding entry
  entry-Marked key value secret (ok l) mark h = elim (Bool-cases (metadata_ok value)) [
    | inl z ↦ rw z (mark, h)
    | inr z ↦ rw z tt
  ]
  entry-Marked key value secret (err e) mark h = elim (Bool-cases (metadata_ok value)) [
    | inl z ↦ rw z tt
    | inr z ↦ rw z tt
  ]

  optional-Marked :
      (key : String) (value : Option String) (secret : Bool) (rest : Result Metadata)
      → secret ≡ is_secret_key key
      → MarkedResult rest
      → MarkedResult (optional parse_url metadata_ok key value secret rest)
  unfolding optional
  optional-Marked key none secret rest mark h = h
  optional-Marked key (some value) secret rest mark h = entry-Marked key value secret rest mark h

  player_metadata-Marked :
      (c : SessionConfig) (auth : Credentials)
      → MarkedResult (player_metadata parse_url metadata_ok c auth)
  unfolding player_metadata
  player_metadata-Marked c auth =
      elim (Bool-cases (is_nil auth.player_id || is_nil auth.credential)) [
        | inl z ↦ rw z tt
        | inr z ↦ elim (Bool-cases (is_jp c && is_present auth.bid)) [
          | inl y ↦ rw (z, y) tt
          | inr y ↦
              rw (z, y)
                (entry-Marked _ _ _ _ refl (
                  entry-Marked _ _ _ _ refl (
                    optional-Marked _ _ _ _ refl (
                      optional-Marked _ _ _ _ refl
                        (optional-Marked _ _ _ _ refl (optional-Marked _ _ _ _ refl tt))))))
        ]
      ]

  -- In the metadata of any call the entries that are marked as sensitive are exactly those under
  -- the keys of the player's id, credential, device and bid.
  pub metadata-Marked :
      (c : SessionConfig) (credentials : Option Credentials) (request_id : String)
      (anonymous : Bool)
      → MarkedResult (metadata parse_url metadata_ok c credentials request_id anonymous)
  unfolding metadata
  metadata-Marked c none request_id anonymous =
      entry-Marked "x-request-id" request_id false _ refl (
        entry-Marked "x-platform" c.platform false _ refl
          (entry-Marked "x-client-version" c.client_version false _ refl tt))
  metadata-Marked c (some auth) request_id true =
      entry-Marked "x-request-id" request_id false _ refl (
        entry-Marked "x-platform" c.platform false _ refl
          (entry-Marked "x-client-version" c.client_version false _ refl tt))
  metadata-Marked c (some auth) request_id false =
      entry-Marked _ _ _ _ refl
        (entry-Marked _ _ _ _ refl (entry-Marked _ _ _ _ refl (player_metadata-Marked c auth)))

  -- An anonymous call carries three entries, none of them sensitive, whoever the player is.
  pub metadata_anonymous :
      (c : SessionConfig) (credentials : Option Credentials) (request_id : String) (l : Metadata)
      → metadata parse_url metadata_ok c credentials request_id true ≡ ok l
      → l
        ≡ ("x-request-id", request_id, false)
          ∷ ("x-platform", c.platform, false)
          ∷ ("x-client-version", c.client_version, false)
          ∷ []
  unfolding metadata entry
  metadata_anonymous c none request_id l h = ground arith
  metadata_anonymous c (some auth) request_id l h = ground arith

  -- A configuration that validates has a plain HTTPS origin, which one of its allowed origins
  -- denotes.
  pub validate-allowed :
      (c : SessionConfig)
      → validate parse_url metadata_ok c ≡ ok tt
      → (target : String) × (origin parse_url metadata_ok c.origin ≡ ok target)
        × (any (λ v. same_origin (origin parse_url metadata_ok v) target) c.allowed_origins ≡ true)
  unfolding validate is_consistent
  validate-allowed c h =
      let (target, at, rest) = ok->>= (origin parse_url metadata_ok c.origin) _ h in
      (target, at, ground arith)

module _ (parse_url : String → Option Url) (metadata_ok : String → Bool) where
  entry-ok :
      (key value : String) (secret : Bool) (rest : Result Metadata) (l : Metadata)
      → entry parse_url metadata_ok key value secret rest ≡ ok l
      → (others : Metadata) × (rest ≡ ok others) × (l ≡ (key, value, secret) ∷ others)
  unfolding entry
  entry-ok key value secret rest l e = elim (Bool-cases (metadata_ok value)) [
    | inl fits ↦
        let (others, h, k) = ok->>= rest _ (
          ap
            (λ (b : Bool).
              if b
              then (rest >>= λ l. ok ((key, value, secret) ∷ l))
              else err (error_of invalid_config))
            (sym fits)
          ∙ e) in
        (others, h, sym (ok_injective _ l k))
    | inr unfit ↦ cc (
        ap
          (λ (b : Bool).
            if b
            then (rest >>= λ l. ok ((key, value, secret) ∷ l))
            else err (error_of invalid_config))
          (sym unfit)
        ∙ e)
  ]

  -- The metadata of a call without a player.
  pub metadata-anonymous :
      (config : SessionConfig) (request_id : String) (entries : Metadata)
      → metadata parse_url metadata_ok config none request_id true ≡ ok entries
      → entries
        ≡ ("x-request-id", request_id, false)
          ∷ ("x-platform", config.platform, false)
          ∷ ("x-client-version", config.client_version, false)
          ∷ []
  unfolding metadata
  metadata-anonymous config request_id entries e =
      let (l1, h1, k1) = entry-ok _ _ _ _ entries e in
      let (l2, h2, k2) = entry-ok _ _ _ _ l1 h1 in
      let (l3, h3, k3) = entry-ok _ _ _ _ l2 h2 in cc (k1, k2, k3, ok_injective [] l3 h3)
