-- ===== src/Server/Gateway.antt =====
-- server/src/lib.rs and diagnostics.rs: the way of a request through the middlewares. The
-- semaphore, the atomic counters and the hash are the libraries': permits are counted, and
-- `digest` is `Sha256::digest`.
pub mod Laws
mod Tests
use moenotes_api.Prelude.{
  Bool, List, Option, String, [], add_one, all, false, if◌then◌else◌, leb, length, ltb, none, not,
  some, true, ℕ, ◌%◌, ◌&&◌, ◌+◌, ◌-◌, ◌==◌, ◌^◌, ◌∷◌,
}
use moenotes_api.Errors.{
  ErrorKind, authentication, authentication_required, cancelled, device_conflict, invalid_request,
  maintenance, queue_full, session_changed, timeout, version,
}

abbrev pub http_routes : List (String × String)
http_routes =
    ("/v1/announcement", "announcement")
    ∷ ("/v1/announcements", "announcements")
    ∷ ("/v1/arena/ranking", "arena-ranking")
    ∷ ("/v1/arena/deck-trend", "deck-trend")
    ∷ ("/v1/circle", "circle")
    ∷ ("/v1/circles/recommended", "circle-recommendations")
    ∷ ("/v1/circles/search", "circle-search")
    ∷ ("/v1/event/challenge-ranking", "challenge-ranking")
    ∷ ("/v1/event/deck", "event-deck")
    ∷ ("/v1/event/ranking", "event-ranking")
    ∷ ("/v1/profile", "profile")
    ∷ ("/v1/gacha/rates", "probability")
    ∷ ("/v1/music/ranking", "music-ranking")
    ∷ ("/v1/profile/favorites", "favorite-status")
    ∷ ("/v1/profiles", "profiles")
    ∷ []

-- `HttpError::into_response`: the status of an error.
abbrev pub status_of : ErrorKind → ℕ
status_of invalid_request = 400
status_of queue_full = 429
status_of timeout = 504
status_of maintenance = 503
status_of authentication = 503
status_of authentication_required = 503
status_of version = 503
status_of device_conflict = 503
status_of session_changed = 503
status_of cancelled = 503
status_of _ = 502

-- The test of the configured key, by its characters' codes.
abbrev pub is_key_char : ℕ → Bool
is_key_char c = ltb 32 c && ltb c 127

unfoldable pub valid_api_key : List ℕ → Bool
valid_api_key key = leb 32 (length key) && (leb (length key) 4096 && all is_key_char key)

-- `diagnostics.rs`: the three counters.
pub record Diagnostics : Type 0 where
  pub requests : ℕ
  pub errors : ℕ
  pub inflight : ℕ

abbrev pub new_diagnostics : Diagnostics
new_diagnostics = record { requests = 0; errors = 0; inflight = 0 }

-- `fetch_sub(1)` wraps round.
abbrev pub sub_one : ℕ → ℕ
sub_one n = (n + (2 ^ 64 - 1)) % 2 ^ 64

unfoldable pub begin_request : Diagnostics → Diagnostics
begin_request d = record d { requests = add_one d.requests; inflight = add_one d.inflight }

unfoldable pub count_error : Diagnostics → Diagnostics
count_error d = record d { errors = add_one d.errors }

-- The guard's `drop`.
unfoldable pub end_request : Diagnostics → Diagnostics
end_request d = record d { inflight = sub_one d.inflight }

-- The gateway while requests run: its counters, and the free permits of its semaphore.
pub record Gateway : Type 0 where
  pub diagnostics : Diagnostics
  pub permits : ℕ

abbrev pub admission_limit : ℕ
admission_limit = 64

abbrev pub new_gateway : Gateway
new_gateway = record { diagnostics = new_diagnostics; permits = admission_limit }

-- `strip_prefix("Bearer ")`, of a header's bytes.
abbrev pub strip : List ℕ → List ℕ → Option (List ℕ)
strip [] s = some s
strip (p ∷ ps) [] = none
strip (p ∷ ps) (c ∷ s) = if p == c then strip ps s else none

abbrev pub bearer : List ℕ
bearer = b'B' ∷ b'e' ∷ b'a' ∷ b'r' ∷ b'e' ∷ b'r' ∷ b' ' ∷ []

-- The values of the `authorization` headers; one that is not visible ASCII is `none`.
abbrev pub provided_key : List (Option (List ℕ)) → Option (List ℕ)
provided_key (some v ∷ []) = strip bearer v
provided_key _ = none

abbrev pub hashes_eq : List ℕ → List ℕ → Bool
hashes_eq [] [] = true
hashes_eq (x ∷ xs) (y ∷ ys) = x == y && hashes_eq xs ys
hashes_eq _ _ = false

unfoldable pub accepts : (List ℕ → List ℕ) → List ℕ → List (Option (List ℕ)) → Bool
accepts digest key_hash values = elim (provided_key values) [
  | none ↦ false
  | some v ↦ leb (length v) 4096 && hashes_eq (digest v) key_hash
]

-- `authenticate`, up to the handler: an answer of its own, or a permit that the request holds.
pub data Entrance : Type 0 where
  answered : ℕ → Entrance
  entered : Entrance

unfoldable pub enter : Bool → Gateway → Entrance × Gateway
enter accepted g =
    if not accepted
    then (answered 401, g)
    else if g.permits == 0
    then (answered (status_of queue_full), g)
    else (entered, record g { permits = g.permits - 1 })

-- The permit's `drop`.
unfoldable pub leave : Gateway → Gateway
leave g = record g { permits = g.permits + 1 }

abbrev pub is_error_status : ℕ → Bool
is_error_status s = leb 400 s && ltb s 600

-- `diagnose`, in front of and behind the rest.
unfoldable pub open_request : Gateway → Gateway
unfolding begin_request
open_request g = record g { diagnostics = begin_request g.diagnostics }

unfoldable pub close_request : ℕ → Gateway → Gateway
unfolding count_error end_request
close_request status g = record g {
  diagnostics =
      end_request (if is_error_status status then count_error g.diagnostics else g.diagnostics);
}
