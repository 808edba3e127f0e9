-- ===== src/Server/Pool.antt =====
-- server/src/pool.rs: round robin over the sessions of one pool. What the member's client answers
-- at a moment is the argument `views`; the query's own work is that of server/src/cache.rs.
pub mod Selection
pub mod Rotation
pub mod Paused
pub mod Pause
mod Tests
use moenotes_api.Prelude.{
  Bool, List, Option, [], add_one, false, get_elem?, if◌then◌else◌, leb, length, ltb, none, not,
  set, some, suc, true, zero, ℕ, ◌%◌, ◌&&◌, ◌+◌, ◌==◌, ◌∷◌,
}
use moenotes_api.Errors.{
  ClientError, ErrorKind, Result, authentication_required, cancelled, err, error_of, guard,
  invalid_config, maintenance, ok, timeout, transport, ◌>>=◌, ◌>>◌,
}
use moenotes_api.Server.Cache.{CacheOptions, ClientView, key_eq, validate}

abbrev pub max_sessions : ℕ
max_sessions = 32

abbrev pub transient_cooldown : ℕ
transient_cooldown = 5000

-- `cooldown` is the end of the pause, the generation that it is for, and the error that caused it.
pub record Member : Type 0 where
  pub requests : ℕ
  pub errors : ℕ
  pub cooldown : Option (ℕ × ℕ × ErrorKind)

pub record SessionPool : Type 0 where
  pub members : List Member
  pub next_index : ℕ

abbrev pub fresh_member : Member
fresh_member = record { requests = 0; errors = 0; cooldown = none }

abbrev pub replicate {ℓ} : {A : Type ℓ} → ℕ → A → List A
replicate zero x = []
replicate (suc n) x = x ∷ replicate n x

pub new_pool : ℕ → CacheOptions → Result SessionPool
new_pool count options = do
  validate options
  guard (leb count max_sessions) invalid_config
  ok (record { members = replicate count fresh_member; next_index = 0 })

-- `Member::cooldown_error`: its answer, and the member with a pause that is over dropped.
pub cooling : Member → ClientView → ℕ → Option ErrorKind
cooling m v now = elim m.cooldown [
  | none ↦ none
  | some (until, g, k) ↦ if g == v.generation && ltb now until then some k else none
]

pub cleared : Member → ClientView → ℕ → Member
unfolding cooling
cleared m v now = elim (cooling m v now) [ none ↦ record m { cooldown = none } | some k ↦ m ]

-- Why a member is passed over; a pool of one member passes over none.
pub blocked : Bool → Member → ClientView → ℕ → Bool → Option ClientError
unfolding cooling
blocked multi m v now anonymous =
    if multi
    then elim (cooling m v now) [ some k ↦ some (error_of k) | none ↦ v.query_error anonymous ]
    else none

-- `first_error.get_or_insert(error)`
abbrev pub get_or_insert : Option ClientError → ClientError → Option ClientError
get_or_insert none e = some e
get_or_insert (some f) e = some f

pub record Choice : Type 0 where
  pub members : List Member
  pub chosen : Option ℕ
  pub first_error : Option ClientError

-- A check of a member drops its pause if that is over.
abbrev pub checked : Bool → List Member → ℕ → Member → ClientView → ℕ → List Member
checked multi ms i m v now = if multi then set ms i (cleared m v now) else ms

module _ (views : ℕ → ClientView) (now : ℕ) (anonymous : Bool) (start count : ℕ) where
  -- `for offset in 0..self.members.len()`, from `offset` on with `left` rounds to go.
  pub scan : ℕ → ℕ → List Member → Option ClientError → Choice
  unfolding blocked cleared
  scan zero offset ms first = record { members = ms; chosen = none; first_error = first }
  scan (suc left) offset ms first =
      let i = (start + offset) % count in
      elim (get_elem? ms i) [
        | none ↦ record { members = ms; chosen = none; first_error = first }
        | some m ↦
            let ms' = checked (ltb 1 count) ms i m (views i) now in
            elim (blocked (ltb 1 count) m (views i) now anonymous) [
              | none ↦ record { members = ms'; chosen = some i; first_error = first }
              | some e ↦ scan left (offset + 1) ms' (get_or_insert first e)
            ]
      ]

-- The index that a query goes to.
pub choose : (ℕ → ClientView) → ℕ → Bool → SessionPool → Result ℕ × SessionPool
unfolding scan
choose views now anonymous p =
    let count = length p.members in
    let c = scan views now anonymous p.next_index count count 0 p.members none in
    elim c.chosen [
      | some i ↦ (ok i, record { members = c.members; next_index = (i + 1) % count })
      | none ↦ (
        elim c.first_error [ some e ↦ err e | none ↦ err (error_of authentication_required) ],
        record { members = c.members; next_index = p.next_index },
      )
    ]

abbrev pub at_member : List Member → ℕ → (Member → Member) → List Member
at_member ms i f = elim (get_elem? ms i) [ none ↦ ms | some m ↦ set ms i (f m) ]

-- The requests of the session that is chosen.
abbrev pub count_request : Result ℕ × SessionPool → Result ℕ × SessionPool
count_request (err e, q) = (err e, q)
count_request (ok i, q) = (
  ok i,
  record q { members = at_member q.members i (λ m. record m { requests = add_one m.requests }) },
)

-- `query` up to its call of the member's cache.
pub begin :
    Result (Unit {0}) → Bool → (ℕ → ClientView) → ℕ → Bool → SessionPool → Result ℕ × SessionPool
unfolding choose
begin valid stop views now anonymous p = elim (valid >> guard (not stop) cancelled) [
  | err e ↦ (err e, p)
  | ok _ ↦ count_request (choose views now anonymous p)
]

abbrev pub is_transient : ErrorKind → Bool
is_transient transport = true
is_transient timeout = true
is_transient maintenance = true
is_transient _ = false

-- A failed query: the error is counted, and a transient one pauses the session that it came from.
pub after_error : Bool → ErrorKind → ℕ → ℕ → ℕ → Member → Member
after_error multi k before after now m =
    let counted : Member = record m { errors = add_one m.errors } in
    if multi && (is_transient k && after == before)
    then record counted { cooldown = some (now + transient_cooldown, before, k) }
    else counted

-- The rest of `query`, once the cache has answered; `before` is the member's generation at the call.
pub settle {ℓ} : {A : Type ℓ} → ℕ → ℕ → ℕ → ℕ → Result A → SessionPool → SessionPool
unfolding after_error
settle i before after now (ok a) p = p
settle i before after now (err e) p = record p {
  members = at_member p.members i (after_error (ltb 1 (length p.members)) e.kind before after now);
}
