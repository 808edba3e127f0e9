-- ===== src/Server/Pool/Selection.antt =====
-- server/src/pool.rs: which session a query goes to.
use native.Mathlib.Nat.{mod-lt}
use moenotes_api.Prelude.{
  Bool, Bool-cases, List, Option, Option-cases, ap, arith, get_elem?, get_elem?-set_ne,
  get_elem?-set_self, get_elem?_lt, inl, inr, len, length, length-set, lt-get_elem?, ltb, none,
  refl, some, subst, suc, sym, true, zero, ℕ, ℕ_discrete, ◌%◌, ◌+◌, ◌<◌, ◌∙◌, ◌≡◌, ◌≢◌,
}
use moenotes_api.Errors.{ClientError}
use moenotes_api.Server.Cache.{ClientView, key_eq}
use moenotes_api.Server.Pool.{Member, blocked, checked, cleared, cooling, get_or_insert, scan}

pub blocked-cleared :
    (multi : Bool) (m : Member) (v : ClientView) (now : ℕ) (anonymous : Bool)
    → blocked multi (cleared m v now) v now anonymous ≡ blocked multi m v now anonymous
unfolding blocked cleared cooling
blocked-cleared multi m v now anonymous = ground arith

module _ (views : ℕ → ClientView) (now : ℕ) (anonymous multi : Bool) where
  abbrev pub blocked_member : Option Member → ℕ → Option ClientError
  blocked_member none i = none
  blocked_member (some m) i = blocked multi m (views i) now anonymous

  -- Why the member at an index is passed over now, if it is.
  abbrev pub blocked_at : List Member → ℕ → Option ClientError
  blocked_at ms i = blocked_member (get_elem? ms i) i

  -- A check of one member changes no answer about any.
  pub blocked_at-checked :
      (ms : List Member) (i : ℕ) (m : Member) (j : ℕ)
      → get_elem? ms i ≡ some m
      → blocked_at (checked multi ms i m (views i) now) j ≡ blocked_at ms j
  blocked_at-checked ms i m j at = elim (Bool-cases multi) [
    | inr single ↦ rw single
    | inl many ↦ elim (ℕ_discrete i j) [
      | yes same ↦
          rw
            (
              many,
              ← same,
              get_elem?-set_self ms i (cleared m (views i) now) (lt-get_elem? ms i m at),
              at,
            )
            (blocked-cleared true m (views i) now anonymous)
      | no other ↦ rw (many, get_elem?-set_ne ms i j (cleared m (views i) now) other)
    ]
  ]

  pub length-checked :
      (ms : List Member) (i : ℕ) (m : Member)
      → length (checked multi ms i m (views i) now) ≡ length ms
  length-checked ms i m = elim (Bool-cases multi) [
    | inr single ↦ rw single
    | inl many ↦ rw many (length-set ms i (cleared m (views i) now))
  ]

-- The error kept is the one found first.
abbrev pub first_report : ℕ → Option ClientError → Option ClientError → Option ClientError
first_report zero first e = first
first_report (suc left) (some f) e = some f
first_report (suc left) none e = e

module _ (views : ℕ → ClientView) (now : ℕ) (anonymous : Bool) (start count : ℕ) where
  abbrev pub refusal : List Member → ℕ → Option ClientError
  refusal ms i = blocked_at views now anonymous (ltb 1 count) ms i

  -- `d` rounds from `offset` on were refused, going round the members.
  abbrev pub Refused : (ℕ → Option ClientError) → ℕ → ℕ → Type 0
  Refused b offset d = (e : ℕ) → e < d → b ((start + (offset + e)) % count) ≢ none

  Refused-suc :
      (b : ℕ → Option ClientError) (offset d : ℕ)
      → b ((start + offset) % count) ≢ none
      → Refused b (offset + 1) d
      → Refused b offset (suc d)
  Refused-suc b offset d here rest zero h =
      subst (λ x. b ((start + x) % count) ≢ none) (omega arith) here
  Refused-suc b offset d here rest (suc e) h =
      subst (λ x. b ((start + x) % count) ≢ none) (omega arith) (rest e (omega arith))

  -- The loop's outcome, by its first index that is not refused.
  pub data Outcome (b : ℕ → Option ClientError) (offset left : ℕ) (first : Option ClientError)
      : Option ℕ → Option ClientError → Type 0 where
    found :
        (d : ℕ) {i : ℕ} {e : Option ClientError}
        → d < left
        → i ≡ (start + (offset + d)) % count
        → b i ≡ none
        → Refused b offset d
        → Outcome b offset left first (some i) e
    all_refused :
        {e : Option ClientError}
        → Refused b offset left
        → e ≡ first_report left first (b ((start + offset) % count))
        → Outcome b offset left first none e

  Outcome-suc :
      (b : ℕ → Option ClientError) (offset left : ℕ) (first : Option ClientError) (x : ClientError)
      {chosen : Option ℕ} {e : Option ClientError}
      → b ((start + offset) % count) ≡ some x
      → Outcome b (offset + 1) left (get_or_insert first x) chosen e
      → Outcome b offset (suc left) first chosen e
  Outcome-suc b offset left first x here (found d lt at free refused) =
      found (suc d) (omega arith) (at ∙ ap (λ y. (start + y) % count) (omega arith)) free
        (Refused-suc b offset d (λ z. cc (here, z)) refused)
  Outcome-suc b offset left first x here (all_refused refused rep) =
      all_refused (Refused-suc b offset left (λ z. cc (here, z)) refused)
        (rep ∙ rw here (first_kept left first))
    where
      first_kept :
          (left : ℕ) (first : Option ClientError)
          → first_report left (get_or_insert first x) (b ((start + (offset + 1)) % count))
            ≡ first_report (suc left) first (some x)
      first_kept zero none = refl
      first_kept zero (some f) = refl
      first_kept (suc n) none = refl
      first_kept (suc n) (some f) = refl

  pub scan-Outcome :
      (b : ℕ → Option ClientError) (left offset : ℕ) (ms : List Member) (first : Option ClientError)
      → 0 < count
      → length ms ≡ count
      → ((j : ℕ) → refusal ms j ≡ b j)
      → let c = scan views now anonymous start count left offset ms first in
        Outcome b offset left first c.chosen c.first_error × (length c.members ≡ count)
  unfolding scan
  scan-Outcome b zero offset ms first pos len same =
      (all_refused (λ e h. absurd (omega arith)) refl, len)
  scan-Outcome b (suc left) offset ms first pos len same =
      let i = (start + offset) % count in
      let multi = ltb 1 count in
      let (m, at) = get_elem?_lt ms i (omega (arith, mod-lt (start + offset) pos, len)) in
      let here : b i ≡ blocked multi m (views i) now anonymous =
        sym (same i) ∙ ap (λ o. blocked_member views now anonymous multi o i) at in
      let ms' = checked multi ms i m (views i) now in
      let len' = length-checked views now anonymous multi ms i m ∙ len in
      elim (Option-cases (blocked multi m (views i) now anonymous)) [
        | inl z ↦
            rw (at, scan, z)
              (
                found 0 (omega arith) (ap (λ y. (start + y) % count) (omega arith)) (here ∙ z)
                    (λ e h. absurd (omega arith)),
                len',
              )
        | inr (x, z) ↦
            rw (at, scan, z)
              (let (out, l) =
                  scan-Outcome b left (offset + 1) ms' (get_or_insert first x) pos len'
                    (λ j. blocked_at-checked views now anonymous multi ms i m j at ∙ same j) in
                (Outcome-suc b offset left first x (here ∙ z) out, l))
      ]
