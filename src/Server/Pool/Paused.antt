-- ===== src/Server/Pool/Paused.antt =====
-- server/src/pool.rs: the cooldown of a session lasts, whatever happens meanwhile.
use moenotes_api.Prelude.{
  ==_iff, Bool, Bool-cases, List, Option, Option-cases, add_one, ap, arith, false, get_elem?,
  get_elem?-set_ne, get_elem?-set_self, inl, inr, length, length-set, lt-get_elem?, ltb, none, not,
  refl, set, some, subst, suc, sym, true, zero, ℕ, ◌%◌, ◌&&◌, ◌+◌, ◌<◌, ◌==◌, ◌∙◌, ◌≡◌, ◌≤◌, ◌⊎◌,
}
use moenotes_api.Errors.{
  ClientError, ErrorKind, Result, cancelled, err, guard, maintenance, ok, timeout, transport, ◌>>◌,
}
use moenotes_api.Errors.Laws.{Result-cases}
use moenotes_api.Server.Cache.{ClientView, key_eq}
use moenotes_api.Server.Pool.{
  Member, SessionPool, after_error, at_member, begin, blocked, checked, choose, cleared, cooling,
  count_request, get_or_insert, is_transient, scan, settle,
}

abbrev pub Transient : ErrorKind → Type 0
Transient k = (k ≡ transport) ⊎ ((k ≡ timeout) ⊎ (k ≡ maintenance))

pub at_member-at :
    (ms : List Member) (i : ℕ) (f : Member → Member) (m : Member)
    → get_elem? ms i ≡ some m
    → at_member ms i f ≡ set ms i (f m)
at_member-at ms i f m at = rw (at, at_member)

pub Transient-is : (k : ErrorKind) → Transient k → is_transient k ≡ true
Transient-is k (inl e) = ap is_transient e
Transient-is k (inr (inl e)) = ap is_transient e
Transient-is k (inr (inr e)) = ap is_transient e

same_member : (a b : Member) → some a ≡ some b → a ≡ b
same_member a b e = cc

not_both : (b : Bool) → b ≡ true → b ≡ false → ⊥
not_both b e f = cc

-- The session `i` has failed at `now`, in its generation `g`.
module _ (i g now : ℕ) where
  -- What happens within 5000 milliseconds, while the session keeps its generation: queries begin,
  -- and queries of any session end, of this one in its generation.
  pub data Step : SessionPool → SessionPool → Type 0 where
    begins :
        (valid : Result (Unit {0})) (stop : Bool) (views : ℕ → ClientView) (later : ℕ)
        (anonymous : Bool) (p : SessionPool)
        → later < now + 5000
        → (views i).generation ≡ g
        → Step p (begin valid stop views later anonymous p).1
    settles :
        (j before after later : ℕ) (answer : Result (Unit {0})) (p : SessionPool)
        → now ≤ later
        → (j ≡ i → after ≡ g)
        → Step p (settle j before after later answer p)

  pub data Run : SessionPool → SessionPool → Type 0 where
    done : {p : SessionPool} → Run p p
    then_step : {p q r : SessionPool} → Run p q → Step q r → Run p r

  -- A member that is paused for this long at least.
  unfoldable pub PausedMember : Member → Type 0
  PausedMember m =
      (until : ℕ) × (k : ErrorKind) × (m.cooldown ≡ some (until, g, k)) × (now + 5000 ≤ until)

  pub record PausedAt (ms : List Member) : Type 0 where
    pub many : 1 < length ms
    pub member : Member
    pub is_there : get_elem? ms i ≡ some member
    pub paused : PausedMember member

  pub PausedMember-cooling :
      (m : Member) (v : ClientView) (later : ℕ)
      → PausedMember m
      → later < now + 5000
      → v.generation ≡ g
      → (k : ErrorKind) × (cooling m v later ≡ some k)
  unfolding cooling PausedMember
  PausedMember-cooling m v later (until, k, e, long) early same =
      (k, ground (arith, e, long, early, same))

  cleared-paused :
      (m : Member) (v : ClientView) (later : ℕ)
      → PausedMember m
      → later < now + 5000
      → v.generation ≡ g
      → cleared m v later ≡ m
  unfolding cleared
  cleared-paused m v later p early same =
      let (k, e) = PausedMember-cooling m v later p early same in rw (e, cleared) refl

  -- Another member at an index, which for the paused one is paused too.
  set-PausedAt :
      (ms : List Member) (j : ℕ) (m new : Member)
      → PausedAt ms
      → get_elem? ms j ≡ some m
      → (j ≡ i → PausedMember m → PausedMember new)
      → PausedAt (set ms j new)
  set-PausedAt ms j m new p at keeps = elim (Bool-cases (j == i)) [
    | inl z ↦
        let same = (==_iff j i).0 z in
        record {
          many = omega (arith, p.many, length-set ms j new);
          member = new;
          is_there =
              subst (λ (x : ℕ). get_elem? (set ms j new) x ≡ some new) same
                (get_elem?-set_self ms j new (lt-get_elem? ms j m at));
          paused = keeps same (
              subst PausedMember
                (same_member p.member m (sym p.is_there ∙ sym (ap (get_elem? ms) same) ∙ at))
                p.paused);
        }
    | inr z ↦ record {
      many = omega (arith, p.many, length-set ms j new);
      member = p.member;
      is_there =
          get_elem?-set_ne ms j i new (λ e. not_both (j == i) ((==_iff j i).1 e) z) ∙ p.is_there;
      paused = p.paused;
    }
  ]

  checked-PausedAt :
      (multi : Bool) (ms : List Member) (j : ℕ) (m : Member) (v : ClientView) (later : ℕ)
      → PausedAt ms
      → get_elem? ms j ≡ some m
      → later < now + 5000
      → (j ≡ i → v.generation ≡ g)
      → PausedAt (checked multi ms j m v later)
  checked-PausedAt false ms j m v later p at early same = p
  checked-PausedAt true ms j m v later p at early same =
      set-PausedAt ms j m (cleared m v later) p at
        (λ e q. subst PausedMember (sym (cleared-paused m v later q early (same e))) q)

  at_member-PausedAt :
      (ms : List Member) (j : ℕ) (f : Member → Member)
      → PausedAt ms
      → ((m : Member) → j ≡ i → PausedMember m → PausedMember (f m))
      → PausedAt (at_member ms j f)
  at_member-PausedAt ms j f p keeps = elim (Option-cases (get_elem? ms j)) [
    | inl z ↦ rw (z, at_member) p
    | inr (m, z) ↦ rw (z, at_member) (set-PausedAt ms j m (f m) p z (keeps m))
  ]

  module _ (views : ℕ → ClientView) (later : ℕ) (anonymous : Bool) (start count : ℕ) where
    scan-PausedAt :
        (left offset : ℕ) (ms : List Member) (first : Option ClientError)
        → later < now + 5000
        → (views i).generation ≡ g
        → PausedAt ms
        → PausedAt (scan views later anonymous start count left offset ms first).members
    unfolding scan
    scan-PausedAt zero offset ms first early same p = p
    scan-PausedAt (suc left) offset ms first early same p =
        elim (Option-cases (get_elem? ms ((start + offset) % count))) [
          | inl z ↦ rw (z, scan) p
          | inr (m, z) ↦
              let j = (start + offset) % count in
              let next =
                checked-PausedAt (ltb 1 count) ms j m (views j) later p z early
                  (λ e. subst (λ (x : ℕ). (views x).generation ≡ g) (sym e) same) in
              elim (Option-cases (blocked (ltb 1 count) m (views j) later anonymous)) [
                | inl y ↦ rw (z, y, scan) next
                | inr (x, y) ↦
                    rw (z, y, scan)
                      (scan-PausedAt left (offset + 1) _ (get_or_insert first x) early same next)
              ]
        ]

  choose-PausedAt :
      (views : ℕ → ClientView) (later : ℕ) (anonymous : Bool) (p : SessionPool)
      → later < now + 5000
      → (views i).generation ≡ g
      → PausedAt p.members
      → PausedAt (choose views later anonymous p).1.members
  unfolding choose
  choose-PausedAt views later anonymous p early same at =
      let count = length p.members in
      let kept =
        scan-PausedAt views later anonymous p.next_index count count 0 p.members none early same
          at in
      let c = scan views later anonymous p.next_index count count 0 p.members none in
      elim (Option-cases c.chosen) [
        | inl z ↦ rw (z, choose) kept
        | inr (j, z) ↦ rw (z, choose) kept
      ]

  count_request-PausedAt :
      (c : Result ℕ × SessionPool) → PausedAt c.1.members → PausedAt (count_request c).1.members
  unfolding PausedMember
  count_request-PausedAt (err e, q) at = at
  count_request-PausedAt (ok j, q) at =
      at_member-PausedAt q.members j (λ m. record m { requests = add_one m.requests }) at
        (λ m here paused. paused)

  begin-PausedAt :
      (valid : Result (Unit {0})) (stop : Bool) (views : ℕ → ClientView) (later : ℕ)
      (anonymous : Bool) (p : SessionPool)
      → later < now + 5000
      → (views i).generation ≡ g
      → PausedAt p.members
      → PausedAt (begin valid stop views later anonymous p).1.members
  unfolding begin
  begin-PausedAt valid stop views later anonymous p early same at =
      elim (Result-cases (valid >> guard (not stop) cancelled)) [
        | inr (e, z) ↦ rw (z, begin) at
        | inl (u, z) ↦
            rw (z, begin)
              (count_request-PausedAt (choose views later anonymous p)
                (choose-PausedAt views later anonymous p early same at))
      ]

  -- Another failure of the paused session, in its generation: the pause is as long, or longer.
  after_error-paused :
      (multi : Bool) (k : ErrorKind) (before after later : ℕ) (m : Member)
      → after ≡ g
      → now ≤ later
      → PausedMember m
      → PausedMember (after_error multi k before after later m)
  unfolding after_error PausedMember
  after_error-paused multi k before after later m same passed (until, kind, e, long) =
      elim (Bool-cases (multi && (is_transient k && after == before))) [
        | inr z ↦ rw (z, after_error) (until, kind, e, long)
        | inl z ↦
            let here : before ≡ g = sym ((==_iff after before).0 (ground (arith, z))) ∙ same in
            rw (z, after_error)
              (later + 5000, k, ap (λ (x : ℕ). some (later + 5000, x, k)) here, omega arith)
      ]

  settle-PausedAt :
      (j before after later : ℕ) (answer : Result (Unit {0})) (p : SessionPool)
      → now ≤ later
      → (j ≡ i → after ≡ g)
      → PausedAt p.members
      → PausedAt (settle j before after later answer p).members
  unfolding settle
  settle-PausedAt j before after later (ok a) p passed same at = at
  settle-PausedAt j before after later (err e) p passed same at =
      at_member-PausedAt p.members j _ at (λ m here q.
        after_error-paused (ltb 1 (length p.members)) e.kind before after later m (same here) passed
          q)

  Step-PausedAt : {p q : SessionPool} → Step p q → PausedAt p.members → PausedAt q.members
  Step-PausedAt (begins valid stop views later anonymous p early same) at =
      begin-PausedAt valid stop views later anonymous p early same at
  Step-PausedAt (settles j before after later answer p passed same) at =
      settle-PausedAt j before after later answer p passed same at

  pub Run-PausedAt : {p q : SessionPool} → Run p q → PausedAt p.members → PausedAt q.members
  Run-PausedAt done at = at
  Run-PausedAt (then_step run step) at = Step-PausedAt step (Run-PausedAt run at)
