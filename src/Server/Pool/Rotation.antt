-- ===== src/Server/Pool/Rotation.antt =====
-- server/src/pool.rs: round robin. A query goes to the first session, from the pool's index on and
-- round the members, that is not refused; the next query starts behind it.
use moenotes_api.Prelude.{
  Bool, Option, Option-cases, [], ap, arith, inl, inr, len, length, none, refl, some, subst, suc,
  zero, ℕ, ◌%◌, ◌+◌, ◌<◌, ◌∙◌, ◌≡◌, ◌≢◌,
}
use moenotes_api.Errors.{ClientError, Result, authentication_required, err, error_of, ok}
use moenotes_api.Server.Cache.{ClientView, key_eq}
use moenotes_api.Server.Pool.{Choice, SessionPool, choose, scan}
use moenotes_api.Server.Pool.Selection.{
  Outcome, Refused, all_refused, first_report, found, refusal, scan-Outcome,
}

-- Why a session is refused now, by its index.
abbrev pub refusals : (ℕ → ClientView) → ℕ → Bool → SessionPool → ℕ → Option ClientError
refusals views now anonymous p =
    refusal views now anonymous p.next_index (length p.members) p.members

abbrev pub AllRefused : (ℕ → ClientView) → ℕ → Bool → SessionPool → ℕ → Type 0
AllRefused views now anonymous p d =
    (e : ℕ) → e < d → refusals views now anonymous p ((p.next_index + e) % length p.members) ≢ none

-- The specification of a choice.
abbrev pub RoundRobin : (ℕ → ClientView) → ℕ → Bool → SessionPool → Result ℕ × SessionPool → Type 0
RoundRobin views now anonymous p (ok i, q) =
    (d : ℕ) × (d < length p.members)
    × (i ≡ (p.next_index + d) % length p.members)
    × (refusals views now anonymous p i ≡ none)
    × AllRefused views now anonymous p d
    × (q.next_index ≡ (i + 1) % length p.members)
    × (length q.members ≡ length p.members)
RoundRobin views now anonymous p (err e, q) =
    AllRefused views now anonymous p (length p.members)
    × (refusals views now anonymous p (p.next_index % length p.members) ≡ some e)
    × (q.next_index ≡ p.next_index)
    × (length q.members ≡ length p.members)

first_report_pos :
    (n : ℕ) (o : Option ClientError) (e : ClientError)
    → 0 < n
    → o ≡ some e
    → first_report n none o ≡ some e
first_report_pos zero o e h w = absurd (omega arith)
first_report_pos (suc n) o e h w = w

module _ (views : ℕ → ClientView) (now : ℕ) (anonymous : Bool) where
  abbrev finish_choice : SessionPool → Choice → Result ℕ × SessionPool
  finish_choice p c = elim c.chosen [
    | some i ↦ (ok i, record { members = c.members; next_index = (i + 1) % length p.members })
    | none ↦ (
      elim c.first_error [ some e ↦ err e | none ↦ err (error_of authentication_required) ],
      record { members = c.members; next_index = p.next_index },
    )
  ]

  from_zero :
      (p : SessionPool) (d : ℕ)
      → Refused views now anonymous p.next_index
          (length p.members)
          (refusals views now anonymous p)
          0
          d
      → AllRefused views now anonymous p d
  from_zero p d r e h =
      subst (λ x. refusals views now anonymous p ((p.next_index + x) % length p.members) ≢ none)
        (omega arith) (r e h)

  from_Outcome :
      (p : SessionPool) (c : Choice) (chosen : Option ℕ) (first : Option ClientError)
      → c.chosen ≡ chosen
      → c.first_error ≡ first
      → 0 < length p.members
      → length c.members ≡ length p.members
      → Outcome views now anonymous p.next_index
          (length p.members)
          (refusals views now anonymous p)
          0
          (length p.members)
          none
          chosen
          first
      → RoundRobin views now anonymous p (finish_choice p c)
  from_Outcome p c chosen first z y pos len (found d {i = i} lt at free refused) = rw z (
    d,
    lt,
    at ∙ ap (λ x. (p.next_index + x) % length p.members) (omega arith),
    free,
    from_zero p d refused,
    refl,
    len,
  )
  from_Outcome p c chosen first z y pos len (all_refused refused rep) =
      elim (Option-cases (refusals views now anonymous p (p.next_index % length p.members))) [
        | inl free ↦ absurd (from_zero p _ refused 0 pos (zero_round free))
        | inr (e, why) ↦
            rw (z, y ∙ rep ∙ first_report_pos (length p.members) _ e pos (zero_round why))
              (from_zero p _ refused, why, refl, len)
      ]
    where
      zero_round :
          {o : Option ClientError}
          → refusals views now anonymous p (p.next_index % length p.members) ≡ o
          → refusals views now anonymous p ((p.next_index + 0) % length p.members) ≡ o
      zero_round h =
          ap (λ x. refusals views now anonymous p (x % length p.members)) (omega arith) ∙ h

  -- In a pool with members a query goes to the first session, from the pool's index on and round
  -- the members, that is not refused now, and the next query starts behind it. Where all are
  -- refused the query fails with the error of the session at the index, which then stays. The
  -- number of members does not change.
  pub choose-RoundRobin :
      (p : SessionPool)
      → 0 < length p.members
      → RoundRobin views now anonymous p (choose views now anonymous p)
  unfolding choose
  choose-RoundRobin p pos =
      let n = length p.members in
      let c = scan views now anonymous p.next_index n n 0 p.members none in
      let (out, kept) =
        scan-Outcome views now anonymous p.next_index n (refusals views now anonymous p) n 0
          p.members none pos refl (λ j. refl) in
      from_Outcome p c c.chosen c.first_error refl refl pos kept out

  -- A pool with no members refuses every query.
  pub choose_empty :
      (i : ℕ)
      → (choose views now anonymous (record { members = []; next_index = i })).0
        ≡ err (error_of authentication_required)
  unfolding choose
  choose_empty i = refl

  -- The session that is chosen is not refused.
  pub choose-free :
      (p : SessionPool) (i : ℕ)
      → 0 < length p.members
      → (choose views now anonymous p).0 ≡ ok i
      → refusals views now anonymous p i ≡ none
  choose-free p i pos h = of_result (choose views now anonymous p) (choose-RoundRobin p pos) h
    where
      same_index : {j : ℕ} → ok j ≡ ok i → j ≡ i
      same_index z = cc

      of_result :
          (r : Result ℕ × SessionPool)
          → RoundRobin views now anonymous p r
          → r.0 ≡ ok i
          → refusals views now anonymous p i ≡ none
      of_result (ok j, q) (_, _, _, free, _, _, _) z =
          subst (λ x. refusals views now anonymous p x ≡ none) (same_index z) free
      of_result (err e, q) _ z = cc

  -- In a pool with members, where no session is refused, a query goes to the session at the pool's
  -- index, and the next query to the one behind it, round the members.
  pub choose_in_turn :
      (p : SessionPool)
      → 0 < length p.members
      → ((i : ℕ) → refusals views now anonymous p i ≡ none)
      → let n = length p.members in
        ((choose views now anonymous p).0 ≡ ok (p.next_index % n))
        × ((choose views now anonymous p).1.next_index ≡ (p.next_index % n + 1) % n)
  choose_in_turn p pos free = of_result (choose views now anonymous p) (choose-RoundRobin p pos)
    where
      of_result :
          (r : Result ℕ × SessionPool)
          → RoundRobin views now anonymous p r
          → (r.0 ≡ ok (p.next_index % length p.members))
            × (r.1.next_index ≡ (p.next_index % length p.members + 1) % length p.members)
      of_result (ok j, q) (zero, _, at, _, _, next, _) =
          let here : j ≡ p.next_index % length p.members =
            at ∙ ap (λ x. x % length p.members) (omega arith) in
          (ap ok here, next ∙ ap (λ x. (x + 1) % length p.members) here)
      of_result (ok j, q) (suc d, _, _, _, refused, _, _) =
          absurd (refused 0 (omega arith) (free _))
      of_result (err e, q) (refused, _, _, _) = absurd (refused 0 pos (free _))
