-- ===== src/Server/Pool/Pause.antt =====
-- server/src/pool.rs: no query goes to a session in its cooldown.
use moenotes_api.Prelude.{
  Bool, arith, get_elem?-set_self, get_elem?_lt, inl, inr, length, length-set, lt-get_elem?, ltb,
  none, not, some, true, ℕ, ◌+◌, ◌<◌, ◌≡◌, ◌≢◌,
}
use moenotes_api.Errors.{ClientError, ErrorKind, Result, cancelled, err, error_of, guard, ok, ◌>>◌}
use moenotes_api.Errors.Laws.{Result-cases}
use moenotes_api.Server.Cache.{ClientView, key_eq}
use moenotes_api.Server.Pool.{
  Member, SessionPool, after_error, begin, blocked, choose, count_request, is_transient, settle,
}
use moenotes_api.Server.Pool.Rotation.{choose-free}
use moenotes_api.Server.Pool.Paused.{
  PausedAt, PausedMember, PausedMember-cooling, Run, Run-PausedAt, Transient, Transient-is,
  at_member-at,
}

module _ (i g now : ℕ) where
  blocked-PausedMember :
      (m : Member) (v : ClientView) (later : ℕ) (anonymous : Bool)
      → PausedMember i g now m
      → later < now + 5000
      → v.generation ≡ g
      → blocked true m v later anonymous ≢ none
  unfolding blocked
  blocked-PausedMember m v later anonymous p early same h =
      let (k, e) = PausedMember-cooling i g now m v later p early same in
      not_none (error_of k) (rw (e, blocked) at h)
    where
      not_none : (x : ClientError) → some x ≡ none → ⊥
      not_none x y = cc

  choose-PausedAt_ne :
      (views : ℕ → ClientView) (later : ℕ) (anonymous : Bool) (p : SessionPool)
      → later < now + 5000
      → (views i).generation ≡ g
      → PausedAt i g now p.members
      → (choose views later anonymous p).0 ≢ ok i
  choose-PausedAt_ne views later anonymous p early same at h =
      let multi : ltb 1 (length p.members) ≡ true = ground (arith, at.many) in
      let free = choose-free views later anonymous p i (omega (arith, at.many)) h in
      blocked-PausedMember at.member (views i) later anonymous at.paused early same
        (rw (at.is_there, multi) at free)

  begin-PausedAt_ne :
      (valid : Result (Unit {0})) (stop : Bool) (views : ℕ → ClientView) (later : ℕ)
      (anonymous : Bool) (p : SessionPool)
      → later < now + 5000
      → (views i).generation ≡ g
      → PausedAt i g now p.members
      → (begin valid stop views later anonymous p).0 ≢ ok i
  unfolding begin
  begin-PausedAt_ne valid stop views later anonymous p early same at h =
      elim (Result-cases (valid >> guard (not stop) cancelled)) [
        | inr (e, z) ↦ not_ok e (rw (z, begin) at h)
        | inl (u, z) ↦
            choose-PausedAt_ne views later anonymous p early same at
              (chosen (choose views later anonymous p) (rw (z, begin) at h))
      ]
    where
      not_ok : (e : ClientError) → err e ≡ ok i → ⊥
      not_ok e q = cc

      chosen : (c : Result ℕ × SessionPool) → (count_request c).0 ≡ ok i → c.0 ≡ ok i
      chosen (err e, q) x = x
      chosen (ok j, q) x = x

  after_error-pauses :
      (k : ErrorKind) (m : Member)
      → is_transient k ≡ true
      → (after_error true k g g now m).cooldown ≡ some (now + 5000, g, k)
  unfolding after_error
  after_error-pauses k m h = ground (arith, h)

  settled-PausedAt :
      (p : SessionPool) (e : ClientError)
      → 1 < length p.members
      → i < length p.members
      → Transient e.kind
      → PausedAt i g now (settle {A = Unit {0}} i g g now (err e) p).members
  unfolding settle PausedMember
  settled-PausedAt p e many inside transient =
      let (m, at) = get_elem?_lt p.members i inside in
      let multi : ltb 1 (length p.members) ≡ true = ground arith in
      rw (multi, at_member-at p.members i (after_error true e.kind g g now) m at)
        (record {
          many = omega (arith, many, length-set p.members i (after_error true e.kind g g now m));
          member = after_error true e.kind g g now m;
          is_there =
              get_elem?-set_self p.members i (after_error true e.kind g g now m)
                (lt-get_elem? p.members i m at);
          paused = (
            now + 5000,
            e.kind,
            after_error-pauses e.kind m (Transient-is e.kind transient),
            omega arith,
          );
        })

  -- In a pool of more than one session: after a transport error, a timeout or maintenance that a
  -- session answers with in its generation, no query goes to it for less than 5000 milliseconds,
  -- whatever queries begin and end meanwhile, while it keeps its generation.
  pub Run-begin :
      (p q : SessionPool) (e : ClientError) (valid : Result (Unit {0})) (stop : Bool)
      (views : ℕ → ClientView) (later : ℕ) (anonymous : Bool)
      → 1 < length p.members
      → i < length p.members
      → Transient e.kind
      → Run i g now (settle {A = Unit {0}} i g g now (err e) p) q
      → later < now + 5000
      → (views i).generation ≡ g
      → (begin valid stop views later anonymous q).0 ≢ ok i
  Run-begin p q e valid stop views later anonymous many inside transient run early same =
      begin-PausedAt_ne valid stop views later anonymous q early same
        (Run-PausedAt i g now run (settled-PausedAt p e many inside transient))
