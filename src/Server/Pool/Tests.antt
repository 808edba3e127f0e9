-- ===== src/Server/Pool/Tests.antt =====
-- server/src/pool.rs: a pool of three sessions.
use moenotes_api.Prelude.{
  arith, false, if◌then◌else◌, inl, inr, none, refl, some, suc, zero, ℕ, ◌==◌, ◌≡◌, ◌≢◌,
}
use moenotes_api.Errors.{err, error_of, ok, timeout, version}
use moenotes_api.Server.Cache.{ClientView, key_eq}
use moenotes_api.Server.Pool.{
  SessionPool, begin, blocked, choose, cooling, fresh_member, replicate, settle,
}
use moenotes_api.Server.Pool.Rotation.{RoundRobin, choose-RoundRobin, refusals}
use moenotes_api.Server.Pool.Pause.{Run-begin}
use moenotes_api.Server.Pool.Paused.{Run, begins, done, then_step}

abbrev trio : SessionPool
trio = record { members = replicate 3 fresh_member; next_index = 2 }

abbrev open_view : ClientView
open_view = record { generation = 4; query_error = λ anonymous. none }

abbrev closed_view : ClientView
closed_view = record { generation = 4; query_error = λ anonymous. some (error_of version) }

-- The session 2 is refused.
abbrev views : ℕ → ClientView
views i = if i == 2 then closed_view else open_view

choose-RoundRobin_example : RoundRobin views 0 false trio (choose views 0 false trio)
choose-RoundRobin_example = choose-RoundRobin views 0 false trio (omega arith)

-- The session 1 has a timeout at 500; a query begins at 600, and one at 1000.
abbrev after_timeout : SessionPool
after_timeout = settle {A = Unit {0}} 1 4 4 500 (err (error_of timeout)) trio

abbrev always_open : ℕ → ClientView
always_open i = open_view

one_query : Run 1 4 500 after_timeout (begin (ok tt) false always_open 600 false after_timeout).1
one_query =
    then_step done (begins (ok tt) false always_open 600 false after_timeout (omega arith) refl)

Run-begin_example :
    (begin
      (ok tt)
      false
      always_open
      1000
      false
      (begin (ok tt) false always_open 600 false after_timeout).1).0
    ≢ ok 1
Run-begin_example =
    Run-begin 1 4 500 trio (begin (ok tt) false always_open 600 false after_timeout).1
      (error_of timeout) (ok tt) false always_open 1000 false (omega arith) (omega arith)
      (inr (inl refl)) one_query (omega arith) refl

nobody_refused : (i : ℕ) → refusals (λ j. open_view) 0 false trio i ≡ none
unfolding blocked cooling
nobody_refused zero = refl
nobody_refused (suc zero) = refl
nobody_refused (suc (suc zero)) = refl
nobody_refused (suc (suc (suc i))) = refl
