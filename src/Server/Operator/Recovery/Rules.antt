-- ===== src/Server/Operator/Recovery/Rules.antt =====
-- The steps of a recovery, and what is said of all that it does.
use moenotes_api.Prelude.{All, refl, ◌≡◌}
use moenotes_api.Errors.{Result, err, ok}
use moenotes_api.Server.Operator.Recovery.{Effect, Run, and_then, perform, read_only}

module _ (P : Effect → Type 0) where
  abbrev pub Does : {B : Type 0} → Run B → Type 0
  Does run = All P run.1

  pub read_rule :
      {A B : Type 0} (r : Result A) (next : A → Run B)
      → ((a : A) → r ≡ ok a → Does (next a))
      → Does (and_then (read_only r) next)
  read_rule (ok a) next h = h a refl
  read_rule (err e) next h = tt

  pub perform_rule :
      {A B : Type 0} (e : Effect) (r : Result A) (next : A → Run B)
      → P e
      → ((a : A) → r ≡ ok a → Does (next a))
      → Does (and_then (perform e r) next)
  perform_rule e (ok a) next p h = (p, h a refl)
  perform_rule e (err k) next p h = (p, tt)
