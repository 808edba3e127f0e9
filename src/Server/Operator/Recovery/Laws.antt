-- ===== src/Server/Operator/Recovery/Laws.antt =====
-- server/src/managed.rs, GameRecovery::recover: what stands before each thing that is done.
use moenotes_api.Prelude.{
  ==_iff, Bool, Option, ap, arith, false, not, some, true, ℕ, ◌==◌, ◌∙◌, ◌≡◌,
}
use moenotes_api.Server.Operator.Recovery.{
  Effect, GameAnswers, game_calls, is_blocked_status, login, persist_session, pre_login,
  recover_game,
}
use moenotes_api.Errors.{
  authentication, cancelled, guard, invalid_config, ok, require, session_changed,
}
use moenotes_api.Errors.Laws.{guard-ok, require-ok}
use moenotes_api.Server.Operator.Recovery.Rules.{Does, perform_rule, read_rule}

module _ {C : Type 0} (g : ℕ) (w : GameAnswers C) where
  -- A stored session of the session's own player, in a session that is not blocked.
  pub record MayAsk : Type 0 where
    pub is_locked : w.locked ≡ ok tt
    pub is_current : w.generation ≡ g
    pub is_open : is_blocked_status w.status ≡ false
    pub stored : C
    pub stored_is : w.saved ≡ ok (some stored)
    pub is_own : w.matches stored ≡ ok true
    pub has_sdk : w.approved ≡ ok tt
    pub has_context : w.context ≡ ok tt

  -- The role of the player is there already, and the session that the login gave is the player's.
  abbrev pub Allowed : Effect → Type 0
  Allowed pre_login = MayAsk
  Allowed login = MayAsk × (w.exists ≡ ok true)
  Allowed persist_session =
      (m : MayAsk) × (w.exists ≡ ok true)
      × (is_new_user : ℕ) × (w.logged_in ≡ ok is_new_user)
      × (w.matches_after m.stored ≡ ok true)
      × (w.is_cancelled ≡ false)
  Allowed _ = ⊥

  game_calls-Allowed : (m : MayAsk) → Does Allowed (game_calls w m.stored)
  game_calls-Allowed m = perform_rule Allowed pre_login w.exists _ m λ exists e.
      read_rule Allowed (guard exists authentication) _ λ u e1.
        let there : w.exists ≡ ok true =
          e ∙ ap (λ (b : Bool). ok b) (guard-ok exists authentication u e1) in
        perform_rule Allowed login w.logged_in _ (m, there)
          λ n e2. read_rule Allowed (w.matches_after m.stored) _ λ still e3.
            read_rule Allowed (guard still invalid_config) _ λ u1 e4.
              read_rule Allowed (guard (not w.is_cancelled) cancelled) _ λ u2 e5.
                let running = guard-ok (not w.is_cancelled) cancelled u2 e5 in
                (
                  (
                    m,
                    there,
                    n,
                    e2,
                    e3 ∙ ap (λ (b : Bool). ok b) (guard-ok still invalid_config u1 e4),
                    ground (arith, running),
                  ),
                  tt,
                )

  pub recover_game-Allowed : Does Allowed (recover_game g w)
  unfolding recover_game
  recover_game-Allowed = read_rule Allowed w.locked _ λ a e.
      read_rule Allowed (guard (w.generation == g) session_changed) _ λ a1 e1.
        read_rule Allowed (guard (not (is_blocked_status w.status)) session_changed) _ λ a2 e2.
          read_rule Allowed w.saved _ λ found e3.
            read_rule Allowed (require found invalid_config) _ λ saved e4.
              read_rule Allowed (w.matches saved) _ λ same e5.
                read_rule Allowed (guard same invalid_config) _ λ a6 e6.
                  read_rule Allowed w.approved _ λ a7 e7. read_rule Allowed w.context _ λ a8 e8.
                    let open_status =
                      guard-ok (not (is_blocked_status w.status)) session_changed a2 e2 in
                    game_calls-Allowed (record {
                      is_locked = e;
                      is_current = (==_iff _ _).0 (guard-ok _ session_changed a1 e1);
                      is_open = ground (arith, open_status);
                      stored = saved;
                      stored_is =
                          e3
                          ∙ ap (λ (o : Option C). ok o) (require-ok found invalid_config saved e4);
                      is_own = e5 ∙ ap (λ (b : Bool). ok b) (guard-ok same invalid_config a6 e6);
                      has_sdk = e7;
                      has_context = e8;
                    })
