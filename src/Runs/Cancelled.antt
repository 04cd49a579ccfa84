-- ===== src/Runs/Cancelled.antt =====
-- About the record of a cancellation (src/reconciler.js cancelStatusRun).
use fizzy_symphony.Base.{
  ◌≡◌, refl, Bool, true, false, not, ◌&&◌, ◌||◌, Option, none, some, any, Result, ok, err, arith,
}
use fizzy_symphony.Orchestrator.Types.{Problem}
use fizzy_symphony.Runs.Types.{
  Call, Session, Outside, Job, World, Log, cancels_turn, cancels_claim, preserves_workspace,
  posts_cancellation, records_attempt,
}
use fizzy_symphony.Runs.Exec.{wait, push}
use fizzy_symphony.Runs.Sessions.{
  StopState, has_succeeded, stop_runner_session-keeps, terminate_owned_runner_process-keeps,
}
use fizzy_symphony.Runs.Triples.{
  Triple, Ends, Triple-pure, Triple-ask, Triple-if, Triple-attempt, Triple-call, Triple-bind,
}
use fizzy_symphony.Runs.Cancel.{
  ActiveRun, Cancellation, is_timeout, is_failed, owns_process, needs_person, cancel_runner_turn,
  end_unstopped, end_session, cancel_claim, preserve_workspace, cancel_parts, cancel_status_run,
}

abbrev pub is_cancel_claim : Call → Bool
is_cancel_claim cancels_claim = true
is_cancel_claim _ = false

abbrev pub is_preserve : Call → Bool
is_preserve preserves_workspace = true
is_preserve _ = false

-- Such a call was made, whether it returned or not.
unfoldable pub tried : (Call → Bool) → Log → Bool
tried p l = any (λ e. p e.call) l

-- All that a record without a call for a person vouches for.
unfoldable pub is_clean : Cancellation → Bool
is_clean c =
    c.claim_cancelled
    && c.workspace_preserved
    && not (is_timeout c.runner_cancel_sent)
    && (not (is_failed c.session_stopped) || has_succeeded c.process_terminated)

-- The claim and the workspace were seen to, and a record that calls for no person is clean.
unfoldable pub is_seen_to : Result Problem Cancellation → Log → Bool
is_seen_to (ok c) l =
    tried is_cancel_claim l && tried is_preserve l && (c.manual_intervention_required || is_clean c)
is_seen_to (err e) l = tried is_cancel_claim l && tried is_preserve l

module _ (o : Outside) (job : Job) (run : ActiveRun) where
  abbrev Any : World → Type 0
  Any w = Unit {0}

  abbrev Claimed : World → Type 0
  Claimed w = tried is_cancel_claim w.log ≡ true

  abbrev Both : World → Type 0
  Both w = (tried is_cancel_claim w.log ≡ true) × (tried is_preserve w.log ≡ true)

  abbrev Seen : Cancellation → World → Type 0
  Seen c w = Both w × ((c.manual_intervention_required || is_clean c) ≡ true)

  cancel_runner_turn-returns :
      (E : World → Type 0) → Triple Any (cancel_runner_turn o job run) (λ _. Any) E
  unfolding cancel_runner_turn
  cancel_runner_turn-returns E =
      Triple-if (run.can_cancel && run.has_turn) _ _
        (λ _.
          Triple-attempt {T = Any} _ _ (Triple-ask o cancels_turn _ (λ w p. tt) (λ w p. tt))
            (λ e. Triple-pure StopState.failed (λ w p. p)))
        (λ _. Triple-pure StopState.skipped (λ w p. p))

  end_unstopped-returns :
      (E : World → Type 0) (s : Session) (cancel stopped : StopState)
      → Triple Any (end_unstopped o job run s cancel stopped) (λ _. Any) E
  unfolding end_unstopped
  end_unstopped-returns E s cancel stopped =
      Triple-if (has_succeeded stopped) _ _ (λ _. Triple-pure _ (λ w p. p))
        (λ _.
          Triple-if (owns_process s cancel) _ _
            (λ _.
              Triple-bind {Q = λ _. Any} _ _
                (terminate_owned_runner_process-keeps o job Any E (λ b w p. tt) (λ b w p. tt))
                (λ t. Triple-pure _ (λ w p. p)))
            (λ _. Triple-pure _ (λ w p. p)))

  end_session-returns :
      (E : World → Type 0) (s : Option Session) (cancel : StopState)
      → Triple Any (end_session o job run s cancel) (λ _. Any) E
  unfolding end_session
  end_session-returns E none cancel = Triple-pure _ (λ w p. p)
  end_session-returns E (some s) cancel =
      Triple-bind {Q = λ _. Any} _ _
        (stop_runner_session-keeps o job Any E (λ b w p. tt) (λ b w p. tt))
        (end_unstopped-returns E s cancel)

  cancel_claim-tried : (E : World → Type 0) → Triple Any (cancel_claim o job run) (λ _. Claimed) E
  unfolding cancel_claim push wait tried
  cancel_claim-tried E =
      Triple-attempt {T = Claimed} _ _ (Triple-ask o cancels_claim _ (λ w p. refl) (λ w p. refl))
        (λ e. Triple-pure false (λ w p. p))

  preserve_workspace-tried :
      (E : World → Type 0) → Triple Claimed (preserve_workspace o job run) (λ _. Both) E
  unfolding preserve_workspace push wait tried
  preserve_workspace-tried E =
      Triple-attempt {T = Both} _ _
        (Triple-ask o preserves_workspace _ (λ w p. (p, refl)) (λ w p. (p, refl)))
        (λ e. Triple-pure false (λ w p. p))

  cancel_parts-Seen : (E : World → Type 0) → Triple Any (cancel_parts o job run) Seen E
  unfolding cancel_parts is_clean needs_person
  cancel_parts-Seen E = Triple-bind {Q = λ _. Any} _ _ (cancel_runner_turn-returns E) λ cancel.
      Triple-bind {Q = λ _. Any} _ _ (end_session-returns E run.session cancel) λ e.
        Triple-bind {Q = λ _. Claimed} _ _ (cancel_claim-tried E) λ claim.
          Triple-bind {Q = λ _. Both} _ _ (preserve_workspace-tried E) λ preserved.
            Triple-pure _ (λ w b. (
              b,
              covered e.manual preserved (is_timeout cancel) claim (is_failed e.stopped)
                  (has_succeeded e.terminated),
            ))
    where
      covered :
          (manual preserved late claim failed ended : Bool)
          → ((manual || not preserved || late || not claim || (failed && not ended))
              || (claim && preserved && not late && (not failed || ended)))
            ≡ true
      covered manual preserved late claim failed ended = ground arith

  cancel_status_run-Seen : Triple Any (cancel_status_run o job run) Seen Both
  unfolding cancel_status_run push wait tried
  cancel_status_run-Seen = Triple-bind {Q = Seen} _ _ (cancel_parts-Seen Both) λ c.
      Triple-bind {Q = λ _. Seen c} _ _ (Triple-call o posts_cancellation (λ w p. p) (λ w p. p.0))
        λ _.
          Triple-bind {Q = λ _. Seen c} _ _
            (Triple-call o (records_attempt _) (λ w p. p) (λ w p. p.0))
            λ _. Triple-pure c (λ w p. p)

  -- However a cancellation ends, the claim's release and the preservation of the workspace were
  -- tried. Where it returns a record that calls for no person, the claim was cancelled, the
  -- workspace was preserved, the runner's cancel was in time, and no stop of the session failed
  -- without its process being terminated.
  pub cancel_status_run_seen :
      (w : World)
      → is_seen_to (cancel_status_run o job run w).0 (cancel_status_run o job run w).1.log ≡ true
  unfolding is_seen_to
  cancel_status_run_seen w = seen (cancel_status_run o job run w) (cancel_status_run-Seen.at w tt)
    where
      seen :
          (r : Result Problem Cancellation × World)
          → Ends Seen Both r
          → is_seen_to r.0 r.1.log ≡ true
      seen (ok c, v) ((a, b), k) = rw (a, b, k) refl
      seen (err e, v) (a, b) = rw (a, b) refl
