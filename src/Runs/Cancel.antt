-- ===== src/Runs/Cancel.antt =====
-- cancelStatusRun of src/reconciler.js: a run that the status holds as active is cancelled or
-- preempted. Its calls but the last ones do not throw: what they throw is a state "failed".
use fizzy_symphony.Base.{
  Bool, true, false, not, ◌&&◌, ◌||◌, Option, none, some, if◌then◌else◌, is_false, same_text,
}
use fizzy_symphony.Cleanup.Eligibility.{ClaimRelease}
use fizzy_symphony.Runs.Types.{
  AttemptStatus, StopAnswer, Session, Outside, Job, cancels_turn, cancels_claim,
  preserves_workspace, posts_cancellation, records_attempt,
}
use fizzy_symphony.Runs.Exec.{Exec, pure, attempt, ask, call, ◌>>=◌, ◌>>◌}
use fizzy_symphony.Runs.Sessions.{
  StopState, has_succeeded, stop_runner_session, terminate_owned_runner_process,
}

-- What is known of the run: its session, its turn, and whether the runner can cancel a turn.
pub record ActiveRun : Type 0 where
  pub session : Option Session
  pub has_turn : Bool
  pub can_cancel : Bool
  pub is_preempted : Bool  -- the final status is "preempted", or else "cancelled"

pub record Cancellation : Type 0 where
  pub runner_cancel_sent : StopState
  pub session_stopped : StopState
  pub process_terminated : StopState
  pub claim_cancelled : Bool
  pub workspace_preserved : Bool
  pub manual_intervention_required : Bool

abbrev pub is_timeout : StopState → Bool
is_timeout StopState.timed_out = true
is_timeout _ = false

abbrev pub is_failed : StopState → Bool
is_failed StopState.failed = true
is_failed _ = false

unfoldable pub cancel_state : StopAnswer → StopState
cancel_state a =
    if a.timeout
    then StopState.timed_out
    else if not (is_false a.success)
        && (not (same_text a.status (some "failed")) && not (same_text a.status (some "timeout")))
    then StopState.succeeded
    else StopState.failed

unfoldable pub is_claim_cancelled : Option ClaimRelease → Bool
is_claim_cancelled none = true
is_claim_cancelled (some r) = not (is_false r.released || same_text r.status (some "failed"))

-- The session's process is the daemon's: it says so, or says nothing and the cancel has failed.
unfoldable pub owns_process : Session → (cancel : StopState) → Bool
owns_process s cancel = owned s.process_owned
  where
    owned : Option Bool → Bool
    owned none = is_failed cancel
    owned (some b) = b

-- How the session ended; the last part says whether the run is left to a person.
pub record SessionEnd : Type 0 where
  pub stopped : StopState
  pub terminated : StopState
  pub manual : Bool

-- The last assignment of `manual_intervention_required`.
unfoldable pub needs_person : SessionEnd → StopState → Bool → Bool → Bool
needs_person e cancel claim preserved =
    e.manual
    || not preserved
    || is_timeout cancel
    || not claim
    || (is_failed e.stopped && not (has_succeeded e.terminated))

module _ (o : Outside) (job : Job) (run : ActiveRun) where
  unfoldable pub cancel_runner_turn : Exec StopState
  cancel_runner_turn =
      if run.can_cancel && run.has_turn
      then attempt (ask o cancels_turn (λ l. cancel_state (o.turn_cancelled l)))
          (λ e. pure StopState.failed)
      else pure StopState.skipped

  unfoldable pub end_unstopped : Session → (cancel stopped : StopState) → Exec SessionEnd
  end_unstopped s cancel stopped =
      if has_succeeded stopped
      then pure (record { stopped = stopped; terminated = StopState.skipped; manual = false })
      else if owns_process s cancel
      then (do
        t ← terminate_owned_runner_process o job
        pure (record { stopped = stopped; terminated = t; manual = false }))
      else pure (record { stopped = stopped; terminated = StopState.skipped; manual = true })

  unfoldable pub end_session : Option Session → (cancel : StopState) → Exec SessionEnd
  end_session none cancel =
      pure (record { stopped = StopState.skipped; terminated = StopState.skipped; manual = false })
  end_session (some s) cancel = do
    stopped ← stop_runner_session o job
    end_unstopped s cancel stopped

  unfoldable pub cancel_claim : Exec Bool
  cancel_claim =
      attempt (ask o cancels_claim (λ l. is_claim_cancelled (o.released l))) (λ e. pure false)

  unfoldable pub preserve_workspace : Exec Bool
  preserve_workspace = attempt (ask o preserves_workspace (λ l. true)) (λ e. pure false)

  -- The cancellation's record, before it is told.
  unfoldable pub cancel_parts : Exec Cancellation
  cancel_parts = do
    cancel ← cancel_runner_turn
    session ← end_session run.session cancel
    claim ← cancel_claim
    preserved ← preserve_workspace
    pure (record {
      runner_cancel_sent = cancel;
      session_stopped = session.stopped;
      process_terminated = session.terminated;
      claim_cancelled = claim;
      workspace_preserved = preserved;
      manual_intervention_required = needs_person session cancel claim preserved;
    })

  unfoldable pub cancel_status_run : Exec Cancellation
  cancel_status_run = do
    cancellation ← cancel_parts
    call o posts_cancellation
    call o (
        records_attempt
          (if run.is_preempted then AttemptStatus.preempted else AttemptStatus.cancelled))
    pure cancellation
