-- ===== src/Runs/Sessions.antt =====
-- Stopping the runner's session at the end of a run (src/reconciler.js finalizeRunnerSession). Its
-- calls do not throw: an exception of the runner is the state "failed".
use fizzy_symphony.Base.{
  Bool, true, false, not, ◌&&◌, Option, none, some, if◌then◌else◌, is_true, is_false, same_text,
}
use fizzy_symphony.Orchestrator.Types.{Problem}
use fizzy_symphony.Runs.Types.{
  StopAnswer, Session, Outside, Job, World, stops_session, terminates_process,
}
use fizzy_symphony.Runs.Exec.{Exec, pure, attempt, gets, ask, ◌>>=◌, push, wait}
use fizzy_symphony.Runs.Triples.{
  Triple, Triple-pure, Triple-gets, Triple-ask, Triple-if, Triple-attempt, Triple-bind,
}

pub data StopState : Type 0 where
  skipped timed_out succeeded failed : StopState

pub record Finalization : Type 0 where
  pub session_stopped : StopState
  pub process_terminated : StopState
  pub manual_intervention_required : Bool

unfoldable pub stop_state : StopAnswer → StopState
stop_state a =
    if a.timeout
    then timed_out
    else if not (is_false a.success) && not (same_text a.status (some "failed"))
    then succeeded
    else failed

-- The same without a timeout.
unfoldable pub terminate_state : StopAnswer → StopState
terminate_state a =
    if not (is_false a.success) && not (same_text a.status (some "failed"))
    then succeeded
    else failed

abbrev pub has_succeeded : StopState → Bool
has_succeeded succeeded = true
has_succeeded _ = false

unfoldable pub give_up : Problem → Exec StopState
unfolding pure
give_up e = pure failed

module _ (o : Outside) (job : Job) where
  -- For a run that has a session.
  unfoldable pub stop_runner_session : Exec StopState
  stop_runner_session =
      if job.can_stop
      then attempt (ask o stops_session (λ l. stop_state (o.stopped l))) give_up
      else pure skipped

  unfoldable pub terminate_owned_runner_process : Exec StopState
  terminate_owned_runner_process =
      if job.can_terminate
      then attempt (ask o terminates_process (λ l. terminate_state (o.terminated l))) give_up
      else pure skipped

  abbrev finalization : StopState → StopState → Bool → Finalization
  finalization stopped terminated manual = record {
    session_stopped = stopped;
    process_terminated = terminated;
    manual_intervention_required = manual;
  }

  unfoldable pub after_stop : Session → StopState → Exec Finalization
  after_stop session stopped =
      if has_succeeded stopped
      then pure (finalization stopped skipped false)
      else if is_true session.process_owned
      then (do
        t ← terminate_owned_runner_process
        pure (finalization stopped t (not (has_succeeded t))))
      else pure (finalization stopped skipped true)

  unfoldable pub finalize : Option Session → Exec Finalization
  finalize none = pure (finalization skipped skipped false)
  finalize (some session) = do stopped ← stop_runner_session; after_stop session stopped

  unfoldable pub finalize_runner_session : Exec Finalization
  finalize_runner_session = do session ← gets (λ w. w.session); finalize session

  -- It keeps what its two calls keep, and does not throw.
  module _ (P E : World → Type 0)
      (stops : (b : Bool) (w : World) → P w → P (push stops_session b (wait o w)))
      (terminates : (b : Bool) (w : World) → P w → P (push terminates_process b (wait o w))) where
    pub stop_runner_session-keeps : Triple P stop_runner_session (λ _. P) E
    unfolding stop_runner_session give_up
    stop_runner_session-keeps =
        Triple-if job.can_stop _ _
          (λ _.
            Triple-attempt {T = P} _ give_up
              (Triple-ask o stops_session _ (stops true) (stops false))
              (λ e. Triple-pure failed (λ w p. p)))
          (λ _. Triple-pure skipped (λ w p. p))

    pub terminate_owned_runner_process-keeps : Triple P terminate_owned_runner_process (λ _. P) E
    unfolding terminate_owned_runner_process give_up
    terminate_owned_runner_process-keeps =
        Triple-if job.can_terminate _ _
          (λ _.
            Triple-attempt {T = P} _ give_up
              (Triple-ask o terminates_process _ (terminates true) (terminates false))
              (λ e. Triple-pure failed (λ w p. p)))
          (λ _. Triple-pure skipped (λ w p. p))

    after_stop-keeps : (s : Session) (t : StopState) → Triple P (after_stop s t) (λ _. P) E
    unfolding after_stop
    after_stop-keeps s t =
        Triple-if (has_succeeded t) _ _ (λ _. Triple-pure _ (λ w p. p))
          (λ _.
            Triple-if (is_true s.process_owned) _ _
              (λ _.
                Triple-bind {Q = λ _. P} _ _ terminate_owned_runner_process-keeps
                  (λ u. Triple-pure _ (λ w p. p)))
              (λ _. Triple-pure _ (λ w p. p)))

    finalize-keeps : (s : Option Session) → Triple P (finalize s) (λ _. P) E
    unfolding finalize
    finalize-keeps none = Triple-pure _ (λ w p. p)
    finalize-keeps (some s) =
        Triple-bind {Q = λ _. P} _ _ stop_runner_session-keeps (after_stop-keeps s)

    pub finalize_runner_session-keeps : Triple P finalize_runner_session (λ _. P) E
    unfolding finalize_runner_session
    finalize_runner_session-keeps =
        Triple-bind {Q = λ _. P} _ _ (Triple-gets _ (λ w p. p)) finalize-keeps
