-- ===== src/Orchestrator/Runs.antt =====
-- The operations on active runs (src/orchestrator-state.js): starting, completing, failing,
-- cancelling and reconciling them. `cancels run` says whether the runner's `cancel` returns; where
-- it throws, so does the operation, and the second part of the result is false.
use fizzy_symphony.Base.{
  ℕ, ◌+◌, Bool, true, false, not, ◌&&◌, Option, none, some, List, [], ◌∷◌, String, if◌then◌else◌,
  ltb, get_or, or_else, same_text,
}
use fizzy_symphony.Fizzy.Card.{Card}
use fizzy_symphony.Orchestrator.Types.{Config, RunInput, Run, Failure, Cancellation, State, Problem}
use fizzy_symphony.Orchestrator.Defs.{
  push_trim, get_run, delete_run, set_run, normalize_run, schedule_renewal, schedule_stall,
  retry_backoff, schedule_retry, cancellation_reason,
}

unfoldable pub start_run : Config → ℕ → RunInput → State → State × Run
unfolding normalize_run schedule_renewal schedule_stall
start_run config now input s =
    let run =
      schedule_stall config now (schedule_renewal config now (normalize_run input config now)) in
    (record s { active_runs = set_run run s.active_runs }, run)

unfoldable pub normalize_error : Problem → Problem
normalize_error e = record e { code = some (get_or e.code "ERROR") }

-- The argument `details` of `recordFailure`.
pub record FailureDetails : Type 0 where
  pub retryable : Bool
  pub reason : Option String
  pub failure_kind : Option String

-- `details.retryable && (run.attempt_number ?? 1) < 3`.
abbrev pub may_retry : Run → FailureDetails → Bool
may_retry run details = details.retryable && ltb run.attempt_number 3

unfoldable pub failure_of : Config → ℕ → Run → Problem → FailureDetails → Failure
unfolding normalize_error retry_backoff
failure_of config now run error details =
    let again = may_retry run details in
    record {
      run_id = run.run_id;
      attempt_id = run.attempt_id;
      card_id = run.card_id;
      error = normalize_error error;
      failure_kind = details.failure_kind;
      retryable = details.retryable;
      terminal = not again;
      workspace_preserved = true;
      failed_at = now;
      next_retry_at =
          if again then some (now + retry_backoff config (run.attempt_number + 1)) else none;
      retry_exhausted = if again then none else some details.retryable;
    }

fail_run : Config → ℕ → Option Run → Problem → FailureDetails → State → State × Option Failure
unfolding failure_of
fail_run config now none error details s = (s, none)
fail_run config now (some run) error details s =
    let failure = failure_of config now run error details in
    let gone = record s { active_runs = delete_run run.run_id s.active_runs } in
    let reason = get_or (or_else details.reason details.failure_kind) "failed" in
    let queued =
      if may_retry run details then schedule_retry config now run reason gone else gone in
    (record queued { recent_failures = push_trim failure queued.recent_failures }, some failure)

unfoldable pub record_failure :
    Config → ℕ → Option String → Problem → FailureDetails → State → State × Option Failure
unfolding fail_run
record_failure config now id error details s =
    fail_run config now (get_run id s.active_runs) error details s

complete : Option Run → State → State × Option Run
complete none s = (s, none)
complete (some run) s = (record s { active_runs = delete_run run.run_id s.active_runs }, some run)

-- The run that is returned has the status "completed" besides.
unfoldable pub complete_run : Option String → State → State × Option Run
unfolding complete
complete_run id s = complete (get_run id s.active_runs) s

note_activity : ℕ → String → Option Run → State → State
note_activity now activity none s = s
note_activity now activity (some run) s = record s {
  active_runs =
      set_run (record run { last_activity_at = some now; last_activity = some activity })
        s.active_runs;
}

unfoldable pub record_runner_activity : ℕ → Option String → String → State → State
unfolding note_activity
record_runner_activity now id activity s = note_activity now activity (get_run id s.active_runs) s

unfoldable pub cancellation_of : ℕ → Run → String → Cancellation
cancellation_of now run reason = record {
  run_id = run.run_id;
  attempt_id = run.attempt_id;
  card_id = run.card_id;
  reason = reason;
  workspace_preserved = true;
  cancelled_at = now;
}

module _ (config : Config) (now : ℕ) (cancels : Run → Bool) where
  unfoldable pub cancel_run : Run → String → Bool → State → State × Bool
  unfolding cancellation_of
  cancel_run run reason retry s =
      let gone = record s {
        active_runs = delete_run run.run_id s.active_runs;
        cancellations = push_trim (cancellation_of now run reason) s.cancellations;
      } in
      if cancels run
      then (if retry then schedule_retry config now run reason gone else gone, true)
      else (s, false)

  -- `byId.get(run.card_id)`: of two cards with one id the later one counts.
  card_of : Option String → List Card → Option Card
  card_of id [] = none
  card_of id (c ∷ cards) = or_else (card_of id cards) (if same_text c.id id then some c else none)

  -- Why the loop body cancels a run, if it does.
  reason_for : Run → Option Card → Option String
  reason_for run none = none
  reason_for run (some card) = cancellation_reason run card

  unfoldable pub leaves : List Card → Run → Option String
  unfolding card_of reason_for
  leaves cards run = reason_for run (card_of run.card_id cards)

  visit : Option String → Run → State → State × Bool
  visit none run s = (s, true)
  visit (some reason) run s = cancel_run run reason false s

  -- The loop over a copy of the active runs; an exception ends it.
  unfoldable pub reconcile_runs : List Card → List Run → State → State × Bool
  unfolding visit
  reconcile_runs cards [] s = (s, true)
  reconcile_runs cards (run ∷ runs) s =
      let (s', returned) = visit (leaves cards run) run s in
      let rest = reconcile_runs cards runs s' in if returned then rest else (s', false)

  unfoldable pub reconcile_active_cards : List Card → State → State × Bool
  unfolding reconcile_runs
  reconcile_active_cards cards s = reconcile_runs cards s.active_runs s

  stall : Option Run → Option String → State → State × Bool
  stall none attempt_id s = (s, true)
  stall (some run) attempt_id s =
      let noted = record s {
        stalled_runs =
            push_trim
              (record {
                run_id = run.run_id;
                attempt_id = run.attempt_id;
                stalled_at = now;
                workspace_preserved = true;
              })
              s.stalled_runs;
      } in
      if same_text run.attempt_id attempt_id then cancel_run run "stalled" true noted else (s, true)

  -- The stall timer that was set for a run and an attempt fires.
  unfoldable pub stall_fires : Option String → Option String → State → State × Bool
  unfolding stall
  stall_fires run_id attempt_id s = stall (get_run run_id s.active_runs) attempt_id s
