-- ===== src/Orchestrator/Failures.antt =====
-- What a failed, a stalled and a cancelled run become (src/orchestrator-state.js recordFailure,
-- scheduleStall, cancelRun and scheduleRetry).
use native.Mathlib.Nat.{pow-suc}
use fizzy_symphony.Base.{
  ℕ, suc, ◌+◌, ◌-◌, ◌*◌, ◌≤◌, ◌<◌, min, ◌≡◌, refl, ap, ◌⊎◌, Bool, true, false, Option, none, some,
  List, [], ◌∷◌, String, arith, length, same_text_refl, get_or, or_else, if◌then◌else◌,
}
use fizzy_symphony.Orchestrator.Types.{Config, Run, Retry, State, Problem, Failure}
use fizzy_symphony.Orchestrator.Defs.{
  push_trim, is_run, delete_run, get_run, schedule_retry, new_retry, retry_backoff,
}
use fizzy_symphony.Orchestrator.Logs.{push_trim_bounded}
use fizzy_symphony.Orchestrator.Runs.{
  record_failure, may_retry, FailureDetails, failure_of, stall_fires, cancel_run,
}

pub get_run-delete_run : (id : Option String) (rs : List Run) → get_run id (delete_run id rs) ≡ none
unfolding get_run delete_run
get_run-delete_run id [] = refl
get_run-delete_run id (r ∷ rs) = ground (arith, get_run-delete_run id rs)

-- Deleting a run that was found by an ID deletes that ID.
pub get_run-is_run :
    (id : Option String) (rs : List Run) (run : Run)
    → get_run id rs ≡ some run
    → is_run id run ≡ true
unfolding get_run
get_run-is_run id [] run h = cc
get_run-is_run id (r ∷ rs) run h = ground (arith, get_run-is_run id rs run)

-- The delays: 1000 ms before the second attempt, twice the last delay before each later one, and
-- never more than the configured maximum.
pub retry_backoff_doubles :
    (config : Config) (cap n : ℕ)
    → config.max_retry_backoff_ms ≡ some cap
    → (retry_backoff config 2 ≡ min 1000 cap)
      × (retry_backoff config (n + 3) ≡ min (2 * retry_backoff config (n + 2)) cap)
unfolding retry_backoff
retry_backoff_doubles config cap n h =
    let a : n + 3 - 2 ≡ suc n = omega arith in
    let b : n + 2 - 2 ≡ n = omega arith in rw h (omega arith, rw (a, b, pow-suc) (omega arith))

-- A retryable failure of an active run before its third attempt: the run is active no longer, the
-- failure is not terminal and names the time of the next attempt, and a retry with the next
-- attempt number is put at the end of the queue, due at that time, to reuse the workspace.
pub record_failure_retries :
    (config : Config) (now : ℕ) (id : Option String) (e : Problem) (d : FailureDetails) (s : State)
    (run : Run)
    → get_run id s.active_runs ≡ some run
    → d.retryable ≡ true
    → run.attempt_number < 3
    → (retry : Retry) × (failure : Failure) × (get_run run.run_id
          (record_failure config now id e d s).0.active_runs
        ≡ none)
      × ((record_failure config now id e d s).0.retry_queue ≡ push_trim retry s.retry_queue)
      × ((record_failure config now id e d s).1 ≡ some failure)
      × (retry.run_id ≡ run.run_id)
      × (retry.attempt_number ≡ run.attempt_number + 1)
      × (retry.next_retry_at ≡ now + retry_backoff config (run.attempt_number + 1))
      × (retry.reuse_dirty_workspace ≡ true)
      × (failure.terminal ≡ false)
      × (failure.next_retry_at ≡ some retry.next_retry_at)
unfolding record_failure schedule_retry
record_failure_retries config now id e d s run found again few =
    let test : may_retry run d ≡ true = ground arith in
    rw found (
      new_retry config now run (get_or (or_else d.reason d.failure_kind) "failed"),
      failure_of config now run e d,
      rw test (get_run-delete_run run.run_id s.active_runs),
      rw test,
      refl,
      refl,
      refl,
      refl,
      refl,
      rw test,
      rw test,
    )

-- A failure that is not retryable, or of the third or a later attempt: the run is active no longer,
-- the retry queue is left alone, and the failure that is logged last is terminal, has no next
-- attempt, and counts as exhausted exactly if it was retryable.
pub record_failure_terminal :
    (config : Config) (now : ℕ) (id : Option String) (e : Problem) (d : FailureDetails) (s : State)
    (run : Run)
    → get_run id s.active_runs ≡ some run
    → (d.retryable ≡ false) ⊎ (3 ≤ run.attempt_number)
    → (failure : Failure) × (get_run run.run_id (record_failure config now id e d s).0.active_runs
        ≡ none)
      × ((record_failure config now id e d s).0.retry_queue ≡ s.retry_queue)
      × ((record_failure config now id e d s).0.recent_failures
          ≡ push_trim failure s.recent_failures)
      × (failure.terminal ≡ true)
      × (failure.next_retry_at ≡ none)
      × (failure.retry_exhausted ≡ some d.retryable)
unfolding record_failure
record_failure_terminal config now id e d s run found last =
    let test : may_retry run d ≡ false = ground arith in
    rw found (
      failure_of config now run e d,
      rw test (get_run-delete_run run.run_id s.active_runs),
      rw test,
      left test,
      rw test,
      rw test,
      rw test,
    )
  where
    left :
        may_retry run d ≡ false
        → push_trim
            (failure_of config now run e d)
            (if may_retry run d
              then schedule_retry config now run
                  (get_or (or_else d.reason d.failure_kind) "failed")
                  (record s { active_runs = delete_run run.run_id s.active_runs })
              else record s { active_runs = delete_run run.run_id s.active_runs }).recent_failures
          ≡ push_trim (failure_of config now run e d) s.recent_failures
    left test = ap (push_trim (failure_of config now run e d)) (ground arith)

-- A stall timer that fires for the attempt that is still active, with a runner whose `cancel`
-- returns, puts a retry with the next attempt number in the queue whatever that number is: the
-- limit of three attempts for failures does not hold for stalls.
pub stall_fires_retries :
    (config : Config) (now : ℕ) (works : Run → Bool) (s : State) (run : Run)
    → get_run run.run_id s.active_runs ≡ some run
    → works run ≡ true
    → let t = (stall_fires config now works run.run_id run.attempt_id s).0 in
      (get_run run.run_id t.active_runs ≡ none)
      × (t.retry_queue ≡ push_trim (new_retry config now run "stalled") s.retry_queue)
      × (length t.stalled_runs ≤ 50)
unfolding stall_fires cancel_run schedule_retry
stall_fires_retries config now works s run found ok = rw found (
    rw (same_text_refl run.attempt_id, ok)
      (get_run-delete_run run.run_id s.active_runs, refl, push_trim_bounded _ s.stalled_runs))
