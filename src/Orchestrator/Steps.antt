-- ===== src/Orchestrator/Steps.antt =====
-- Every operation of src/orchestrator-state.js and every timer that it sets, as one step function:
-- what the daemon may do to the state, in any order, at any time and with any answers.
use fizzy_symphony.Base.{ℕ, Bool, Option, List, [], ◌∷◌, String}
use fizzy_symphony.Fizzy.Card.{Card}
use fizzy_symphony.Orchestrator.Types.{Config, RunInput, Run, RenewalAnswer, State, Problem}
use fizzy_symphony.Orchestrator.Runs.{
  FailureDetails, start_run, record_failure, complete_run, record_runner_activity, cancel_run,
  reconcile_active_cards, stall_fires,
}
use fizzy_symphony.Orchestrator.Renewals.{renew_claim_now, renewal_fires}
use fizzy_symphony.Orchestrator.Retries.{RetryKey, ready_retries, consume_retry, retry_fires}

pub data Event : Type 0 where
  starts : RunInput → Event
  fails : Option String → Problem → FailureDetails → Event
  completes : Option String → Event
  acts : Option String → String → Event
  renews : Option String → RenewalAnswer → Event
  cancels : Run → String → Bool → Event
  reconciles : List Card → Event
  asks_ready : Event
  consumes : RetryKey → (run_id attempt_id : Option String) → Event
  stall_timer : (run_id attempt_id : Option String) → Event
  renewal_timer : (run_id attempt_id : Option String) → RenewalAnswer → Event
  retry_timer : RetryKey → Event

-- `works run` says whether the runner's `cancel` returns.
unfoldable pub step : Config → ℕ → (Run → Bool) → Event → State → State
step config now works (starts input) s = (start_run config now input s).0
step config now works (fails id error details) s = (record_failure config now id error details s).0
step config now works (completes id) s = (complete_run id s).0
step config now works (acts id activity) s = record_runner_activity now id activity s
step config now works (renews id answer) s = (renew_claim_now config now works id answer s).0
step config now works (cancels run reason retry) s =
    (cancel_run config now works run reason retry s).0
step config now works (reconciles cards) s = (reconcile_active_cards config now works cards s).0
step config now works asks_ready s = (ready_retries now s).0
step config now works (consumes k run_id attempt_id) s = (consume_retry now k run_id attempt_id s).0
step config now works (stall_timer run_id attempt_id) s =
    (stall_fires config now works run_id attempt_id s).0
step config now works (renewal_timer run_id attempt_id answer) s =
    (renewal_fires config now works run_id attempt_id answer s).0
step config now works (retry_timer k) s = retry_fires k s

-- An event with the time and the runner's behaviour at which it happens.
pub record Moment : Type 0 where
  pub now : ℕ
  pub works : Run → Bool
  pub event : Event

unfoldable pub run_all : Config → List Moment → State → State
run_all config [] s = s
run_all config (m ∷ ms) s = run_all config ms (step config m.now m.works m.event s)
