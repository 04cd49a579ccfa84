-- ===== src/Tests/Runs.antt =====
-- Runs of a card at concrete answers of the outside.
use fizzy_symphony.Base.{
  ◌≡◌, ◌≤◌, is_some, refl, Bool, true, false, Option, none, some, [], ◌∷◌, Result, ok,
  if◌then◌else◌,
}
use fizzy_symphony.Fizzy.Card.{no_card}
use fizzy_symphony.Orchestrator.Types.{Config, Problem}
use fizzy_symphony.Orchestrator.Defs.{create_state, get_run, set_run, normalize_run}
use fizzy_symphony.Orchestrator.Runs.{start_run, record_runner_activity}
use fizzy_symphony.Reconciler.Dispatch.{RunStatus}
use fizzy_symphony.Runs.Types.{
  Call, PadPhase, Log, TurnResult, StopAnswer, Job, Outside, World, updates_workpad,
  terminates_process, creates_failure_marker,
}
use fizzy_symphony.Runs.Steps.{StepPolicy}
use fizzy_symphony.Runs.Turns.{no_handoff, bare_completed}
use fizzy_symphony.Runs.Exec.{
  pure, raise, attempt, modify, gets, finish, wait, push, ask, call, set_kind, ◌>>=◌,
}
use fizzy_symphony.Runs.Steps.{required_unchecked_steps, is_enabled}
use fizzy_symphony.Runs.Turns.{
  run_same_thread_turns, turns_from, max_turns_of, one_turn, tell_started, tell_activities,
  after_turn, is_last, runner_requested_continuation, continuation_prompt, aggregate_turn_results,
  record_activities, run_id_of, turn_input,
}
use fizzy_symphony.Runs.Sessions.{
  StopState, finalize_runner_session, finalize, stop_runner_session, after_stop, stop_state,
  terminate_owned_runner_process, terminate_state, give_up,
}
use fizzy_symphony.Runs.Card.{
  run_card, start, run_body, prepare, execute, run_after_run_hook, assert_route_still_current,
  prove_result, is_route_current, settle, apply_policy, after_policy, complete, evidence_of,
  clean_up, tell_completed, on_failure, record_blocking_failure_marker,
  should_record_blocking_failure_marker, report_failure, is_retryable_runner_error, fail_completion,
  kind_name, render_run_prompt,
}
use fizzy_symphony.Cleanup.Policy.{apply_completion_policy}
use fizzy_symphony.Cleanup.Eligibility.{evaluate_cleanup_eligibility}
use fizzy_symphony.Fizzy.Text.{strip_prefix}
use fizzy_symphony.Runs.Protocol.{is_ordered, turns, has_no_marker, did, has_settled, is_release}
use fizzy_symphony.Runs.Outcome.{run_card-is_ordered, run_card_settles}
use fizzy_symphony.Runs.Cancel.{
  ActiveRun, cancel_parts, cancel_runner_turn, cancel_state, end_session, end_unstopped,
  owns_process, cancel_claim, is_claim_cancelled, preserve_workspace, needs_person,
  cancel_status_run,
}
use fizzy_symphony.Runs.Cancelled.{is_seen_to, cancel_status_run_seen}
use fizzy_symphony.Runs.Released.{run_card-gone}

abbrev no_steps : StepPolicy
no_steps = record {
  route_required = none;
  route_blockers = none;
  completion_required = none;
  completion_block_on = none;
  workflow_required = none;
  workflow_block_on = none;
  front_matter_required = none;
  route_unchecked = none;
  completion_unchecked = none;
  workflow_unchecked = none;
  front_matter_unchecked = none;
}

abbrev config : Config
config = record {
  max_retry_backoff_ms = some 3000;
  renew_interval_ms = some 60000;
  stall_timeout_ms = some 300000;
  instance_id = some "box";
}

abbrev job : Job
job = record {
  config = config;
  card = no_card;
  route = record {
    id = some "t1";
    board_id = some "b1";
    fingerprint = some "f1";
    source_column_id = some "todo";
  };
  claim = record {
    claim_id = some "k1";
    id = none;
    run_id = some "r1";
    attempt_id = some "a1";
    route_fingerprint = some "f1";
    expires_at = none;
    lease_expires_at = none;
  };
  attempt_number = some 1;
  decision_prompt = none;
  completion = record { policy = some "comment_once"; target_column_id = none };
  step_policy = no_steps;
  has_identity = true;
  max_turns = some 2;
  cleanup_policy = none;
  can_stop = true;
  can_terminate = true;
  can_clean = true;
}

abbrev stopped : StopAnswer
stopped = record { timeout = false; success = none; status = none }

abbrev lost : Problem
lost = record { code = some "ECONNRESET"; message = "socket hang up" }

-- An outside by the calls that throw and the result of each turn.
abbrev outside : (Call → Bool) → (Log → Option TurnResult) → Outside
outside bad streamed = record {
  throws = λ l c. if bad c then some lost else none;
  meanwhile = λ l s. s;
  clock = λ l. 1000;
  prepared = λ l. record { path = some "/w/c1"; handoff = no_handoff };
  workflow_prompt = λ l. some "Do it.";
  rendered_prompt = λ l. "";
  session = λ l. record { process_owned = some true };
  activities = λ l. "message" ∷ [];
  streamed = streamed;
  hooked = λ l. false;
  refreshed = λ l. record {
    current_route_fingerprint = none;
    route_fingerprint = some "f1";
    inner_route_fingerprint = none;
    steps = [];
  };
  result_comment = λ l. none;
  proof = λ l. record { file = none; digest = none; no_code_change = none; payload = no_handoff };
  client = λ l. record {
    apply_completion_policy = none;
    close_card = none;
    close = none;
    move_card_to_column = none;
    move_card = none;
  };
  completion_marker = λ l. record { id = none; body = none; has_payload = true };
  stopped = λ l. stopped;
  terminated = λ l. stopped;
  turn_cancelled = λ l. stopped;
  released = λ l. none;
  names_path = λ e. false;
  inside = λ a b. false;
}

abbrev nothing_throws : Call → Bool
nothing_throws c = false

-- The last workpad is the one that cannot be written.
abbrev handoff_throws : Call → Bool
handoff_throws (updates_workpad PadPhase.handoff) = true
handoff_throws c = false

abbrev terminate_throws : Call → Bool
terminate_throws terminates_process = true
terminate_throws c = false

abbrev completed_turn : Log → Option TurnResult
completed_turn l = some bare_completed

abbrev more : TurnResult
more = record bare_completed { next_prompt = some "Go on." }

-- The turns always ask for another one.
abbrev insists : Log → Option TurnResult
insists l = some more

abbrev undefined_result : Log → Option TurnResult
undefined_result l = none

abbrev run : (Call → Bool) → (Log → Option TurnResult) → Result Problem RunStatus × World
run bad streamed = run_card (outside bad streamed) job (start create_state)

-- A plain run; a stream that resolves to `undefined`, which counts as completed; a hand-off that
-- cannot be written, after which the completed run is told as failed and its claim is released a
-- second time; and turns that never have enough.
runs :
    ((run nothing_throws completed_turn).0 ≡ ok RunStatus.completed)
    × ((run nothing_throws undefined_result).0 ≡ ok RunStatus.completed)
    × ((run handoff_throws completed_turn).0 ≡ ok RunStatus.failed)
    × (did (is_release true) (run handoff_throws completed_turn).1.log ≡ true)
    × (did (is_release false) (run handoff_throws completed_turn).1.log ≡ true)
    × ((run nothing_throws insists).0 ≡ ok RunStatus.failed)
unfolding pure raise attempt modify gets finish wait push ask call set_kind ◌>>=◌
    required_unchecked_steps is_enabled run_same_thread_turns turns_from max_turns_of one_turn
    tell_started tell_activities after_turn is_last runner_requested_continuation
    continuation_prompt aggregate_turn_results record_activities run_id_of turn_input
    render_run_prompt finalize_runner_session finalize stop_runner_session after_stop stop_state
    terminate_owned_runner_process terminate_state give_up run_card start run_body prepare execute
    run_after_run_hook assert_route_still_current prove_result is_route_current settle apply_policy
    after_policy complete evidence_of clean_up tell_completed on_failure
    record_blocking_failure_marker should_record_blocking_failure_marker report_failure
    is_retryable_runner_error fail_completion kind_name did create_state apply_completion_policy
    evaluate_cleanup_eligibility strip_prefix
runs = (refl, refl, refl, refl, refl, refl)

abbrev marker_throws : Call → Bool
marker_throws creates_failure_marker = true
marker_throws c = false

insists_made : has_no_marker (run nothing_throws insists).1.log ≡ false
unfolding pure raise attempt modify gets finish wait push ask call set_kind ◌>>=◌
    required_unchecked_steps is_enabled run_same_thread_turns turns_from max_turns_of one_turn
    tell_started tell_activities after_turn is_last runner_requested_continuation
    continuation_prompt aggregate_turn_results record_activities run_id_of turn_input
    render_run_prompt finalize_runner_session finalize stop_runner_session after_stop stop_state
    terminate_owned_runner_process terminate_state give_up run_card start run_body prepare execute
    run_after_run_hook assert_route_still_current prove_result is_route_current settle apply_policy
    after_policy complete evidence_of clean_up tell_completed on_failure
    record_blocking_failure_marker should_record_blocking_failure_marker report_failure
    is_retryable_runner_error fail_completion kind_name did has_no_marker get_run create_state
    apply_completion_policy evaluate_cleanup_eligibility strip_prefix
insists_made = refl

-- Where the failure marker cannot be made, the run stays active and its claim is not released.
stays_active :
    (is_some (get_run (run_id_of job) (run marker_throws insists).1.orchestrator.active_runs)
      ≡ true)
    × (did (is_release false) (run marker_throws insists).1.log ≡ false)
unfolding pure raise attempt modify gets finish wait push ask call set_kind ◌>>=◌
    required_unchecked_steps is_enabled run_same_thread_turns turns_from max_turns_of one_turn
    tell_started tell_activities after_turn is_last runner_requested_continuation
    continuation_prompt aggregate_turn_results record_activities run_id_of turn_input
    render_run_prompt finalize_runner_session finalize stop_runner_session after_stop stop_state
    terminate_owned_runner_process terminate_state give_up run_card start run_body prepare execute
    run_after_run_hook assert_route_still_current prove_result is_route_current settle apply_policy
    after_policy complete evidence_of clean_up tell_completed on_failure
    record_blocking_failure_marker should_record_blocking_failure_marker report_failure
    is_retryable_runner_error fail_completion kind_name did has_no_marker get_run create_state
    start_run set_run normalize_run record_runner_activity apply_completion_policy
    evaluate_cleanup_eligibility strip_prefix
stays_active = (refl, refl)

run_card-is_ordered_example :
    (is_ordered
        (max_turns_of job.max_turns)
        (run_card (outside handoff_throws completed_turn) job (start create_state)).1.log
      ≡ true)
    × (turns (run_card (outside handoff_throws completed_turn) job (start create_state)).1.log
        ≤ max_turns_of job.max_turns)
run_card-is_ordered_example =
    run_card-is_ordered (outside handoff_throws completed_turn) job create_state

run_card_settles_example :
    has_settled (run handoff_throws completed_turn).0 (run handoff_throws completed_turn).1.log
    ≡ true
run_card_settles_example = run_card_settles (outside handoff_throws completed_turn) job create_state

run_card-gone_example :
    get_run (run_id_of job) (run nothing_throws insists).1.orchestrator.active_runs ≡ none
unfolding create_state get_run
run_card-gone_example =
    run_card-gone (outside nothing_throws insists) job (λ l s h. h) create_state refl insists_made

-- A stop that times out, and a process that is not to be terminated.
abbrev hung : Outside
hung = record (outside terminate_throws completed_turn) {
  stopped = λ l. record { timeout = true; success = none; status = none };
}

abbrev active : ActiveRun
active = record {
  session = some (record { process_owned = some true });
  has_turn = true;
  can_cancel = true;
  is_preempted = false;
}

-- The session was neither stopped nor its process terminated, and the record calls for no person.
cancels_hung :
    (cancel_parts hung job active (start create_state)).0
    ≡ ok (record {
      runner_cancel_sent = StopState.succeeded;
      session_stopped = StopState.timed_out;
      process_terminated = StopState.failed;
      claim_cancelled = true;
      workspace_preserved = true;
      manual_intervention_required = false;
    })
unfolding pure raise attempt modify gets finish wait push ask call set_kind ◌>>=◌
    stop_runner_session stop_state terminate_owned_runner_process terminate_state give_up start
    create_state cancel_parts cancel_runner_turn cancel_state end_session end_unstopped owns_process
    cancel_claim is_claim_cancelled preserve_workspace needs_person
cancels_hung = refl

cancel_status_run_seen_example :
    is_seen_to
      (cancel_status_run hung job active (start create_state)).0
      (cancel_status_run hung job active (start create_state)).1.log
    ≡ true
cancel_status_run_seen_example = cancel_status_run_seen hung job active (start create_state)
