-- ===== src/Runs/Turns.antt =====
-- The turns of a run on one thread (src/reconciler.js runSameThreadTurns). The turn number is told
-- by the turns that are left; an undefined result is `none`.
use Prim.Native.String as String
use fizzy_symphony.Base.{
  ℕ, zero, suc, Bool, true, false, not, ◌||◌, Option, none, some, List, [], ◌∷◌, String,
  if◌then◌else◌, is_some, is_true, same_text, truthy, get_or, or_else, leb,
}
use fizzy_symphony.Cleanup.Eligibility.{Handoff}
use fizzy_symphony.Orchestrator.Types.{Problem, RunInput, RunWorkspace, State}
use fizzy_symphony.Orchestrator.Runs.{start_run, record_runner_activity}
use fizzy_symphony.Cleanup.Eligibility.{Workspace}
use fizzy_symphony.Runs.Types.{
  TurnResult, Outside, Job, starts_turn, streams_turn, records_attempt, running,
}
use fizzy_symphony.Runs.Exec.{Exec, pure, raise, modify, ask, call, ◌>>=◌, ◌>>◌}

abbrev pub no_handoff : Handoff
no_handoff = record {
  no_code_change = none;
  branch_name = none;
  commit_sha = none;
  pr_url = none;
  pull_request_url = none;
}

-- `{ status: "completed" }`.
abbrev pub bare_completed : TurnResult
bare_completed = record {
  status = some "completed";
  error = none;
  continue = none;
  continue_requested = none;
  next_prompt = none;
  continuation_prompt = none;
  followup_prompt = none;
  handoff = no_handoff;
}

unfoldable pub runner_requested_continuation : TurnResult → Bool
runner_requested_continuation r =
    is_true r.continue
    || is_true r.continue_requested
    || is_some r.next_prompt
    || is_some r.continuation_prompt
    || is_some r.followup_prompt

unfoldable pub continuation_prompt : TurnResult → Option String
continuation_prompt r = or_else r.next_prompt (or_else r.continuation_prompt r.followup_prompt)

abbrev pub runner_continuation_failure : Problem
runner_continuation_failure = record {
  code = some "RUNNER_CONTINUATION_PROMPT_MISSING";
  message = "Runner requested same-thread continuation without a continuation prompt.";
}

abbrev pub runner_max_turns_reached : Problem
runner_max_turns_reached = record {
  code = some "RUNNER_MAX_TURNS_REACHED";
  message = "Runner requested same-thread continuation after agent.max_turns was reached.";
}

-- The fields of the aggregated result, but for the list of the turns' results.
unfoldable pub aggregate_turn_results : Option TurnResult → TurnResult
aggregate_turn_results last = get_or last bare_completed

unfoldable pub max_turns_of : Option ℕ → ℕ
max_turns_of none = 1
max_turns_of (some zero) = 1
max_turns_of (some (suc n)) = suc n

unfoldable pub run_id_of : Job → Option String
run_id_of job = some (get_or job.claim.run_id (String.◌++◌ "run_" (get_or job.card.id "undefined")))

unfoldable pub turn_input : Job → Option Workspace → RunInput
turn_input job workspace = record {
  run_id = run_id_of job;
  id = none;
  attempt_id = job.claim.attempt_id;
  attempt_number = some (get_or job.attempt_number 1);
  card_id = none;
  card_number = none;
  board_id = none;
  route_id = none;
  route_fingerprint = none;
  claim_id = none;
  workspace_key = none;
  workspace_path = none;
  started_at = none;
  card = some job.card;
  route = some job.route;
  claim = some job.claim;
  workspace = workspace_entry workspace;
}
  where
    workspace_entry : Option Workspace → Option RunWorkspace
    workspace_entry none = none
    workspace_entry (some w) = some (record { key = none; path = w.path })

unfoldable pub record_activities : ℕ → Option String → List String → State → State
unfolding record_runner_activity
record_activities now id [] s = s
record_activities now id (a ∷ rest) s =
    record_activities now id rest (record_runner_activity now id a s)

-- Whether a turn's result ends the loop: it is not "completed", or asks for no more.
unfoldable pub is_last : Option TurnResult → Bool
unfolding runner_requested_continuation
is_last none = true
is_last (some r) =
    not (same_text r.status (some "completed")) || not (runner_requested_continuation r)

module _ (o : Outside) (job : Job) where
  unfoldable pub tell_started : Exec (Unit {0})
  tell_started = modify λ w. record w {
    orchestrator =
        (start_run job.config (o.clock w.log) (turn_input job w.workspace) w.orchestrator).0;
  }

  -- The events of the stream, which come while it is awaited.
  unfoldable pub tell_activities : Exec (Unit {0})
  tell_activities = modify λ w. record w {
    orchestrator =
        record_activities (o.clock w.log) (run_id_of job) (o.activities w.log) w.orchestrator;
  }

  unfoldable pub one_turn : ℕ → String → Exec (Option TurnResult)
  one_turn n prompt = do
    call o (starts_turn n prompt)
    call o (records_attempt running)
    tell_started
    tell_activities
    ask o (streams_turn n) o.streamed

  -- What follows a turn that asks for another one, by the prompt that it gives: `again` is the rest
  -- of the loop.
  unfoldable pub after_turn :
      (last : Bool)
      → (final : Bool) → Option TurnResult
      → (String → Exec TurnResult)
      → Exec TurnResult
  after_turn true final r again = pure (aggregate_turn_results r)
  after_turn false true r again = raise runner_max_turns_reached
  after_turn false false none again = raise runner_continuation_failure
  after_turn false false (some r) again =
      let prompt = continuation_prompt r in
      if truthy prompt then again (get_or prompt "") else raise runner_continuation_failure

  -- The loop from the turn `n`, with `left` turns left; it does not end by its condition.
  unfoldable pub turns_from : (left n : ℕ) → String → Exec TurnResult
  turns_from zero n prompt = pure (aggregate_turn_results none)
  turns_from (suc left) n prompt = do
    r ← one_turn n prompt
    after_turn (is_last r) (leb left 0) r (turns_from left (suc n))

  unfoldable pub run_same_thread_turns : String → Exec TurnResult
  run_same_thread_turns prompt = turns_from (max_turns_of job.max_turns) 1 prompt
