-- ===== src/Tests/Orchestrator.antt =====
-- Runs, failures and retries at concrete inputs.
use fizzy_symphony.Base.{
  ◌≡◌, refl, ◌≤◌, ◌+◌, Bool, true, false, none, some, List, [], ◌∷◌, ◌++◌, length, filter, is_some,
  arith, inl,
}
use fizzy_symphony.Fizzy.Card.{Card, no_card}
use fizzy_symphony.Orchestrator.Types.{
  Config, RunInput, Run, Problem, Failure, Retry, Cancellation, State,
}
use fizzy_symphony.Orchestrator.Defs.{
  create_state, get_run, set_run, push_trim, retry_backoff, new_retry, delete_run,
  cancellation_reason,
}
use fizzy_symphony.Orchestrator.Runs.{
  FailureDetails, start_run, record_failure, stall_fires, reconcile_active_cards, leaves,
  cancel_run,
}
use fizzy_symphony.Orchestrator.Retries.{RetryKey, consume_retry, retry_fires, is_replaced}
use fizzy_symphony.Orchestrator.Steps.{starts, fails, asks_ready, Moment, run_all}
use fizzy_symphony.Orchestrator.Logs.{IsBounded, create_state-run_all-IsBounded}
use fizzy_symphony.Orchestrator.Failures.{
  record_failure_retries, record_failure_terminal, stall_fires_retries,
}
use fizzy_symphony.Orchestrator.Reconcile.{stays, reconcile_active_cards_lem}
use fizzy_symphony.Orchestrator.RetryLaws.{consume_retry_once, retry_fires_revives, sweeps}
use fizzy_symphony.Reconciler.Lifecycle.{
  empty_reconciliation, reconcile_lifecycle, reconcile_lifecycle_full,
}

abbrev config : Config
config = record {
  max_retry_backoff_ms = some 3000;
  renew_interval_ms = some 60000;
  stall_timeout_ms = some 300000;
  instance_id = some "box";
}

abbrev input : RunInput
input = record {
  run_id = some "r1";
  id = none;
  attempt_id = some "a1";
  attempt_number = some 1;
  card_id = some "c1";
  card_number = some 4;
  board_id = some "b1";
  route_id = none;
  route_fingerprint = none;
  claim_id = none;
  workspace_key = none;
  workspace_path = none;
  started_at = none;
  card = none;
  route = none;
  claim = none;
  workspace = none;
}

abbrev broken : Problem
broken = record { code = none; message = "exit 1" }

abbrev details : Bool → FailureDetails
details again = record { retryable = again; reason = none; failure_kind = some "runner" }

abbrev works : Run → Bool
works run = true

abbrev history : List Moment
history =
    record { now = 5; works = works; event = starts input }
    ∷ record { now = 9; works = works; event = fails (some "r1") broken (details true) }
    ∷ record { now = 1009; works = works; event = asks_ready }
    ∷ []

create_state-run_all-IsBounded_example : IsBounded (run_all config history create_state)
create_state-run_all-IsBounded_example = create_state-run_all-IsBounded config history

abbrev active : Run
active = record {
  run_id = some "r1";
  attempt_id = some "a1";
  attempt_number = 1;
  card_id = some "c1";
  card_number = some 4;
  board_id = some "b1";
  route_id = none;
  route_fingerprint = none;
  claim_id = none;
  workspace_key = none;
  workspace_path = none;
  workspace_preserved = true;
  started_at = 5;
  instance_id = some "box";
  card = none;
  route = none;
  claim = none;
  workspace = none;
  last_activity_at = none;
  last_activity = none;
  renewal_timer = some 60005;
  stall_timer = some 300005;
}

-- What starting the run gives.
abbrev one_run : State
one_run = record {
  active_runs = active ∷ [];
  retry_queue = [];
  recent_failures = [];
  claim_renewals = [];
  stalled_runs = [];
  cancellations = [];
}

start_run_test : (start_run config 5 input create_state).0 ≡ one_run
unfolding start_run create_state set_run
start_run_test = refl

get_active : get_run (some "r1") (active ∷ []) ≡ some active
unfolding get_run
get_active = refl

record_failure_retries_example :
    (retry : Retry) × (failure : Failure) × (get_run
        (some "r1")
        (record_failure config 9 (some "r1") broken (details true) one_run).0.active_runs
      ≡ none)
    × ((record_failure config 9 (some "r1") broken (details true) one_run).0.retry_queue
        ≡ push_trim retry [])
    × ((record_failure config 9 (some "r1") broken (details true) one_run).1 ≡ some failure)
    × (retry.run_id ≡ some "r1")
    × (retry.attempt_number ≡ 2)
    × (retry.next_retry_at ≡ 9 + retry_backoff config 2)
    × (retry.reuse_dirty_workspace ≡ true)
    × (failure.terminal ≡ false)
    × (failure.next_retry_at ≡ some retry.next_retry_at)
record_failure_retries_example =
    record_failure_retries config 9 (some "r1") broken (details true) one_run active get_active refl
      (omega arith)

record_failure_terminal_example :
    (failure : Failure) × (get_run
        (some "r1")
        (record_failure config 9 (some "r1") broken (details false) one_run).0.active_runs
      ≡ none)
    × ((record_failure config 9 (some "r1") broken (details false) one_run).0.retry_queue ≡ [])
    × ((record_failure config 9 (some "r1") broken (details false) one_run).0.recent_failures
        ≡ push_trim failure [])
    × (failure.terminal ≡ true)
    × (failure.next_retry_at ≡ none)
    × (failure.retry_exhausted ≡ some false)
record_failure_terminal_example =
    record_failure_terminal config 9 (some "r1") broken (details false) one_run active get_active
      (inl refl)

stall_fires_retries_example :
    let t = (stall_fires config 300005 works (some "r1") (some "a1") one_run).0 in
    (get_run (some "r1") t.active_runs ≡ none)
    × (t.retry_queue ≡ push_trim (new_retry config 300005 active "stalled") [])
    × (length t.stalled_runs ≤ 50)
stall_fires_retries_example = stall_fires_retries config 300005 works one_run active get_active refl

abbrev closed_card : Card
closed_card = record no_card { id = some "c1"; closed = some true }

one_run-IsBounded : IsBounded one_run
one_run-IsBounded = record {
  retries = omega arith;
  failures = omega arith;
  renewals = omega arith;
  stalls = omega arith;
  cancelled = omega arith;
  distinct = (tt, tt);
}

reconcile_active_cards_lem_example :
    (reconcile_active_cards config 9 works (closed_card ∷ []) one_run).0.active_runs
    ≡ filter (stays config 9 works (closed_card ∷ [])) (active ∷ [])
reconcile_active_cards_lem_example =
    reconcile_active_cards_lem config 9 works (closed_card ∷ []) one_run (λ run. refl)
      one_run-IsBounded

abbrev waiting : Retry
waiting = new_retry config 9 active "failed"

abbrev one_retry : State
one_retry = record one_run { active_runs = []; retry_queue = waiting ∷ [] }

abbrev key : RetryKey
key = record { run_id = some "r1"; attempt_id = some "a1"; attempt_number = 2 }

consume_retry_once_example :
    (consume_retry 2001 key
      (some "r3")
      none
      (sweeps (2000 ∷ []) (consume_retry 2000 key (some "r2") none one_retry).0)).1
    ≡ none
unfolding consume_retry new_retry
consume_retry_once_example =
    consume_retry_once 2000 2001 key (some "r2") none (some "r3") none (2000 ∷ []) one_retry _ refl

retry_fires_revives_example :
    is_some
      (consume_retry 2001 key
        (some "r3")
        none
        (retry_fires key (consume_retry 2000 key (some "r2") none one_retry).0)).1
    ≡ true
unfolding new_retry is_replaced
retry_fires_revives_example =
    retry_fires_revives 2000 2001 key (some "r2") none (some "r3") none one_retry waiting refl refl
      refl

abbrev cancelled : Cancellation
cancelled = record {
  run_id = some "r0";
  attempt_id = some "a0";
  card_id = some "c0";
  reason = "card_closed";
  workspace_preserved = true;
  cancelled_at = 3;
}

abbrev ten : List Cancellation
ten =
    cancelled ∷ cancelled ∷ cancelled ∷ cancelled ∷ cancelled ∷ cancelled ∷ cancelled ∷ cancelled
    ∷ cancelled ∷ cancelled ∷ []

abbrev full : State
full = record one_run { cancellations = ten ++ ten ++ ten ++ ten ++ ten }

full-IsBounded : IsBounded full
full-IsBounded = record {
  retries = omega arith;
  failures = omega arith;
  renewals = omega arith;
  stalls = omega arith;
  cancelled = omega arith;
  distinct = (tt, tt);
}

full_returned : (reconcile_active_cards config 9 works (closed_card ∷ []) full).1 ≡ true
unfolding reconcile_active_cards leaves cancellation_reason cancel_run
full_returned = refl

-- The run of the closed card is cancelled, and yet not counted.
full_cancels : (reconcile_active_cards config 9 works (closed_card ∷ []) full).0.active_runs ≡ []
unfolding reconcile_active_cards leaves cancellation_reason cancel_run delete_run
full_cancels = refl

reconcile_lifecycle_full_example :
    (reconcile_lifecycle config 9 works (closed_card ∷ []) full empty_reconciliation).1
    ≡ some empty_reconciliation
reconcile_lifecycle_full_example =
    reconcile_lifecycle_full config 9 works (closed_card ∷ []) full empty_reconciliation
      full-IsBounded refl full_returned
