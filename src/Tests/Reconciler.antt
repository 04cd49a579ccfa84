-- ===== src/Tests/Reconciler.antt =====
-- Dispatching cards at concrete inputs.
use fizzy_symphony.Base.{
  ◌≡◌, ◌↔◌, refl, Bool, true, false, Option, none, some, List, [], ◌∷◌, String,
}
use fizzy_symphony.Fizzy.Card.{Card, no_card}
use fizzy_symphony.Orchestrator.Types.{State}
use fizzy_symphony.Orchestrator.Defs.{create_state}
use fizzy_symphony.Reconciler.Capacity.{
  amount, Limits, DispatchRoute, CapacityRun, create_capacity_tracker, count_of,
  board_concurrency_limit, numeric_limit,
}
use fizzy_symphony.Reconciler.Dispatch.{
  Discovered, Spawn, Acquisition, RunStatus, completed, Loop, dispatch_all,
}
use fizzy_symphony.Reconciler.Limits.{IsWithin, dispatch_all-IsWithin}
use fizzy_symphony.Reconciler.Lifecycle.{empty_reconciliation}
use fizzy_symphony.Reconciler.StatusRuns.{StatusRun, Visit, keep, verdict_of, reconcile_status_runs}
use fizzy_symphony.Reconciler.Kept.{IsKept, verdict_of_keep}

abbrev route : DispatchRoute
route = record {
  id = some "route";
  board_id = some "board";
  fingerprint = some "print";
  route_fingerprint = none;
  max_concurrent = none;
}

abbrev limits : Limits
limits = record {
  max_concurrent = some (amount 3);
  max_concurrent_per_card = none;
  entries =
      record { id = some "board"; defaults_max_concurrent = none; max_concurrent = some (amount 2) }
      ∷ [];
}

abbrev card : String → Card
card id = record no_card { id = some id; board_id = some "board" }

abbrev spawn : String → Spawn
spawn id = record { card = card id; route = route; retry = none }

abbrev spawns : List Spawn
spawns = spawn "a" ∷ spawn "a" ∷ spawn "b" ∷ spawn "d" ∷ []

abbrev runs : List CapacityRun
runs =
    record {
      key = some "r";
      card_id = some "x";
      board_id = some "other";
      route_id = none;
      route_fingerprint = some "print";
    }
    ∷ []

abbrev loop : Loop
loop = record {
  tracker = create_capacity_tracker runs;
  state = create_state;
  result = record {
    capacity_refused = 0;
    ignored = 0;
    claim_blocked = 0;
    dispatched = 0;
    completed = 0;
    failed = 0;
  };
}

abbrev acquires : Spawn → State → Option Acquisition
acquires d s = some (record { run_id = d.card.id; attempt_id = none })

abbrev run_card : Spawn → Acquisition → State → State × RunStatus
run_card d a s = (s, completed)

-- The second run of one card and the third card of the board are refused.
dispatch_test : (dispatch_all limits 5 acquires run_card spawns loop).result ≡ record {
  capacity_refused = 2;
  ignored = 2;
  claim_blocked = 0;
  dispatched = 2;
  completed = 2;
  failed = 0;
}
unfolding dispatch_all create_capacity_tracker
dispatch_test = refl

loop-IsWithin : IsWithin limits "a" "board" (create_capacity_tracker runs)
unfolding create_capacity_tracker count_of board_concurrency_limit numeric_limit
loop-IsWithin = record { in_all = refl; of_card = refl; on_board = refl }

dispatch_all-IsWithin_example :
    IsWithin limits "a" "board" (dispatch_all limits 5 acquires run_card spawns loop).tracker
dispatch_all-IsWithin_example =
    dispatch_all-IsWithin limits 5 acquires run_card "a" "board" spawns loop refl refl loop-IsWithin

abbrev discovered : List Discovered
discovered =
    record { card = card "a"; retry = none } ∷ record { card = card "b"; retry = none } ∷ []

abbrev status_run : String → StatusRun
status_run id = record {
  card_id = some id;
  board_id = some "board";
  source_column_id = none;
  route_fingerprint = some "print";
}

abbrev visit : String → Option Bool → Option String → Visit
visit id renewed fingerprint = record {
  run = status_run id;
  renewed = renewed;
  fingerprint = fingerprint;
  cancellation_returns = true;
}

abbrev visits : List Visit
visits =
    visit "a" (some false) none
    ∷ visit "b" none (some "print")
    ∷ visit "d" (some true) (some "other")
    ∷ visit "e" none none
    ∷ []

abbrev cards : List Card
cards = card "a" ∷ card "b" ∷ card "d" ∷ record (card "e") { auto_postponed = some true } ∷ []

-- "a" and "e" are cancelled, "d" is preempted, "b" is kept.
reconcile_status_runs_test :
    reconcile_status_runs cards visits empty_reconciliation
    ≡ some (record { cancelled = 2; preempted = 1; card_ids = some "e" ∷ some "d" ∷ some "a" ∷ [] })
unfolding reconcile_status_runs
reconcile_status_runs_test = refl

verdict_of_keep_example :
    (verdict_of (some (card "b")) (visit "b" none (some "print")) ≡ keep)
    ↔ IsKept (some (card "b")) (visit "b" none (some "print"))
verdict_of_keep_example = verdict_of_keep (some (card "b")) (visit "b" none (some "print"))
