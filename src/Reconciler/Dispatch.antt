-- ===== src/Reconciler/Dispatch.antt =====
-- The loop of the tick that dispatches the cards (src/reconciler.js runReconciliationTick), and the
-- candidates that it starts from. What claiming a card gives and what running it does to the
-- orchestrator's state are parameters, which return.
use fizzy_symphony.Base.{
  ℕ, suc, Bool, not, Option, none, some, List, [], ◌∷◌, ◌++◌, String, if◌then◌else◌, same_text,
  truthy, any, filter,
}
use fizzy_symphony.Fizzy.Card.{Card}
use fizzy_symphony.Orchestrator.Types.{Retry, State}
use fizzy_symphony.Orchestrator.Retries.{RetryKey, consume_retry}
use fizzy_symphony.Reconciler.Capacity.{
  Limits, DispatchRoute, Tracker, Refusal, refusal_for, reserve,
}

-- A card with the retry that it comes from.
pub record Discovered : Type 0 where
  pub card : Card
  pub retry : Option Retry

retry_candidate : Option Card → Retry → List Discovered
retry_candidate none retry = []
retry_candidate (some c) retry =
    if truthy c.id then record { card = c; retry = some retry } ∷ [] else []

unfoldable pub retry_candidates : List Retry → List Discovered
unfolding retry_candidate
retry_candidates [] = []
retry_candidates (r ∷ rs) = retry_candidate r.card r ++ retry_candidates rs

abbrev pub has_card : Option String → Discovered → Bool
has_card id d = same_text d.card.id id

unfoldable pub merge_retry_candidates : List Discovered → List Retry → List Discovered
unfolding retry_candidates
merge_retry_candidates candidates retries =
    let retried = retry_candidates retries in
    retried ++ filter (λ d. not (any (has_card d.card.id) retried)) candidates

-- A decision to run a card.
pub record Spawn : Type 0 where
  pub card : Card
  pub route : DispatchRoute
  pub retry : Option RetryKey

-- The run and the attempt of a claim that was acquired.
pub record Acquisition : Type 0 where
  pub run_id : Option String
  pub attempt_id : Option String

pub data RunStatus : Type 0 where
  completed failed other : RunStatus

pub record Tally : Type 0 where
  pub capacity_refused : ℕ
  pub ignored : ℕ
  pub claim_blocked : ℕ
  pub dispatched : ℕ
  pub completed : ℕ
  pub failed : ℕ

pub record Loop : Type 0 where
  pub tracker : Tracker
  pub state : State
  pub result : Tally

note_refusal : Tally → Tally
note_refusal t = record t { capacity_refused = suc t.capacity_refused; ignored = suc t.ignored }

note_dispatch : Tally → Tally
note_dispatch t = record t { dispatched = suc t.dispatched }

note_run : RunStatus → Tally → Tally
note_run completed t = record t { completed = suc t.completed }
note_run failed t = record t { failed = suc t.failed }
note_run other t = t

consume_if : ℕ → Option RetryKey → Acquisition → State → State
consume_if now none a s = s
consume_if now (some k) a s = (consume_retry now k a.run_id a.attempt_id s).0

module _ (limits : Limits) (now : ℕ) (acquires : Spawn → State → Option Acquisition)
    (run_card : Spawn → Acquisition → State → State × RunStatus) where
  run_claimed : Spawn → Option Acquisition → Loop → Loop
  unfolding note_dispatch note_run consume_if reserve
  run_claimed d none l = record l {
    result = record (l.result) { claim_blocked = suc l.result.claim_blocked };
  }
  run_claimed d (some a) l =
      let (state, status) = run_card d a (consume_if now d.retry a l.state) in
      record {
        tracker = reserve d.card d.route l.tracker;
        state = state;
        result = note_run status (note_dispatch l.result);
      }

  visit_spawn : Spawn → Option Refusal → Loop → Loop
  unfolding run_claimed note_refusal
  visit_spawn d (some refusal) l = record l { result = note_refusal l.result }
  visit_spawn d none l = run_claimed d (acquires d l.state) l

  -- One round of the loop.
  unfoldable pub dispatch : Spawn → Loop → Loop
  unfolding visit_spawn refusal_for
  dispatch d l = visit_spawn d (refusal_for limits d.card d.route l.tracker) l

  unfoldable pub dispatch_all : List Spawn → Loop → Loop
  unfolding dispatch
  dispatch_all [] l = l
  dispatch_all (d ∷ ds) l = dispatch_all ds (dispatch d l)
