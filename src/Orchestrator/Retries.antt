-- ===== src/Orchestrator/Retries.antt =====
-- The retry queue (src/orchestrator-state.js readyRetries, consumeRetry and the timer that
-- scheduleRetry sets). An entry is found by its run, attempt and attempt number.
use fizzy_symphony.Base.{
  ℕ, Bool, true, false, not, ◌&&◌, Option, none, some, List, [], ◌∷◌, String, if◌then◌else◌, leb,
  ◌==◌, same_text, find, or_else,
}
use fizzy_symphony.Orchestrator.Types.{Run, Retry, RetryStatus, ready, consumed, stale, State}

abbrev pub is_consumed : RetryStatus → Bool
is_consumed consumed = true
is_consumed _ = false

-- `retry.status !== "consumed" && retry.status !== "stale"`.
abbrev pub is_open : RetryStatus → Bool
is_open consumed = false
is_open stale = false
is_open _ = true

abbrev is_other : Option String → Option Run → Bool
is_other attempt_id none = false
is_other attempt_id (some run) = not (same_text run.attempt_id attempt_id)

-- The first active run of the entry's card belongs to another attempt.
unfoldable pub is_replaced : List Run → Retry → Bool
is_replaced active retry =
    is_other retry.attempt_id (find (λ run. same_text run.card_id retry.card_id) active)

abbrev pub is_due : ℕ → Retry → Bool
is_due at retry = is_open retry.status && leb retry.next_retry_at at

-- What the filters make of one entry.
unfoldable pub refresh : ℕ → List Run → Retry → Retry
refresh at active retry =
    if is_due at retry
    then (if is_replaced active retry
        then record retry { status = stale; stale_at = some at }
        else record retry { status = ready })
    else retry

unfoldable pub refresh_all : ℕ → List Run → List Retry → List Retry
refresh_all at active [] = []
refresh_all at active (r ∷ rs) = refresh at active r ∷ refresh_all at active rs

unfoldable pub pick_ready : ℕ → List Run → List Retry → List Retry
unfolding refresh
pick_ready at active [] = []
pick_ready at active (r ∷ rs) =
    let rest = pick_ready at active rs in
    if is_due at r && not (is_replaced active r) then refresh at active r ∷ rest else rest

unfoldable pub ready_retries : ℕ → State → State × List Retry
unfolding refresh_all pick_ready
ready_retries at s = (
  record s { retry_queue = refresh_all at s.active_runs s.retry_queue },
  pick_ready at s.active_runs s.retry_queue,
)

-- How `consumeRetry` and the timer find their entry.
pub record RetryKey : Type 0 where
  pub run_id : Option String
  pub attempt_id : Option String
  pub attempt_number : ℕ

abbrev pub has_key : RetryKey → Retry → Bool
has_key k r =
    same_text r.run_id k.run_id
    && (same_text r.attempt_id k.attempt_id && r.attempt_number == k.attempt_number)

-- Applies a change to the first entry with the key.
unfoldable pub change_first : RetryKey → (Retry → Retry) → List Retry → List Retry
change_first k f [] = []
change_first k f (r ∷ rs) = if has_key k r then f r ∷ rs else r ∷ change_first k f rs

abbrev pub consume : ℕ → Option String → Option String → Retry → Retry
consume now replacement_run_id replacement_attempt_id r = record r {
  status = consumed;
  consumed_at = some now;
  replacement_run_id = or_else replacement_run_id r.replacement_run_id;
  replacement_attempt_id = or_else replacement_attempt_id r.replacement_attempt_id;
}

consume_found :
    ℕ → RetryKey → Option String → Option String → Option Retry → State → State × Option Retry
consume_found now k run_id attempt_id none s = (s, none)
consume_found now k run_id attempt_id (some r) s = if is_consumed r.status then (s, none) else (
  record s { retry_queue = change_first k (consume now run_id attempt_id) s.retry_queue },
  some (consume now run_id attempt_id r),
)

-- The details name the run and the attempt that replace the entry.
unfoldable pub consume_retry :
    ℕ → RetryKey → Option String → Option String → State → State × Option Retry
unfolding consume_found change_first
consume_retry now k run_id attempt_id s =
    consume_found now k run_id attempt_id (find (has_key k) s.retry_queue) s

-- The callback of the timer that `scheduleRetry` sets.
unfoldable pub wake : List Run → Retry → Retry
wake active r = if is_replaced active r then r else record r { status = ready }

unfoldable pub retry_fires : RetryKey → State → State
unfolding change_first wake
retry_fires k s = record s { retry_queue = change_first k (wake s.active_runs) s.retry_queue }
