-- ===== src/Orchestrator/Defs.antt =====
-- The bounded logs, the map of active runs, and what a run and a retry are made from
-- (src/orchestrator-state.js).
use fizzy_symphony.Base.{
  ℕ, ◌+◌, ◌-◌, ◌*◌, ◌^◌, min, Bool, true, not, ◌&&◌, ◌||◌, Option, none, some, List, [], ◌∷◌, ◌++◌,
  String, if◌then◌else◌, ltb, ◌==◌, length, drop, find, get_or, or_else, same_text, truthy, is_true,
  str_eq, filter,
}
use fizzy_symphony.Fizzy.Card.{Card, no_card, card_status, card_board_id, card_column_id}
use fizzy_symphony.Orchestrator.Types.{
  Config, RunRoute, RunClaim, RunWorkspace, RunInput, Run, Retry, scheduled, State,
}

unfoldable pub create_state : State
create_state = record {
  active_runs = [];
  retry_queue = [];
  recent_failures = [];
  claim_renewals = [];
  stalled_runs = [];
  cancellations = [];
}

-- `if (entries.length > 50) entries.splice(0, entries.length - 50);`
unfoldable pub trim {ℓ} : {A : Type ℓ} → List A → List A
trim entries = if ltb 50 (length entries) then drop (length entries - 50) entries else entries

-- `entries.push(entry); trim(entries);`
unfoldable pub push_trim {ℓ} : {A : Type ℓ} → A → List A → List A
unfolding trim
push_trim entry entries = trim (entries ++ entry ∷ [])

abbrev pub is_run : Option String → Run → Bool
is_run id run = same_text run.run_id id

-- `activeRuns.get(id)`.
unfoldable pub get_run : Option String → List Run → Option Run
get_run id runs = find (is_run id) runs

-- `activeRuns.delete(id)`.
unfoldable pub delete_run : Option String → List Run → List Run
delete_run id runs = filter (λ run. not (is_run id run)) runs

-- `activeRuns.set(run.run_id, run)`: in the place of an old entry, or at the end. A change of a
-- run's fields is such a write.
unfoldable pub set_run : Run → List Run → List Run
set_run run [] = run ∷ []
set_run run (old ∷ runs) = if is_run run.run_id old then run ∷ runs else old ∷ set_run run runs

abbrev no_route : RunRoute
no_route = record { id = none; board_id = none; fingerprint = none; source_column_id = none }

abbrev pub no_claim : RunClaim
no_claim = record {
  claim_id = none;
  id = none;
  run_id = none;
  attempt_id = none;
  route_fingerprint = none;
  expires_at = none;
  lease_expires_at = none;
}

abbrev no_workspace : RunWorkspace
no_workspace = record { key = none; path = none }

unfoldable pub normalize_run : RunInput → Config → ℕ → Run
normalize_run input config now =
    let card = get_or input.card no_card in
    let route = get_or input.route no_route in
    let claim = get_or input.claim no_claim in
    let workspace = get_or input.workspace no_workspace in
    record {
      run_id = or_else input.run_id (or_else input.id claim.run_id);
      attempt_id = or_else input.attempt_id claim.attempt_id;
      attempt_number = get_or input.attempt_number 1;
      card_id = or_else input.card_id card.id;
      card_number = or_else input.card_number card.number;
      board_id = or_else input.board_id (or_else card.board_id route.board_id);
      route_id = or_else input.route_id route.id;
      route_fingerprint =
          or_else input.route_fingerprint (or_else route.fingerprint claim.route_fingerprint);
      claim_id = or_else input.claim_id (or_else claim.claim_id claim.id);
      workspace_key = or_else input.workspace_key workspace.key;
      workspace_path = or_else input.workspace_path workspace.path;
      workspace_preserved = true;
      started_at = get_or input.started_at now;
      instance_id = config.instance_id;
      card = input.card;
      route = input.route;
      claim = input.claim;
      workspace = input.workspace;
      last_activity_at = none;
      last_activity = none;
      renewal_timer = none;
      stall_timer = none;
    }

-- `if (!delay …) return; … = scheduler.setTimeout(…, delay)`: a missing delay and 0 set no timer.
after_delay : Option ℕ → ℕ → Option ℕ → Option ℕ
after_delay none now old = old
after_delay (some delay) now old = if delay == 0 then old else some (now + delay)

unfoldable pub schedule_renewal : Config → ℕ → Run → Run
unfolding after_delay
schedule_renewal config now run = record run {
  renewal_timer = after_delay config.renew_interval_ms now run.renewal_timer;
}

unfoldable pub schedule_stall : Config → ℕ → Run → Run
unfolding after_delay
schedule_stall config now run = record run {
  stall_timer = after_delay config.stall_timeout_ms now run.stall_timer;
}

-- The delay before attempt `attempt_number`.
unfoldable pub retry_backoff : Config → ℕ → ℕ
retry_backoff config attempt_number =
    let base = 1000 * 2 ^ (attempt_number - 2) in min base (get_or config.max_retry_backoff_ms base)

unfoldable pub new_retry : Config → ℕ → Run → String → Retry
unfolding retry_backoff
new_retry config now run reason =
    let attempt = run.attempt_number + 1 in
    let backoff = retry_backoff config attempt in
    record {
      run_id = run.run_id;
      attempt_id = run.attempt_id;
      attempt_number = attempt;
      card_id = run.card_id;
      board_id = run.board_id;
      route_id = run.route_id;
      route_fingerprint = run.route_fingerprint;
      card = run.card;
      route = run.route;
      claim = run.claim;
      workspace = run.workspace;
      reason = reason;
      status = scheduled;
      backoff_ms = backoff;
      next_retry_at = now + backoff;
      workspace_preserved = true;
      reuse_dirty_workspace = true;
      stale_at = none;
      consumed_at = none;
      replacement_run_id = none;
      replacement_attempt_id = none;
    }

unfoldable pub schedule_retry : Config → ℕ → Run → String → State → State
unfolding new_retry push_trim
schedule_retry config now run reason s = record s {
  retry_queue = push_trim (new_retry config now run reason) s.retry_queue;
}

-- A different, non-empty id on both sides.
abbrev differ : Option String → Option String → Bool
differ a b = truthy a && (truthy b && not (same_text a b))

route_column : Option RunRoute → Option String
route_column none = none
route_column (some r) = r.source_column_id

unfoldable pub cancellation_reason : Run → Card → Option String
unfolding card_status card_board_id card_column_id route_column
cancellation_reason run card =
    let status = card_status card in
    if str_eq status "closed"
      || str_eq status "postponed"
      || is_true card.closed
      || is_true card.postponed
    then some "card_left_eligible_state"
    else if differ (card_board_id card) run.board_id
    then some "card_left_eligible_state"
    else if differ (route_column run.route) (card_column_id card)
    then some "card_left_eligible_state"
    else if truthy card.route_fingerprint
        && not (same_text card.route_fingerprint run.route_fingerprint)
    then some "route_fingerprint_mismatch"
    else none
