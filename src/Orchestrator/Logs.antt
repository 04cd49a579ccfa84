-- ===== src/Orchestrator/Logs.antt =====
-- The bounds on the logs and the uniqueness of run IDs (src/orchestrator-state.js).
use fizzy_symphony.Base.{
  ℕ, suc, ◌-◌, ◌≤◌, ◌≡◌, refl, ◌∙◌, Bool, true, false, Option, none, some, List, [], ◌∷◌, ◌++◌,
  String, arith, length, length-drop, ap, All, All-filter, filter, same_text_iff, same_text_comm,
  get_or, Bool-cases, inl, inr,
}
use fizzy_symphony.Fizzy.Card.{Card}
use fizzy_symphony.Orchestrator.Types.{
  Config, RunInput, Run, Retry, RenewalAnswer, no_service, answers, throws, State, Problem,
  RunClaim,
}
use fizzy_symphony.Orchestrator.Defs.{
  push_trim, is_run, delete_run, set_run, get_run, schedule_retry, new_retry, create_state,
}
use fizzy_symphony.Orchestrator.Runs.{
  start_run, record_failure, complete_run, record_runner_activity, cancel_run,
  reconcile_active_cards, reconcile_runs, stall_fires, FailureDetails,
}
use fizzy_symphony.Orchestrator.Renewals.{
  renew_claim_now, renew_run, renewal_fires, handle_renewal_failure, object_error,
}
use fizzy_symphony.Orchestrator.Retries.{
  RetryKey, ready_retries, refresh_all, consume_retry, retry_fires, change_first,
}
use fizzy_symphony.Orchestrator.Steps.{Event, Moment, step, run_all}

pub push_trim_bounded {ℓ} : {A : Type ℓ} (e : A) (xs : List A) → length (push_trim e xs) ≤ 50
unfolding push_trim
push_trim_bounded e xs = ground (arith, length-drop (length (xs ++ e ∷ []) - 50) (xs ++ e ∷ []))

abbrev pub Distinct : List Run → Type 0
Distinct [] = Unit
Distinct (r ∷ rs) = All (λ q. is_run r.run_id q ≡ false) rs × Distinct rs

-- The logs hold 50 entries at most, and no two active runs have one ID.
pub record IsBounded (s : State) : Type 0 where
  pub retries : length s.retry_queue ≤ 50
  pub failures : length s.recent_failures ≤ 50
  pub renewals : length s.claim_renewals ≤ 50
  pub stalls : length s.stalled_runs ≤ 50
  pub cancelled : length s.cancellations ≤ 50
  pub distinct : Distinct s.active_runs

pub Distinct-filter : (f : Run → Bool) (rs : List Run) → Distinct rs → Distinct (filter f rs)
Distinct-filter f [] h = h
Distinct-filter f (r ∷ rs) (p, h) =
    ground (arith, Distinct-filter f rs h, All-filter (λ q. is_run r.run_id q ≡ false) f rs p)

Distinct-delete_run :
    (id : Option String) (rs : List Run) → Distinct rs → Distinct (delete_run id rs)
unfolding delete_run
Distinct-delete_run id rs h = Distinct-filter _ rs h

-- A run that differs from the written one and from all others still does.
All-set_run :
    (id : Option String) (run : Run) (rs : List Run)
    → is_run id run ≡ false
    → All (λ q. is_run id q ≡ false) rs
    → All (λ q. is_run id q ≡ false) (set_run run rs)
unfolding set_run
All-set_run id run [] e h = (e, tt)
All-set_run id run (r ∷ rs) e (p, h) = ground (arith, All-set_run id run rs e h)

Distinct-set_run : (run : Run) (rs : List Run) → Distinct rs → Distinct (set_run run rs)
unfolding set_run
Distinct-set_run run [] h = (tt, tt)
Distinct-set_run run (r ∷ rs) (p, h) = elim (Bool-cases (is_run run.run_id r)) [
  | inl here ↦ let same = (same_text_iff r.run_id run.run_id).0 here in rw here (rw (← same) (p, h))
  | inr other ↦ rw other (
    All-set_run r.run_id run rs (same_text_comm run.run_id r.run_id ∙ other) p,
    Distinct-set_run run rs h,
  )
]

schedule_retry-IsBounded :
    (config : Config) (now : ℕ) (run : Run) (reason : String) (s : State)
    → IsBounded s
    → IsBounded (schedule_retry config now run reason s)
unfolding schedule_retry
schedule_retry-IsBounded config now run reason s h =
    ground (arith, push_trim_bounded {0} (new_retry config now run reason) s.retry_queue)

start_run-IsBounded :
    (config : Config) (now : ℕ) (input : RunInput) (s : State)
    → IsBounded s
    → IsBounded (start_run config now input s).0
unfolding start_run
start_run-IsBounded config now input s h = grind (arith, Distinct-set_run)

record_failure-IsBounded :
    (config : Config) (now : ℕ) (id : Option String) (e : Problem) (d : FailureDetails) (s : State)
    → IsBounded s
    → IsBounded (record_failure config now id e d s).0
unfolding record_failure
record_failure-IsBounded config now id e d s h =
    grind (arith, push_trim_bounded, Distinct-delete_run, schedule_retry-IsBounded)

complete_run-IsBounded :
    (id : Option String) (s : State) → IsBounded s → IsBounded (complete_run id s).0
unfolding complete_run
complete_run-IsBounded id s h = grind (arith, Distinct-delete_run)

activity-IsBounded :
    (now : ℕ) (id : Option String) (a : String) (s : State)
    → IsBounded s
    → IsBounded (record_runner_activity now id a s)
unfolding record_runner_activity
activity-IsBounded now id a s h = grind (arith, Distinct-set_run)

module _ (config : Config) (now : ℕ) (works : Run → Bool) where
  cancel_run-IsBounded :
      (run : Run) (reason : String) (retry : Bool) (s : State)
      → IsBounded s
      → IsBounded (cancel_run config now works run reason retry s).0
  unfolding cancel_run
  cancel_run-IsBounded run reason retry s h =
      grind (arith, push_trim_bounded, Distinct-delete_run, schedule_retry-IsBounded)

  reconcile_runs-IsBounded :
      (cards : List Card) (runs : List Run) (s : State)
      → IsBounded s
      → IsBounded (reconcile_runs config now works cards runs s).0
  unfolding reconcile_runs
  reconcile_runs-IsBounded cards [] s h = h
  reconcile_runs-IsBounded cards (run ∷ runs) s h =
      grind (arith, cancel_run-IsBounded, reconcile_runs-IsBounded cards runs)

  stall_fires-IsBounded :
      (run_id attempt_id : Option String) (s : State)
      → IsBounded s
      → IsBounded (stall_fires config now works run_id attempt_id s).0
  unfolding stall_fires
  stall_fires-IsBounded run_id attempt_id s h =
      grind (arith, push_trim_bounded, cancel_run-IsBounded)

  handle-IsBounded :
      (run : Run) (e : Problem) (u : Option RunClaim) (s : State)
      → IsBounded s
      → IsBounded (handle_renewal_failure config now works run e u s).0
  unfolding handle_renewal_failure
  handle-IsBounded run e u s h =
      grind (arith, push_trim_bounded, cancel_run-IsBounded, Distinct-set_run)

  renew_run-IsBounded :
      (run : Option Run) (a : RenewalAnswer) (s : State)
      → IsBounded s
      → IsBounded (renew_run config now works run a s).0
  unfolding renew_run
  renew_run-IsBounded none a s h = h
  renew_run-IsBounded (some run) no_service s h = grind (arith, push_trim_bounded, Distinct-set_run)
  renew_run-IsBounded (some run) (throws e) s h = handle-IsBounded run e none s h
  renew_run-IsBounded (some run) (answers true claim own error) s h =
      handle-IsBounded run (get_or error object_error) (some (get_or claim own)) s h
  renew_run-IsBounded (some run) (answers false claim own error) s h =
      grind (arith, push_trim_bounded, Distinct-set_run)

  renewal_fires-IsBounded :
      (run_id attempt_id : Option String) (a : RenewalAnswer) (s : State)
      → IsBounded s
      → IsBounded (renewal_fires config now works run_id attempt_id a s).0
  unfolding renewal_fires renew_claim_now
  renewal_fires-IsBounded run_id attempt_id a s h = grind (arith, renew_run-IsBounded)

length-refresh_all :
    (at : ℕ) (active : List Run) (rs : List Retry) → length (refresh_all at active rs) ≡ length rs
unfolding refresh_all
length-refresh_all at active [] = refl
length-refresh_all at active (r ∷ rs) = ap suc (length-refresh_all at active rs)

length-change_first :
    (k : RetryKey) (f : Retry → Retry) (rs : List Retry) → length (change_first k f rs) ≡ length rs
unfolding change_first
length-change_first k f [] = refl
length-change_first k f (r ∷ rs) = ground (arith, length-change_first k f rs)

pub reconcile_active_cards-IsBounded :
    (config : Config) (now : ℕ) (works : Run → Bool) (cards : List Card) (s : State)
    → IsBounded s
    → IsBounded (reconcile_active_cards config now works cards s).0
unfolding reconcile_active_cards
reconcile_active_cards-IsBounded config now works cards s h =
    reconcile_runs-IsBounded config now works cards s.active_runs s h

step-IsBounded :
    (config : Config) (now : ℕ) (works : Run → Bool) (e : Event) (s : State)
    → IsBounded s
    → IsBounded (step config now works e s)
unfolding step
step-IsBounded config now works (Event.starts input) s h = start_run-IsBounded config now input s h
step-IsBounded config now works (Event.fails id e d) s h =
    record_failure-IsBounded config now id e d s h
step-IsBounded config now works (Event.completes id) s h = complete_run-IsBounded id s h
step-IsBounded config now works (Event.acts id a) s h = activity-IsBounded now id a s h
step-IsBounded config now works (Event.renews id a) s h =
    unfold renew_claim_now in renew_run-IsBounded config now works (get_run id s.active_runs) a s h
step-IsBounded config now works (Event.cancels run reason retry) s h =
    cancel_run-IsBounded config now works run reason retry s h
step-IsBounded config now works (Event.reconciles cards) s h =
    reconcile_active_cards-IsBounded config now works cards s h
step-IsBounded config now works Event.asks_ready s h =
    unfold ready_retries in grind (arith, length-refresh_all)
step-IsBounded config now works (Event.consumes k run_id attempt_id) s h =
    unfold consume_retry in grind (arith, length-change_first)
step-IsBounded config now works (Event.stall_timer run_id attempt_id) s h =
    stall_fires-IsBounded config now works run_id attempt_id s h
step-IsBounded config now works (Event.renewal_timer run_id attempt_id a) s h =
    renewal_fires-IsBounded config now works run_id attempt_id a s h
step-IsBounded config now works (Event.retry_timer k) s h =
    unfold retry_fires in grind (arith, length-change_first)

run_all-IsBounded :
    (config : Config) (ms : List Moment) (s : State) → IsBounded s → IsBounded (run_all config ms s)
unfolding run_all
run_all-IsBounded config [] s h = h
run_all-IsBounded config (m ∷ ms) s h =
    run_all-IsBounded config ms _ (step-IsBounded config m.now m.works m.event s h)

-- Whatever operations and timers run, in any order and with any answers of the claim service and
-- the runner: no log and no retry queue holds more than 50 entries, and no two active runs have
-- the same ID.
pub create_state-run_all-IsBounded :
    (config : Config) (ms : List Moment) → IsBounded (run_all config ms create_state)
unfolding create_state
create_state-run_all-IsBounded config ms = run_all-IsBounded config ms create_state (omega arith)
