-- ===== src/Runs/Released.antt =====
-- What runCard of src/reconciler.js leaves in the active runs of the orchestrator's state.
use fizzy_symphony.Base.{
  ℕ, ◌≡◌, Bool, false, ◌&&◌, ◌||◌, Option, none, some, List, [], ◌∷◌, String, Bool-cases, inl, inr,
  Result, ok, err, same_text_iff, Option-cases, is_some,
}
use fizzy_symphony.Orchestrator.Types.{Config, Run, Problem, State}
use fizzy_symphony.Orchestrator.Defs.{get_run, delete_run, schedule_retry}
use fizzy_symphony.Orchestrator.Runs.{FailureDetails, may_retry, record_failure, complete_run}
use fizzy_symphony.Orchestrator.Failures.{get_run-delete_run, get_run-is_run}
use fizzy_symphony.Cleanup.Eligibility.{Cleanup, eligible}
use fizzy_symphony.Cleanup.Policy.{PolicyResult}
use fizzy_symphony.Reconciler.Dispatch.{RunStatus}
use fizzy_symphony.Runs.Types.{
  Call, Log, Outside, Job, World, Kind, records_failure, cleans_workspace,
}
use fizzy_symphony.Runs.Types.{creates_failure_marker}
use fizzy_symphony.Runs.Protocol.{has_no_marker}
use fizzy_symphony.Runs.Exec.{Exec, call, wait, push}
use fizzy_symphony.Runs.Steps.{CardStep}
use fizzy_symphony.Runs.Turns.{run_id_of}
use fizzy_symphony.Runs.Sessions.{finalize_runner_session, finalize_runner_session-keeps}
use fizzy_symphony.Runs.Card.{
  Finished, report_failure, fail_completion, clean_up, tell_completed, complete, after_policy,
  settle, run_body, record_blocking_failure_marker, on_failure, run_card,
  should_record_blocking_failure_marker, start,
}
use fizzy_symphony.Runs.Triples.{
  Triple, Ends, Triple-pure, Triple-gets, Triple-if, Triple-attempt, Triple-modify, Triple-call,
  Triple-bind, Triple-weaken,
}

gone_by_id :
    (id : Option String) (run : Run) (rs : List Run)
    → get_run id rs ≡ some run
    → get_run id (delete_run run.run_id rs) ≡ none
gone_by_id id run rs found =
    let same : run.run_id ≡ id = (same_text_iff run.run_id id).0 (get_run-is_run id rs run found) in
    rw same (get_run-delete_run id rs)

pub complete_run-gone :
    (id : Option String) (s : State) → get_run id (complete_run id s).0.active_runs ≡ none
unfolding complete_run
complete_run-gone id s = elim (Option-cases (get_run id s.active_runs)) [
  | inl e ↦ rw e e
  | inr (run, e) ↦ rw e (gone_by_id id run s.active_runs e)
]

pub record_failure-gone :
    (config : Config) (now : ℕ) (id : Option String) (e : Problem) (d : FailureDetails) (s : State)
    → get_run id (record_failure config now id e d s).0.active_runs ≡ none
unfolding record_failure schedule_retry
record_failure-gone config now id e d s = elim (Option-cases (get_run id s.active_runs)) [
  | inl h ↦ rw h h
  | inr (run, h) ↦ rw h (elim (Bool-cases (may_retry run d)) [
    | inl y ↦ rw y (gone_by_id id run s.active_runs h)
    | inr n ↦ rw n (gone_by_id id run s.active_runs h)
  ])
]

module _ (o : Outside) (job : Job)
    (quiet : (l : Log) (s : State)
      → get_run (run_id_of job) s.active_runs ≡ none
      → get_run (run_id_of job) (o.meanwhile l s).active_runs ≡ none) where
  abbrev Gone : World → Type 0
  Gone w = get_run (run_id_of job) w.orchestrator.active_runs ≡ none

  abbrev Any : World → Type 0
  Any w = Unit {0}

  anyhow : {A : Type 0} (m : Exec A) → Triple Any m (λ _. Any) Any
  anyhow {A} m = record { at = λ w p. ends (m w) }
    where
      ends : (r : Result Problem A × World) → Ends (λ _. Any) Any r
      ends (ok a, w) = tt
      ends (err e, w) = tt

  keeps : (c : Call) → Triple Gone (call o c) (λ _. Gone) Gone
  unfolding push wait
  keeps c =
      Triple-call o c (λ w g. quiet w.log w.orchestrator g) (λ w g. quiet w.log w.orchestrator g)

  report_failure-Gone :
      (P E : World → Type 0) (again : Bool) (k : Kind) (e : Problem)
      → Triple P (report_failure o job again k e) (λ _. Gone) E
  unfolding report_failure push
  report_failure-Gone P E again k e =
      Triple-modify _
        (λ w p. record_failure-gone job.config (o.clock w.log) (run_id_of job) e _ w.orchestrator)

  finalize-Gone : (E : World → Type 0) → Triple Gone (finalize_runner_session o job) (λ _. Gone) E
  unfolding push wait
  finalize-Gone E =
      finalize_runner_session-keeps o job _ _ (λ b w g. quiet w.log w.orchestrator g)
        (λ b w g. quiet w.log w.orchestrator g)

  keeps_loosely : (c : Call) → Triple Gone (call o c) (λ _. Gone) Any
  keeps_loosely c = Triple-weaken (keeps c) (λ w g. g) (λ a w g. g) (λ w g. tt)

  fail_completion-Gone : (e : Problem) → Triple Any (fail_completion o job e) (λ _. Gone) Any
  unfolding fail_completion
  fail_completion-Gone e = Triple-bind {Q = λ _. Any} _ _ (anyhow (call o records_failure)) λ _.
      Triple-bind {Q = λ _. Gone} _ _ (report_failure-Gone Any Any false Kind.completion e) λ _.
        Triple-bind {Q = λ _. Gone} _ _ (finalize-Gone Any) λ _.
          Triple-bind {Q = λ _. Gone} _ _ (keeps_loosely _) λ _.
            Triple-bind {Q = λ _. Gone} _ _ (keeps_loosely _) λ _.
              Triple-bind {Q = λ _. Gone} _ _ (keeps_loosely _)
                λ _. Triple-pure RunStatus.failed (λ w g. g)

  tell_completed-Gone : Triple Any (tell_completed o job) (λ _. Gone) Any
  unfolding tell_completed
  tell_completed-Gone = Triple-modify _ (λ w p. complete_run-gone (run_id_of job) w.orchestrator)

  clean_up-Gone : (c : Cleanup) → Triple Gone (clean_up o job c) (λ _. Gone) Any
  unfolding clean_up
  clean_up-Gone (Cleanup.preserve reason) = Triple-pure _ (λ w g. g)
  clean_up-Gone (eligible policy) =
      Triple-if job.can_clean _ _
        (λ _. Triple-bind {Q = λ _. Gone} _ _ (keeps_loosely _) λ _.
          Triple-attempt {T = Gone} _ _ (keeps cleans_workspace) (λ e. Triple-pure _ (λ w g. g)))
        (λ _. Triple-pure _ (λ w g. g))

  complete-Gone : (f : Finished) → Triple Any (complete o job f) (λ _. Gone) Any
  unfolding complete
  complete-Gone f = Triple-bind {Q = λ _. Any} _ _ (anyhow _) λ m.
      Triple-bind {Q = λ _. Any} _ _ (anyhow _) λ _. Triple-bind {Q = λ _. Any} _ _ (anyhow _) λ r.
        Triple-bind {Q = λ _. Gone} _ _ tell_completed-Gone λ _.
          Triple-bind {Q = λ _. Gone} _ _ (clean_up-Gone _) λ _.
            Triple-bind {Q = λ _. Gone} _ _ (keeps_loosely _) λ _.
              Triple-bind {Q = λ _. Gone} _ _ (keeps_loosely _)
                λ _. Triple-pure RunStatus.completed (λ w g. g)

  after_policy-Gone :
      (f : Finished) (r : PolicyResult) → Triple Any (after_policy o job f r) (λ _. Gone) Any
  unfolding after_policy
  after_policy-Gone f (PolicyResult.succeeded policy) = complete-Gone f
  after_policy-Gone f (PolicyResult.failed code) = fail_completion-Gone _

  settle-Gone :
      (f : Finished) (blockers : List CardStep)
      → Triple Any (settle o job f blockers) (λ _. Gone) Any
  unfolding settle
  settle-Gone f (b ∷ bs) = fail_completion-Gone _
  settle-Gone f [] = Triple-bind {Q = λ _. Any} _ _ (anyhow _) (after_policy-Gone f)

  run_body-Gone : Triple Any (run_body o job) (λ _. Gone) Any
  unfolding run_body
  run_body-Gone = Triple-bind {Q = λ _. Any} _ _ (anyhow _) λ p.
      Triple-bind {Q = λ _. Any} _ _ (anyhow _) λ r.
        Triple-bind {Q = λ _. Any} _ _ (anyhow _)
          λ _. Triple-bind {Q = λ _. Any} _ _ (anyhow _) λ f. settle-Gone f _

  -- Where a run throws: the run is gone, unless the failure marker could not be made.
  abbrev Unmade : World → Type 0
  Unmade w = has_no_marker w.log ≡ false → Gone w

  keeps_Unmade : (c : Call) → Triple Gone (call o c) (λ _. Gone) Unmade
  keeps_Unmade c = Triple-weaken (keeps c) (λ w g. g) (λ a w g. g) (λ w g _. g)

  creation-Unmade : Triple Any (call o creates_failure_marker) (λ _. Any) Unmade
  unfolding push wait has_no_marker
  creation-Unmade = Triple-call o creates_failure_marker (λ w p. tt) (λ w p h. absurd (cc))

  record_blocking_failure_marker-Unmade :
      (k : Kind) (e : Problem)
      → Triple Any (record_blocking_failure_marker o job k e) (λ _. Any) Unmade
  unfolding record_blocking_failure_marker
  record_blocking_failure_marker-Unmade k e =
      Triple-bind {Q = λ _. Any} _ _ (Triple-gets _ (λ w p. p)) λ ws.
        Triple-if
          (should_record_blocking_failure_marker k e
            && (is_some ws || job.has_identity || o.names_path e))
          _ _
          (λ _. Triple-bind {Q = λ _. Any} _ _ creation-Unmade λ _.
            Triple-attempt {T = Any} (call o records_failure) _ (anyhow _)
              (λ x. Triple-pure _ (λ w p. p)))
          (λ _. Triple-pure _ (λ w p. p))

  on_failure-Gone : (e : Problem) → Triple Any (on_failure o job e) (λ _. Gone) Unmade
  unfolding on_failure
  on_failure-Gone e = Triple-bind {Q = λ _. Any} _ _ (Triple-gets _ (λ w p. p)) λ k.
      Triple-bind {Q = λ _. Any} _ _ (record_blocking_failure_marker-Unmade k e) λ _.
        Triple-bind {Q = λ _. Gone} _ _ (report_failure-Gone Any Unmade _ k e) λ _.
          Triple-bind {Q = λ _. Gone} _ _ (finalize-Gone Unmade) λ _.
            Triple-bind {Q = λ _. Gone} _ _ (keeps_Unmade _) λ _.
              Triple-bind {Q = λ _. Gone} _ _ (keeps_Unmade _)
                λ _. Triple-pure RunStatus.failed (λ w g. g)

  run_card-Gone : Triple Gone (run_card o job) (λ _. Gone) Unmade
  unfolding run_card
  run_card-Gone = Triple-bind {Q = λ _. Gone} _ _ (keeps_Unmade _) λ _.
      Triple-bind {Q = λ _. Gone} _ _ (keeps_Unmade _) λ _.
        Triple-attempt {T = Any} _ _
          (Triple-weaken run_body-Gone (λ w g. tt) (λ a w g. g) (λ w p. tt)) on_failure-Gone

  -- However a run ends, whether it returns or throws, the orchestrator's state has no active run of
  -- its ID, if it had none before, nothing else starts one meanwhile, and the making of the failure
  -- marker in the `catch` did not throw.
  pub run_card-gone :
      (s : State)
      → get_run (run_id_of job) s.active_runs ≡ none
      → has_no_marker (run_card o job (start s)).1.log ≡ false
      → get_run (run_id_of job) (run_card o job (start s)).1.orchestrator.active_runs ≡ none
  unfolding start
  run_card-gone s before made =
      gone (run_card o job (start s)) (run_card-Gone.at (start s) before) made
    where
      gone :
          (r : Result Problem RunStatus × World)
          → Ends (λ _. Gone) Unmade r
          → has_no_marker r.1.log ≡ false
          → get_run (run_id_of job) r.1.orchestrator.active_runs ≡ none
      gone (ok a, w) g h = g
      gone (err e, w) g h = g h
