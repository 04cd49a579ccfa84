-- ===== src/Runs/Card.antt =====
-- runCard of src/reconciler.js: one card from its claim to its release.
use fizzy_symphony.Base.{
  Bool, true, false, not, ◌&&◌, ◌||◌, Option, none, some, List, [], ◌∷◌, String, if◌then◌else◌, ok,
  is_some, same_text, truthy, get_or, or_else,
}
use Prim.Native.String as String
use fizzy_symphony.Fizzy.Text.{strip_prefix}
use fizzy_symphony.Orchestrator.Types.{Problem, State}
use fizzy_symphony.Orchestrator.Runs.{record_failure, complete_run}
use fizzy_symphony.Cleanup.Eligibility.{
  Proof, Workspace, ResultComment, CompletionMarker, ClaimRelease, Evidence, Cleanup, eligible,
  evaluate_cleanup_eligibility,
}
use fizzy_symphony.Cleanup.Policy.{PolicyResult, apply_completion_policy}
use fizzy_symphony.Reconciler.Dispatch.{RunStatus}
use fizzy_symphony.Runs.Types.{
  Kind, TurnResult, Refreshed, Outside, Job, World, AttemptStatus, PadPhase, records_attempt,
  prepares_workspace, loads_workflow, starts_session, runs_after_hook, refreshes_card, posts_result,
  writes_proof, applies_policy, records_completion, records_failure, cleans_workspace,
  updates_workpad, reports_failure, releases_claim, renders_prompt, creates_failure_marker,
}
use fizzy_symphony.Runs.Steps.{CardStep, required_unchecked_steps}
use fizzy_symphony.Runs.Exec.{
  Exec, pure, raise, attempt, modify, gets, ask, call, set_kind, wait, push, ◌>>=◌, ◌>>◌,
}
use fizzy_symphony.Runs.Turns.{run_same_thread_turns, run_id_of}
use fizzy_symphony.Runs.Sessions.{finalize_runner_session}

unfoldable pub runner_failure : TurnResult → Problem
runner_failure r = problem r.error
  where
    problem : Option Problem → Problem
    problem none = record {
      code = some "RUNNER_TURN_FAILED";
      message = String.◌++◌ "Runner turn did not complete: " (get_or r.status "unknown");
    }
    problem (some e) = record e { code = some (get_or e.code "RUNNER_TURN_FAILED") }

abbrev pub stale_route : Problem
stale_route = record {
  code = some "STALE_ROUTE_FINGERPRINT";
  message = "Route fingerprint changed before completion; preserving workspace.";
}

abbrev pub required_steps_blocked : Problem
required_steps_blocked = record {
  code = some "COMPLETION_BLOCKED_BY_REQUIRED_STEPS";
  message = "Required steps remain unchecked.";
}

unfoldable pub is_retryable_runner_error : Problem → Bool
is_retryable_runner_error e =
    not (is_some (strip_prefix "COMPLETION_" (get_or e.code "")))
    && not (same_text e.code (some "STALE_ROUTE_FINGERPRINT"))
    && not (same_text e.code (some "RUN_CANCELLED"))

abbrev pub is_runner : Kind → Bool
is_runner Kind.runner = true
is_runner _ = false

unfoldable pub kind_name : Kind → String
kind_name Kind.dispatch = "dispatch"
kind_name Kind.workspace = "workspace"
kind_name Kind.workflow = "workflow"
kind_name Kind.workpad = "workpad"
kind_name Kind.runner = "runner"
kind_name Kind.after_run = "after_run"
kind_name Kind.completion = "completion"

unfoldable pub should_record_blocking_failure_marker : Kind → Problem → Bool
should_record_blocking_failure_marker k e =
    is_runner k
    || same_text e.code (some "WORKSPACE_WORKTREE_DIRTY")
    || same_text e.code (some "WORKSPACE_WORKTREE_STALE_REGISTRATION")
    || same_text e.code (some "WORKSPACE_WORKTREE_CREATE_FAILED")

-- Whether `assertRouteStillCurrent` returns.
unfoldable pub is_route_current : Option String → Refreshed → Bool
is_route_current fingerprint card =
    let current =
      or_else card.current_route_fingerprint
        (or_else card.route_fingerprint card.inner_route_fingerprint) in
    not (truthy current) || same_text current fingerprint

-- What the completion rests on.
pub record Finished : Type 0 where
  pub refreshed : Refreshed
  pub workspace : Workspace
  pub result : TurnResult
  pub comment : Option ResultComment
  pub proof : Proof

module _ (o : Outside) (job : Job) where
  -- `retryable` and `kind` as they are told to the orchestrator's state.
  unfoldable pub report_failure : Bool → Kind → Problem → Exec (Unit {0})
  report_failure retryable kind e = modify λ w.
      push (reports_failure retryable kind) true (record w {
        orchestrator =
            (record_failure job.config (o.clock w.log) (run_id_of job) e
              (record {
                retryable = retryable;
                reason = none;
                failure_kind = some (kind_name kind);
              })
              w.orchestrator).0;
      })

  unfoldable pub tell_completed : Exec (Unit {0})
  tell_completed =
      modify λ w. record w { orchestrator = (complete_run (run_id_of job) w.orchestrator).0 }

  -- The claim's workspace and workflow; the workflow's prompt.
  unfoldable pub prepare : Exec (Workspace × Option String)
  prepare = do
    set_kind Kind.workspace
    workspace ← ask o prepares_workspace o.prepared
    modify (λ w. record w { workspace = some workspace })
    set_kind Kind.workflow
    prompt ← ask o loads_workflow o.workflow_prompt
    call o (records_attempt AttemptStatus.running)
    set_kind Kind.workpad
    call o (updates_workpad PadPhase.pad_claimed)
    pure (workspace, prompt)

  -- `given ?? renderRunPrompt(...)`.
  unfoldable pub render_run_prompt : Option String → Exec String
  render_run_prompt none = ask o renders_prompt o.rendered_prompt
  render_run_prompt (some given) = pure given

  -- The runner's turns, which must end with the status "completed".
  unfoldable pub execute : Option String → Exec TurnResult
  execute workflow_prompt = do
    set_kind Kind.runner
    session ← ask o starts_session o.session
    modify (λ w. record w { session = some session })
    call o (records_attempt AttemptStatus.running)
    prompt ← render_run_prompt (or_else job.decision_prompt workflow_prompt)
    result ← run_same_thread_turns o job prompt
    if same_text result.status (some "completed")
        then pure result
        else raise (runner_failure result)

  unfoldable pub run_after_run_hook : Exec (Unit {0})
  run_after_run_hook = do
    set_kind Kind.after_run
    hooked ← ask o runs_after_hook o.hooked
    if hooked then call o (records_attempt AttemptStatus.running) else pure tt

  unfoldable pub assert_route_still_current : Refreshed → Exec (Unit {0})
  assert_route_still_current card =
      if is_route_current job.route.fingerprint card then pure tt else raise stale_route

  -- From the second workpad to the durable proof.
  unfoldable pub prove_result : Workspace → TurnResult → Exec Finished
  prove_result workspace result = do
    set_kind Kind.completion
    call o (updates_workpad PadPhase.runner_completed)
    refreshed ← ask o refreshes_card o.refreshed
    assert_route_still_current refreshed
    comment ← ask o posts_result o.result_comment
    proof ← ask o writes_proof o.proof
    pure (record {
      refreshed = refreshed;
      workspace = workspace;
      result = result;
      comment = comment;
      proof = proof;
    })

  -- Required steps that are unchecked, or a completion policy that fails, end the run here.
  -- The call `records_failure` also stands for the making of its marker, which may throw.
  unfoldable pub fail_completion : Problem → Exec RunStatus
  fail_completion e = do
    call o records_failure
    report_failure false Kind.completion e
    finalize_runner_session o job
    call o (records_attempt AttemptStatus.failed)
    call o (updates_workpad PadPhase.completion_failed)
    call o (releases_claim false)
    pure RunStatus.failed

  abbrev pub is_success : PolicyResult → Bool
  is_success (PolicyResult.succeeded policy) = true
  is_success (PolicyResult.failed code) = false

  -- `applyCompletionPolicy` catches what the client throws.
  unfoldable pub apply_policy : Exec PolicyResult
  apply_policy w =
      let r = (apply_completion_policy (o.client w.log) job.completion).result in
      (ok r, push applies_policy (is_success r) (wait o w))

  unfoldable pub evidence_of : Finished → CompletionMarker → Option ClaimRelease → Evidence
  evidence_of f marker released = record {
    policy = job.cleanup_policy;
    workspace = f.workspace;
    proof = some f.proof;
    result = f.result.handoff;
    result_comment = f.comment;
    completion_marker = some marker;
    policy_success = some true;
    claim_release = released;
  }

  unfoldable pub clean_up : Cleanup → Exec (Unit {0})
  clean_up (Cleanup.preserve reason) = pure tt
  clean_up (eligible policy) =
      if job.can_clean
      then (do
        call o (records_attempt AttemptStatus.cleanup_started)
        attempt (call o cleans_workspace) (λ e. pure tt))
      else pure tt

  -- The completion marker, the claim's release, the clean-up and the hand-off.
  unfoldable pub complete : Finished → Exec RunStatus
  complete f = do
    marker ← ask o records_completion o.completion_marker
    finalize_runner_session o job
    released ← ask o (releases_claim true) o.released
    tell_completed
    clean_up (evaluate_cleanup_eligibility o.inside (evidence_of f marker released))
    call o (updates_workpad PadPhase.handoff)
    call o (records_attempt AttemptStatus.completed)
    pure RunStatus.completed

  unfoldable pub after_policy : Finished → PolicyResult → Exec RunStatus
  after_policy f (PolicyResult.succeeded policy) = complete f
  -- the policy's message is left out
  after_policy f (PolicyResult.failed code) =
      fail_completion (record { code = some code; message = "" })

  unfoldable pub settle : Finished → List CardStep → Exec RunStatus
  settle f (b ∷ bs) = fail_completion required_steps_blocked
  settle f [] = do result ← apply_policy; after_policy f result

  -- The body of the `try`.
  unfoldable pub run_body : Exec RunStatus
  run_body = do
    prepared ← prepare
    result ← execute prepared.1
    run_after_run_hook
    finished ← prove_result prepared.0 result
    settle finished (required_unchecked_steps job.step_policy finished.refreshed.steps)

  unfoldable pub record_blocking_failure_marker : Kind → Problem → Exec (Unit {0})
  record_blocking_failure_marker kind e = do
    workspace ← gets (λ w. w.workspace)
    if should_record_blocking_failure_marker kind e
          && (is_some workspace || job.has_identity || o.names_path e)
        then (do call o creates_failure_marker; attempt (call o records_failure) (λ x. pure tt))
        else pure tt

  -- The body of the `catch`.
  unfoldable pub on_failure : Problem → Exec RunStatus
  on_failure e = do
    kind ← gets (λ w. w.failure_kind)
    record_blocking_failure_marker kind e
    report_failure (is_runner kind && is_retryable_runner_error e) kind e
    finalize_runner_session o job
    call o (records_attempt AttemptStatus.failed)
    call o (releases_claim false)
    pure RunStatus.failed

  unfoldable pub run_card : Exec RunStatus
  run_card = do
    call o (records_attempt AttemptStatus.claimed)
    call o (records_attempt AttemptStatus.preparing_workspace)
    attempt run_body on_failure

-- The variables at the call.
unfoldable pub start : State → World
start s = record {
  log = [];
  orchestrator = s;
  failure_kind = Kind.dispatch;
  workspace = none;
  session = none;
}
