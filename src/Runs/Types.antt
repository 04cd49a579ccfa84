-- ===== src/Runs/Types.antt =====
-- The data of a run (src/reconciler.js runCard): the calls that it makes, what the outside answers,
-- and its variables. A thrown error is its code and message.
use fizzy_symphony.Base.{ℕ, Bool, Option, List, String}
use fizzy_symphony.Orchestrator.Types.{Config, Problem, RunClaim, RunRoute, State}
use fizzy_symphony.Fizzy.Card.{Card}
use fizzy_symphony.Cleanup.Eligibility.{
  Handoff, Proof, Workspace, ResultComment, CompletionMarker, ClaimRelease,
}
use fizzy_symphony.Cleanup.Policy.{Completion, Client}
use fizzy_symphony.Runs.Steps.{StepPolicy, CardStep}

-- The status of a written record of the attempt.
pub data AttemptStatus : Type 0 where
  claimed preparing_workspace running failed completed cleanup_started cancelled preempted :
      AttemptStatus

-- The phase of a workpad.
pub data PadPhase : Type 0 where
  pad_claimed runner_completed completion_failed handoff : PadPhase

-- `failureKind`.
pub data Kind : Type 0 where
  dispatch workspace workflow workpad runner after_run completion : Kind

-- What is awaited, told to the orchestrator's state, or may throw by itself: the rendering of the
-- prompt, and the failure marker of the `catch`, which is not made where one of its fields is missing.
pub data Call : Type 0 where
  records_attempt : AttemptStatus → Call
  prepares_workspace loads_workflow starts_session runs_after_hook refreshes_card posts_result
        writes_proof applies_policy records_completion records_failure stops_session
        terminates_process cleans_workspace renders_prompt creates_failure_marker cancels_turn
        cancels_claim preserves_workspace posts_cancellation :
      Call
  updates_workpad : PadPhase → Call
  starts_turn : ℕ → (prompt : String) → Call
  streams_turn : ℕ → Call
  reports_failure : (retryable : Bool) → Kind → Call
  releases_claim : (done : Bool) → Call  -- the status "completed", or else "failed"

-- A call, and whether it returned. `applies_policy` fails by its answer, as it never throws.
pub record Entry : Type 0 where
  pub call : Call
  pub returned : Bool

-- The latest call first.
abbrev pub Log : Type 0
Log = List Entry

-- What `runner.stream` resolves to, if it is not `undefined`.
pub record TurnResult : Type 0 where
  pub status : Option String
  pub error : Option Problem
  pub continue : Option Bool
  pub continue_requested : Option Bool
  pub next_prompt : Option String
  pub continuation_prompt : Option String
  pub followup_prompt : Option String
  pub handoff : Handoff

pub record Session : Type 0 where
  pub process_owned : Option Bool

-- What `stopSession` and `terminateOwnedProcess` resolve to, and the race with the timeout.
pub record StopAnswer : Type 0 where
  pub timeout : Bool
  pub success : Option Bool
  pub status : Option String

pub record Refreshed : Type 0 where
  pub current_route_fingerprint : Option String
  pub route_fingerprint : Option String
  pub inner_route_fingerprint : Option String  -- card.route.fingerprint
  pub steps : List CardStep

-- The arguments of `runCard`, and the parts of the configuration that it reads.
pub record Job : Type 0 where
  pub config : Config
  pub card : Card
  pub route : RunRoute
  pub claim : RunClaim
  pub attempt_number : Option ℕ  -- claim.attempt_number
  pub decision_prompt : Option String
  pub completion : Completion  -- route.completion
  pub step_policy : StepPolicy  -- of the route and the workflow
  pub has_identity : Bool  -- workspaceIdentity is given
  pub max_turns : Option ℕ  -- config.agent.max_turns
  pub cleanup_policy : Option String
  pub can_stop : Bool  -- the runner has stopSession
  pub can_terminate : Bool  -- the runner has terminateOwnedProcess
  pub can_clean : Bool  -- the workspace manager has cleanup

-- The outside, by the log so far.
pub record Outside : Type 0 where
  pub throws : Log → Call → Option Problem
  -- what timers and other runs do to the orchestrator's state while a call is awaited
  pub meanwhile : Log → State → State
  pub clock : Log → ℕ
  pub prepared : Log → Workspace
  pub workflow_prompt : Log → Option String
  pub rendered_prompt : Log → String
  pub session : Log → Session
  pub activities : Log → List String
  pub streamed : Log → Option TurnResult
  pub hooked : Log → Bool  -- the result of the hook is truthy
  pub refreshed : Log → Refreshed
  pub result_comment : Log → Option ResultComment
  pub proof : Log → Proof
  pub client : Log → Client
  pub completion_marker : Log → CompletionMarker
  pub stopped : Log → StopAnswer
  pub turn_cancelled : Log → StopAnswer
  pub terminated : Log → StopAnswer
  pub released : Log → Option ClaimRelease
  pub names_path : Problem → Bool  -- error.details.workspace_path
  pub inside : String → String → Bool  -- isInsideOrSame

-- The variables of a run, with the orchestrator's state.
pub record World : Type 0 where
  pub log : Log
  pub orchestrator : State
  pub failure_kind : Kind
  pub workspace : Option Workspace
  pub session : Option Session  -- run.session
