-- ===== src/Runs/Protocol.antt =====
-- The order of a run's calls, read from its log. It says independently of the code which calls must
-- have returned before each other one.
use fizzy_symphony.Base.{
  ℕ, zero, suc, Bool, true, false, not, ◌&&◌, ◌||◌, [], ◌∷◌, any, filter, length, leb, ◌==◌, Result,
  ok, err,
}
use fizzy_symphony.Orchestrator.Types.{Problem}
use fizzy_symphony.Reconciler.Dispatch.{RunStatus}
use fizzy_symphony.Runs.Types.{
  Call, AttemptStatus, PadPhase, Log, prepares_workspace, loads_workflow, starts_session,
  runs_after_hook, refreshes_card, posts_result, writes_proof, applies_policy, records_completion,
  cleans_workspace, updates_workpad, reports_failure, releases_claim, records_attempt, starts_turn,
  streams_turn, creates_failure_marker,
}

abbrev pub is_prepare : Call → Bool
is_prepare prepares_workspace = true
is_prepare _ = false

abbrev pub is_load : Call → Bool
is_load loads_workflow = true
is_load _ = false

abbrev pub is_session : Call → Bool
is_session starts_session = true
is_session _ = false

abbrev pub is_stream : Call → Bool
is_stream (streams_turn n) = true
is_stream _ = false

abbrev pub is_hook : Call → Bool
is_hook runs_after_hook = true
is_hook _ = false

abbrev pub is_refresh : Call → Bool
is_refresh refreshes_card = true
is_refresh _ = false

abbrev pub is_post : Call → Bool
is_post posts_result = true
is_post _ = false

abbrev pub is_proof : Call → Bool
is_proof writes_proof = true
is_proof _ = false

abbrev pub is_policy : Call → Bool
is_policy applies_policy = true
is_policy _ = false

abbrev pub is_marker : Call → Bool
is_marker records_completion = true
is_marker _ = false

abbrev pub is_release : Bool → Call → Bool
is_release done (releases_claim true) = done
is_release done (releases_claim false) = not done
is_release done _ = false

abbrev pub is_handoff : Call → Bool
is_handoff (updates_workpad PadPhase.handoff) = true
is_handoff _ = false

abbrev pub is_attempt : Call → Bool
is_attempt (records_attempt status) = true
is_attempt _ = false

abbrev pub is_creation : Call → Bool
is_creation creates_failure_marker = true
is_creation _ = false

abbrev pub is_start : Call → Bool
is_start (starts_turn n prompt) = true
is_start _ = false

-- The start of the turn `n`.
abbrev pub is_start_of : ℕ → Call → Bool
is_start_of n (starts_turn m prompt) = m == n
is_start_of n _ = false

-- What a run that returns a status has done.
abbrev pub is_settled : RunStatus → Call → Bool
is_settled RunStatus.completed c = is_handoff c
is_settled RunStatus.failed c = is_release false c
is_settled RunStatus.other c = false

-- What comes before the turn `n`: the session, or the stream of the turn before.
abbrev pub is_before : ℕ → Call → Bool
is_before zero c = false
is_before (suc zero) c = is_session c
is_before (suc (suc n)) (streams_turn m) = m == suc n
is_before (suc (suc n)) _ = false

-- Such a call returned.
unfoldable pub did : (Call → Bool) → Log → Bool
did p l = any (λ e. e.returned && p e.call) l

-- A record of the attempt, a release of the claim or the making of the failure marker has thrown.
unfoldable pub has_lost : Log → Bool
has_lost l =
    any
      (λ e. not e.returned && (is_attempt e.call || is_release false e.call || is_creation e.call))
      l

-- What is due where a run returns or throws.
abbrev pub has_settled : Result Problem RunStatus → Log → Bool
has_settled (ok status) l = did (is_settled status) l
has_settled (err e) l = has_lost l

-- The turns that were started.
unfoldable pub turns : Log → ℕ
turns l = length (filter (λ e. is_start e.call) l)

-- The making of the failure marker has thrown.
unfoldable pub has_no_marker : Log → Bool
has_no_marker l = any (λ e. not e.returned && is_creation e.call) l

-- The result was posted, or its posting has thrown.
unfoldable pub has_posted : Log → Bool
has_posted l = any (λ e. is_post e.call) l

-- Whether a call may follow a log, with at most `most` turns.
unfoldable pub may_follow : (most : ℕ) → Call → Log → Bool
unfolding did has_posted
may_follow most loads_workflow l = did is_prepare l
may_follow most starts_session l = did is_load l
may_follow most (starts_turn n prompt) l = leb n most && did (is_before n) l
may_follow most (streams_turn n) l = did (is_start_of n) l
may_follow most runs_after_hook l = did is_stream l
may_follow most refreshes_card l = did is_hook l
may_follow most posts_result l = did is_refresh l
may_follow most writes_proof l = did is_post l
may_follow most applies_policy l = did is_proof l
may_follow most records_completion l = did is_policy l
may_follow most (releases_claim true) l = did is_marker l
may_follow most cleans_workspace l = did (is_release true) l
may_follow most (records_attempt AttemptStatus.completed) l = did is_handoff l
may_follow most (updates_workpad PadPhase.handoff) l = did (is_release true) l
may_follow most (reports_failure retryable kind) l = not (retryable && has_posted l)
may_follow most _ l = true

unfoldable pub is_ordered : ℕ → Log → Bool
unfolding may_follow
is_ordered most [] = true
is_ordered most (e ∷ es) = may_follow most e.call es && is_ordered most es
