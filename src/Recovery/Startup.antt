-- ===== src/Recovery/Startup.antt =====
-- performStartupRecovery of src/recovery.js, on the attempts: the registry keeps one record for each
-- attempt ID. The look at other instances, at workspaces and at claims only adds to the report.
use fizzy_symphony.Base.{Bool, true, some, List, [], ◌∷◌, String, if◌then◌else◌, filter, str_eq}
use fizzy_symphony.Recovery.Types.{Attempt, Surroundings, Reason}
use fizzy_symphony.Recovery.Evidence.{is_among, evaluate_cleanup_recovery}

-- INTERRUPTED_STATUSES.
unfoldable pub is_interruptible : Attempt → Bool
unfolding is_among
is_interruptible a =
    is_among ("running" ∷ "claiming" ∷ "preparing" ∷ "preparing_workspace" ∷ []) a.status

-- CLEANUP_RECOVERY_STATES.
unfoldable pub is_cleaning : Attempt → Bool
unfolding is_among
is_cleaning a = is_among ("cleanup_started" ∷ "archive_started" ∷ []) a.cleanup_state

-- `updateAttempt`.
unfoldable pub update_attempt : String → (Attempt → Attempt) → List Attempt → List Attempt
update_attempt id change [] = []
update_attempt id change (a ∷ attempts) =
    let rest = update_attempt id change attempts in
    if str_eq a.attempt_id id then change a ∷ rest else a ∷ rest

unfoldable pub interrupted : Attempt → Attempt
interrupted a = record a { status = some "interrupted"; workspace_preserved = some true }

unfoldable pub resumable : Attempt → Attempt
resumable a = record a { cleanup_recovery_state = some "safe_to_resume" }

unfoldable pub unresumable : Attempt → Attempt
unresumable a = record a {
  cleanup_state = some "cleanup_preserved";
  cleanup_recovery_state = some "manual_intervention_required";
  workspace_preserved = some true;
  manual_intervention_required = some true;
}

unfoldable pub interrupt_all : List Attempt → List Attempt → List Attempt
unfolding update_attempt interrupted
interrupt_all [] registry = registry
interrupt_all (a ∷ todo) registry =
    interrupt_all todo (update_attempt a.attempt_id interrupted registry)

-- What becomes of an attempt whose clean-up was under way, by the reasons against resuming it.
unfoldable pub decision : List Reason → Attempt → Attempt
unfolding resumable unresumable
decision [] a = resumable a
decision (r ∷ rs) a = unresumable a

unfoldable pub decide_all : Surroundings → List Attempt → List Attempt → List Attempt
unfolding update_attempt decision evaluate_cleanup_recovery
decide_all s [] registry = registry
decide_all s (a ∷ todo) registry =
    decide_all s todo
      (update_attempt a.attempt_id (decision (evaluate_cleanup_recovery s a)) registry)

-- Both loops go over the attempts as they were read at first.
unfoldable pub perform_startup_recovery : Surroundings → List Attempt → List Attempt
unfolding interrupt_all decide_all is_interruptible is_cleaning
perform_startup_recovery s attempts =
    decide_all s (filter is_cleaning attempts)
      (interrupt_all (filter is_interruptible attempts) attempts)
