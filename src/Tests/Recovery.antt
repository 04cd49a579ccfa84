-- ===== src/Tests/Recovery.antt =====
-- The recovery at startup at concrete attempts.
use fizzy_symphony.Base.{◌≡◌, refl, true, false, Option, none, some, [], ◌∷◌, String, All}
use fizzy_symphony.Recovery.Types.{Attempt, Surroundings}
use fizzy_symphony.Recovery.Startup.{
  is_interruptible, perform_startup_recovery, interrupted, resumable, unresumable,
}
use fizzy_symphony.Recovery.Decisions.{is_decided}
use fizzy_symphony.Recovery.Resumable.{perform_startup_recovery-is_decided}
use fizzy_symphony.Recovery.Interrupted.{perform_startup_recovery-is_interruptible}

abbrev attempt : (id : String) → (status cleanup_state : Option String) → Attempt
attempt id status cleanup_state = record {
  attempt_id = id;
  status = status;
  cleanup_state = cleanup_state;
  cleanup_recovery_state = none;
  workspace_preserved = none;
  manual_intervention_required = none;
  proof_file = some "/state/proof/r1.json";
  proof_path = none;
  proof_digest = some "sha256:1";
  result_comment_id = some "9";
  failure_marker_id = none;
  completion_policy_state = some "succeeded";
  terminal_claim_persisted = some true;
  terminal_claim_status = some "completed";
  no_code_change = some true;
  branch_name = none;
  commit_sha = none;
  pr_url = none;
  workspace_key = some "k";
  workspace_path = none;
  filesystem = record {
    clean = some true;
    untracked_files = 0;
    unpushed_commits = 0;
    branch_merged = none;
  };
}

abbrev running : Attempt
running = attempt "a1" (some "running") none

abbrev cleaning : Attempt
cleaning = attempt "a2" (some "completed") (some "cleanup_started")

abbrev unproven : Attempt
unproven = record (attempt "a3" (some "completed") (some "cleanup_started")) { proof_digest = none }

abbrev around : Surroundings
around = record {
  proof_root = some "/state/proof";
  cleanup_policy = none;
  exists = λ p. true;
  canonical = λ p. p;
  inside = λ p root. true;
  workspaces = record { workspace_key = some "k"; workspace_path = none; code = "" } ∷ [];
  preserved_workspaces = [];
}

recovered :
    perform_startup_recovery around (running ∷ cleaning ∷ unproven ∷ [])
    ≡ interrupted running ∷ resumable cleaning ∷ unresumable unproven ∷ []
unfolding perform_startup_recovery interrupted resumable unresumable
recovered = refl

perform_startup_recovery-is_interruptible_example :
    All
      (λ a. is_interruptible a ≡ false)
      (perform_startup_recovery around (running ∷ cleaning ∷ unproven ∷ []))
perform_startup_recovery-is_interruptible_example =
    perform_startup_recovery-is_interruptible around (running ∷ cleaning ∷ unproven ∷ [])

perform_startup_recovery-is_decided_example :
    All
      (λ a. is_decided around a ≡ true)
      (perform_startup_recovery around (running ∷ cleaning ∷ unproven ∷ []))
perform_startup_recovery-is_decided_example =
    perform_startup_recovery-is_decided around (running ∷ cleaning ∷ unproven ∷ []) refl
