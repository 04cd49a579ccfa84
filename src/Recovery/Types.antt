-- ===== src/Recovery/Types.antt =====
-- The data of src/recovery.js: the record of a run's attempt, as src/run-registry.js keeps it.
use fizzy_symphony.Base.{ℕ, Bool, Option, List, String}

-- `filesystem_evidence`; lists are told by their lengths.
pub record Filesystem : Type 0 where
  pub clean : Option Bool
  pub untracked_files : ℕ
  pub unpushed_commits : ℕ
  pub branch_merged : Option Bool

pub record Attempt : Type 0 where
  pub attempt_id : String
  pub status : Option String
  pub cleanup_state : Option String  -- cleanupStateName of it
  pub cleanup_recovery_state : Option String
  pub workspace_preserved : Option Bool
  pub manual_intervention_required : Option Bool
  pub proof_file : Option String
  pub proof_path : Option String
  pub proof_digest : Option String
  pub result_comment_id : Option String
  pub failure_marker_id : Option String
  pub completion_policy_state : Option String
  pub terminal_claim_persisted : Option Bool
  pub terminal_claim_status : Option String
  pub no_code_change : Option Bool
  pub branch_name : Option String
  pub commit_sha : Option String
  pub pr_url : Option String
  pub workspace_key : Option String
  pub workspace_path : Option String
  pub filesystem : Filesystem

-- A workspace that scanWorkspaceMetadata found, or keeps back for a reason.
pub record Scanned : Type 0 where
  pub workspace_key : Option String
  pub workspace_path : Option String
  pub code : String

-- The rest of what is read: the configuration, the file system and the scan.
pub record Surroundings : Type 0 where
  pub proof_root : Option String  -- proof of the state directory
  pub cleanup_policy : Option String
  pub exists : String → Bool
  pub canonical : String → String
  pub inside : String → String → Bool
  pub workspaces : List Scanned
  pub preserved_workspaces : List Scanned

pub data Reason : Type 0 where
  proof_missing proof_not_durable proof_inside_workspace proof_digest_missing handoff_missing
        completion_policy_unsafe terminal_claim_missing code_handoff_missing policy_preserve
        workspace_metadata_missing filesystem_unsafe :
      Reason
  preserved : (code : String) → Reason
