-- ===== src/Workspaces/Types.antt =====
-- The data of cleanupWorkspace of src/workspace.js. What git, the file system and the hook answer is
-- part of the request, since each is asked at most once, the worktree twice.
use fizzy_symphony.Base.{ℕ, Bool, Option, List, String, Result}
use fizzy_symphony.Orchestrator.Types.{Problem}
use fizzy_symphony.Cleanup.Eligibility.{Evidence}

pub record Metadata : Type 0 where
  pub workspace_key : Option String
  pub workspace_identity_digest : Option String
  pub route_id : Option String
  pub route_fingerprint : Option String

pub record Guard : Type 0 where
  pub guard : Option String
  pub workspace_key : Option String
  pub workspace_identity_digest : Option String
  pub route_id : Option String
  pub route_fingerprint : Option String
  pub metadata_path : Option String

pub record StatusEntry : Type 0 where
  pub status : String
  pub path : String

-- The answers of git about a worktree. A count is missing where git fails, or gives no number.
pub record Git : Type 0 where
  pub status : Result Problem String  -- the output of `git status`
  pub branch : Result Problem (Unit {0})
  pub ahead : Option ℕ  -- of the source's commits
  pub upstream : Option String
  pub ahead_upstream : Option ℕ
  pub is_ancestor : Bool

pub data Unpushed : Type 0 where
  without_upstream : ℕ → Unpushed
  ahead_of : ℕ → (upstream : String) → Unpushed

pub record Inspection : Type 0 where
  pub clean : Bool
  pub unpushed_commits : List Unpushed
  pub branch_merged : Bool

-- What reading the proof's file gives: its own digest, and that of the rest of it.
pub data ProofRead : Type 0 where
  missing unreadable invalid : ProofRead
  read : (file_digest : Option String) (actual_digest : String) → ProofRead

-- Why `cleanupWorkspace` ends before it has removed the worktree.
pub data Stop : Type 0 where
  preserves : (reason : String) → Stop
  throws : Problem → Stop

pub data Command : Type 0 where
  runs_hook removes_worktree removes_metadata : Command

pub record Request : Type 0 where
  pub evidence : Evidence
  pub inside : String → String → Bool
  pub canonical : String → String  -- canonicalExistingPath
  pub workspace_path : Option String  -- workspace.workspace_path
  pub key : Option String  -- workspace.key ?? workspace.workspace_key
  pub metadata_path : Option String
  pub from_root : Option (String → Result Problem String)  -- for a configured metadata_root
  pub guard_path : Option String
  pub default_guard_path : String → String
  pub proof_read : ProofRead
  pub read_metadata : String → Result Problem (Option Metadata)
  pub read_guard : String → Result Problem (Option Guard)
  pub before_hook : Git
  pub load_workflow : Result Problem (Unit {0})
  pub hook : Result Problem (Unit {0})
  pub after_hook : Git
  pub remove_worktree : Result Problem (Unit {0})
  pub remove_metadata : Result Problem (Unit {0})
