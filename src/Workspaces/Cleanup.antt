-- ===== src/Workspaces/Cleanup.antt =====
-- cleanupWorkspace of src/workspace.js: the guards in their order, the hook, and the removal.
use fizzy_symphony.Base.{
  not, Option, none, some, List, [], ◌∷◌, String, if◌then◌else◌, truthy, get_or, or_else, Result,
  ok, err, ◌>>=◌, ◌>>◌,
}
use fizzy_symphony.Orchestrator.Types.{Problem}
use fizzy_symphony.Cleanup.Eligibility.{Cleanup, preserve, eligible, evaluate_cleanup_eligibility}
use fizzy_symphony.Workspaces.Types.{
  Inspection, Request, Stop, preserves, throws, Command, runs_hook, removes_worktree,
  removes_metadata,
}
use fizzy_symphony.Workspaces.Status.{is_empty, inspect_worktree_for_cleanup}
use fizzy_symphony.Workspaces.Guard.{validate_guard_for_metadata, verify_durable_proof_file}

-- What a call throws ends the clean-up.
unfoldable pub or_throw : {A : Type 0} → Result Problem A → Result Stop A
or_throw (ok a) = ok a
or_throw (err e) = err (throws e)

unfoldable pub or_preserve : {A : Type 0} → (reason : String) → Option A → Result Stop A
or_preserve reason none = err (preserves reason)
or_preserve reason (some a) = ok a

unfoldable pub check_eligible : Cleanup → Result Stop (Unit {0})
check_eligible (preserve reason) = err (preserves "not_eligible")
check_eligible (eligible policy) = ok tt

unfoldable pub require_path : Option String → Result Stop String
require_path path =
    if truthy path then ok (get_or path "") else err (preserves "workspace_path_missing")

-- `workspace.metadata_path`, or else that of the key under the configured root.
unfoldable pub metadata_path_of :
    Option String → Option String → Option (String → Result Problem String) → Result Stop String
unfolding or_throw
metadata_path_of (some path) key from_root =
    if truthy (some path) then ok path else err (preserves "workspace_metadata_path_missing")
metadata_path_of none key none = err (preserves "workspace_metadata_path_missing")
metadata_path_of none key (some from_root) =
    if truthy key
    then or_throw (from_root (get_or key ""))
    else err (preserves "workspace_metadata_path_missing")

-- The worktree before the hook.
unfoldable pub check_worktree : Inspection → Result Stop (Unit {0})
check_worktree i =
    if not i.clean
    then err (preserves "worktree_dirty")
    else if not (is_empty i.unpushed_commits)
    then err (preserves "worktree_unpushed")
    else if not i.branch_merged
    then err (preserves "worktree_unmerged")
    else ok tt

unfoldable pub check_clean : Inspection → Result Stop (Unit {0})
check_clean i = if i.clean then ok tt else err (preserves "worktree_dirty")

-- `workspace.path ?? workspace.workspace_path`.
abbrev pub path_of : Request → Option String
path_of q = or_else q.evidence.workspace.path q.workspace_path

-- The guards up to the hook.
unfoldable pub check_guards : Request → Result Stop (Unit {0})
check_guards q = do
  check_eligible (evaluate_cleanup_eligibility q.inside q.evidence)
  path ← require_path (path_of q)
  verify_durable_proof_file q.inside q.canonical q.evidence.proof path q.proof_read
  metadata_path ← metadata_path_of q.metadata_path q.key q.from_root
  found ← or_throw (q.read_metadata metadata_path)
  metadata ← or_preserve "workspace_metadata_missing" found
  guard ← or_throw (q.read_guard (get_or q.guard_path (q.default_guard_path path)))
  validate_guard_for_metadata metadata metadata_path guard
  inspection ← or_throw (inspect_worktree_for_cleanup q.before_hook)
  check_worktree inspection
  or_throw q.load_workflow

-- The worktree once more, after the hook.
unfoldable pub check_after_hook : Request → Result Stop (Unit {0})
check_after_hook q = do
  inspection ← or_throw (inspect_worktree_for_cleanup q.after_hook)
  check_clean inspection

-- The commands in their order, and the end: `ok` is "removed".
pub record Cleaned : Type 0 where
  pub commands : List Command
  pub outcome : Result Stop (Unit {0})

abbrev pub cleaned : List Command → Result Stop (Unit {0}) → Cleaned
cleaned commands outcome = record { commands = commands; outcome = outcome }

unfoldable pub remove_files : Request → Result Problem (Unit {0}) → Cleaned
unfolding or_throw
remove_files q (err e) = cleaned (runs_hook ∷ removes_worktree ∷ []) (err (throws e))
remove_files q (ok done) =
    cleaned (runs_hook ∷ removes_worktree ∷ removes_metadata ∷ []) (or_throw q.remove_metadata)

unfoldable pub after_checks : Request → Result Stop (Unit {0}) → Cleaned
unfolding remove_files
after_checks q (err stop) = cleaned (runs_hook ∷ []) (err stop)
after_checks q (ok done) = remove_files q q.remove_worktree

unfoldable pub after_hook : Request → Result Problem (Unit {0}) → Cleaned
unfolding after_checks check_after_hook
after_hook q (err e) = cleaned (runs_hook ∷ []) (err (preserves "before_remove_hook_failed"))
after_hook q (ok done) = after_checks q (check_after_hook q)

unfoldable pub after_guards : Request → Result Stop (Unit {0}) → Cleaned
unfolding after_hook
after_guards q (err stop) = cleaned [] (err stop)
after_guards q (ok done) = after_hook q q.hook

unfoldable pub cleanup_workspace : Request → Cleaned
unfolding after_guards check_guards
cleanup_workspace q = after_guards q (check_guards q)
