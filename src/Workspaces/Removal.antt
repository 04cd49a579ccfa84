-- ===== src/Workspaces/Removal.antt =====
-- About the removal of a worktree by src/workspace.js cleanupWorkspace.
use fizzy_symphony.Base.{
  ◌≡◌, refl, sym, Bool, true, false, ◌&&◌, some, String, any, get_or, Result, ok, err, ok_chain,
}
use fizzy_symphony.Orchestrator.Types.{Problem}
use fizzy_symphony.Cleanup.Eligibility.{eligible, evaluate_cleanup_eligibility, Proof}
use fizzy_symphony.Workspaces.Types.{
  Metadata, Guard, Inspection, read, Request, Stop, Command, removes_worktree,
}
use fizzy_symphony.Workspaces.Status.{is_empty, inspect_worktree_for_cleanup}
use fizzy_symphony.Workspaces.Guard.{guards, validate_guard_for_metadata, verify_durable_proof_file}
use fizzy_symphony.Workspaces.Cleanup.{
  or_throw, or_preserve, check_eligible, require_path, metadata_path_of, check_worktree, path_of,
  check_guards, check_after_hook, after_checks, after_hook, after_guards, cleanup_workspace,
}
use fizzy_symphony.Workspaces.Checks.{
  or_throw-ok, or_preserve-some, check_eligible-eligible, require_path-get_or,
  verify_durable_proof_file-IsVerified, validate_guard_for_metadata-guards, check_worktree-whole,
  check_clean-clean,
}

abbrev pub is_removal : Command → Bool
is_removal removes_worktree = true
is_removal _ = false

-- All that a removal rests on.
pub record IsRemovable (q : Request) : Type 0 where
  -- the run is eligible
  pub policy : String
  pub is_eligible : evaluate_cleanup_eligibility q.inside q.evidence ≡ eligible policy
  -- the proof's file has the digest that the run recorded
  pub digest : String
  pub proof : Proof
  pub has_proof : q.evidence.proof ≡ some proof
  pub has_digest : proof.digest ≡ some digest
  pub has_file : q.proof_read ≡ read (some digest) digest
  pub is_outside :
      q.inside (q.canonical (get_or proof.file "")) (q.canonical (get_or (path_of q) "")) ≡ false
  -- the guard file, as it was read, belongs to the metadata
  pub metadata_path : String
  pub has_metadata_path : metadata_path_of q.metadata_path q.key q.from_root ≡ ok metadata_path
  pub metadata : Metadata
  pub guard : Guard
  pub has_metadata : q.read_metadata metadata_path ≡ ok (some metadata)
  pub has_guard :
      q.read_guard (get_or q.guard_path (q.default_guard_path (get_or (path_of q) "")))
      ≡ ok (some guard)
  pub is_guarded : guards metadata metadata_path guard ≡ true
  -- nothing is lost with the worktree
  pub before : Inspection
  pub after : Inspection
  pub inspected : inspect_worktree_for_cleanup q.before_hook ≡ ok before
  pub inspected_again : inspect_worktree_for_cleanup q.after_hook ≡ ok after
  pub is_whole :
      (before.clean && is_empty before.unpushed_commits && before.branch_merged && after.clean)
      ≡ true

-- The guards that are passed before the hook.
check_guards-IsRemovable :
    (q : Request) (u v : Unit {0})
    → check_guards q ≡ ok u
    → check_after_hook q ≡ ok v
    → IsRemovable q
unfolding check_guards check_after_hook
check_guards-IsRemovable q u v h0 k0 =
    let (u1, e1, h1) =
      ok_chain _ (check_eligible (evaluate_cleanup_eligibility q.inside q.evidence)) h0 in
    let (path, e2, h2) = ok_chain _ (require_path (path_of q)) h1 in
    let (u3, e3, h3) =
      ok_chain _ (verify_durable_proof_file q.inside q.canonical q.evidence.proof path q.proof_read)
        h2 in
    let (mpath, e4, h4) = ok_chain _ (metadata_path_of q.metadata_path q.key q.from_root) h3 in
    let (found, e5, h5) = ok_chain _ (or_throw (q.read_metadata mpath)) h4 in
    let (metadata, e6, h6) = ok_chain _ (or_preserve "workspace_metadata_missing" found) h5 in
    let (guard, e7, h7) =
      ok_chain _ (or_throw (q.read_guard (get_or q.guard_path (q.default_guard_path path)))) h6 in
    let (u8, e8, h8) = ok_chain _ (validate_guard_for_metadata metadata mpath guard) h7 in
    let (before, e9, h9) = ok_chain _ (or_throw (inspect_worktree_for_cleanup q.before_hook)) h8 in
    let (u10, e10, h10) = ok_chain _ (check_worktree before) h9 in
    let (after, f1, k1) = ok_chain _ (or_throw (inspect_worktree_for_cleanup q.after_hook)) k0 in
    let (policy, is_eligible) = check_eligible-eligible _ u1 e1 in
    let p =
      verify_durable_proof_file-IsVerified q.inside q.canonical q.evidence.proof path q.proof_read
        u3 e3 in
    let (g, is_read, is_guarded) = validate_guard_for_metadata-guards metadata mpath guard u8 e8 in
    let (clean, pushed, merged) = check_worktree-whole before u10 e10 in
    record {
      policy = policy;
      is_eligible = is_eligible;
      digest = p.digest;
      proof = p.proof;
      has_proof = p.has_proof;
      has_digest = p.has_digest;
      has_file = p.has_file;
      is_outside = rw (sym (require_path-get_or (path_of q) path e2)) p.is_outside;
      metadata_path = mpath;
      has_metadata_path = e4;
      metadata = metadata;
      guard = g;
      has_metadata =
          or_throw-ok (q.read_metadata mpath) (some metadata)
            (rw (sym (or_preserve-some "workspace_metadata_missing" found metadata e6)) e5);
      has_guard =
          rw (sym (require_path-get_or (path_of q) path e2))
            (or_throw-ok _ (some g) (rw is_read at e7));
      is_guarded = is_guarded;
      before = before;
      after = after;
      inspected = or_throw-ok _ before e9;
      inspected_again = or_throw-ok _ after f1;
      is_whole = rw (clean, pushed, merged, check_clean-clean after v k1) refl;
    }

-- Whenever a clean-up removes the worktree, whether that succeeds or not, the run was eligible for
-- it, the proof's file is outside of the workspace and has the digest that was recorded, the guard
-- file that was read belongs to the workspace's metadata, and the inspection found no changes, no
-- unpushed commits and no unmerged branch before the hook, and no changes after it. (The inspection
-- counts no commits where git cannot count them.)
pub cleanup_workspace-IsRemovable :
    (q : Request) → any is_removal (cleanup_workspace q).commands ≡ true → IsRemovable q
unfolding cleanup_workspace after_guards after_hook after_checks
cleanup_workspace-IsRemovable q h = by_guards (check_guards q) refl h
  where
    by_after :
        (r : Result Stop (Unit {0})) (u : Unit {0})
        → check_guards q ≡ ok u
        → check_after_hook q ≡ r
        → any is_removal (after_checks q r).commands ≡ true
        → IsRemovable q
    by_after (err stop) u e k h = absurd (cc)
    by_after (ok v) u e k h = check_guards-IsRemovable q u v e k

    by_hook :
        (r : Result Problem (Unit {0})) (u : Unit {0})
        → check_guards q ≡ ok u
        → any is_removal (after_hook q r).commands ≡ true
        → IsRemovable q
    by_hook (err p) u e h = absurd (cc)
    by_hook (ok done) u e h = by_after (check_after_hook q) u e refl h

    by_guards :
        (r : Result Stop (Unit {0}))
        → check_guards q ≡ r
        → any is_removal (after_guards q r).commands ≡ true
        → IsRemovable q
    by_guards (err stop) e h = absurd (cc)
    by_guards (ok u) e h = by_hook q.hook u e h
