-- ===== src/Tests/Workspaces.antt =====
-- The clean-up of a workspace at concrete answers.
use fizzy_symphony.Base.{◌≡◌, refl, true, false, none, some, [], ◌∷◌, ok, err}
use fizzy_symphony.Fizzy.Text.{strip_prefix}
use fizzy_symphony.Cleanup.Eligibility.{Handoff, evaluate_cleanup_eligibility}
use fizzy_symphony.Workspaces.Types.{
  Metadata, Guard, Git, read, Request, preserves, runs_hook, removes_worktree, removes_metadata,
}
use fizzy_symphony.Workspaces.Status.{parse_porcelain_status, inspect_worktree_for_cleanup}
use fizzy_symphony.Workspaces.Guard.{verify_durable_proof_file, validate_guard_for_metadata}
use fizzy_symphony.Workspaces.Cleanup.{
  check_eligible, require_path, metadata_path_of, or_preserve, check_worktree, check_clean, cleaned,
  cleanup_workspace,
}
use fizzy_symphony.Workspaces.Removal.{IsRemovable, cleanup_workspace-IsRemovable}

porcelain :
    parse_porcelain_status " M a.js\r\nR  b.js -> c.js\n?? .fizzy-symphony-workspace-guard.json\n"
    ≡ record { status = " M"; path = "a.js" }
      ∷ record { status = "R "; path = "c.js" }
      ∷ record { status = "??"; path = ".fizzy-symphony-workspace-guard.json" }
      ∷ []
unfolding parse_porcelain_status strip_prefix
porcelain = refl

abbrev handoff : Handoff
handoff = record {
  no_code_change = some true;
  branch_name = none;
  commit_sha = none;
  pr_url = none;
  pull_request_url = none;
}

abbrev metadata : Metadata
metadata = record {
  workspace_key = some "k";
  workspace_identity_digest = some "d";
  route_id = some "t1";
  route_fingerprint = none;
}

abbrev guard : Guard
guard = record {
  guard = some "fizzy-symphony:workspace-guard:v1";
  workspace_key = some "k";
  workspace_identity_digest = some "d";
  route_id = some "t1";
  route_fingerprint = none;
  metadata_path = some "/meta/k.json";
}

-- A worktree whose only change is the guard file.
abbrev untouched : Git
untouched = record {
  status = ok "?? .fizzy-symphony-workspace-guard.json\n";
  branch = ok tt;
  ahead = some 0;
  upstream = none;
  ahead_upstream = none;
  is_ancestor = false;
}

-- Commits that git fails to count are no commits.
uncounted :
    inspect_worktree_for_cleanup (record untouched { ahead = none })
    ≡ ok (record { clean = true; unpushed_commits = []; branch_merged = true })
unfolding inspect_worktree_for_cleanup strip_prefix
uncounted = refl

abbrev request : Git → Request
request before = record {
  evidence = record {
    policy = some "remove_clean_only";
    workspace = record { path = some "/w/k"; handoff = handoff };
    proof = some (record {
      file = some "/proof/r1.json";
      digest = some "sha256:1";
      no_code_change = some true;
      payload = handoff;
    });
    result = handoff;
    result_comment = some (record { id = some "9"; comment_id = none });
    completion_marker = some (record { id = none; body = none; has_payload = true });
    policy_success = some true;
    claim_release = some (record { released = some true; status = none });
  };
  inside = λ a b. false;
  canonical = λ p. p;
  workspace_path = none;
  key = some "k";
  metadata_path = some "/meta/k.json";
  from_root = none;
  guard_path = none;
  default_guard_path = λ p. p;
  proof_read = read (some "sha256:1") "sha256:1";
  read_metadata = λ p. ok (some metadata);
  read_guard = λ p. ok (some guard);
  before_hook = before;
  load_workflow = ok tt;
  hook = ok tt;
  after_hook = untouched;
  remove_worktree = ok tt;
  remove_metadata = ok tt;
}

removed :
    cleanup_workspace (request untouched)
    ≡ cleaned (runs_hook ∷ removes_worktree ∷ removes_metadata ∷ []) (ok tt)
unfolding cleanup_workspace check_eligible evaluate_cleanup_eligibility require_path
    verify_durable_proof_file metadata_path_of or_preserve validate_guard_for_metadata
    inspect_worktree_for_cleanup check_worktree strip_prefix check_clean
removed = refl

unpushed :
    cleanup_workspace (request (record untouched { ahead = some 2 }))
    ≡ cleaned [] (err (preserves "worktree_unpushed"))
unfolding cleanup_workspace check_eligible evaluate_cleanup_eligibility require_path
    verify_durable_proof_file metadata_path_of or_preserve validate_guard_for_metadata
    inspect_worktree_for_cleanup check_worktree strip_prefix check_clean
unpushed = refl

cleanup_workspace-IsRemovable_example : IsRemovable (request untouched)
cleanup_workspace-IsRemovable_example =
    cleanup_workspace-IsRemovable (request untouched) (rw removed refl)
