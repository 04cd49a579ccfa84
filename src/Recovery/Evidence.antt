-- ===== src/Recovery/Evidence.antt =====
-- evaluateCleanupRecovery of src/recovery.js: every reason against resuming a clean-up.
use fizzy_symphony.Base.{
  Bool, true, false, not, ◌&&◌, ◌||◌, Option, some, List, [], ◌∷◌, ◌++◌, String, if◌then◌else◌, any,
  filter, map, truthy, same_text, is_true, is_false, get_or, or_else, ltb,
}
use fizzy_symphony.Recovery.Types.{
  Filesystem, Attempt, Scanned, Surroundings, Reason, proof_missing, proof_not_durable,
  proof_inside_workspace, proof_digest_missing, handoff_missing, completion_policy_unsafe,
  terminal_claim_missing, code_handoff_missing, policy_preserve, workspace_metadata_missing,
  filesystem_unsafe, preserved,
}

-- A reason where the test fails.
abbrev pub unless : Bool → Reason → List Reason
unless true reason = []
unless false reason = reason ∷ []

-- A member of a set of texts.
unfoldable pub is_among : List String → Option String → Bool
is_among values o = any (λ v. same_text o (some v)) values

unfoldable pub proof_file_of : Attempt → Option String
proof_file_of a = or_else a.proof_file a.proof_path

unfoldable pub has_proof : Surroundings → Attempt → Bool
unfolding proof_file_of
has_proof s a = truthy (proof_file_of a) && s.exists (get_or (proof_file_of a) "")

-- The proof stands under the root of proofs.
unfoldable pub is_durable : Surroundings → Attempt → Bool
unfolding proof_file_of
is_durable s a =
    truthy s.proof_root
    && s.inside (s.canonical (get_or (proof_file_of a) "")) (s.canonical (get_or s.proof_root ""))

unfoldable pub is_proof_inside : Surroundings → Attempt → Bool
unfolding proof_file_of
is_proof_inside s a =
    truthy a.workspace_path
    && s.inside (s.canonical (get_or (proof_file_of a) ""))
        (s.canonical (get_or a.workspace_path ""))

unfoldable pub proof_reasons : Surroundings → Attempt → List Reason
unfolding has_proof is_durable is_proof_inside
proof_reasons s a =
    if has_proof s a
    then unless (is_durable s a) proof_not_durable
      ++ unless (not (is_proof_inside s a)) proof_inside_workspace
    else proof_missing ∷ []

unfoldable pub has_safe_policy : Attempt → Bool
unfolding is_among
has_safe_policy a =
    is_among ("completed" ∷ "succeeded" ∷ "safely_failed_non_looping" ∷ "non_looping_failed" ∷ [])
      a.completion_policy_state

unfoldable pub has_terminal_claim : Attempt → Bool
unfolding is_among
has_terminal_claim a =
    is_true a.terminal_claim_persisted
    && is_among ("released" ∷ "completed" ∷ "failed" ∷ "cancelled" ∷ "lost" ∷ [])
        a.terminal_claim_status

unfoldable pub has_code_handoff : Attempt → Bool
has_code_handoff a =
    is_true a.no_code_change || (truthy a.branch_name && truthy a.commit_sha && truthy a.pr_url)

abbrev pub fits : Attempt → Scanned → Bool
fits a w =
    (truthy a.workspace_key && same_text w.workspace_key a.workspace_key)
    || (truthy a.workspace_path && same_text w.workspace_path a.workspace_path)

unfoldable pub is_filesystem_safe : Filesystem → Bool
is_filesystem_safe f =
    is_true f.clean
    && not (ltb 0 f.untracked_files)
    && not (ltb 0 f.unpushed_commits)
    && not (is_false f.branch_merged)

unfoldable pub evaluate_cleanup_recovery : Surroundings → Attempt → List Reason
unfolding proof_reasons has_safe_policy has_terminal_claim has_code_handoff is_filesystem_safe
evaluate_cleanup_recovery s a =
    proof_reasons s a
    ++ unless (truthy a.proof_digest) proof_digest_missing
    ++ unless (truthy a.result_comment_id || truthy a.failure_marker_id) handoff_missing
    ++ unless (has_safe_policy a) completion_policy_unsafe
    ++ unless (has_terminal_claim a) terminal_claim_missing
    ++ unless (has_code_handoff a) code_handoff_missing
    ++ unless (not (same_text s.cleanup_policy (some "preserve"))) policy_preserve
    ++ unless (any (fits a) s.workspaces) workspace_metadata_missing
    ++ map (λ w. preserved w.code) (filter (fits a) s.preserved_workspaces)
    ++ unless (is_filesystem_safe a.filesystem) filesystem_unsafe
