-- ===== src/Cleanup/Eligibility.antt =====
-- evaluateCleanupEligibility of src/completion.js. `inside path root` is isInsideOrSame, which asks
-- the file system's rules for paths.
use fizzy_symphony.Base.{
  ◌≡◌, Bool, true, false, not, ◌&&◌, ◌||◌, Option, none, some, List, [], ◌∷◌, String, if◌then◌else◌,
  str_eq, refl, is_true, is_false, truthy, get_or, or_else, same_text, arith,
}

pub record Handoff : Type 0 where
  pub no_code_change : Option Bool
  pub branch_name : Option String
  pub commit_sha : Option String
  pub pr_url : Option String
  pub pull_request_url : Option String

pub record Proof : Type 0 where
  pub file : Option String
  pub digest : Option String
  pub no_code_change : Option Bool
  pub payload : Handoff

pub record Workspace : Type 0 where
  pub path : Option String
  pub handoff : Handoff

pub record ResultComment : Type 0 where
  pub id : Option String
  pub comment_id : Option String

pub record CompletionMarker : Type 0 where
  pub id : Option String
  pub body : Option String
  pub has_payload : Bool

pub record ClaimRelease : Type 0 where
  pub released : Option Bool
  pub status : Option String

pub record Evidence : Type 0 where
  pub policy : Option String  -- config.safety.cleanup.policy
  pub workspace : Workspace
  pub proof : Option Proof
  pub result : Handoff
  pub result_comment : Option ResultComment
  pub completion_marker : Option CompletionMarker
  pub policy_success : Option Bool  -- completionPolicyResult.success
  pub claim_release : Option ClaimRelease

pub data Reason : Type 0 where
  cleanup_policy_preserve proof_missing durable_proof_outside_workspace_missing
        result_comment_missing completion_marker_missing claim_release_missing
        completion_policy_failed :
      Reason
  code_handoff_missing : List String → Reason

pub data Cleanup : Type 0 where
  preserve : Reason → Cleanup
  eligible : (policy : String) → Cleanup

unfoldable pub missing_field : String → Option String → List String → List String
missing_field field value rest = if truthy value then rest else field ∷ rest

-- The fields of the handoff that are missing.
unfoldable pub missing_code_handoff : Proof → Handoff → Handoff → List String
unfolding missing_field
missing_code_handoff proof result workspace =
    let p = proof.payload in
    if is_true p.no_code_change
      || is_true proof.no_code_change
      || is_true result.no_code_change
      || is_true workspace.no_code_change
    then []
    else missing_field "branch_name"
        (or_else p.branch_name (or_else result.branch_name workspace.branch_name))
        (missing_field "commit_sha"
          (or_else p.commit_sha (or_else result.commit_sha workspace.commit_sha))
          (missing_field "pr_url"
            (or_else p.pr_url (
              or_else p.pull_request_url
                (or_else result.pr_url (or_else result.pull_request_url workspace.pr_url))))
            []))

abbrev pub has_comment : Option ResultComment → Bool
has_comment none = false
has_comment (some c) = truthy (or_else c.id c.comment_id)

abbrev pub has_marker : Option CompletionMarker → Bool
has_marker none = false
has_marker (some m) = truthy m.id || truthy m.body || m.has_payload

abbrev pub is_released : Option ClaimRelease → Bool
is_released none = false
is_released (some r) =
    is_true r.released
    || same_text r.status (some "released")
    || same_text r.status (some "completed")

abbrev pub is_within : (String → String → Bool) → Option String → Option String → Bool
is_within inside path root = truthy root && inside (get_or path "") (get_or root "")

module _ (inside : String → String → Bool) where
  -- The checks after the handoff.
  unfoldable pub check_release : String → Evidence → List String → Cleanup
  check_release policy e (f ∷ fs) = preserve (code_handoff_missing (f ∷ fs))
  check_release policy e [] =
      if not (is_released e.claim_release)
      then preserve claim_release_missing
      else if is_false e.policy_success
      then preserve completion_policy_failed
      else eligible policy

  unfoldable pub check_proof : String → Evidence → Option Proof → Cleanup
  unfolding check_release missing_code_handoff
  check_proof policy e none = preserve proof_missing
  check_proof policy e (some proof) =
      if not (truthy proof.file) || not (truthy proof.digest)
      then preserve proof_missing
      else if is_within inside proof.file e.workspace.path
      then preserve durable_proof_outside_workspace_missing
      else if not (has_comment e.result_comment)
      then preserve result_comment_missing
      else if not (has_marker e.completion_marker)
      then preserve completion_marker_missing
      else check_release policy e (missing_code_handoff proof e.result e.workspace.handoff)

  unfoldable pub evaluate_cleanup_eligibility : Evidence → Cleanup
  unfolding check_proof
  evaluate_cleanup_eligibility e =
      let policy = get_or e.policy "preserve" in
      if str_eq policy "preserve"
      then preserve cleanup_policy_preserve
      else check_proof policy e e.proof

  -- The proof stands outside of the workspace, and nothing of the handoff is missing.
  pub record IsProven (e : Evidence) (proof : Proof) : Type 0 where
    pub named : (truthy proof.file && truthy proof.digest) ≡ true
    pub outside : is_within inside proof.file e.workspace.path ≡ false
    pub handed_off : missing_code_handoff proof e.result e.workspace.handoff ≡ []

  check_release-eligible :
      (policy p : String) (e : Evidence) (missing : List String)
      → check_release policy e missing ≡ eligible p
      → (missing ≡ []) × (is_released e.claim_release ≡ true) × (is_false e.policy_success ≡ false)
  unfolding check_release
  check_release-eligible policy p e [] h = ground arith
  check_release-eligible policy p e (f ∷ fs) h = absurd (cc)

  check_proof-eligible :
      (policy p : String) (e : Evidence) (found : Option Proof)
      → check_proof policy e found ≡ eligible p
      → (proof : Proof) × (found ≡ some proof)
        × IsProven e proof
        × (has_comment e.result_comment ≡ true)
        × (has_marker e.completion_marker ≡ true)
        × (is_released e.claim_release ≡ true)
        × (is_false e.policy_success ≡ false)
  unfolding check_proof
  check_proof-eligible policy p e none h = absurd (cc)
  check_proof-eligible policy p e (some proof) h =
      let last : check_release policy e (missing_code_handoff proof e.result e.workspace.handoff)
          ≡ eligible p =
        ground arith in
      let (handed_off, released, ended) = check_release-eligible policy p e _ last in
      (
        proof,
        refl,
        record { named = ground arith; outside = ground arith; handed_off = handed_off },
        ground arith,
        ground arith,
        released,
        ended,
      )

  -- The checks that a clean-up has passed.
  pub evaluate_cleanup_eligibility-checks :
      (e : Evidence) (p : String)
      → evaluate_cleanup_eligibility e ≡ eligible p
      → (str_eq (get_or e.policy "preserve") "preserve" ≡ false)
        × (proof : Proof) × (e.proof ≡ some proof)
        × IsProven e proof
        × (has_comment e.result_comment ≡ true)
        × (has_marker e.completion_marker ≡ true)
        × (is_released e.claim_release ≡ true)
        × (is_false e.policy_success ≡ false)
  unfolding evaluate_cleanup_eligibility
  evaluate_cleanup_eligibility-checks e p h =
      let rest : check_proof (get_or e.policy "preserve") e e.proof ≡ eligible p = ground arith in
      let (proof, found, proven, commented, marked, released, ended) =
        check_proof-eligible (get_or e.policy "preserve") p e e.proof rest in
      (ground arith, proof, found, proven, commented, marked, released, ended)
