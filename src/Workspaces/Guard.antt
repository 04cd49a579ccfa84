-- ===== src/Workspaces/Guard.antt =====
-- The guard file of a workspace against its metadata (src/workspace.js validateGuardForMetadata), and
-- its proof (verifyDurableProofFile).
use fizzy_symphony.Base.{
  Bool, not, ◌&&◌, ◌||◌, Option, none, some, List, [], ◌∷◌, ◌++◌, String, if◌then◌else◌, str_eq,
  same_text, truthy, get_or, Result, ok, err,
}
use fizzy_symphony.Cleanup.Eligibility.{Proof}
use fizzy_symphony.Workspaces.Types.{
  Metadata, Guard, ProofRead, missing, unreadable, invalid, read, Stop, preserves,
}
use fizzy_symphony.Workspaces.Status.{is_empty}

-- A field that the metadata has and the guard has not, or has otherwise.
mismatch : String → (expected own : Option String) → List String
mismatch field none own = []
mismatch field (some value) own = if same_text own (some value) then [] else field ∷ []

unfoldable pub guard_mismatches : Guard → Metadata → (metadata_path : String) → List String
unfolding mismatch
guard_mismatches g m path =
    mismatch "workspace_key" m.workspace_key g.workspace_key
    ++ mismatch "workspace_identity_digest" m.workspace_identity_digest g.workspace_identity_digest
    ++ mismatch "route_id" m.route_id g.route_id
    ++ mismatch "route_fingerprint" m.route_fingerprint g.route_fingerprint
    ++ mismatch "metadata_path" (some path) g.metadata_path

abbrev pub guard_marker : String
guard_marker = "fizzy-symphony:workspace-guard:v1"

unfoldable pub guards : Metadata → String → Guard → Bool
unfolding guard_mismatches
guards m path g = is_empty (guard_mismatches g m path) && same_text g.guard (some guard_marker)

unfoldable pub validate_guard_for_metadata :
    Metadata → (metadata_path : String) → Option Guard → Result Stop (Unit {0})
unfolding guards
validate_guard_for_metadata m path none = err (preserves "WORKSPACE_GUARD_MISSING")
validate_guard_for_metadata m path (some g) =
    if guards m path g then ok tt else err (preserves "WORKSPACE_METADATA_GUARD_MISMATCH")

unfoldable pub check_digest : (expected : String) → ProofRead → Result Stop (Unit {0})
check_digest expected missing = err (preserves "proof_file_missing")
check_digest expected unreadable = err (preserves "proof_file_unreadable")
check_digest expected invalid = err (preserves "proof_file_invalid")
check_digest expected (read file_digest actual_digest) =
    if same_text file_digest (some actual_digest) && str_eq expected actual_digest
    then ok tt
    else err (preserves "proof_digest_mismatch")

unfoldable pub verify_durable_proof_file :
    (inside : String → String → Bool)
    → (canonical : String → String) → Option Proof
    → (workspace_path : String) → ProofRead
    → Result Stop (Unit {0})
unfolding check_digest
verify_durable_proof_file inside canonical none path answer = err (preserves "proof_missing")
verify_durable_proof_file inside canonical (some proof) path answer =
    if not (truthy proof.file) || not (truthy proof.digest)
    then err (preserves "proof_missing")
    else if inside (canonical (get_or proof.file "")) (canonical path)
    then err (preserves "durable_proof_inside_workspace")
    else check_digest (get_or proof.digest "") answer
