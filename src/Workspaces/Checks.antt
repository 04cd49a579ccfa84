-- ===== src/Workspaces/Checks.antt =====
-- The guards of cleanupWorkspace (src/workspace.js), one by one.
use fizzy_symphony.Base.{
  ◌≡◌, refl, sym, ap, Bool, true, false, not, ◌&&◌, ◌||◌, Option, none, some, String, if◌then◌else◌,
  truthy, get_or, same_text, same_text_iff, str_eq, eq_iff, Result, ok, err, ok-injective,
  Bool-cases, inl, inr, arith,
}
use fizzy_symphony.Orchestrator.Types.{Problem}
use fizzy_symphony.Cleanup.Eligibility.{Cleanup, preserve, eligible, Proof}
use fizzy_symphony.Workspaces.Types.{
  Metadata, Guard, Inspection, ProofRead, missing, unreadable, invalid, read, Stop, preserves,
}
use fizzy_symphony.Workspaces.Status.{is_empty}
use fizzy_symphony.Workspaces.Guard.{
  guards, validate_guard_for_metadata, verify_durable_proof_file, check_digest,
}
use fizzy_symphony.Workspaces.Cleanup.{
  or_throw, or_preserve, check_eligible, require_path, check_worktree, check_clean,
}

pub or_throw-ok : {A : Type 0} (r : Result Problem A) (a : A) → or_throw r ≡ ok a → r ≡ ok a
unfolding or_throw
or_throw-ok (ok b) a h = ap ok (ok-injective h)
or_throw-ok (err e) a h = absurd (cc)

pub or_preserve-some :
    {A : Type 0} (reason : String) (o : Option A) (a : A) → or_preserve reason o ≡ ok a → o ≡ some a
unfolding or_preserve
or_preserve-some reason none a h = absurd (cc)
or_preserve-some reason (some b) a h = ap some (ok-injective h)

pub check_eligible-eligible :
    (c : Cleanup) (u : Unit {0})
    → check_eligible c ≡ ok u
    → (policy : String) × (c ≡ eligible policy)
unfolding check_eligible
check_eligible-eligible (preserve reason) u h = absurd (cc)
check_eligible-eligible (eligible policy) u h = (policy, refl)

pub require_path-get_or :
    (o : Option String) (path : String) → require_path o ≡ ok path → path ≡ get_or o ""
unfolding require_path
require_path-get_or o path h = elim (Bool-cases (truthy o)) [
  | inl e ↦ sym (ok-injective (rw (require_path, e) at h))
  | inr e ↦ absurd (cc (rw (require_path, e) at h))
]

check_digest-read :
    (expected : String) (r : ProofRead) (u : Unit {0})
    → check_digest expected r ≡ ok u
    → r ≡ read (some expected) expected
unfolding check_digest
check_digest-read expected missing u h = absurd (cc)
check_digest-read expected unreadable u h = absurd (cc)
check_digest-read expected invalid u h = absurd (cc)
check_digest-read expected (read own actual) u h =
    elim (Bool-cases (same_text own (some actual) && str_eq expected actual)) [
      | inl e ↦
          let same : own ≡ some actual = (same_text_iff own (some actual)).0 (ground (arith, e)) in
          let equal : expected ≡ actual = (eq_iff expected actual).0 (ground (arith, e)) in
          rw (same, equal) refl
      | inr e ↦ absurd (cc (rw (check_digest, e) at h))
    ]

-- A proof that is verified.
pub record IsVerified (inside : String → String → Bool) (canonical : String → String)
    (o : Option Proof) (path : String) (r : ProofRead) : Type 0 where
  pub digest : String
  pub proof : Proof
  pub has_proof : o ≡ some proof
  pub has_digest : proof.digest ≡ some digest
  pub has_file : r ≡ read (some digest) digest
  pub is_outside : inside (canonical (get_or proof.file "")) (canonical path) ≡ false

pub verify_durable_proof_file-IsVerified :
    (inside : String → String → Bool) (canonical : String → String) (o : Option Proof)
    (path : String) (r : ProofRead) (u : Unit {0})
    → verify_durable_proof_file inside canonical o path r ≡ ok u
    → IsVerified inside canonical o path r
unfolding verify_durable_proof_file
verify_durable_proof_file-IsVerified inside canonical none path r u h = absurd (cc)
verify_durable_proof_file-IsVerified inside canonical (some p) path r u h =
    elim (Bool-cases (not (truthy p.file) || not (truthy p.digest))) [
      | inl e ↦ absurd (cc (rw (verify_durable_proof_file, e) at h))
      | inr e ↦ elim (Bool-cases (inside (canonical (get_or p.file "")) (canonical path))) [
        | inl k ↦ absurd (cc (rw (verify_durable_proof_file, e, k) at h))
        | inr k ↦ record {
          digest = get_or p.digest "";
          proof = p;
          has_proof = refl;
          has_digest = named p.digest (ground (arith, e));
          has_file =
              check_digest-read (get_or p.digest "") r u
                (rw (verify_durable_proof_file, e, k) at h);
          is_outside = k;
        }
      ]
    ]
  where
    named : (o : Option String) → truthy o ≡ true → o ≡ some (get_or o "")
    named none h = absurd (cc)
    named (some d) h = refl

pub validate_guard_for_metadata-guards :
    (m : Metadata) (path : String) (o : Option Guard) (u : Unit {0})
    → validate_guard_for_metadata m path o ≡ ok u
    → (g : Guard) × (o ≡ some g) × (guards m path g ≡ true)
unfolding validate_guard_for_metadata
validate_guard_for_metadata-guards m path none u h = absurd (cc)
validate_guard_for_metadata-guards m path (some g) u h = elim (Bool-cases (guards m path g)) [
  | inl e ↦ (g, refl, e)
  | inr e ↦ absurd (cc (rw (validate_guard_for_metadata, e) at h))
]

pub check_worktree-whole :
    (i : Inspection) (u : Unit {0})
    → check_worktree i ≡ ok u
    → (i.clean ≡ true) × (is_empty i.unpushed_commits ≡ true) × (i.branch_merged ≡ true)
unfolding check_worktree
check_worktree-whole i u h = whole i.clean (is_empty i.unpushed_commits) i.branch_merged h
  where
    whole :
        (c e m : Bool)
        → ◌≡◌ {A = Result Stop (Unit {0})}
            (if not c
              then err (preserves "worktree_dirty")
              else if not e
              then err (preserves "worktree_unpushed")
              else if not m
              then err (preserves "worktree_unmerged")
              else ok tt)
            (ok u)
        → (c ≡ true) × (e ≡ true) × (m ≡ true)
    whole true true true h = (refl, refl, refl)
    whole false e m h = absurd (cc)
    whole true false m h = absurd (cc)
    whole true true false h = absurd (cc)

pub check_clean-clean : (i : Inspection) (u : Unit {0}) → check_clean i ≡ ok u → i.clean ≡ true
unfolding check_clean
check_clean-clean i u h = elim (Bool-cases i.clean) [
  | inl e ↦ e
  | inr e ↦ absurd (cc (rw (check_clean, e) at h))
]
