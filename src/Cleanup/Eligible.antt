-- ===== src/Cleanup/Eligible.antt =====
-- What the word "eligible" of evaluateCleanupEligibility (src/completion.js) rests on.
use fizzy_symphony.Base.{
  ◌≡◌, ◌≢◌, ◌⊎◌, inl, inr, refl, Bool, true, false, ◌||◌, Option, none, some, List, [], String,
  str_eq, is_true, truthy, get_or, or_else, same_text_iff, is_false_iff, str_eq-other, Bool-cases,
  arith,
}
use fizzy_symphony.Cleanup.Eligibility.{
  Handoff, Proof, ResultComment, CompletionMarker, ClaimRelease, Evidence, eligible, missing_field,
  missing_code_handoff, has_comment, has_marker, is_released, is_within,
  evaluate_cleanup_eligibility, evaluate_cleanup_eligibility-checks,
}

-- A text that is there and not empty.
abbrev pub Named : Option String → Type 0
Named o = (x : String) × (o ≡ some x) × (x ≢ "")

-- The word that no code changed, from the proof, the result or the workspace; or else a branch, a
-- commit and a pull request.
pub data IsHandedOff (proof : Proof) (result workspace : Handoff) : Type 0 where
  payload_unchanged : proof.payload.no_code_change ≡ some true → IsHandedOff proof result workspace
  proof_unchanged : proof.no_code_change ≡ some true → IsHandedOff proof result workspace
  result_unchanged : result.no_code_change ≡ some true → IsHandedOff proof result workspace
  workspace_unchanged : workspace.no_code_change ≡ some true → IsHandedOff proof result workspace
  handed_off :
      Named (or_else proof.payload.branch_name (or_else result.branch_name workspace.branch_name))
      → Named (or_else proof.payload.commit_sha (or_else result.commit_sha workspace.commit_sha))
      → Named (
          or_else proof.payload.pr_url (
            or_else proof.payload.pull_request_url
              (or_else result.pr_url (or_else result.pull_request_url workspace.pr_url))))
      → IsHandedOff proof result workspace

-- All that a clean-up rests on.
pub record IsEligible (inside : String → String → Bool) (e : Evidence) : Type 0 where
  pub policy : get_or e.policy "preserve" ≢ "preserve"
  pub proof : Proof
  pub has_proof : e.proof ≡ some proof
  pub file : String
  pub has_file : proof.file ≡ some file
  pub has_digest : Named proof.digest
  pub outside :
      (root : String) → e.workspace.path ≡ some root → root ≢ "" → inside file root ≡ false
  pub is_handed_off : IsHandedOff proof e.result e.workspace.handoff
  pub comment : ResultComment
  pub has_result : e.result_comment ≡ some comment
  pub is_posted : Named (or_else comment.id comment.comment_id)
  pub marker : CompletionMarker
  pub has_completion : e.completion_marker ≡ some marker
  pub is_marked : Named marker.id ⊎ Named marker.body ⊎ (marker.has_payload ≡ true)
  pub release : ClaimRelease
  pub has_release : e.claim_release ≡ some release
  pub released :
      (release.released ≡ some true)
      ⊎ (release.status ≡ some "released")
      ⊎ (release.status ≡ some "completed")
  pub not_failed : e.policy_success ≢ some false

truthy-Named : (o : Option String) → truthy o ≡ true → Named o
truthy-Named none h = absurd (cc)
truthy-Named (some x) h = (x, refl, (str_eq-other x "").0 (ground (arith, h)))

is_true-some : (o : Option Bool) → is_true o ≡ true → o ≡ some true
is_true-some none h = absurd (cc)
is_true-some (some true) h = refl
is_true-some (some false) h = absurd (cc)

one_of : (a b : Bool) → (a || b) ≡ true → (a ≡ true) ⊎ (b ≡ true)
one_of true b h = inl refl
one_of false b h = inr h

missing_field-Named :
    (field : String) (o : Option String) (rest : List String)
    → missing_field field o rest ≡ []
    → Named o × (rest ≡ [])
unfolding missing_field
missing_field-Named field o rest h = elim (Bool-cases (truthy o)) [
  | inl e ↦ (truthy-Named o e, rw (missing_field, e) at h)
  | inr e ↦ absurd (cc (rw (missing_field, e) at h))
]

unchanged :
    (proof : Proof) (result workspace : Handoff)
    → (is_true proof.payload.no_code_change
        || is_true proof.no_code_change
        || is_true result.no_code_change
        || is_true workspace.no_code_change)
      ≡ true
    → IsHandedOff proof result workspace
unchanged proof result workspace h = elim (one_of _ _ h) [
  | inr d ↦ workspace_unchanged (is_true-some _ d)
  | inl abc ↦ elim (one_of _ _ abc) [
    | inr c ↦ result_unchanged (is_true-some _ c)
    | inl ab ↦ elim (one_of _ _ ab) [
      | inr b ↦ proof_unchanged (is_true-some _ b)
      | inl a ↦ payload_unchanged (is_true-some _ a)
    ]
  ]
]

missing_code_handoff-IsHandedOff :
    (proof : Proof) (result workspace : Handoff)
    → missing_code_handoff proof result workspace ≡ []
    → IsHandedOff proof result workspace
unfolding missing_code_handoff
missing_code_handoff-IsHandedOff proof result workspace h =
    elim (Bool-cases (
      is_true proof.payload.no_code_change
      || is_true proof.no_code_change
      || is_true result.no_code_change
      || is_true workspace.no_code_change)) [
        | inl e ↦ unchanged proof result workspace e
        | inr e ↦
            let (branch, h1) = missing_field-Named _ _ _ (rw (missing_code_handoff, e) at h) in
            let (commit, h2) = missing_field-Named _ _ _ h1 in
            let (pr, h3) = missing_field-Named _ _ _ h2 in handed_off branch commit pr
      ]

has_comment-Named :
    (o : Option ResultComment)
    → has_comment o ≡ true
    → (c : ResultComment) × (o ≡ some c) × Named (or_else c.id c.comment_id)
has_comment-Named none h = absurd (cc)
has_comment-Named (some c) h = (c, refl, truthy-Named _ h)

has_marker-Named :
    (o : Option CompletionMarker)
    → has_marker o ≡ true
    → (m : CompletionMarker) × (o ≡ some m) × (Named m.id ⊎ Named m.body ⊎ (m.has_payload ≡ true))
has_marker-Named none h = absurd (cc)
has_marker-Named (some m) h = (
  m,
  refl,
  elim (one_of _ _ h) [
    | inr payload ↦ inr (inr payload)
    | inl text ↦ elim (one_of _ _ text) [
      | inl id ↦ inl (truthy-Named _ id)
      | inr body ↦ inr (inl (truthy-Named _ body))
    ]
  ],
)

is_released-status :
    (o : Option ClaimRelease)
    → is_released o ≡ true
    → (r : ClaimRelease) × (o ≡ some r)
      × ((r.released ≡ some true) ⊎ (r.status ≡ some "released") ⊎ (r.status ≡ some "completed"))
is_released-status none h = absurd (cc)
is_released-status (some r) h = (
  r,
  refl,
  elim (one_of _ _ h) [
    | inr completed ↦ inr (inr ((same_text_iff _ _).0 completed))
    | inl other ↦ elim (one_of _ _ other) [
      | inl said ↦ inl (is_true-some _ said)
      | inr released ↦ inr (inl ((same_text_iff _ _).0 released))
    ]
  ],
)

module _ (inside : String → String → Bool) where
  is_within-outside :
      (file path : Option String) (root : String)
      → is_within inside file path ≡ false
      → path ≡ some root
      → root ≢ ""
      → inside (get_or file "") root ≡ false
  is_within-outside file path root h e n =
      let full : str_eq root "" ≡ false = (str_eq-other root "").1 n in
      let within : is_within inside file (some root) ≡ false = rw e at h in
      ground (arith, full, within)

  -- A workspace is cleaned up only if the policy does not preserve it and there are a proof with a
  -- file outside of it and a digest, the code handoff (the word that no code changed, or else a
  -- branch, a commit and a pull request), a result comment with an ID, a completion marker with an
  -- ID, a body or a payload, a released claim, and no failure of the completion policy.
  pub evaluate_cleanup_eligibility-eligible :
      (e : Evidence) (p : String)
      → evaluate_cleanup_eligibility inside e ≡ eligible p
      → IsEligible inside e
  evaluate_cleanup_eligibility-eligible e p h =
      let (kept, proof, found, proven, commented, marked, released, ended) =
        evaluate_cleanup_eligibility-checks inside e p h in
      let named : truthy proof.file ≡ true = ground (arith, proven.named) in
      let digested : truthy proof.digest ≡ true = ground (arith, proven.named) in
      let (file, has_file, _) = truthy-Named proof.file named in
      let (comment, has_result, is_posted) = has_comment-Named e.result_comment commented in
      let (marker, has_completion, is_marked) = has_marker-Named e.completion_marker marked in
      let (release, has_release, is_done) = is_released-status e.claim_release released in
      record {
        policy = (str_eq-other _ _).0 kept;
        proof = proof;
        has_proof = found;
        file = file;
        has_file = has_file;
        has_digest = truthy-Named proof.digest digested;
        outside = λ root at n.
            let out = is_within-outside proof.file e.workspace.path root proven.outside at n in
            rw has_file at out;
        is_handed_off = missing_code_handoff-IsHandedOff proof _ _ proven.handed_off;
        comment = comment;
        has_result = has_result;
        is_posted = is_posted;
        marker = marker;
        has_completion = has_completion;
        is_marked = is_marked;
        release = release;
        has_release = has_release;
        released = is_done;
        not_failed = (is_false_iff e.policy_success).0 ended;
      }
