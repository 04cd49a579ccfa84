-- ===== src/Tests/Cleanup.antt =====
-- A workspace that may be cleaned up, and a card that is moved.
use fizzy_symphony.Base.{◌≡◌, refl, Bool, true, false, Option, none, some, [], ◌∷◌, String, str_eq}
use fizzy_symphony.Cleanup.Eligible.{IsEligible, evaluate_cleanup_eligibility-eligible}
use fizzy_symphony.Cleanup.Policy.{
  Client, Completion, returns, throws, apply_completion_policy, calls_of,
  apply_completion_policy-calls,
}
use fizzy_symphony.Cleanup.Eligibility.{
  Handoff, Evidence, eligible, preserve, code_handoff_missing, evaluate_cleanup_eligibility,
}

abbrev inside : String → String → Bool
inside path root = str_eq path root

abbrev handoff : Option String → Handoff
handoff branch = record {
  no_code_change = none;
  branch_name = branch;
  commit_sha = some "c0ffee";
  pr_url = none;
  pull_request_url = some "https://example.org/1";
}

abbrev evidence : Option String → Evidence
evidence branch = record {
  policy = some "remove_clean_only";
  workspace = record { path = some "/work/1"; handoff = handoff none };
  proof = some (record {
    file = some "/state/proof/1";
    digest = some "sha256:1";
    no_code_change = none;
    payload = handoff branch;
  });
  result = handoff none;
  result_comment = some (record { id = some "7"; comment_id = none });
  completion_marker = some (record { id = none; body = some "marker"; has_payload = false });
  policy_success = some true;
  claim_release = some (record { released = some true; status = none });
}

all_there :
    evaluate_cleanup_eligibility inside (evidence (some "work")) ≡ eligible "remove_clean_only"
unfolding evaluate_cleanup_eligibility
all_there = refl

branch_missing :
    evaluate_cleanup_eligibility inside (evidence none)
    ≡ preserve (code_handoff_missing ("branch_name" ∷ []))
unfolding evaluate_cleanup_eligibility
branch_missing = refl

evaluate_cleanup_eligibility-eligible_example : IsEligible inside (evidence (some "work"))
evaluate_cleanup_eligibility-eligible_example =
    evaluate_cleanup_eligibility-eligible inside (evidence (some "work")) "remove_clean_only"
      all_there

abbrev client : Client
client = record {
  apply_completion_policy = none;
  close_card = none;
  close = some returns;
  move_card_to_column = some returns;
  move_card = some (throws none);
}

abbrev to_done : Completion
to_done = record { policy = some "move_to_column"; target_column_id = some "done" }

apply_completion_policy-calls_example :
    (some "move_to_column" ≡ to_done.policy)
    × ((apply_completion_policy client to_done).calls ≡ calls_of to_done to_done.policy)
unfolding apply_completion_policy
apply_completion_policy-calls_example =
    apply_completion_policy-calls client to_done (some "move_to_column") refl refl
