-- ===== src/Cleanup/Policy.antt =====
-- applyCompletionPolicy of src/completion.js: what is done to the card of a finished run.
use fizzy_symphony.Base.{
  ◌≡◌, refl, sym, Bool-cases, inl, inr, same_text_iff, Bool, true, false, Option, none, some, List,
  [], ◌∷◌, String, if◌then◌else◌, same_text, truthy, get_or,
}

-- `route.completion`.
pub record Completion : Type 0 where
  pub policy : Option String
  pub target_column_id : Option String

-- How a call of the client ends: an exception has a code or none.
pub data Call : Type 0 where
  returns : Call
  throws : Option String → Call

pub data Answer : Type 0 where
  -- `success` or `ok` is false
  refuses : (code : Option String) → Answer
  accepts : (policy : Option String) → Answer
  raises : (code : Option String) → Answer

-- The client's functions, where it has them.
pub record Client : Type 0 where
  pub apply_completion_policy : Option Answer
  pub close_card : Option Call
  pub close : Option Call
  pub move_card_to_column : Option Call
  pub move_card : Option Call

pub data Mutation : Type 0 where
  closes moves : Mutation

pub data PolicyResult : Type 0 where
  succeeded : (policy : Option String) → PolicyResult
  failed : (code : String) → PolicyResult

-- The calls that were made, each with its column if it has one, and the result.
pub record Applied : Type 0 where
  pub calls : List (Mutation × Option String)
  pub result : PolicyResult

abbrev policy_failed : String
policy_failed = "COMPLETION_POLICY_FAILED"

abbrev nothing_called : PolicyResult → Applied
nothing_called result = record { calls = []; result = result }

normalize_policy_result : Answer → PolicyResult
normalize_policy_result (refuses code) = failed (get_or code policy_failed)
normalize_policy_result (accepts policy) = succeeded policy
normalize_policy_result (raises code) = failed (get_or code policy_failed)

called : Mutation → Option String → String → Call → Applied
called m column policy returns = record {
  calls = (m, column) ∷ [];
  result = succeeded (some policy);
}
called m column policy (throws code) = record {
  calls = (m, column) ∷ [];
  result = failed (get_or code policy_failed);
}

-- The first of two functions that the client has.
call_either : Mutation → Option String → String → Option Call → Option Call → Applied
unfolding called
call_either m column policy (some c) other = called m column policy c
call_either m column policy none (some c) = called m column policy c
call_either m column policy none none = nothing_called (failed "COMPLETION_MUTATOR_UNAVAILABLE")

apply_own : Client → Completion → Applied
unfolding call_either
apply_own client completion =
    if same_text completion.policy (some "comment_once")
    then nothing_called (succeeded (some "comment_once"))
    else if same_text completion.policy (some "close")
    then call_either closes none "close" client.close_card client.close
    else if same_text completion.policy (some "move_to_column")
    then (if truthy completion.target_column_id
        then call_either moves completion.target_column_id "move_to_column"
            client.move_card_to_column client.move_card
        else nothing_called (failed "COMPLETION_TARGET_MISSING"))
    else nothing_called (failed "COMPLETION_POLICY_INVALID")

unfoldable pub apply_completion_policy : Client → Completion → Applied
unfolding apply_own normalize_policy_result
apply_completion_policy client completion = elim client.apply_completion_policy [
  | some answer ↦ nothing_called (normalize_policy_result answer)
  | none ↦ apply_own client completion
]

-- The calls that a policy stands for.
pub calls_of : Completion → Option String → List (Mutation × Option String)
calls_of completion policy =
    if same_text policy (some "close")
    then (closes, none) ∷ []
    else if same_text policy (some "move_to_column")
    then (moves, completion.target_column_id) ∷ []
    else []

call_either-calls :
    (m : Mutation) (column : Option String) (policy : String) (a b : Option Call)
    (p : Option String)
    → (call_either m column policy a b).result ≡ succeeded p
    → (p ≡ some policy) × ((call_either m column policy a b).calls ≡ (m, column) ∷ [])
unfolding call_either called
call_either-calls m column policy (some returns) b p h = (cc, refl)
call_either-calls m column policy (some (throws c)) b p h = absurd (cc)
call_either-calls m column policy none (some returns) p h = (cc, refl)
call_either-calls m column policy none (some (throws c)) p h = absurd (cc)
call_either-calls m column policy none none p h = absurd (cc)

succeeded-injective : {p q : Option String} → succeeded p ≡ succeeded q → p ≡ q
succeeded-injective h = cc

apply_own-calls :
    (client : Client) (policy target p : Option String)
    → (apply_own client (record { policy = policy; target_column_id = target })).result
      ≡ succeeded p
    → (p ≡ policy)
      × ((apply_own client (record { policy = policy; target_column_id = target })).calls
          ≡ calls_of (record { policy = policy; target_column_id = target }) policy)
unfolding apply_own calls_of
apply_own-calls client policy target p h =
    elim (Bool-cases (same_text policy (some "comment_once"))) [
      | inl e ↦
          let at_once : policy ≡ some "comment_once" =
            (same_text_iff policy (some "comment_once")).0 e in
          rw at_once (sym (succeeded-injective (rw at_once at h)), refl)
      | inr not_once ↦ elim (Bool-cases (same_text policy (some "close"))) [
        | inl e ↦
            let closing : policy ≡ some "close" = (same_text_iff policy (some "close")).0 e in
            rw closing (
              call_either-calls closes none "close" client.close_card client.close p
                (rw closing at h))
        | inr not_close ↦ elim (Bool-cases (same_text policy (some "move_to_column"))) [
          | inl e ↦
              let moving : policy ≡ some "move_to_column" =
                (same_text_iff policy (some "move_to_column")).0 e in
              rw moving (moved (truthy target) refl (rw moving at h))
          | inr not_move ↦ absurd (cc (rw (not_once, not_close, not_move) at h))
        ]
      ]
    ]
  where
    moved :
        (t : Bool)
        → truthy target ≡ t
        → (if t
            then call_either moves target "move_to_column" client.move_card_to_column
                client.move_card
            else nothing_called (failed "COMPLETION_TARGET_MISSING")).result
          ≡ succeeded p
        → (p ≡ some "move_to_column")
          × ((if truthy target
                then call_either moves target "move_to_column" client.move_card_to_column
                    client.move_card
                else nothing_called (failed "COMPLETION_TARGET_MISSING")).calls
              ≡ (moves, target) ∷ [])
    moved true e k = rw e (
        call_either-calls moves target "move_to_column" client.move_card_to_column client.move_card
          p k)
    moved false e k = absurd (cc)

-- Where the client does not apply policies by itself, a success means that exactly the call of the
-- configured policy was made: none to comment once, one to close the card, or one to move it to
-- the target column.
pub apply_completion_policy-calls :
    (client : Client) (completion : Completion) (p : Option String)
    → client.apply_completion_policy ≡ none
    → (apply_completion_policy client completion).result ≡ succeeded p
    → (p ≡ completion.policy)
      × ((apply_completion_policy client completion).calls ≡ calls_of completion completion.policy)
unfolding apply_completion_policy
apply_completion_policy-calls client completion p own h =
    rw own (apply_own-calls client completion.policy completion.target_column_id p (rw own at h))
