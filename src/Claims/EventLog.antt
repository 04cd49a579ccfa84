-- ===== src/Claims/EventLog.antt =====
-- Reading the claim markers of a card and folding them into one state for each claim
-- (src/claims.js readClaims, applyClaimEventLog and their comparators).
use Prim.Native.Nat.{Ordering, compare}
use fizzy_symphony.Base.{ok, ◌>>=◌}
use fizzy_symphony.Base.{
  ℕ, suc, String, Option, List, [], ◌∷◌, ◌++◌, if◌then◌else◌, str_eq, get_or, or_else,
}
use fizzy_symphony.Base.Sort.{or_compare, compare_last, sort_by}
use fizzy_symphony.Fizzy.Card.{Stamp, parse_stamp}
use fizzy_symphony.Claims.Types.{Checked, Claim, Body, plain, Comment, ClaimEvent, Collation}
use fizzy_symphony.Claims.Markers.{parse_claim_marker}

-- A claim after its events: the fields of the last one, and of the earlier ones where it has none.
pub record ClaimState : Type 0 where
  pub claim : Claim
  pub comment_id : Option String
  pub comment_created_at : Option Stamp
  pub event_index : ℕ
  pub events : List ClaimEvent

unfoldable pub event_of : ℕ → Comment → Claim → ClaimEvent
event_of index c claim = record {
  claim = claim;
  comment_id = c.id;
  comment_created_at = c.created_at;
  event_index = index;
}

-- One round of the loop of `readClaims`; a body with no marker text is passed over.
unfoldable pub read_comment :
    ℕ → Comment → Body → Checked (List ClaimEvent) → Checked (List ClaimEvent)
unfolding event_of
read_comment index c plain rest = rest
read_comment index c body rest = do
  claim ← parse_claim_marker body
  events ← rest
  ok (event_of index c claim ∷ events)

unfoldable pub read_from : ℕ → List Comment → Checked (List ClaimEvent)
unfolding read_comment
read_from index [] = ok []
read_from index (c ∷ cs) = read_comment index c c.body (read_from (suc index) cs)

module _ (collate : Collation) where
  unfoldable pub compare_claim_events : ClaimEvent → ClaimEvent → Ordering
  compare_claim_events a b =
      or_compare
        (compare_last (parse_stamp a.comment_created_at) (parse_stamp b.comment_created_at))
        (or_compare (compare (get_or a.claim.marker_sequence 0) (get_or b.claim.marker_sequence 0))
          (or_compare (collate a.claim.claim_id b.claim.claim_id)
            (compare a.event_index b.event_index)))

  unfoldable pub compare_active_claim_order : ClaimState → ClaimState → Ordering
  compare_active_claim_order a b =
      or_compare (compare a.claim.started_at b.claim.started_at)
        (collate a.claim.claim_id b.claim.claim_id)

  unfoldable pub compare_claim_states : ClaimState → ClaimState → Ordering
  unfolding compare_active_claim_order
  compare_claim_states a b =
      or_compare (compare_active_claim_order a b)
        (compare_last (parse_stamp a.comment_created_at) (parse_stamp b.comment_created_at))

  unfoldable pub read_claims : List Comment → Checked (List ClaimEvent)
  unfolding read_from compare_claim_events sort_by
  read_claims comments = do events ← read_from 0 comments; ok (sort_by compare_claim_events events)

unfoldable pub merge_event : ClaimState → ClaimEvent → ClaimState
merge_event old e = record {
  claim = record (e.claim) {
    card_digest = or_else e.claim.card_digest old.claim.card_digest;
    marker_sequence = or_else e.claim.marker_sequence old.claim.marker_sequence;
  };
  comment_id = or_else e.comment_id old.comment_id;
  comment_created_at = or_else e.comment_created_at old.comment_created_at;
  event_index = e.event_index;
  events = old.events ++ e ∷ [];
}

unfoldable pub first_state : ClaimEvent → ClaimState
first_state e = record {
  claim = e.claim;
  comment_id = e.comment_id;
  comment_created_at = e.comment_created_at;
  event_index = e.event_index;
  events = e ∷ [];
}

-- `byClaimId.set(event.claim_id, merged)`.
unfoldable pub put_event : ClaimEvent → List ClaimState → List ClaimState
unfolding merge_event first_state
put_event e [] = first_state e ∷ []
put_event e (s ∷ states) =
    if str_eq s.claim.claim_id e.claim.claim_id
    then merge_event s e ∷ states
    else s ∷ put_event e states

unfoldable pub fold_events : List ClaimState → List ClaimEvent → List ClaimState
unfolding put_event
fold_events states [] = states
fold_events states (e ∷ es) = fold_events (put_event e states) es

module _ (collate : Collation) where
  -- `applyClaimEventLog` of claims that were read already.
  unfoldable pub reduce_events : List ClaimEvent → List ClaimState
  unfolding fold_events compare_claim_events compare_claim_states sort_by
  reduce_events events =
      sort_by (compare_claim_states collate)
        (fold_events [] (sort_by (compare_claim_events collate) events))

  -- `applyClaimEventLog` of a card's comments. (`readClaims` has sorted the events already.)
  unfoldable pub apply_claim_event_log : List Comment → Checked (List ClaimState)
  unfolding read_claims fold_events compare_claim_states sort_by
  apply_claim_event_log comments = do
    events ← read_claims collate comments
    ok (sort_by (compare_claim_states collate) (fold_events [] events))
