-- ===== src/Claims/Selection.antt =====
-- Which claims block a card and which one wins (src/claims.js canAcquireClaim, selectActiveClaim
-- and selectClaimWinner).

use fizzy_symphony.Base.{
  ℕ, ◌≡◌, refl, ◌∙◌, Bool, true, not, ◌&&◌, Option, none, some, List, [], ◌∷◌, String, arith, any,
  any-filter, is_some, is_some-find, is_some-first, any_ext, any_mono, find, filter,
}
use fizzy_symphony.Base.Sort.{sort_by, any-sort_by}
use fizzy_symphony.Claims.Types.{Collation}
use fizzy_symphony.Claims.EventLog.{ClaimState, compare_active_claim_order, compare_claim_states}
use fizzy_symphony.Claims.Select.{
  claim_matches, is_live, is_unexpired, in_grace, active_claims_for_card, select_active_claim,
  may_acquire, can_acquire_claim, acquirable,
}

-- The claim is live and for the card, and passes a test.
abbrev pub counts : Option String → (ClaimState → Bool) → ClaimState → Bool
counts card_id p s = claim_matches card_id s && (is_live s && p s)

pub any-active :
    (collate : Collation) (card_id : Option String) (p : ClaimState → Bool)
    (states : List ClaimState)
    → any p (active_claims_for_card collate card_id states) ≡ any (counts card_id p) states
unfolding active_claims_for_card
any-active collate card_id p states =
    any-filter p is_live
      (filter (claim_matches card_id) (sort_by (compare_claim_states collate) states))
    ∙ any-filter (λ s. is_live s && p s) (claim_matches card_id)
        (sort_by (compare_claim_states collate) states)
    ∙ any-sort_by (counts card_id p) (compare_claim_states collate) states

-- There is an active claim exactly if some live claim for the card is unexpired.
pub is_some-select_active_claim :
    (collate : Collation) (card_id : Option String) (now : ℕ) (states : List ClaimState)
    → is_some (select_active_claim collate card_id now states)
      ≡ any (counts card_id (is_unexpired now)) states
unfolding select_active_claim
is_some-select_active_claim collate card_id now states =
    is_some-first (
      sort_by (compare_active_claim_order collate)
        (filter (is_unexpired now) (active_claims_for_card collate card_id states)))
    ∙ any-sort_by (λ s. true) (compare_active_claim_order collate)
        (filter (is_unexpired now) (active_claims_for_card collate card_id states))
    ∙ any-filter (λ s. true) (is_unexpired now) (active_claims_for_card collate card_id states)
    ∙ any-active collate card_id (λ s. is_unexpired now s && true) states
    ∙ any_ext (counts card_id (λ s. is_unexpired now s && true)) (counts card_id (is_unexpired now))
        states (λ s. ground arith)

may_acquire-acquirable :
    (a : Option ClaimState) (live : List ClaimState) (p : ClaimState → Bool)
    → may_acquire (acquirable a (find p live) live) ≡ (not (is_some a) && not (any p live))
unfolding acquirable
may_acquire-acquirable (some a) live p = refl
may_acquire-acquirable none [] p = refl
may_acquire-acquirable none (c ∷ live) p = ground (arith, is_some-find p (c ∷ live))

unexpired-in_grace :
    (card_id : Option String) (now grace : ℕ) (s : ClaimState)
    → counts card_id (is_unexpired now) s ≡ true
    → counts card_id (in_grace now grace) s ≡ true
unexpired-in_grace card_id now grace s h = ground arith

-- A card may be claimed exactly if every live claim for it ended longer ago than the grace period.
pub can_acquire_claim_lem :
    (collate : Collation) (card_id : Option String) (now grace : ℕ) (states : List ClaimState)
    → may_acquire (can_acquire_claim collate card_id now grace states)
      ≡ not (any (counts card_id (in_grace now grace)) states)
unfolding can_acquire_claim
can_acquire_claim_lem collate card_id now grace states =
    may_acquire-acquirable (select_active_claim collate card_id now states) live
      (in_grace now grace)
    ∙ ground (
      arith,
      is_some-select_active_claim collate card_id now states,
      any-sort_by (in_grace now grace) (compare_active_claim_order collate)
          (active_claims_for_card collate card_id states),
      any-active collate card_id (in_grace now grace) states,
      any_mono (counts card_id (is_unexpired now)) (counts card_id (in_grace now grace)) states
          (unexpired-in_grace card_id now grace),
    )
  where
    live : List ClaimState
    live =
        sort_by (compare_active_claim_order collate) (active_claims_for_card collate card_id states)
