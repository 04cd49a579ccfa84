-- ===== src/Claims/Select.antt =====
-- Which claim of a card counts (src/claims.js selectActiveClaim, canAcquireClaim,
-- selectClaimWinner and inspectClaimMarkers), over reduced claim states.
use Prim.Native.Nat.{Ordering, compare}
use fizzy_symphony.Base.{
  ℕ, ◌+◌, ◌-◌, Bool, true, false, not, Option, none, some, List, [], ◌∷◌, String, if◌then◌else◌,
  ltb, leb, truthy, same_text, filter, first, find,
}
use fizzy_symphony.Base.Sort.{or_compare, sort_by}
use fizzy_symphony.Claims.Types.{Collation, is_terminal}
use fizzy_symphony.Claims.EventLog.{ClaimState, compare_claim_states, compare_active_claim_order}

-- `!cardId || claim.card_id === cardId`.
abbrev pub claim_matches : Option String → ClaimState → Bool
claim_matches card_id s = if truthy card_id then same_text (some s.claim.card_id) card_id else true

abbrev pub is_live : ClaimState → Bool
is_live s = not (is_terminal s.claim.status)

abbrev pub is_unexpired : ℕ → ClaimState → Bool
is_unexpired now s = ltb now s.claim.expires_at

abbrev distance : ℕ → ℕ → ℕ
distance a b = (a - b) + (b - a)

module _ (collate : Collation) where
  unfoldable pub active_claims_for_card : Option String → List ClaimState → List ClaimState
  unfolding compare_claim_states sort_by
  active_claims_for_card card_id states =
      filter is_live
        (filter (claim_matches card_id) (sort_by (compare_claim_states collate) states))

  unfoldable pub select_active_claim : Option String → ℕ → List ClaimState → Option ClaimState
  unfolding active_claims_for_card compare_active_claim_order sort_by
  select_active_claim card_id now states = first (
      sort_by (compare_active_claim_order collate)
        (filter (is_unexpired now) (active_claims_for_card card_id states)))

  -- Two claims that started within the clock skew of each other are told apart by their IDs.
  unfoldable pub compare_claim_winner : ℕ → ClaimState → ClaimState → Ordering
  compare_claim_winner skew a b =
      if leb (distance a.claim.started_at b.claim.started_at) skew
      then collate a.claim.claim_id b.claim.claim_id
      else or_compare (compare a.claim.started_at b.claim.started_at)
          (collate a.claim.claim_id b.claim.claim_id)

  unfoldable pub select_claim_winner : Option String → ℕ → ℕ → List ClaimState → Option ClaimState
  unfolding active_claims_for_card compare_claim_winner sort_by
  select_claim_winner card_id now skew states = first (
      sort_by (compare_claim_winner skew)
        (filter (is_unexpired now) (active_claims_for_card card_id states)))

pub data Acquirable : Type 0 where
  active_claim : ClaimState → Acquirable
  claim_steal_grace : ClaimState → Acquirable
  no_active_claim expired_stealable : Acquirable

-- The field `ok` of the result.
abbrev pub may_acquire : Acquirable → Bool
may_acquire no_active_claim = true
may_acquire expired_stealable = true
may_acquire _ = false

abbrev pub in_grace : ℕ → ℕ → ClaimState → Bool
in_grace now grace s = leb now (s.claim.expires_at + grace)

without_active : Option ClaimState → List ClaimState → Acquirable
without_active blocked [] = no_active_claim
without_active none (c ∷ cs) = expired_stealable
without_active (some b) (c ∷ cs) = claim_steal_grace b

unfoldable pub acquirable : Option ClaimState → Option ClaimState → List ClaimState → Acquirable
unfolding without_active
acquirable (some c) blocked live = active_claim c
acquirable none blocked live = without_active blocked live

module _ (collate : Collation) where
  unfoldable pub can_acquire_claim : Option String → ℕ → ℕ → List ClaimState → Acquirable
  unfolding acquirable select_active_claim active_claims_for_card compare_active_claim_order sort_by
  can_acquire_claim card_id now grace states =
      let live =
        sort_by (compare_active_claim_order collate)
          (active_claims_for_card collate card_id states) in
      acquirable (select_active_claim collate card_id now states) (find (in_grace now grace) live)
        live
