-- ===== src/Claims/Winner.antt =====
-- Which claim wins when several were posted (src/claims.js selectClaimWinner and
-- compareClaimWinner).
use Prim.Native.Nat.{Ordering}
use fizzy_symphony.Base.{
  ℕ, ◌+◌, ◌-◌, ◌≤◌, ◌≡◌, sym, ◌∙◌, ap, Bool, true, false, ◌&&◌, Option, some, List, String, arith,
  leb, any, any-filter, any_ext_All, filter, All, All-map, All-filter_and, All-filter_if, All-first,
}
use fizzy_symphony.Base.Sort.{sort_by, is_less, IsConsistent, first-sort_by, All-sort_by}
use fizzy_symphony.Claims.Types.{Collation, IsCollation}
use fizzy_symphony.Claims.EventLog.{ClaimState, compare_claim_states}
use fizzy_symphony.Claims.Select.{
  claim_matches, is_live, is_unexpired, active_claims_for_card, select_claim_winner,
  compare_claim_winner,
}
use fizzy_symphony.Claims.Selection.{counts, any-active}

-- The claim started within `skew` after `t`.
abbrev pub StartedNear : ℕ → ℕ → ClaimState → Type 0
StartedNear t skew s = (t ≤ s.claim.started_at) × (s.claim.started_at ≤ t + skew)

compare_near :
    (collate : Collation) (t skew : ℕ) (a b : ClaimState)
    → StartedNear t skew a
    → StartedNear t skew b
    → compare_claim_winner collate skew a b ≡ collate a.claim.claim_id b.claim.claim_id
unfolding compare_claim_winner
compare_near collate t skew a b h k =
    let close : leb
          ((a.claim.started_at - b.claim.started_at) + (b.claim.started_at - a.claim.started_at))
          skew
        ≡ true =
      ground arith in
    rw close

near-IsConsistent :
    (collate : Collation) (t skew : ℕ)
    → IsCollation collate
    → IsConsistent (StartedNear t skew) (compare_claim_winner collate skew)
near-IsConsistent collate t skew c = record {
  asym = λ a b p q h.
      rw (compare_near collate t skew b a q p)
        (c.asym a.claim.claim_id b.claim.claim_id (rw (compare_near collate t skew a b p q) at h));
  trans = λ a b d p q r h k. rw (compare_near collate t skew d a r p) (
      c.trans a.claim.claim_id b.claim.claim_id d.claim.claim_id
        (rw (compare_near collate t skew b a q p) at h)
        (rw (compare_near collate t skew d b r q) at k));
}

candidates_near :
    (collate : Collation) (card_id : Option String) (now t skew : ℕ) (states : List ClaimState)
    → All (λ s. counts card_id (is_unexpired now) s ≡ true → StartedNear t skew s) states
    → All
        (StartedNear t skew)
        (filter (is_unexpired now) (active_claims_for_card collate card_id states))
unfolding active_claims_for_card
candidates_near collate card_id now t skew states h =
    let P = StartedNear t skew in
    let sorted = sort_by (compare_claim_states collate) states in
    All-filter_if P (is_unexpired now) (filter is_live (filter (claim_matches card_id) sorted)) (
      All-filter_and P is_live (is_unexpired now) (filter (claim_matches card_id) sorted) (
        All-filter_and P (claim_matches card_id) (λ s. is_live s && is_unexpired now s) sorted
          (All-sort_by (λ s. counts card_id (is_unexpired now) s ≡ true → P s)
            (compare_claim_states collate) states h)))

-- If all live and unexpired claims for the card started within the clock skew of one another, then
-- no such claim has an ID that comes before the winner's.
pub select_claim_winner_least :
    (collate : Collation) (card_id : Option String) (now t skew : ℕ) (states : List ClaimState)
    (w : ClaimState)
    → IsCollation collate
    → All (λ s. counts card_id (is_unexpired now) s ≡ true → StartedNear t skew s) states
    → select_claim_winner collate card_id now skew states ≡ some w
    → any
        (counts card_id
          (λ s. is_unexpired now s && is_less (collate s.claim.claim_id w.claim.claim_id)))
        states
      ≡ false
unfolding select_claim_winner
select_claim_winner_least collate card_id now t skew states w c h e =
    sym (any-active collate card_id (λ s. is_unexpired now s && less s) states)
    ∙ sym (any-filter less (is_unexpired now) (active_claims_for_card collate card_id states))
    ∙ any_ext_All less (λ s. is_less (cmp s w)) cands
        (All-map (λ s. less s ≡ is_less (cmp s w)) P cands
          (λ s p. ap is_less (sym (compare_near collate t skew s w p near_w))) near)
    ∙ first-sort_by P cmp (near-IsConsistent collate t skew c) w cands near e
  where
    P : ClaimState → Type 0
    P = StartedNear t skew

    cmp : ClaimState → ClaimState → Ordering
    cmp = compare_claim_winner collate skew

    less : ClaimState → Bool
    less s = is_less (collate s.claim.claim_id w.claim.claim_id)

    cands : List ClaimState
    cands = filter (is_unexpired now) (active_claims_for_card collate card_id states)

    near : All P cands
    near = candidates_near collate card_id now t skew states h

    near_w : P w
    near_w = All-first P (sort_by cmp cands) w (All-sort_by P cmp cands near) e
