-- ===== src/Claims/Race.antt =====
-- Two daemons at one card whose readings differ (src/claims.js createBoardClaimStore, acquire and
-- verifyRenewableClaim).

use fizzy_symphony.Base.{ok}
use fizzy_symphony.Base.{
  ℕ, ◌≡◌, refl, sym, true, false, Option, none, some, List, [], ◌∷◌, String, Bool-cases, inl, inr,
  str_eq, eq_iff, ◌≢◌,
}
use fizzy_symphony.Base.Sort.{is_less}
use fizzy_symphony.Fizzy.Card.{Stamp}
use fizzy_symphony.Claims.Types.{Claim, Body, Comment, Collation}
use fizzy_symphony.Claims.Inputs.{Setting}
use fizzy_symphony.Claims.Markers.{create_claim_marker, parse_claim_marker}
use fizzy_symphony.Claims.RoundTrip.{parse_claim_marker-create_claim_marker}
use fizzy_symphony.Claims.EventLog.{ClaimState, apply_claim_event_log, event_of, first_state}
use fizzy_symphony.Claims.Select.{select_claim_winner, compare_claim_winner}
use fizzy_symphony.Claims.Store.{
  Options, new_claim, denied, lost_claim, verify_renewable_claim, is_acquired, decide, acquire,
}
use fizzy_symphony.Claims.TwoClaims.{
  posted, IsCandidate, log_one, log_two, winner_one, winner_two, winner_swapped,
}

module _ (collate : Collation) (options : Options) (now : ℕ) where
  acquire_empty :
      (w : Setting) (body : Body) (claim : Claim) (graced reread : List Comment)
      → create_claim_marker (new_claim options w) w now ≡ ok (body, claim)
      → acquire collate options now w [] graced reread
        ≡ decide collate options now w.card_id body claim [] (apply_claim_event_log collate reread)
  unfolding acquire apply_claim_event_log
  acquire_empty w body claim graced reread h = rw h

  decide_own :
      (card_id : Option String) (body : Body) (claim : Claim) (states : List ClaimState)
      (winner : ClaimState)
      → select_claim_winner collate card_id now options.max_clock_skew_ms states ≡ some winner
      → winner.claim.claim_id ≡ claim.claim_id
      → is_acquired (decide collate options now card_id body claim [] (ok states)).outcome ≡ true
  unfolding decide
  decide_own card_id body claim states winner h e =
      rw h (rw ((eq_iff winner.claim.claim_id claim.claim_id).1 e))

str_ne : (a b : String) → a ≢ b → str_eq a b ≡ false
str_ne a b h = elim (Bool-cases (str_eq a b)) [ inl e ↦ absurd (h ((eq_iff a b).0 e)) | inr e ↦ e ]

-- The state after a marker was posted as a comment's body.
abbrev pub commented : Body → Option Stamp → Comment
commented body created = record { id = none; created_at = created; body = body }

-- Two daemons both acquire the card if each sees no comments at first, both markers are live and
-- unexpired claims for the card with different IDs, the first daemon reads again when only its own
-- marker is there, and the second one, whose claim comes first by the order of winners, when both
-- are.
pub both_acquire :
    (collate : Collation) (options : Options) (now_a now_b : ℕ) (w_a w_b : Setting)
    (body_a body_b : Body) (a b : Claim) (created_a created_b : Option Stamp)
    → create_claim_marker (new_claim options w_a) w_a now_a ≡ ok (body_a, a)
    → create_claim_marker (new_claim options w_b) w_b now_b ≡ ok (body_b, b)
    → IsCandidate now_a w_a.card_id (posted 0 (commented body_a created_a) a)
    → IsCandidate now_b w_b.card_id (posted 0 (commented body_a created_a) a)
    → IsCandidate now_b w_b.card_id (posted 1 (commented body_b created_b) b)
    → a.claim_id ≢ b.claim_id
    → is_less (
        compare_claim_winner collate options.max_clock_skew_ms
          (posted 1 (commented body_b created_b) b)
          (posted 0 (commented body_a created_a) a))
      ≡ true
    → is_less (
        compare_claim_winner collate options.max_clock_skew_ms
          (posted 0 (commented body_a created_a) a)
          (posted 1 (commented body_b created_b) b))
      ≡ false
    → (is_acquired
          (acquire collate options now_a w_a [] [] (commented body_a created_a ∷ [])).outcome
        ≡ true)
      × (is_acquired
            (acquire collate options now_b w_b [] []
              (commented body_a created_a ∷ commented body_b created_b ∷ [])).outcome
          ≡ true)
unfolding first_state event_of
both_acquire collate options now_a now_b w_a w_b body_a body_b a b created_a created_b make_a make_b
      near_a far_a near_b differ wins loses =
    (
      rw
          (
            acquire_empty collate options now_a w_a body_a a [] (ca ∷ []) make_a,
            log_one collate ca a read_a,
          )
          (decide_own collate options now_a w_a.card_id body_a a (sa ∷ []) sa
            (winner_one collate now_a skew w_a.card_id sa near_a) refl),
      rw (acquire_empty collate options now_b w_b body_b b [] (ca ∷ cb ∷ []) make_b)
          (elim (log_two collate ca cb a b read_a read_b (str_ne a.claim_id b.claim_id differ)
            (str_ne b.claim_id a.claim_id (λ e. differ (sym e)))) [
              | inl kept ↦ rw kept (
                  decide_own collate options now_b w_b.card_id body_b b (sa ∷ sb ∷ []) sb
                    (winner_two collate now_b skew w_b.card_id sa sb far_a near_b loses wins) refl)
              | inr swapped ↦ rw swapped (
                  decide_own collate options now_b w_b.card_id body_b b (sb ∷ sa ∷ []) sb
                    (winner_swapped collate now_b skew w_b.card_id sa sb far_a near_b loses wins)
                    refl)
            ]),
    )
  where
    ca : Comment
    ca = commented body_a created_a

    cb : Comment
    cb = commented body_b created_b

    sa : ClaimState
    sa = posted 0 ca a

    sb : ClaimState
    sb = posted 1 cb b

    skew : ℕ
    skew = options.max_clock_skew_ms

    read_a : parse_claim_marker body_a ≡ ok a
    read_a =
        parse_claim_marker-create_claim_marker (new_claim options w_a) w_a now_a body_a a make_a

    read_b : parse_claim_marker body_b ≡ ok b
    read_b =
        parse_claim_marker-create_claim_marker (new_claim options w_b) w_b now_b body_b b make_b

-- The renewal finds that out: on the states of both claims, in either order, the one that loses to
-- another candidate is refused as lost.
pub verify_renewable_claim-lost :
    (collate : Collation) (options : Options) (now : ℕ) (s t : ClaimState)
    → IsCandidate now (some s.claim.card_id) s
    → IsCandidate now (some s.claim.card_id) t
    → s.claim.claim_id ≢ t.claim.claim_id
    → is_less (compare_claim_winner collate options.max_clock_skew_ms s t) ≡ false
    → is_less (compare_claim_winner collate options.max_clock_skew_ms t s) ≡ true
    → (verify_renewable_claim collate options now s.claim (s ∷ t ∷ []) ≡ denied lost_claim (some t))
      × (verify_renewable_claim collate options now s.claim (t ∷ s ∷ [])
          ≡ denied lost_claim (some t))
unfolding verify_renewable_claim
verify_renewable_claim-lost collate options now s t h k differ e f =
    let apart = str_ne t.claim.claim_id s.claim.claim_id (λ x. differ (sym x)) in
    (
      rw (winner_two collate now options.max_clock_skew_ms (some s.claim.card_id) s t h k e f)
          (rw apart),
      rw (winner_swapped collate now options.max_clock_skew_ms (some s.claim.card_id) s t h k e f)
          (rw apart),
    )
