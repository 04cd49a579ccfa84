-- ===== src/Claims/TwoClaims.antt =====
-- The comments and the states of two claims for one card (src/claims.js readClaims,
-- applyClaimEventLog and selectClaimWinner).
use Prim.Native.Nat.{Ordering}
use fizzy_symphony.Base.{ok, ◌>>=◌}
use fizzy_symphony.Base.{
  ℕ, ◌≡◌, ap, true, false, Option, some, List, [], ◌∷◌, String, arith, Bool-cases, inl, inr, str_eq,
  ltb, ◌⊎◌, filter, first,
}
use fizzy_symphony.Base.Sort.{sort_by, is_less}
use fizzy_symphony.Claims.Types.{
  Checked, Checked, Claim, Body, plain, broken, marked, Comment, Collation, is_terminal, ClaimEvent,
}
use fizzy_symphony.Claims.Markers.{parse_claim_marker}
use fizzy_symphony.Claims.EventLog.{
  ClaimState, apply_claim_event_log, event_of, first_state, read_comment, fold_events,
  compare_claim_events, compare_claim_states,
}
use fizzy_symphony.Claims.Select.{
  claim_matches, is_live, is_unexpired, select_claim_winner, compare_claim_winner,
}

-- The state that one comment with a claim leads to.
abbrev pub posted : ℕ → Comment → Claim → ClaimState
posted index c claim = first_state (event_of index c claim)

parse-plain : (claim : Claim) → parse_claim_marker plain ≡ ok claim → ⊥
unfolding parse_claim_marker
parse-plain claim h = cc

parse-broken : (claim : Claim) → parse_claim_marker broken ≡ ok claim → ⊥
unfolding parse_claim_marker
parse-broken claim h = cc

read_comment_ok :
    (index : ℕ) (c : Comment) (body : Body) (claim : Claim) (rest : Checked (List ClaimEvent))
    → parse_claim_marker body ≡ ok claim
    → read_comment index c body rest ≡ (rest >>= λ es. ok (event_of index c claim ∷ es))
unfolding read_comment
read_comment_ok index c plain claim rest h = absurd (parse-plain claim h)
read_comment_ok index c broken claim rest h = absurd (parse-broken claim h)
read_comment_ok index c (marked p) claim rest h = rw h

pub log_one :
    (collate : Collation) (c : Comment) (a : Claim)
    → parse_claim_marker c.body ≡ ok a
    → apply_claim_event_log collate (c ∷ []) ≡ ok (posted 0 c a ∷ [])
unfolding apply_claim_event_log
log_one collate c a h = rw (read_comment_ok 0 c c.body a (ok []) h)

sort_two :
    {A : Type 0} (cmp : A → A → Ordering) (s t : A)
    → (sort_by cmp (s ∷ t ∷ []) ≡ s ∷ t ∷ []) ⊎ (sort_by cmp (s ∷ t ∷ []) ≡ t ∷ s ∷ [])
unfolding sort_by
sort_two cmp s t = elim (Bool-cases (is_less (cmp t s))) [ inl e ↦ inr (rw e) | inr e ↦ inl (rw e) ]

fold_two :
    (e f : ClaimEvent)
    → str_eq e.claim.claim_id f.claim.claim_id ≡ false
    → fold_events [] (e ∷ f ∷ []) ≡ first_state e ∷ first_state f ∷ []
unfolding fold_events
fold_two e f h = rw h

-- Comments with the claims `a` and `b`, in whatever order their events are sorted.
pub log_two :
    (collate : Collation) (ca cb : Comment) (a b : Claim)
    → parse_claim_marker ca.body ≡ ok a
    → parse_claim_marker cb.body ≡ ok b
    → str_eq a.claim_id b.claim_id ≡ false
    → str_eq b.claim_id a.claim_id ≡ false
    → (apply_claim_event_log collate (ca ∷ cb ∷ []) ≡ ok (posted 0 ca a ∷ posted 1 cb b ∷ []))
      ⊎ (apply_claim_event_log collate (ca ∷ cb ∷ []) ≡ ok (posted 1 cb b ∷ posted 0 ca a ∷ []))
unfolding apply_claim_event_log
log_two collate ca cb a b h k d e =
    rw
      (
        read_comment_ok 0 ca ca.body a (read_comment 1 cb cb.body (ok [])) h,
        read_comment_ok 1 cb cb.body b (ok []) k,
      )
      (elim (sort_two (compare_claim_events collate) (event_of 0 ca a) (event_of 1 cb b)) [
        | inl kept ↦
            rw (kept, fold_two (event_of 0 ca a) (event_of 1 cb b) d)
              (states (posted 0 ca a) (posted 1 cb b))
        | inr swapped ↦
            rw (swapped, fold_two (event_of 1 cb b) (event_of 0 ca a) e)
              (swap (states (posted 1 cb b) (posted 0 ca a)))
      ])
  where
    states :
        (s t : ClaimState)
        → let sorted : Checked (List ClaimState) =
            ok (sort_by (compare_claim_states collate) (s ∷ t ∷ [])) in
          (sorted ≡ ok (s ∷ t ∷ [])) ⊎ (sorted ≡ ok (t ∷ s ∷ []))
    states s t = elim (sort_two (compare_claim_states collate) s t) [
      | inl x ↦ inl (ap ok x)
      | inr x ↦ inr (ap ok x)
    ]

    swap : {P Q : Type 0} → P ⊎ Q → Q ⊎ P
    swap (inl x) = inr x
    swap (inr x) = inl x

-- A live and unexpired claim for the card.
pub record IsCandidate (now : ℕ) (card_id : Option String) (s : ClaimState) : Type 0 where
  pub matches : claim_matches card_id s ≡ true
  pub live : is_terminal s.claim.status ≡ false
  pub unexpired : ltb now s.claim.expires_at ≡ true

module _ (collate : Collation) (now skew : ℕ) (card_id : Option String) where
  pub winner_one :
      (s : ClaimState)
      → IsCandidate now card_id s
      → select_claim_winner collate card_id now skew (s ∷ []) ≡ some s
  unfolding select_claim_winner
  winner_one s h = rw (h.matches, h.live, h.unexpired)

  candidates_one :
      (s : ClaimState)
      → IsCandidate now card_id s
      → filter (is_unexpired now) (filter is_live (filter (claim_matches card_id) (s ∷ [])))
        ≡ s ∷ []
  candidates_one s h = rw (h.matches, h.live, h.unexpired)

  candidates_two :
      (s t : ClaimState)
      → IsCandidate now card_id s
      → IsCandidate now card_id t
      → filter (is_unexpired now) (filter is_live (filter (claim_matches card_id) (s ∷ t ∷ [])))
        ≡ s ∷ t ∷ []
  candidates_two s t h k =
      ground (arith, h.matches, h.live, h.unexpired, k.matches, k.live, k.unexpired)

  first_two :
      (s t : ClaimState)
      → is_less (compare_claim_winner collate skew s t) ≡ false
      → is_less (compare_claim_winner collate skew t s) ≡ true
      → (first (sort_by (compare_claim_winner collate skew) (s ∷ t ∷ [])) ≡ some t)
        × (first (sort_by (compare_claim_winner collate skew) (t ∷ s ∷ [])) ≡ some t)
  unfolding sort_by
  first_two s t e f = (rw f, rw e)

  -- Of two candidates the lesser one wins, in whatever order they stand.
  pub winner_two :
      (s t : ClaimState)
      → IsCandidate now card_id s
      → IsCandidate now card_id t
      → is_less (compare_claim_winner collate skew s t) ≡ false
      → is_less (compare_claim_winner collate skew t s) ≡ true
      → select_claim_winner collate card_id now skew (s ∷ t ∷ []) ≡ some t
  unfolding select_claim_winner
  winner_two s t h k e f = elim (sort_two (compare_claim_states collate) s t) [
    | inl kept ↦ rw (kept, candidates_two s t h k) (first_two s t e f).0
    | inr swapped ↦ rw (swapped, candidates_two t s k h) (first_two s t e f).1
  ]

module _ (collate : Collation) (now skew : ℕ) (card_id : Option String) where
  pub winner_swapped :
      (s t : ClaimState)
      → IsCandidate now card_id s
      → IsCandidate now card_id t
      → is_less (compare_claim_winner collate skew s t) ≡ false
      → is_less (compare_claim_winner collate skew t s) ≡ true
      → select_claim_winner collate card_id now skew (t ∷ s ∷ []) ≡ some t
  unfolding select_claim_winner
  winner_swapped s t h k e f = elim (sort_two (compare_claim_states collate) t s) [
    | inl kept ↦
        rw (kept, candidates_two collate now skew card_id t s k h)
          (first_two collate now skew card_id s t e f).1
    | inr swapped ↦
        rw (swapped, candidates_two collate now skew card_id s t h k)
          (first_two collate now skew card_id s t e f).0
  ]
