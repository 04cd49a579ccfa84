-- ===== src/Claims/Acquire.antt =====
-- What a daemon that acquired a claim may rely on (src/claims.js createBoardClaimStore, acquire).
use fizzy_symphony.Base.{err, ok}
use fizzy_symphony.Base.{
  ℕ, ◌≡◌, refl, sym, ◌∙◌, ap, subst, true, false, Option, some, List, [], ◌∷◌, String, is_some, any,
  Option-cases, Bool-cases, inl, inr, eq_iff, ltb,
}
use fizzy_symphony.Claims.Types.{Checked, Claim, Body, Comment, Collation}
use fizzy_symphony.Claims.Inputs.{ClaimInput, Setting}
use fizzy_symphony.Claims.Markers.{create_claim_marker}
use fizzy_symphony.Claims.EventLog.{ClaimState, apply_claim_event_log}
use fizzy_symphony.Claims.Select.{select_active_claim, select_claim_winner, is_unexpired}
use fizzy_symphony.Claims.Selection.{counts, is_some-select_active_claim}
use fizzy_symphony.Claims.Store.{
  Options, new_claim, acquired, is_own, decide, post_claim, after_grace, steal_or_claim,
  start_claim, acquire, expired_claims,
}

module _ (collate : Collation) (options : Options) (now : ℕ) where
  -- The reading after the post shows the claim as the winner.
  pub record IsWon (card_id : Option String) (reread : List Comment) (claim : Claim) : Type 0 where
    pub states : List ClaimState
    pub winner : ClaimState
    pub read : apply_claim_event_log collate reread ≡ ok states
    pub won : select_claim_winner collate card_id now options.max_clock_skew_ms states ≡ some winner
    pub own : winner.claim.claim_id ≡ claim.claim_id

  is_own-IsWon :
      (card_id : Option String) (reread : List Comment) (claim : Claim) (states : List ClaimState)
      → apply_claim_event_log collate reread ≡ ok states
      → is_own claim (select_claim_winner collate card_id now options.max_clock_skew_ms states)
        ≡ true
      → IsWon card_id reread claim
  is_own-IsWon card_id reread claim states read own =
      elim (Option-cases
        (select_claim_winner collate card_id now options.max_clock_skew_ms states)) [
          | inl nobody ↦ absurd (cc (rw nobody at own))
          | inr (w, won) ↦ record {
            states = states;
            winner = w;
            read = read;
            won = won;
            own = (eq_iff w.claim.claim_id claim.claim_id).0 (rw won at own);
          }
        ]

  decide-IsWon :
      (card_id : Option String) (reread : List Comment) (body : Body) (made claim : Claim)
      (stolen replaced : List ClaimState) (read : Checked (List ClaimState))
      → apply_claim_event_log collate reread ≡ read
      → (decide collate options now card_id body made stolen read).outcome ≡ acquired claim replaced
      → IsWon card_id reread claim
  unfolding decide
  decide-IsWon card_id reread body made claim stolen replaced (err code) r h = absurd (cc)
  decide-IsWon card_id reread body made claim stolen replaced (ok states) r h =
      elim (Bool-cases
        (is_own made (select_claim_winner collate card_id now options.max_clock_skew_ms states))) [
          | inl own ↦
              subst (IsWon card_id reread) (acquired_made (rw own at h))
                (is_own-IsWon card_id reread made states r own)
          | inr other ↦ absurd (cc (rw other at h))
        ]
    where
      acquired_made : acquired made stolen ≡ acquired claim replaced → made ≡ claim
      acquired_made e = cc

  post_claim-IsWon :
      (input : ClaimInput) (w : Setting) (reread : List Comment) (stolen : List ClaimState)
      (made : Checked (Body × Claim)) (claim : Claim) (replaced : List ClaimState)
      → (post_claim collate options now input w reread stolen made).outcome
        ≡ acquired claim replaced
      → IsWon w.card_id reread claim
  unfolding post_claim
  post_claim-IsWon input w reread stolen (err code) claim replaced h = absurd (cc)
  post_claim-IsWon input w reread stolen (ok (body, made)) claim replaced h =
      decide-IsWon w.card_id reread body made claim stolen replaced
        (apply_claim_event_log collate reread) refl h

  after_grace-IsWon :
      (input : ClaimInput) (w : Setting) (reread : List Comment) (stolen : List ClaimState)
      (read : Checked (List ClaimState)) (claim : Claim) (replaced : List ClaimState)
      → (after_grace collate options now input w reread stolen read).outcome
        ≡ acquired claim replaced
      → IsWon w.card_id reread claim
  unfolding after_grace
  after_grace-IsWon input w reread stolen (err code) claim replaced h = absurd (cc)
  after_grace-IsWon input w reread stolen (ok states) claim replaced h =
      elim (Option-cases (select_active_claim collate w.card_id now states)) [
        | inl free ↦
            post_claim-IsWon input w reread stolen (create_claim_marker input w now) claim replaced
              (rw (free, after_grace) at h)
        | inr (live, busy) ↦ absurd (cc (rw (busy, after_grace) at h))
      ]

  steal_or_claim-IsWon :
      (input : ClaimInput) (w : Setting) (graced reread : List Comment) (stolen : List ClaimState)
      (claim : Claim) (replaced : List ClaimState)
      → (steal_or_claim collate options now input w graced reread stolen).outcome
        ≡ acquired claim replaced
      → IsWon w.card_id reread claim
  unfolding steal_or_claim
  steal_or_claim-IsWon input w graced reread [] claim replaced h =
      post_claim-IsWon input w reread [] (create_claim_marker input w now) claim replaced h
  steal_or_claim-IsWon input w graced reread (s ∷ stolen) claim replaced h =
      elim (Bool-cases (ltb 0 options.steal_grace_ms)) [
        | inl wait ↦
            after_grace-IsWon input w reread (s ∷ stolen) (apply_claim_event_log collate graced)
              claim replaced (rw wait at h)
        | inr now_ ↦
            post_claim-IsWon input w reread (s ∷ stolen) (create_claim_marker input w now) claim
              replaced (rw now_ at h)
      ]

  -- No live claim for the card was unexpired at a reading.
  pub record IsFree (card_id : Option String) (comments : List Comment) : Type 0 where
    pub states : List ClaimState
    pub read : apply_claim_event_log collate comments ≡ ok states
    pub free : any (counts card_id (is_unexpired now)) states ≡ false

  start_claim_sound :
      (input : ClaimInput) (w : Setting) (initial graced reread : List Comment)
      (read : Checked (List ClaimState)) (claim : Claim) (replaced : List ClaimState)
      → apply_claim_event_log collate initial ≡ read
      → (start_claim collate options now input w graced reread read).outcome
        ≡ acquired claim replaced
      → IsFree w.card_id initial × IsWon w.card_id reread claim
  unfolding start_claim
  start_claim_sound input w initial graced reread (err code) claim replaced r h = absurd (cc)
  start_claim_sound input w initial graced reread (ok states) claim replaced r h =
      elim (Option-cases (select_active_claim collate w.card_id now states)) [
        | inl free ↦ (
          record {
            states = states;
            read = r;
            free = sym (is_some-select_active_claim collate w.card_id now states) ∙ ap is_some free;
          },
          steal_or_claim-IsWon input w graced reread
              (expired_claims collate options now w.card_id states) claim replaced
              (rw (free, start_claim) at h),
        )
        | inr (live, busy) ↦ absurd (cc (rw (busy, start_claim) at h))
      ]

  -- A daemon that acquires a claim saw no live and unexpired claim for the card at its first reading,
  -- and saw its own claim as the winner at the reading after its post.
  pub acquire_sound :
      (w : Setting) (initial graced reread : List Comment) (claim : Claim)
      (replaced : List ClaimState)
      → (acquire collate options now w initial graced reread).outcome ≡ acquired claim replaced
      → IsFree w.card_id initial × IsWon w.card_id reread claim
  unfolding acquire
  acquire_sound w initial graced reread claim replaced h =
      start_claim_sound (new_claim options w) w initial graced reread
        (apply_claim_event_log collate initial) claim replaced refl h
