-- ===== src/Claims/Store.antt =====
-- The board claim store (src/claims.js createBoardClaimStore): acquire, renew, release and expire.
-- What a daemon reads are the card's comments at each of its calls of the Fizzy client, which other
-- daemons write in between; what it posts is listed in order. The calls of the client are taken to
-- return; assigning and watching the card and the status records change no claim.
use fizzy_symphony.Base.{err, ok, ◌>>=◌}
use fizzy_symphony.Base.{
  ℕ, ◌+◌, Bool, true, false, not, Option, none, some, List, [], ◌∷◌, String, if◌then◌else◌, ltb,
  leb, str_eq, find, filter, get_or,
}
use fizzy_symphony.Fizzy.Card.{at}
use fizzy_symphony.Base.Sort.{sort_by}
use fizzy_symphony.Claims.Types.{
  Code, invalid_claim_config, Checked, Status, renewed, lost, is_terminal, Claim, Body, Comment,
  Collation,
}
use fizzy_symphony.Claims.Inputs.{no_input, ClaimInput, Setting, input_of, setting_of}
use fizzy_symphony.Claims.Markers.{
  create_claim_marker, create_release_marker, positive_number, default_lease_ms,
}
use fizzy_symphony.Claims.EventLog.{ClaimState, apply_claim_event_log, compare_active_claim_order}
use fizzy_symphony.Claims.Select.{
  select_active_claim, active_claims_for_card, select_claim_winner, is_unexpired,
}

pub record Options : Type 0 where
  pub lease_ms : ℕ
  pub steal_grace_ms : ℕ
  pub max_clock_skew_ms : ℕ

-- `config.claims`, where negative numbers are left out.
unfoldable pub claim_options : Option ℕ → Option ℕ → Option ℕ → Checked Options
unfolding positive_number
claim_options lease_ms steal_grace_ms max_clock_skew_ms = do
  lease ← positive_number invalid_claim_config (get_or lease_ms default_lease_ms)
  ok (record {
    lease_ms = lease;
    steal_grace_ms = get_or steal_grace_ms 30000;
    max_clock_skew_ms = get_or max_clock_skew_ms 30000;
  })

pub data Why : Type 0 where
  active_claim active_claim_after_grace lost_claim claim_missing claim_terminal claim_expired
        no_live_claim :
      Why

pub data Acquired : Type 0 where
  -- the claim, and the expired claims that it replaces
  acquired : Claim → List ClaimState → Acquired
  refused : Why → Option ClaimState → Acquired
  threw : Code → Acquired

-- What a daemon posted, and the outcome.
pub record Attempt : Type 0 where
  pub posts : List Body
  pub outcome : Acquired

abbrev pub is_acquired : Acquired → Bool
is_acquired (acquired c stolen) = true
is_acquired _ = false

abbrev stops : Acquired → Attempt
stops outcome = record { posts = []; outcome = outcome }

-- `postLostClaim` posts a marker with the status "lost" if one can be made.
lost_posts : Checked (Body × Claim) → List Body
lost_posts (ok (body, claim)) = body ∷ []
lost_posts (err code) = []

-- The claim is the winner's.
abbrev pub is_own : Claim → Option ClaimState → Bool
is_own claim none = false
is_own claim (some winner) = str_eq winner.claim.claim_id claim.claim_id

-- The `claim` that `acquire` passes to `createClaimMarker`: new IDs and the lease.
abbrev pub new_claim : Options → Setting → ClaimInput
new_claim options w = record no_input {
  claim_id = some w.fresh_claim_id;
  attempt_id = some w.fresh_attempt_id;
  run_id = some w.fresh_run_id;
  lease_ms = some options.lease_ms;
}

module _ (collate : Collation) (options : Options) (now : ℕ) where
  -- After posting the marker: who won, by the comments that are read again.
  unfoldable pub decide :
      Option String → Body → Claim → List ClaimState → Checked (List ClaimState) → Attempt
  unfolding lost_posts select_claim_winner create_release_marker
  decide card_id body claim stolen (err code) = record { posts = body ∷ []; outcome = threw code }
  decide card_id body claim stolen (ok states) =
      let winner = select_claim_winner collate card_id now options.max_clock_skew_ms states in
      if is_own claim winner
      then record { posts = body ∷ []; outcome = acquired claim stolen }
      else record {
        posts = body ∷ lost_posts (create_release_marker claim lost now);
        outcome = refused lost_claim winner;
      }

  unfoldable pub post_claim :
      ClaimInput → Setting → List Comment → List ClaimState → Checked (Body × Claim) → Attempt
  unfolding decide
  post_claim input w reread stolen (err code) = stops (threw code)
  post_claim input w reread stolen (ok (body, claim)) =
      decide w.card_id body claim stolen (apply_claim_event_log collate reread)

  unfoldable pub expired_claims : Option String → List ClaimState → List ClaimState
  unfolding active_claims_for_card compare_active_claim_order sort_by
  expired_claims card_id states =
      sort_by (compare_active_claim_order collate)
        (filter (λ s. not (is_unexpired now s)) (active_claims_for_card collate card_id states))

  -- The second reading, after the grace period in which the old owner may still renew.
  unfoldable pub after_grace :
      ClaimInput → Setting → List Comment → List ClaimState → Checked (List ClaimState) → Attempt
  unfolding post_claim select_active_claim
  after_grace input w reread stolen (err code) = stops (threw code)
  after_grace input w reread stolen (ok states) =
      elim (select_active_claim collate w.card_id now states) [
        | some live ↦ stops (refused active_claim_after_grace (some live))
        | none ↦ post_claim input w reread stolen (create_claim_marker input w now)
      ]

  unfoldable pub steal_or_claim :
      ClaimInput → Setting → List Comment → List Comment → List ClaimState → Attempt
  unfolding after_grace
  steal_or_claim input w graced reread [] =
      post_claim input w reread [] (create_claim_marker input w now)
  steal_or_claim input w graced reread (s ∷ stolen) =
      if ltb 0 options.steal_grace_ms
      then after_grace input w reread (s ∷ stolen) (apply_claim_event_log collate graced)
      else post_claim input w reread (s ∷ stolen) (create_claim_marker input w now)

  unfoldable pub start_claim :
      ClaimInput → Setting → List Comment → List Comment → Checked (List ClaimState) → Attempt
  unfolding steal_or_claim select_active_claim expired_claims
  start_claim input w graced reread (err code) = stops (threw code)
  start_claim input w graced reread (ok states) =
      elim (select_active_claim collate w.card_id now states) [
        | some live ↦ stops (refused active_claim (some live))
        | none ↦ steal_or_claim input w graced reread (expired_claims w.card_id states)
      ]

  -- `initial`, `graced` and `reread` are the comments at the three readings.
  unfoldable pub acquire : Setting → (initial graced reread : List Comment) → Attempt
  unfolding start_claim
  acquire w initial graced reread =
      start_claim (new_claim options w) w graced reread (apply_claim_event_log collate initial)

pub data Verdict : Type 0 where
  verified : ClaimState → Verdict
  denied : Why → Option ClaimState → Verdict

module _ (collate : Collation) (options : Options) (now : ℕ) where
  check_own : Option ClaimState → Option ClaimState → Verdict
  check_own winner none = denied claim_missing winner
  check_own winner (some own) =
      if is_terminal own.claim.status
      then denied claim_terminal winner
      else if not (is_unexpired now own)
      then denied claim_expired winner
      else elim winner [ none ↦ denied no_live_claim none | some w ↦ verified own ]

  check_winner : Claim → List ClaimState → Option ClaimState → Verdict
  unfolding check_own
  check_winner claim states winner =
      let own = check_own winner (find (λ s. str_eq s.claim.claim_id claim.claim_id) states) in
      elim winner [
        | none ↦ own
        | some w ↦
            if str_eq w.claim.claim_id claim.claim_id then own else denied lost_claim (some w)
      ]

  -- `verifyRenewableClaim` of the states that it has read.
  unfoldable pub verify_renewable_claim : Claim → List ClaimState → Verdict
  unfolding check_winner select_claim_winner
  verify_renewable_claim claim states =
      check_winner claim states
        (select_claim_winner collate (some claim.card_id) now options.max_clock_skew_ms states)

pub data Renewed : Type 0 where
  renewed_claim : Claim → Renewed
  renewal_lost : Why → Option ClaimState → Renewed
  -- the exception is thrown on, or returned with the claim
  throws failed_with : Code → Renewed

pub record Renewal : Type 0 where
  pub posts : List Body
  pub outcome : Renewed

module _ (collate : Collation) (options : Options) (now : ℕ) where
  unfoldable pub confirm_renewal : Body → Claim → Checked (List ClaimState) → Renewal
  unfolding verify_renewable_claim lost_posts
  confirm_renewal body claim (err code) = record { posts = body ∷ []; outcome = failed_with code }
  confirm_renewal body claim (ok states) =
      elim (verify_renewable_claim collate options now claim states) [
        | verified own ↦ record { posts = body ∷ []; outcome = renewed_claim claim }
        | denied why winner ↦ record {
          posts = body ∷ lost_posts (create_release_marker claim lost now);
          outcome = renewal_lost why winner;
        }
      ]

  post_renewal : List Comment → Checked (Body × Claim) → Renewal
  unfolding confirm_renewal
  post_renewal after (err code) = record { posts = []; outcome = throws code }
  post_renewal after (ok (body, claim)) =
      confirm_renewal body claim (apply_claim_event_log collate after)

  start_renewal : Claim → List Comment → Checked (List ClaimState) → Renewal
  unfolding post_renewal verify_renewable_claim
  start_renewal claim after (err code) = record { posts = []; outcome = throws code }
  start_renewal claim after (ok states) =
      elim (verify_renewable_claim collate options now claim states) [
        | denied why winner ↦ record { posts = []; outcome = renewal_lost why winner }
        | verified own ↦ post_renewal after (
            create_claim_marker
              (record (input_of claim renewed) {
                renewed_at = some (at now);
                expires_at = some (at (now + options.lease_ms));
              })
              (setting_of claim) now)
      ]

  -- `before` and `after` are the comments at the two readings.
  unfoldable pub renew : Claim → (before after : List Comment) → Renewal
  unfolding start_renewal
  renew claim before after = start_renewal claim after (apply_claim_event_log collate before)

-- `release`: the marker that is posted, if the status is terminal and the claim is valid.
unfoldable pub release : Claim → Status → ℕ → Checked (Body × Claim)
unfolding create_release_marker
release claim status now = create_release_marker claim status now

-- `expire` says whether the claim's lease is over.
unfoldable pub expire : Claim → ℕ → Bool
expire claim now = leb claim.expires_at now
