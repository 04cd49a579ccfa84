-- ===== src/Claims/Inspect.antt =====
-- What a daemon finds of its own and of other claims when it starts (src/claims.js
-- inspectClaimMarkers).
use fizzy_symphony.Base.{err, ok}
use fizzy_symphony.Base.{
  ℕ, suc, Bool, not, ◌&&◌, Option, some, List, [], ◌∷◌, String, same_text, filter,
}
use fizzy_symphony.Claims.Types.{
  Checked, Body, plain, Comment, ClaimEvent, Collation, is_terminal, Claim,
}
use fizzy_symphony.Claims.Markers.{parse_claim_marker}
use fizzy_symphony.Claims.EventLog.{ClaimState, event_of, reduce_events}
use fizzy_symphony.Claims.Select.{is_live, is_unexpired}

-- The events and the IDs of the comments whose marker is malformed.
pub record Found : Type 0 where
  pub events : List ClaimEvent
  pub malformed : List (Option String)

unfoldable pub note_marker : ℕ → Comment → Checked Claim → Found → Found
unfolding event_of
note_marker index c (ok claim) f = record f { events = event_of index c claim ∷ f.events }
note_marker index c (err code) f = record f { malformed = c.id ∷ f.malformed }

unfoldable pub note_comment : ℕ → Comment → Body → Found → Found
unfolding note_marker
note_comment index c plain f = f
note_comment index c body f = note_marker index c (parse_claim_marker body) f

unfoldable pub collect : ℕ → List Comment → Found
unfolding note_comment
collect index [] = record { events = []; malformed = [] }
collect index (c ∷ cs) = note_comment index c c.body (collect (suc index) cs)

abbrev pub is_self : Option String → ClaimState → Bool
is_self instance_id s = same_text (some s.claim.instance_id) instance_id

pub record Inspection : Type 0 where
  pub claims : List ClaimState
  pub malformed : List (Option String)
  pub recoverable_expired_self_claims : List ClaimState
  pub live_self_claim_warnings : List ClaimState
  pub other_live_claims : List ClaimState
  pub terminal_claims : List ClaimState

unfoldable pub inspect_claim_markers : Collation → Option String → ℕ → List Comment → Inspection
unfolding collect reduce_events
inspect_claim_markers collate instance_id now comments =
    let found = collect 0 comments in
    let reduced = reduce_events collate found.events in
    record {
      claims = reduced;
      malformed = found.malformed;
      recoverable_expired_self_claims =
          filter (λ s. is_self instance_id s && (is_live s && not (is_unexpired now s))) reduced;
      live_self_claim_warnings =
          filter (λ s. is_self instance_id s && (is_live s && is_unexpired now s)) reduced;
      other_live_claims =
          filter (λ s. not (is_self instance_id s) && (is_live s && is_unexpired now s)) reduced;
      terminal_claims = filter (λ s. is_terminal s.claim.status) reduced;
    }
