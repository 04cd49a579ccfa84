-- ===== src/Tests/Claims.antt =====
-- Claims at concrete inputs.
use Prim.Native.Nat.{compare}
use Prim.Native.String.{len}
use fizzy_symphony.Base.{ok}
use fizzy_symphony.Base.{
  ℕ, ◌≡◌, refl, ◌+◌, true, false, not, ◌&&◌, none, some, List, [], ◌∷◌, String, any, arith,
}
use fizzy_symphony.Base.Sort.{is_less}
use fizzy_symphony.Fizzy.Card.{at}
use fizzy_symphony.Claims.Types.{
  claimed, Claim, Comment, Collation, IsCollation, Payload, marked, plain, status_of,
}
use fizzy_symphony.Claims.Inputs.{Setting}
use fizzy_symphony.Claims.Markers.{
  to_time_ms, create_claim_marker, parse_claim_marker, validate_claim_payload, is_claim_marker,
  required, present, known_status,
}
use fizzy_symphony.Claims.EventLog.{ClaimState, first_state, event_of, apply_claim_event_log}
use fizzy_symphony.Claims.Select.{
  is_unexpired, in_grace, select_claim_winner, can_acquire_claim, may_acquire, compare_claim_winner,
}
use fizzy_symphony.Claims.Selection.{counts, can_acquire_claim_lem}
use fizzy_symphony.Claims.Winner.{select_claim_winner_least}
use fizzy_symphony.Claims.Store.{Options, new_claim, Acquired, acquired, acquire, is_acquired}
use fizzy_symphony.Claims.TwoClaims.{IsCandidate, posted}
use fizzy_symphony.Claims.Race.{commented, both_acquire}
use fizzy_symphony.Claims.Acquire.{IsFree, IsWon, acquire_sound}
use fizzy_symphony.Claims.Exclusive.{Sees, acquire_exclusive}
use fizzy_symphony.Base.{◌≢◌, inl}

-- Texts by their lengths.
abbrev by_length : Collation
by_length a b = compare (len a) (len b)

by_length-IsCollation : IsCollation by_length
by_length-IsCollation = record { asym = λ a b h. ground arith; trans = λ a b c h k. ground arith }

abbrev options : Options
options = record { lease_ms = 900000; steal_grace_ms = 30000; max_clock_skew_ms = 30000 }

abbrev setting : String → String → Setting
setting claim_id instance_id = record {
  route_id = some "route";
  route_fingerprint = some "print";
  route_board_id = none;
  card_id = some "card";
  card_board_id = some "board";
  card_digest = none;
  instance_id = some instance_id;
  daemon_version = none;
  workspace_key = some "space";
  workspace_identity_digest = some "digest";
  fresh_claim_id = claim_id;
  fresh_attempt_id = "try";
  fresh_run_id = "run";
}

abbrev claim : String → String → ℕ → Claim
claim claim_id instance_id now = record {
  claim_id = claim_id;
  status = claimed;
  card_id = "card";
  board_id = "board";
  card_digest = none;
  route_id = "route";
  route_fingerprint = "print";
  workspace_key = "space";
  workspace_identity_digest = "digest";
  instance_id = instance_id;
  attempt_id = "try";
  run_id = "run";
  daemon_version = "unknown";
  started_at = now;
  renewed_at = now;
  expires_at = now + 900000;
  marker_sequence = none;
}

abbrev payload : String → String → ℕ → Payload
payload claim_id instance_id now = record {
  marker = some "fizzy-symphony:claim:v1";
  claim_id = some claim_id;
  status = some "claimed";
  card_id = some "card";
  board_id = some "board";
  card_digest = none;
  route_id = some "route";
  route_fingerprint = some "print";
  workspace_key = some "space";
  workspace_identity_digest = some "digest";
  instance_id = some instance_id;
  attempt_id = some "try";
  run_id = some "run";
  daemon_version = some "unknown";
  started_at = some (at now);
  renewed_at = some (at now);
  expires_at = some (at (now + 900000));
  lease_expires_at = none;
  marker_sequence = none;
}

abbrev comment : String → String → ℕ → Comment
comment claim_id instance_id now = record {
  id = some claim_id;
  created_at = some (at now);
  body = marked (payload claim_id instance_id now);
}

first_marker :
    create_claim_marker (new_claim options (setting "a" "box")) (setting "a" "box") 1000
    ≡ ok (marked (payload "a" "box" 1000), claim "a" "box" 1000)
unfolding create_claim_marker validate_claim_payload is_claim_marker required present known_status
    status_of
first_marker = refl

-- Two daemons read both markers.
abbrev both : List Comment
both = comment "a" "box" 1000 ∷ comment "bb" "den" 1000 ∷ []

abbrev outcome : String → String → Acquired
outcome claim_id instance_id =
    (acquire by_length options 1000 (setting claim_id instance_id) [] [] both).outcome

a_acquires : outcome "a" "box" ≡ acquired (claim "a" "box" 1000) []
unfolding acquire apply_claim_event_log create_claim_marker validate_claim_payload is_claim_marker
    required present known_status status_of parse_claim_marker
a_acquires = refl

acquire_sound_example :
    IsFree by_length options 1000 (some "card") []
    × IsWon by_length options 1000 (some "card") both (claim "a" "box" 1000)
acquire_sound_example =
    acquire_sound by_length options 1000 (setting "a" "box") [] [] both (claim "a" "box" 1000) []
      a_acquires

abbrev chat : Comment
chat = record { id = none; created_at = none; body = plain }

a_acquires_later :
    (acquire by_length options 1000 (setting "a" "box") (chat ∷ []) [] both).outcome
    ≡ acquired (claim "a" "box" 1000) []
unfolding acquire apply_claim_event_log create_claim_marker validate_claim_payload is_claim_marker
    required present known_status status_of parse_claim_marker
a_acquires_later = refl

-- Both daemons read both markers; "den" reads them later, and in the other order.
abbrev read_later : List Comment
read_later = comment "bb" "den" 1000 ∷ chat ∷ comment "a" "box" 1000 ∷ []

abbrev box_state : ℕ → ClaimState
box_state index = posted index (comment "a" "box" 1000) (claim "a" "box" 1000)

abbrev den_state : ℕ → ClaimState
den_state index = posted index (comment "bb" "den" 1000) (claim "bb" "den" 1000)

box-Sees : Sees by_length options 1000 (some "card") both "bb"
unfolding apply_claim_event_log validate_claim_payload is_claim_marker required present known_status
    status_of parse_claim_marker to_time_ms
box-Sees = record {
  states = box_state 0 ∷ den_state 1 ∷ [];
  read = refl;
  shown = refl;
  earliest = 1000;
  near = (λ h. (omega arith, omega arith), (λ h. (omega arith, omega arith), tt));
}

den-Sees : Sees by_length options 1400 (some "card") read_later "a"
unfolding apply_claim_event_log validate_claim_payload is_claim_marker required present known_status
    status_of parse_claim_marker to_time_ms
den-Sees = record {
  states = box_state 2 ∷ den_state 0 ∷ [];
  read = refl;
  shown = refl;
  earliest = 1000;
  near = (λ h. (omega arith, omega arith), (λ h. (omega arith, omega arith), tt));
}

acquire_exclusive_example :
    (acquire by_length options 1400 (setting "bb" "den") [] [] read_later).outcome
    ≢ acquired (claim "bb" "den" 1000) []
acquire_exclusive_example =
    acquire_exclusive by_length by_length-IsCollation options options 1000 1400 (setting "a" "box")
      (setting "bb" "den") (chat ∷ []) [] [] [] both read_later (claim "a" "box" 1000)
      (claim "bb" "den" 1000) [] [] (inl refl) box-Sees den-Sees a_acquires_later

-- The other daemon is refused at the same reading.
b_refused : is_acquired (outcome "bb" "den") ≡ false
unfolding acquire apply_claim_event_log create_claim_marker validate_claim_payload is_claim_marker
    required present known_status status_of parse_claim_marker
b_refused = refl

abbrev first_claim : ClaimState
first_claim = posted 0 (comment "a" "box" 1000) (claim "a" "box" 1000)

abbrev second_claim : ClaimState
second_claim = posted 1 (comment "bb" "den" 2000) (claim "bb" "den" 2000)

first_claim_wins :
    select_claim_winner by_length (some "card") 2000 30000 (second_claim ∷ first_claim ∷ [])
    ≡ some first_claim
unfolding select_claim_winner first_state event_of
first_claim_wins = refl

select_claim_winner_least_example :
    any
      (counts (some "card") (λ s. is_unexpired 2000 s && is_less (by_length s.claim.claim_id "a")))
      (second_claim ∷ first_claim ∷ [])
    ≡ false
unfolding first_state event_of
select_claim_winner_least_example =
    select_claim_winner_least by_length (some "card") 2000 1000 30000
      (second_claim ∷ first_claim ∷ []) first_claim by_length-IsCollation
      ((λ h. (omega arith, omega arith)), ((λ h. (omega arith, omega arith)), tt)) first_claim_wins

can_acquire_claim_lem_example :
    may_acquire
      (can_acquire_claim by_length (some "card") 905000 30000 (second_claim ∷ first_claim ∷ []))
    ≡ not (any (counts (some "card") (in_grace 905000 30000)) (second_claim ∷ first_claim ∷ []))
can_acquire_claim_lem_example =
    can_acquire_claim_lem by_length (some "card") 905000 30000 (second_claim ∷ first_claim ∷ [])

abbrev first_posted : ClaimState
first_posted = posted 0 (commented (marked (payload "bb" "den" 1000)) none) (claim "bb" "den" 1000)

abbrev next_posted : ClaimState
next_posted = posted 1 (commented (marked (payload "a" "box" 1000)) none) (claim "a" "box" 1000)

den_marker :
    create_claim_marker (new_claim options (setting "bb" "den")) (setting "bb" "den") 1000
    ≡ ok (marked (payload "bb" "den" 1000), claim "bb" "den" 1000)
unfolding create_claim_marker validate_claim_payload is_claim_marker required present known_status
    status_of
den_marker = refl

first_posted-IsCandidate : IsCandidate 1000 (some "card") first_posted
unfolding first_state event_of
first_posted-IsCandidate = record { matches = refl; live = refl; unexpired = refl }

next_posted-IsCandidate : IsCandidate 1000 (some "card") next_posted
unfolding first_state event_of
next_posted-IsCandidate = record { matches = refl; live = refl; unexpired = refl }

both_acquire_example :
    (is_acquired
        (acquire by_length options 1000
          (setting "bb" "den")
          []
          []
          (commented (marked (payload "bb" "den" 1000)) none ∷ [])).outcome
      ≡ true)
    × (is_acquired
          (acquire by_length options 1000 (setting "a" "box") [] [] (
            commented (marked (payload "bb" "den" 1000)) none
            ∷ commented (marked (payload "a" "box" 1000)) none
            ∷ [])).outcome
        ≡ true)
unfolding compare_claim_winner first_state event_of
both_acquire_example =
    both_acquire by_length options 1000 1000 (setting "bb" "den") (setting "a" "box")
      (marked (payload "bb" "den" 1000)) (marked (payload "a" "box" 1000)) (claim "bb" "den" 1000)
      (claim "a" "box" 1000) none none den_marker first_marker first_posted-IsCandidate
      first_posted-IsCandidate next_posted-IsCandidate (λ e. absurd (cc)) refl refl
