-- ===== src/Claims/Markers.antt =====
-- Making, validating and parsing claim markers (src/claims.js createClaimMarker,
-- createReleaseMarker, parseClaimMarker and validateClaimPayload).
use fizzy_symphony.Base.{err, ok, ◌>>=◌, ◌>>◌}
use fizzy_symphony.Base.{
  ℕ, ◌+◌, Option, none, some, String, if◌then◌else◌, ◌==◌, str_eq, or_else, get_or,
}
use fizzy_symphony.Fizzy.Card.{Stamp, at, stamped}
use fizzy_symphony.Claims.Inputs.{ClaimInput, Setting, input_of, setting_of}
use fizzy_symphony.Claims.Types.{
  Code, invalid_claim_marker, malformed_claim_marker, invalid_claim_status, Checked, Status,
  is_terminal, status_of, Payload, Claim, Body, plain, broken, marked,
}

abbrev pub claim_marker : String
claim_marker = "fizzy-symphony:claim:v1"

abbrev pub default_lease_ms : ℕ
default_lease_ms = 900000

-- A field that is missing or empty fails the validation.
unfoldable pub required : Code → Option String → Checked String
required code none = err code
required code (some s) = if str_eq s "" then err code else ok s

unfoldable pub present : Code → Option Stamp → Checked (Unit {0})
present code stamp = if stamped stamp then ok tt else err code

unfoldable pub to_time_ms : Code → Option Stamp → Checked ℕ
to_time_ms code (some (at ms)) = ok ms
to_time_ms code _ = err code

unfoldable pub known_status : Code → Option Status → Checked Status
known_status code none = err code
known_status code (some status) = ok status

unfoldable pub is_claim_marker : Code → Option String → Checked (Unit {0})
is_claim_marker code none = err code
is_claim_marker code (some m) = if str_eq m claim_marker then ok tt else err code

unfoldable pub validate_claim_payload : Code → Payload → Checked Claim
validate_claim_payload code p = do
  is_claim_marker code p.marker
  claim_id ← required code p.claim_id
  card_id ← required code p.card_id
  board_id ← required code p.board_id
  route_id ← required code p.route_id
  route_fingerprint ← required code p.route_fingerprint
  workspace_key ← required code p.workspace_key
  workspace_identity_digest ← required code p.workspace_identity_digest
  instance_id ← required code p.instance_id
  attempt_id ← required code p.attempt_id
  run_id ← required code p.run_id
  present code p.started_at
  present code p.renewed_at
  present code p.expires_at
  daemon_version ← required code p.daemon_version
  text ← required code p.status
  status ← known_status code (status_of text)
  started_at ← to_time_ms code p.started_at
  renewed_at ← to_time_ms code p.renewed_at
  expires_at ← to_time_ms code p.expires_at
  ok (record {
    claim_id = claim_id;
    status = status;
    card_id = card_id;
    board_id = board_id;
    card_digest = p.card_digest;
    route_id = route_id;
    route_fingerprint = route_fingerprint;
    workspace_key = workspace_key;
    workspace_identity_digest = workspace_identity_digest;
    instance_id = instance_id;
    attempt_id = attempt_id;
    run_id = run_id;
    daemon_version = daemon_version;
    started_at = started_at;
    renewed_at = renewed_at;
    expires_at = expires_at;
    marker_sequence = p.marker_sequence;
  })

-- `lease_expires_at` stands in for a missing `expires_at`, and is dropped.
unfoldable pub normalize_lease : Payload → Payload
normalize_lease p = record p {
  expires_at =
      if stamped p.expires_at
      then p.expires_at
      else if stamped p.lease_expires_at
      then p.lease_expires_at
      else p.expires_at;
  lease_expires_at = none;
}

unfoldable pub parse_claim_marker : Body → Checked Claim
unfolding normalize_lease
parse_claim_marker plain = err malformed_claim_marker
parse_claim_marker broken = err malformed_claim_marker
parse_claim_marker (marked p) = validate_claim_payload malformed_claim_marker (normalize_lease p)

unfoldable pub positive_number : Code → ℕ → Checked ℕ
positive_number code n = if n == 0 then err code else ok n

unfoldable pub claim_expires_at : ClaimInput → ℕ → Checked ℕ
unfolding positive_number to_time_ms
claim_expires_at c now =
    let given = or_else c.expires_at c.lease_expires_at in
    let lease =
      positive_number invalid_claim_marker
        (get_or (or_else c.lease_ms c.lease_ms_alias) default_lease_ms) in
    if stamped given then to_time_ms invalid_claim_marker given else lease >>= λ ms. ok (now + ms)

-- `toIsoString(a ?? b ?? now)`.
unfoldable pub time_or : Option Stamp → Option Stamp → ℕ → Checked ℕ
unfolding to_time_ms
time_or a b now = to_time_ms invalid_claim_marker (some (get_or (or_else a b) (at now)))

-- The payload of the marker that is posted.
unfoldable pub claim_payload : ClaimInput → Setting → ℕ → Checked Payload
unfolding claim_expires_at time_or
claim_payload c w now = do
  started_at ← time_or c.started_at c.started_at_alias now
  renewed_at ← time_or c.renewed_at c.renewed_at_alias now
  expires_at ← claim_expires_at c now
  ok (record {
    marker = some claim_marker;
    claim_id = some (get_or (or_else c.claim_id c.id) w.fresh_claim_id);
    status = some (get_or c.status "claimed");
    card_id = or_else c.card_id w.card_id;
    board_id = or_else c.board_id (or_else w.card_board_id w.route_board_id);
    card_digest = or_else c.card_digest w.card_digest;
    route_id = or_else c.route_id w.route_id;
    route_fingerprint = or_else c.route_fingerprint w.route_fingerprint;
    workspace_key = or_else c.workspace_key w.workspace_key;
    workspace_identity_digest = or_else c.workspace_identity_digest w.workspace_identity_digest;
    instance_id = or_else c.instance_id w.instance_id;
    attempt_id = some (get_or (or_else c.attempt_id c.attempt_id_alias) w.fresh_attempt_id);
    run_id = some (get_or (or_else c.run_id c.run_id_alias) w.fresh_run_id);
    daemon_version = some (get_or (or_else c.daemon_version w.daemon_version) "unknown");
    started_at = some (at started_at);
    renewed_at = some (at renewed_at);
    expires_at = some (at expires_at);
    lease_expires_at = none;
    marker_sequence = or_else c.marker_sequence c.sequence;
  })

-- The body that is posted, and the claim.
unfoldable pub create_claim_marker : ClaimInput → Setting → ℕ → Checked (Body × Claim)
unfolding claim_payload
create_claim_marker c w now = do
  payload ← claim_payload c w now
  claim ← validate_claim_payload invalid_claim_marker payload
  ok (marked payload, claim)

unfoldable pub create_release_marker : Claim → Status → ℕ → Checked (Body × Claim)
unfolding create_claim_marker
create_release_marker c status now =
    if is_terminal status
    then create_claim_marker (input_of c status) (setting_of c) now
    else err invalid_claim_status
