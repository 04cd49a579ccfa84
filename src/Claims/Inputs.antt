-- ===== src/Claims/Inputs.antt =====
-- What claim markers are made from (src/claims.js: the arguments of createClaimMarker).
use fizzy_symphony.Base.{ℕ, Option, none, some, String}
use fizzy_symphony.Fizzy.Card.{Stamp, at}
use fizzy_symphony.Claims.Types.{Status, status_text, Claim}

-- The `claim` argument of `createClaimMarker`; `_alias` is the camel-case spelling.
pub record ClaimInput : Type 0 where
  pub claim_id : Option String
  pub id : Option String
  pub status : Option String
  pub card_id : Option String
  pub board_id : Option String
  pub card_digest : Option String
  pub route_id : Option String
  pub route_fingerprint : Option String
  pub workspace_key : Option String
  pub workspace_identity_digest : Option String
  pub instance_id : Option String
  pub attempt_id : Option String
  pub attempt_id_alias : Option String
  pub run_id : Option String
  pub run_id_alias : Option String
  pub daemon_version : Option String
  pub started_at : Option Stamp
  pub started_at_alias : Option Stamp
  pub renewed_at : Option Stamp
  pub renewed_at_alias : Option Stamp
  pub expires_at : Option Stamp
  pub lease_expires_at : Option Stamp
  pub lease_ms : Option ℕ
  pub lease_ms_alias : Option ℕ
  pub marker_sequence : Option ℕ
  pub sequence : Option ℕ

abbrev pub no_input : ClaimInput
no_input = record {
  claim_id = none;
  id = none;
  status = none;
  card_id = none;
  board_id = none;
  card_digest = none;
  route_id = none;
  route_fingerprint = none;
  workspace_key = none;
  workspace_identity_digest = none;
  instance_id = none;
  attempt_id = none;
  attempt_id_alias = none;
  run_id = none;
  run_id_alias = none;
  daemon_version = none;
  started_at = none;
  started_at_alias = none;
  renewed_at = none;
  renewed_at_alias = none;
  expires_at = none;
  lease_expires_at = none;
  lease_ms = none;
  lease_ms_alias = none;
  marker_sequence = none;
  sequence = none;
}

-- The other arguments, with what `randomUUID` gives for the IDs.
pub record Setting : Type 0 where
  pub route_id : Option String
  pub route_fingerprint : Option String
  pub route_board_id : Option String
  pub card_id : Option String
  pub card_board_id : Option String  -- card.board_id ?? card.board?.id
  pub card_digest : Option String
  pub instance_id : Option String
  pub daemon_version : Option String  -- instance.daemon_version ?? instance.version
  pub workspace_key : Option String  -- workspace.workspace_key ?? workspace.key ?? workspace.id
  pub workspace_identity_digest : Option String
  pub fresh_claim_id : String
  pub fresh_attempt_id : String
  pub fresh_run_id : String

-- A claim as the argument of `createClaimMarker`, with another status.
abbrev pub input_of : Claim → Status → ClaimInput
input_of c status = record {
  claim_id = some c.claim_id;
  id = none;
  status = some (status_text status);
  card_id = some c.card_id;
  board_id = some c.board_id;
  card_digest = c.card_digest;
  route_id = some c.route_id;
  route_fingerprint = some c.route_fingerprint;
  workspace_key = some c.workspace_key;
  workspace_identity_digest = some c.workspace_identity_digest;
  instance_id = some c.instance_id;
  attempt_id = some c.attempt_id;
  attempt_id_alias = none;
  run_id = some c.run_id;
  run_id_alias = none;
  daemon_version = some c.daemon_version;
  started_at = some (at c.started_at);
  started_at_alias = none;
  renewed_at = some (at c.renewed_at);
  renewed_at_alias = none;
  expires_at = some (at c.expires_at);
  lease_expires_at = none;
  lease_ms = none;
  lease_ms_alias = none;
  marker_sequence = c.marker_sequence;
  sequence = none;
}

-- What `createReleaseMarker` passes besides, from the claim itself.
abbrev pub setting_of : Claim → Setting
setting_of c = record {
  route_id = some c.route_id;
  route_fingerprint = some c.route_fingerprint;
  route_board_id = none;
  card_id = some c.card_id;
  card_board_id = some c.board_id;
  card_digest = c.card_digest;
  instance_id = some c.instance_id;
  daemon_version = some c.daemon_version;
  workspace_key = some c.workspace_key;
  workspace_identity_digest = some c.workspace_identity_digest;
  fresh_claim_id = c.claim_id;
  fresh_attempt_id = c.attempt_id;
  fresh_run_id = c.run_id;
}
