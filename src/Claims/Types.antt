-- ===== src/Claims/Types.antt =====
-- The data of src/claims.js. Timestamps are milliseconds since 1970 where they are known to parse.
use Prim.Native.Nat.{Ordering}
use fizzy_symphony.Base.{Result}
use fizzy_symphony.Base.{
  ℕ, Bool, true, false, Option, none, some, String, if◌then◌else◌, str_eq, ◌≡◌,
}
use fizzy_symphony.Base.Sort.{is_less}
use fizzy_symphony.Fizzy.Card.{Stamp}

-- Why the functions throw, by the code that they throw.
pub data Code : Type 0 where
  invalid_claim_marker malformed_claim_marker invalid_claim_status invalid_claim_config : Code

abbrev pub Checked {ℓ} : Type ℓ → Type ℓ
Checked A = Result Code A

pub data Status : Type 0 where
  claimed renewed released completed failed cancelled lost : Status

-- TERMINAL_STATUSES.
abbrev pub is_terminal : Status → Bool
is_terminal claimed = false
is_terminal renewed = false
is_terminal _ = true

-- VALID_STATUSES.
unfoldable pub status_of : String → Option Status
status_of s =
    if str_eq s "claimed"
    then some claimed
    else if str_eq s "renewed"
    then some renewed
    else if str_eq s "released"
    then some released
    else if str_eq s "completed"
    then some completed
    else if str_eq s "failed"
    then some failed
    else if str_eq s "cancelled"
    then some cancelled
    else if str_eq s "lost"
    then some lost
    else none

abbrev pub status_text : Status → String
status_text claimed = "claimed"
status_text renewed = "renewed"
status_text released = "released"
status_text completed = "completed"
status_text failed = "failed"
status_text cancelled = "cancelled"
status_text lost = "lost"

-- A marker's JSON object, before it is validated.
pub record Payload : Type 0 where
  pub marker : Option String
  pub claim_id : Option String
  pub status : Option String
  pub card_id : Option String
  pub board_id : Option String
  pub card_digest : Option String
  pub route_id : Option String
  pub route_fingerprint : Option String
  pub workspace_key : Option String
  pub workspace_identity_digest : Option String
  pub instance_id : Option String
  pub attempt_id : Option String
  pub run_id : Option String
  pub daemon_version : Option String
  pub started_at : Option Stamp
  pub renewed_at : Option Stamp
  pub expires_at : Option Stamp
  pub lease_expires_at : Option Stamp
  pub marker_sequence : Option ℕ

-- A valid claim.
pub record Claim : Type 0 where
  pub claim_id : String
  pub status : Status
  pub card_id : String
  pub board_id : String
  pub card_digest : Option String
  pub route_id : String
  pub route_fingerprint : String
  pub workspace_key : String
  pub workspace_identity_digest : String
  pub instance_id : String
  pub attempt_id : String
  pub run_id : String
  pub daemon_version : String
  pub started_at : ℕ
  pub renewed_at : ℕ
  pub expires_at : ℕ
  pub marker_sequence : Option ℕ

-- What reading a comment's body gives: it has no marker text, or no JSON object is found and parsed
-- after it, or one is. The text itself, which src/marker-comment.js writes and searches, is not
-- modelled: a payload stands for the body that is written for it.
pub data Body : Type 0 where
  plain broken : Body
  marked : Payload → Body

pub record Comment : Type 0 where
  pub id : Option String
  pub created_at : Option Stamp
  pub body : Body

-- A claim with the comment that it was read from.
pub record ClaimEvent : Type 0 where
  pub claim : Claim
  pub comment_id : Option String
  pub comment_created_at : Option Stamp
  pub event_index : ℕ

-- The order of `String.prototype.localeCompare`.
abbrev pub Collation : Type 0
Collation = String → String → Ordering

-- What a comparison of texts is relied on for: it is a total preorder.
pub record IsCollation (collate : Collation) : Type 0 where
  pub asym : (a b : String) → is_less (collate a b) ≡ true → is_less (collate b a) ≡ false
  pub trans :
      (a b c : String)
      → is_less (collate b a) ≡ false
      → is_less (collate c b) ≡ false
      → is_less (collate c a) ≡ false
