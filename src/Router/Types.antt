-- ===== src/Router/Types.antt =====
-- The data of src/router.js. A field that may be absent is an option.
use fizzy_symphony.Base.{ℕ, Bool, Option, List, String}
use fizzy_symphony.Fizzy.Card.{Stamp}

pub record Column : Type 0 where
  pub id : String
  pub name : String

pub record Board : Type 0 where
  pub id : Option String
  pub columns : List Column

-- ROUTE_FIELDS.
pub data Field : Type 0 where
  backend model workspace persona priority completion : Field

-- The fields of `allowed_card_overrides`.
pub record Allowed : Type 0 where
  pub backend : Option Bool
  pub model : Option Bool
  pub workspace : Option Bool
  pub persona : Option Bool
  pub priority : Option Bool
  pub completion : Option Bool

pub data Completion : Type 0 where
  close comment_once : Completion
  move_to_column : (id name : String) → Completion

pub record Route : Type 0 where
  pub id : Option String
  pub board_id : Option String
  pub source_column_id : Option String
  pub fingerprint : Option String
  pub enabled : Option Bool
  pub backend : Option String
  pub model : Option String
  pub workspace : Option String
  pub persona : Option String
  pub priority : Option ℕ
  pub completion : Option Completion
  pub allowed_card_overrides : Option Allowed
  pub rerun_mode : Option String  -- rerun_policy.mode
  pub rerun_on_card_change : Option Bool  -- rerun_policy.on_card_change
  pub rerun_alias_on_card_change : Option Bool  -- rerun.on_card_change

pub record Defaults : Type 0 where
  pub backend : Option String
  pub model : Option String
  pub workspace : Option String
  pub persona : Option String
  pub priority : Option ℕ

pub record BoardEntry : Type 0 where
  pub id : Option String
  pub enabled : Option Bool
  pub defaults : Option Defaults

pub record Config : Type 0 where
  pub board_entries : Option (List BoardEntry)
  pub allow_postponed_cards : Bool
  pub routing_allowed_models : Option (List String)
  pub agent_allowed_models : Option (List String)
  pub default_backend : Option String
  pub default_model : Option String
  pub default_persona : Option String
  pub workspace_registry : Option (List String)  -- its keys
  pub allow_card_completion_override : Option Bool

-- An entry of `activeClaims`.
pub record ActiveClaim : Type 0 where
  pub card_id : Option String
  pub inner_card_id : Option String  -- card.id
  pub status : Option String
  pub expired : Option Bool
  pub expires_at : Option Stamp

-- A completion marker, or a completion failure marker.
pub record Marker : Type 0 where
  pub card_id : Option String
  pub inner_card_id : Option String
  pub route_id : Option String
  pub route_fingerprint : Option String
  pub card_digest : Option String
  pub no_repeat : Option Bool
  pub resolved : Option Bool

pub data Value : Type 0 where
  text : String → Value
  number : ℕ → Value
  policy : Completion → Value

-- The codes of the validation issues; `conflicting` is CONFLICTING_…_TAGS for a field.
pub data IssueCode : Type 0 where
  invalid_backend_tag invalid_model_tag invalid_workspace_tag invalid_persona_tag
        invalid_priority_tag missing_completion_target duplicate_completion_column_slug
        invalid_completion_tag unknown_workspace unknown_model :
      IssueCode
  conflicting card_override_not_allowed : Field → IssueCode

-- The overrides of one field: its value, and the tags that ask for it.
pub record Override : Type 0 where
  pub field : Field
  pub value : Value
  pub tags : List String

pub record EffectiveRoute : Type 0 where
  pub route : Route
  pub backend : Value
  pub model : Value
  pub workspace : Value
  pub persona : Value
  pub priority : Option Value
  pub completion : Option Value

pub data Reason : Type 0 where
  golden_ticket unwatched_board closed postponed no_route route_disabled live_claim
        no_repeat_completion completion_failure :
      Reason

pub data Decision : Type 0 where
  ignored : Reason → Decision
  -- "fail-validation"
  failed : IssueCode → Decision
  spawned : EffectiveRoute → List Override → Decision
