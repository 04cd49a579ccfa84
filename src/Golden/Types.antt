-- ===== src/Golden/Types.antt =====
-- The data of discoverGoldenTicketRoutes of src/validation.js.
use fizzy_symphony.Base.{Bool, Option, List, String}
use fizzy_symphony.Fizzy.Card.{Card}
use fizzy_symphony.Router.Types.{Board}

pub record BoardCards : Type 0 where
  pub board : Board
  pub cards : List Card

pub record Defaults : Type 0 where
  pub backend : Option String
  pub model : Option String
  pub workspace : Option String
  pub persona : Option String

pub record Options : Type 0 where
  pub defaults : Option Defaults
  pub warns_unknown : Bool  -- unknownManagedTagPolicy is "warn"

-- The options of a board by its ID, where it has its own.
pub record AllOptions : Type 0 where
  pub common : Options
  pub by_board_id : List (Option String × Options)

pub data Family : Type 0 where
  backend model workspace persona priority : Family

-- The codes of the errors.
pub data GoldenError : Type 0 where
  tag_only_instruction_card board_level_golden_ticket duplicate_golden_tickets invalid_backend_tag
        invalid_priority_tag missing_completion_policy conflicting_completion_tags
        missing_completion_target duplicate_completion_column_slug completion_same_column
        unknown_managed_tag completion_cycle :
      GoldenError
  conflicting_tags : Family → GoldenError

pub data RouteCompletion : Type 0 where
  close comment_once : RouteCompletion
  move_to_column : (id name : String) → RouteCompletion

pub record GoldenRoute : Type 0 where
  pub board_id : Option String
  pub source_column_id : String
  pub source_column_name : String
  pub golden_card_id : Option String
  pub backend : String
  pub enabled : Bool
  pub model : String
  pub workspace : String
  pub persona : String
  pub priority : Option String  -- the digit's text
  pub completion : RouteCompletion
