-- ===== src/Fizzy/Card.antt =====
-- A card as the Fizzy API gives it, and src/fizzy-normalize.js on it. A field that may be absent is
-- an `Option`; a second spelling of a field, such as `boardId`, is the field `board_id_alias`.
use fizzy_symphony.Base.{ℕ, Bool, Option, none, some, List, String, get_or, or_else}
use fizzy_symphony.Fizzy.Text.{to_lower_case}

-- A timestamp's text, by what `Date.parse` makes of it: milliseconds since 1970, or not a number.
-- The empty text, which is falsy, stands apart.
pub data Stamp : Type 0 where
  at : ℕ → Stamp
  unparsable empty : Stamp

abbrev pub parse_stamp : Option Stamp → Option ℕ
parse_stamp (some (at ms)) = some ms
parse_stamp _ = none

abbrev pub stamped : Option Stamp → Bool
stamped (some (at ms)) = Bool.true
stamped (some unparsable) = Bool.true
stamped _ = Bool.false

-- A board or a column inside a card.
pub record Place : Type 0 where
  pub id : Option String
  pub name_id : Option String  -- board_id, column_id
  pub name_id_alias : Option String  -- boardId, columnId

pub data Tag : Type 0 where
  text : String → Tag
  labelled : (name title slug label : Option String) → Tag

-- `card.priority`, `order` or `position`: a number from 0 on, a text that is no number, or `null`,
-- which `Number` makes 0.
pub data Rank : Type 0 where
  number : ℕ → Rank
  word : String → Rank
  null : Rank

pub record Card : Type 0 where
  pub id : Option String
  pub number : Option ℕ
  pub board_id : Option String
  pub board_id_alias : Option String
  pub board : Option Place
  pub column_id : Option String
  pub column_id_alias : Option String
  pub column : Option Place
  pub status : Option String
  pub state : Option String
  pub lifecycle_state : Option String
  pub lifecycle_state_alias : Option String
  pub golden : Option Bool
  pub closed : Option Bool
  pub closed_at : Option String
  pub archived_at : Option String
  pub postponed : Option Bool
  pub auto_postponed : Option Bool
  pub postponed_until : Option Stamp
  pub tags : Option (List Tag)
  pub tag_names : Option (List Tag)
  pub tag_names_alias : Option (List Tag)
  pub route_fingerprint : Option String
  pub priority : Option Rank
  pub order : Option Rank
  pub position : Option Rank
  pub last_active_at : Option Stamp
  pub updated_at : Option Stamp

abbrev pub no_card : Card
no_card = record {
  id = none;
  number = none;
  board_id = none;
  board_id_alias = none;
  board = none;
  column_id = none;
  column_id_alias = none;
  column = none;
  status = none;
  state = none;
  lifecycle_state = none;
  lifecycle_state_alias = none;
  golden = none;
  closed = none;
  closed_at = none;
  archived_at = none;
  postponed = none;
  auto_postponed = none;
  postponed_until = none;
  tags = none;
  tag_names = none;
  tag_names_alias = none;
  route_fingerprint = none;
  priority = none;
  order = none;
  position = none;
  last_active_at = none;
  updated_at = none;
}

place_id : Option Place → Option String
place_id none = none
place_id (some p) = or_else p.id (or_else p.name_id p.name_id_alias)

unfoldable pub card_board_id : Card → Option String
unfolding place_id
card_board_id card = or_else card.board_id (or_else card.board_id_alias (place_id card.board))

unfoldable pub card_column_id : Card → Option String
unfolding place_id
card_column_id card = or_else card.column_id (or_else card.column_id_alias (place_id card.column))

unfoldable pub card_status : Card → String
unfolding to_lower_case
card_status card = to_lower_case (
    get_or
      (or_else card.status
        (or_else card.state (or_else card.lifecycle_state card.lifecycle_state_alias)))
      "")
