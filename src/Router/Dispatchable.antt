-- ===== src/Router/Dispatchable.antt =====
-- What it takes for a card to be dispatched (src/router.js routeCard), in terms of the fields of the
-- card, the route, the board's entries and the claims.
use fizzy_symphony.Base.{ℕ, ◌≡◌, ◌≢◌, ◌⊎◌, true, false, some, List, String, or_else, All, ok}
use fizzy_symphony.Fizzy.Card.{Card, card_board_id, card_column_id}
use fizzy_symphony.Router.Types.{Route, Field, Override, EffectiveRoute}
use fizzy_symphony.Router.Tags.{normalized_tags, parse_card_overrides}
use fizzy_symphony.Router.Gates.{get_board_id}
use fizzy_symphony.Router.Effective.{is_override_allowed, resolve_effective_route, unknown_in}
use fizzy_symphony.Router.Decide.{Request, has_override}
use fizzy_symphony.Router.Conditions.{IsLiveClaim, Among, IsWatched, IsOpen, IsDue}

pub record IsDispatchable (now : ℕ) (r : Request) (e : EffectiveRoute) (os : List Override)
    : Type 0 where
  pub not_golden : r.card.golden ≢ some true
  pub board : String
  pub column : String
  pub on_board : or_else (card_board_id r.card) r.board.id ≡ some board
  pub in_column : card_column_id r.card ≡ some column
  pub is_watched : IsWatched board r.config r.board
  pub is_open : IsOpen r.card
  pub is_due : (r.config.allow_postponed_cards ≡ true) ⊎ IsDue now r.card
  pub route : Route
  pub is_listed : Among route r.routes
  pub of_board : route.board_id ≡ some board
  pub from_column : route.source_column_id ≡ some column
  pub enabled : route.enabled ≢ some false
  pub unclaimed : All (λ c. ¬ IsLiveClaim now r.card c) r.active_claims
  pub parsed : parse_card_overrides (normalized_tags r.card) r.board ≡ ok os
  pub allowed : (f : Field) → has_override os f ≡ true → is_override_allowed f route r.config ≡ true
  pub effective : e ≡ resolve_effective_route route (get_board_id r.board r.card) r.config os
  pub known_workspace : unknown_in r.config.workspace_registry e.workspace ≡ false
