-- ===== src/Router/Decide.antt =====
-- routeCard of src/router.js: the decision on one card.
use fizzy_symphony.Base.{err, ok}
use fizzy_symphony.Base.{
  ℕ, Bool, not, ◌&&◌, Option, none, some, List, [], ◌∷◌, String, if◌then◌else◌, str_eq, any,
  is_true, is_false,
}
use fizzy_symphony.Fizzy.Card.{Card, card_column_id}
use fizzy_symphony.Router.Types.{
  Board, Config, Route, ActiveClaim, Marker, Field, backend, model, workspace, persona, priority,
  completion, Override, IssueCode, card_override_not_allowed, EffectiveRoute, Decision, ignored,
  failed, spawned, golden_ticket, unwatched_board, closed, postponed, no_route, route_disabled,
  live_claim, no_repeat_completion, completion_failure,
}
use fizzy_symphony.Router.Tags.{normalized_tags, parse_card_overrides, Outcome, same_field}
use fizzy_symphony.Router.Gates.{
  get_board_id, is_watched_board, is_closed, is_postponed, find_route, has_live_unexpired_claim,
  has_no_repeat_completion_marker, has_current_completion_failure_marker,
}
use fizzy_symphony.Router.Effective.{
  is_override_allowed, resolve_effective_route, validate_effective_route,
}

pub record Request : Type 0 where
  pub board : Board
  pub card : Card
  pub routes : List Route
  pub config : Config
  pub active_claims : List ActiveClaim
  pub completed_markers : List Marker
  pub completion_failure_markers : List Marker

abbrev pub has_override : List Override → Field → Bool
has_override os field = any (λ o. same_field o.field field) os

-- The first field of ROUTE_FIELDS that is overridden and must not be.
unfoldable pub forbidden_in : List Field → List Override → Route → Config → Option Field
forbidden_in [] os route config = none
forbidden_in (f ∷ fs) os route config =
    if has_override os f && not (is_override_allowed f route config)
    then some f
    else forbidden_in fs os route config

abbrev pub route_fields : List Field
route_fields = backend ∷ model ∷ workspace ∷ persona ∷ priority ∷ completion ∷ []

unfoldable pub accept : EffectiveRoute → List Override → Option IssueCode → Decision
accept e os (some i) = failed i
accept e os none = spawned e os

unfoldable pub unless_forbidden : Request → Route → List Override → Option Field → Decision
unfolding accept resolve_effective_route validate_effective_route
unless_forbidden r route os (some f) = failed (card_override_not_allowed f)
unless_forbidden r route os none =
    let e = resolve_effective_route route (get_board_id r.board r.card) r.config os in
    accept e os (validate_effective_route e r.config)

unfoldable pub with_overrides : Request → Route → Outcome (List Override) → Decision
unfolding unless_forbidden forbidden_in
with_overrides r route (err i) = failed i
with_overrides r route (ok os) =
    unless_forbidden r route os (forbidden_in route_fields os route r.config)

module _ (now : ℕ) (digest : Card → Route → String) where
  -- The part of `routeCard` below the look-up of the route.
  unfoldable pub route_by : Request → Option Route → Decision
  unfolding with_overrides
  route_by r none = ignored no_route
  route_by r (some route) =
      let tags = normalized_tags r.card in
      let rerun = any (str_eq "agent-rerun") tags in
      if is_false route.enabled
      then ignored route_disabled
      else if has_live_unexpired_claim now r.active_claims r.card
      then ignored live_claim
      else if not rerun
          && has_no_repeat_completion_marker (digest r.card route) r.completed_markers r.card route
      then ignored no_repeat_completion
      else if not rerun
          && has_current_completion_failure_marker (digest r.card route)
              r.completion_failure_markers r.card route
      then ignored completion_failure
      else with_overrides r route (parse_card_overrides tags r.board)

  unfoldable pub route_card : Request → Decision
  unfolding route_by
  route_card r =
      let board_id = get_board_id r.board r.card in
      if is_true r.card.golden
      then ignored golden_ticket
      else if not (is_watched_board board_id r.config r.board)
      then ignored unwatched_board
      else if is_closed r.card
      then ignored closed
      else if is_postponed now r.card && not r.config.allow_postponed_cards
      then ignored postponed
      else route_by r (find_route r.routes board_id (card_column_id r.card))
