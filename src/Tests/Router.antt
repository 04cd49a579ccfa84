-- ===== src/Tests/Router.antt =====
-- Cards and their routes at concrete inputs.
use mathlib.Core.List.{Memᴰ}
use fizzy_symphony.Base.{ok}
use fizzy_symphony.Base.{
  ◌≡◌, ◌≢◌, refl, true, false, ◌&&◌, none, some, List, [], ◌∷◌, String, length, filter, eq_iff,
}
use fizzy_symphony.Fizzy.Card.{card_column_id, Card, no_card, text}
use fizzy_symphony.Fizzy.Text.{completion_slug}
use fizzy_symphony.Router.Types.{
  Board, Config, Route, Marker, backend, priority, Value, number, EffectiveRoute, spawned,
}
use fizzy_symphony.Router.Tags.{normalized_tags, parse_override_tag, parse_card_overrides}
use fizzy_symphony.Router.Gates.{
  get_board_id, is_watched_board, is_closed, is_postponed, find_route, has_live_unexpired_claim,
  has_no_repeat_completion_marker, has_current_completion_failure_marker,
}
use fizzy_symphony.Router.Effective.{resolve_effective_route}
use fizzy_symphony.Fizzy.Card.{at, null}
use fizzy_symphony.Router.Types.{ActiveClaim, ignored, live_claim}
use fizzy_symphony.Router.Decide.{Request, route_card}
use fizzy_symphony.Router.Dispatch.{Candidate, sort_dispatch_candidates}
use fizzy_symphony.Router.Order.{InOrder, sort_dispatch_candidates_lem}
use fizzy_symphony.Router.Conflicts.{parse_card_overrides-conflict}

slug_test : completion_slug "  In  - Review " ≡ "in-review"
unfolding completion_slug
slug_test = refl

abbrev board : Board
board = record { id = some "board"; columns = [] }

tags_test :
    parse_card_overrides ("priority-2" ∷ "bug" ∷ "codex" ∷ []) board
    ≡ ok (
        record { field = priority; value = number 2; tags = "priority-2" ∷ [] }
        ∷ record { field = backend; value = Value.text "codex"; tags = "codex" ∷ [] }
        ∷ [])
unfolding parse_card_overrides parse_override_tag
tags_test = refl

abbrev two : String
two = "2"

abbrev three : String
three = "3"

apart : two ≢ three
apart e = let x : false ≡ true = (eq_iff two three).1 e in absurd (cc)

parse_card_overrides-conflict_example :
    parse_card_overrides ("priority-2" ∷ "bug" ∷ "priority-3" ∷ []) board ≢ ok []
unfolding parse_override_tag
parse_card_overrides-conflict_example =
    parse_card_overrides-conflict board ("priority-2" ∷ "bug" ∷ "priority-3" ∷ []) "priority-2"
      "priority-3" two three priority [] (Memᴰ.head refl) (Memᴰ.tail (Memᴰ.tail (Memᴰ.head refl)))
      (number 2, refl) (number 3, refl) apart

abbrev config : Config
config = record {
  board_entries = none;
  allow_postponed_cards = false;
  routing_allowed_models = none;
  agent_allowed_models = none;
  default_backend = some "codex";
  default_model = none;
  default_persona = none;
  workspace_registry = some ("main" ∷ []);
  allow_card_completion_override = none;
}

abbrev route : Route
route = record {
  id = some "route";
  board_id = some "board";
  source_column_id = some "todo";
  fingerprint = some "print";
  enabled = none;
  backend = none;
  model = none;
  workspace = some "main";
  persona = none;
  priority = none;
  completion = none;
  allowed_card_overrides = none;
  rerun_mode = none;
  rerun_on_card_change = none;
  rerun_alias_on_card_change = none;
}

abbrev card : Card
card = record no_card { id = some "card"; board_id = some "board"; column_id = some "todo" }

abbrev request : Card → Request
request c = record {
  board = board;
  card = c;
  routes = route ∷ [];
  config = config;
  active_claims = [];
  completed_markers = [];
  completion_failure_markers = [];
}

abbrev digest : Card → Route → String
digest c r = "digest"

abbrev effective : EffectiveRoute
effective = resolve_effective_route route (get_board_id board card) config []

card_spawns : route_card 5 digest (request card) ≡ spawned effective []
unfolding route_card is_watched_board get_board_id is_closed is_postponed find_route card_column_id
    has_live_unexpired_claim normalized_tags has_no_repeat_completion_marker
    has_current_completion_failure_marker parse_card_overrides
card_spawns = refl

-- Claims that are for another card, over, expired, or out of time.
abbrev old_claim : ActiveClaim
old_claim = record {
  card_id = some "card";
  inner_card_id = none;
  status = some "claimed";
  expired = none;
  expires_at = some (at 4);
}

abbrev claims : List ActiveClaim
claims =
    record old_claim { card_id = some "other"; expires_at = none }
    ∷ record old_claim { status = some "released"; expires_at = none }
    ∷ record old_claim { expired = some true; expires_at = some (at 9) }
    ∷ old_claim
    ∷ []

abbrev claimed_request : Request
claimed_request = record (request card) { active_claims = claims }

-- The same claim within its time.
live_claim_blocks : route_card 3 digest claimed_request ≡ ignored live_claim
unfolding route_card is_watched_board get_board_id is_closed is_postponed find_route card_column_id
    has_live_unexpired_claim normalized_tags
live_claim_blocks = refl

abbrev done : Marker
done = record {
  card_id = some "card";
  inner_card_id = none;
  route_id = some "route";
  route_fingerprint = some "print";
  card_digest = none;
  no_repeat = none;
  resolved = none;
}

abbrev rerun_card : Card
rerun_card = record card { tags = some (text "agent-rerun" ∷ []) }

abbrev candidates : List Candidate
candidates =
    record { spawn = true; explicit_priority = none; card = card; number = some null }
    ∷ record { spawn = false; explicit_priority = none; card = card; number = some null }
    ∷ record { spawn = true; explicit_priority = some 2; card = card; number = some null }
    ∷ []

sort_dispatch_candidates_lem_example :
    InOrder (sort_dispatch_candidates candidates)
    × (length (filter (λ d. d.spawn) (sort_dispatch_candidates candidates))
        ≡ length (filter (λ d. d.spawn && d.spawn) candidates))
sort_dispatch_candidates_lem_example = sort_dispatch_candidates_lem candidates (λ d. d.spawn)
