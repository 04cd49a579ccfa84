-- ===== src/Tests/Golden.antt =====
-- Golden tickets at concrete boards.
use fizzy_symphony.Base.{
  ◌≡◌, refl, ◌↔◌, true, false, none, some, List, [], ◌∷◌, String, ok, err, All, is_some,
}
use fizzy_symphony.Fizzy.Card.{Card, no_card, text}
use fizzy_symphony.Router.Types.{Board}
use fizzy_symphony.Fizzy.Text.{strip_prefix, completion_slug}
use fizzy_symphony.Golden.Families.{
  parse_backend_tag, parse_priority_tag, reject_unknown_managed_tags,
}
use fizzy_symphony.Golden.Completion.{parse_completion}
use fizzy_symphony.Golden.Types.{BoardCards, Options, GoldenRoute, completion_cycle, move_to_column}
use fizzy_symphony.Golden.Graph.{move_target_by_source, find_cycle, validate_completion_graph}
use fizzy_symphony.Golden.Discover.{discover_board}
use fizzy_symphony.Golden.Cycles.{Cycle, find_cycle_ends, validate_completion_graph_iff}
use fizzy_symphony.Golden.Columns.{IsRoute, distinct, sources, discover_board-IsRoute}

abbrev options : Options
options = record { defaults = none; warns_unknown = false }

abbrev board : Board
board = record {
  id = some "b1";
  columns =
      record { id = "todo"; name = "To do" }
      ∷ record { id = "review"; name = "In review" }
      ∷ record { id = "done"; name = "Done" }
      ∷ [];
}

abbrev ticket : (column move : String) → Card
ticket column move = record no_card {
  id = some column;
  column_id = some column;
  golden = some true;
  tags = some (text "#agent-instructions" ∷ text move ∷ text "priority-2" ∷ []);
}

abbrev chain : BoardCards
chain = record {
  board = board;
  cards = ticket "todo" "Move-to-in-review" ∷ ticket "review" "move-to-done" ∷ [];
}

abbrev route : (source : String) → (target name : String) → GoldenRoute
route source target name = record {
  board_id = some "b1";
  source_column_id = source;
  source_column_name = source;
  golden_card_id = some source;
  backend = "codex";
  enabled = true;
  model = "";
  workspace = "app";
  persona = "repo-agent";
  priority = some "2";
  completion = move_to_column target name;
}

abbrev found : List GoldenRoute
found =
    record (route "todo" "review" "In review") { source_column_name = "To do" }
    ∷ record (route "review" "done" "Done") { source_column_name = "In review" }
    ∷ []

chain_found : discover_board options chain ≡ ok found
unfolding discover_board parse_backend_tag strip_prefix parse_priority_tag parse_completion
    completion_slug reject_unknown_managed_tags
chain_found = refl

-- Cards that go to and fro.
abbrev circle : List GoldenRoute
circle = route "todo" "review" "In review" ∷ route "review" "todo" "To do" ∷ []

circle_refused : validate_completion_graph circle ≡ err completion_cycle
unfolding validate_completion_graph
circle_refused = refl

discover_board-IsRoute_example : (distinct (sources found) ≡ true) × All (IsRoute board) found
discover_board-IsRoute_example = discover_board-IsRoute options chain found chain_found

validate_completion_graph_iff_example :
    (validate_completion_graph circle ≡ err completion_cycle) ↔ Cycle (move_target_by_source circle)
validate_completion_graph_iff_example = validate_completion_graph_iff circle

find_cycle_ends_example : is_some (find_cycle (move_target_by_source circle) "b1:todo") ≡ true
find_cycle_ends_example = find_cycle_ends (move_target_by_source circle) "b1:todo"
