-- ===== src/Golden/Discover.antt =====
-- Golden tickets into routes (src/validation.js discoverGoldenTicketRoutes and
-- parseGoldenTicketRoute). The route's ID, which is made of the board, column and card, its options and
-- its digest are left out.
use fizzy_symphony.Base.{
  Bool, not, ◌&&◌, ◌||◌, Option, none, some, List, [], ◌∷◌, ◌++◌, String, if◌then◌else◌, str_eq,
  any, filter, find, is_true, get_or, or_else, same_text, Result, ok, err, ◌>>=◌, ◌>>◌,
}
use fizzy_symphony.Fizzy.Card.{Card, Place}
use fizzy_symphony.Router.Types.{Board, Column}
use fizzy_symphony.Router.Tags.{normalized_tags}
use fizzy_symphony.Golden.Types.{
  BoardCards, Defaults, Options, AllOptions, Family, GoldenError, GoldenRoute,
  tag_only_instruction_card, board_level_golden_ticket, duplicate_golden_tickets,
}
use fizzy_symphony.Golden.Families.{
  parse_single_family, parse_backend_tag, parse_default_backend, parse_priority_tag, tag_value,
  reject_unknown_managed_tags,
}
use fizzy_symphony.Golden.Completion.{parse_completion}
use fizzy_symphony.Golden.Graph.{validate_completion_graph}

unfoldable pub has_tag : Card → String → Bool
unfolding normalized_tags
has_tag card tag = any (str_eq tag) (normalized_tags card)

column_place_id : Option Place → Option String
column_place_id none = none
column_place_id (some p) = p.id

unfoldable pub get_column_id : Card → Option String
unfolding column_place_id
get_column_id card = or_else card.column_id (column_place_id card.column)

column_name : Option Column → String → String
column_name none id = id
column_name (some c) id = c.name

find_column_name : Board → String → String
unfolding column_name
find_column_name board id = column_name (find (λ c. str_eq c.id id) board.columns) id

unfoldable pub no_defaults : Defaults
no_defaults = record { backend = none; model = none; workspace = none; persona = none }

-- The backend of the tags, or else the default one.
unfoldable pub backend_or : Option String → Option String → Result GoldenError String
unfolding parse_default_backend
backend_or (some backend) default_backend = ok backend
backend_or none default_backend =
    parse_default_backend default_backend >>= λ backend. ok (get_or backend "codex")

abbrev pub value_parser : String → String → Result GoldenError (Option String)
value_parser prefix tag = ok (tag_value tag prefix)

is_executable_backend : String → Bool
is_executable_backend backend = str_eq backend "codex"

-- `sourceColumnId` is that of the card.
unfoldable pub parse_golden_ticket_route :
    Board → Card → (source : String) → Options → Result GoldenError GoldenRoute
unfolding backend_or no_defaults find_column_name is_executable_backend parse_single_family
parse_golden_ticket_route board card source options =
    let tags = normalized_tags card in
    let d = get_or options.defaults no_defaults in
    do
      tagged ← parse_single_family Family.backend parse_backend_tag tags
      backend ← backend_or tagged d.backend
      model ← parse_single_family Family.model (value_parser "model-") tags
      workspace ← parse_single_family Family.workspace (value_parser "workspace-") tags
      persona ← parse_single_family Family.persona (value_parser "persona-") tags
      priority ← parse_single_family Family.priority parse_priority_tag tags
      completion ← parse_completion tags board source
      reject_unknown_managed_tags tags options.warns_unknown
      ok (record {
        board_id = board.id;
        source_column_id = source;
        source_column_name = find_column_name board source;
        golden_card_id = card.id;
        backend = backend;
        enabled = is_executable_backend backend;
        model = get_or (or_else model d.model) "";
        workspace = get_or (or_else workspace d.workspace) "app";
        persona = get_or (or_else persona d.persona) "repo-agent";
        priority = priority;
        completion = completion;
      })

-- The guards on a route card's column: those before the ticket is parsed.
unfoldable pub check_column :
    Card → (seen : List String) → Option String → Result GoldenError String
unfolding has_tag
check_column card seen none = err board_level_golden_ticket
check_column card seen (some column) =
    if str_eq column "" || has_tag card "agent-board"
    then err board_level_golden_ticket
    else if any (str_eq column) seen
    then err duplicate_golden_tickets
    else ok column

-- The route cards of a board, after those of the columns that were seen.
unfoldable pub discover_cards :
    Board → Options → (seen : List String) → List Card → Result GoldenError (List GoldenRoute)
unfolding check_column get_column_id parse_golden_ticket_route
discover_cards board options seen [] = ok []
discover_cards board options seen (card ∷ cards) =
    check_column card seen (get_column_id card) >>= λ column.
    parse_golden_ticket_route board card column options >>= λ route.
    discover_cards board options (column ∷ seen) cards >>= λ routes. ok (route ∷ routes)

abbrev pub is_instruction : Card → Bool
is_instruction card = has_tag card "agent-instructions"

unfoldable pub discover_board : Options → BoardCards → Result GoldenError (List GoldenRoute)
unfolding discover_cards
discover_board options b =
    if any (λ card. not (is_true card.golden)) (filter is_instruction b.cards)
    then err tag_only_instruction_card
    else discover_cards b.board options []
        (filter (λ card. is_true card.golden && is_instruction card) b.cards)

own_options : Option String → List (Option String × Options) → Options → Options
own_options id [] common = common
own_options id ((key, own) ∷ rest) common =
    if same_text key id then own else own_options id rest common

unfoldable pub options_for_board : AllOptions → Option String → Options
unfolding own_options
options_for_board options id = own_options id options.by_board_id options.common

unfoldable pub discover_boards :
    AllOptions → List BoardCards → Result GoldenError (List GoldenRoute)
unfolding discover_board options_for_board
discover_boards options [] = ok []
discover_boards options (b ∷ boards) =
    discover_board (options_for_board options b.board.id) b >>= λ routes.
    discover_boards options boards >>= λ rest. ok (routes ++ rest)

unfoldable pub discover_golden_ticket_routes :
    AllOptions → List BoardCards → Result GoldenError (List GoldenRoute)
unfolding discover_boards validate_completion_graph
discover_golden_ticket_routes options boards = discover_boards options boards >>= λ routes.
    validate_completion_graph routes >>= λ valid. ok routes
