-- ===== src/Router/Gates.antt =====
-- The conditions under which a card is passed over (src/router.js: the predicates that routeCard
-- calls). `now` is `Date.now()`, and `digest` the card's digest for the route.
use fizzy_symphony.Base.{
  ℕ, Bool, true, false, not, ◌&&◌, ◌||◌, Option, none, some, List, [], ◌∷◌, String, if◌then◌else◌,
  str_eq, any, find, get_or, or_else, same_text, truthy, is_true, is_false, ltb,
}
use fizzy_symphony.Fizzy.Card.{Card, stamped, parse_stamp, card_board_id}
use fizzy_symphony.Fizzy.Text.{to_lower_case}
use fizzy_symphony.Router.Types.{Board, BoardEntry, Config, Route, ActiveClaim, Marker, Defaults}

unfoldable pub get_board_id : Board → Card → Option String
unfolding card_board_id
get_board_id board card = or_else (card_board_id card) board.id

-- `a === b` where a missing `a` is `undefined` and a missing `b` is `null`.
abbrev pub same_id : Option String → Option String → Bool
same_id none b = false
same_id (some a) b = same_text (some a) b

abbrev pub is_entry : Option String → BoardEntry → Bool
is_entry id e = same_id e.id id

unfoldable pub is_watched_board : Option String → Config → Board → Bool
is_watched_board id config board = elim config.board_entries [
  | some (e ∷ es) ↦ any (λ e. is_entry id e && not (is_false e.enabled)) (e ∷ es)
  | _ ↦ same_id board.id id
]

-- `closed`, `closed_at`, `archived_at` or the status "closed".
unfoldable pub is_closed : Card → Bool
unfolding to_lower_case
is_closed card =
    is_true card.closed
    || truthy card.closed_at
    || truthy card.archived_at
    || str_eq (to_lower_case (get_or card.status "")) "closed"

abbrev pub after : ℕ → Option ℕ → Bool
after now none = true
after now (some ms) = ltb now ms

unfoldable pub is_postponed : ℕ → Card → Bool
is_postponed now card =
    is_true card.postponed
    || (stamped card.postponed_until && after now (parse_stamp card.postponed_until))

unfoldable pub serves : Option String → Option String → Route → Bool
serves board_id column_id route =
    same_id route.board_id board_id && same_id route.source_column_id column_id

unfoldable pub find_route : List Route → Option String → Option String → Option Route
unfolding serves
find_route routes board_id column_id = find (serves board_id column_id) routes

-- `!recordCardId || recordCardId === card?.id`.
unfoldable pub matches_card : Option String → Option String → Card → Bool
matches_card card_id inner_card_id card =
    let id = or_else card_id inner_card_id in not (truthy id) || same_text id card.id

-- TERMINAL_CLAIM_STATUSES.
abbrev pub is_terminal_status : Option String → Bool
is_terminal_status none = false
is_terminal_status (some s) =
    str_eq s "released"
    || str_eq s "completed"
    || str_eq s "failed"
    || str_eq s "cancelled"
    || str_eq s "lost"

-- The claim is for the card, not over and not expired.
unfoldable pub claim_blocks : ℕ → Card → ActiveClaim → Bool
unfolding matches_card
claim_blocks now card claim =
    matches_card claim.card_id claim.inner_card_id card
    && (not (is_terminal_status claim.status)
        && (not (is_true claim.expired)
            && (not (stamped claim.expires_at) || after now (parse_stamp claim.expires_at))))

unfoldable pub has_live_unexpired_claim : ℕ → List ActiveClaim → Card → Bool
unfolding claim_blocks
has_live_unexpired_claim now claims card = any (claim_blocks now card) claims

unfoldable pub matches_current_route_fingerprint : Marker → Route → Bool
matches_current_route_fingerprint marker route =
    if truthy marker.route_fingerprint
    then same_text marker.route_fingerprint route.fingerprint
    else if truthy marker.route_id
    then same_text marker.route_id route.id
    else false

unfoldable pub route_allows_rerun_on_change : Route → Bool
route_allows_rerun_on_change route =
    same_text route.rerun_mode (some "explicit_tag_or_route_change")
    || same_text route.rerun_mode (some "explicit_tag_or_content_change")
    || is_true route.rerun_on_card_change
    || is_true route.rerun_alias_on_card_change

unfoldable pub marker_blocks_current_digest : Marker → String → Route → Bool
unfolding route_allows_rerun_on_change
marker_blocks_current_digest marker digest route =
    if not (truthy marker.card_digest)
    then true
    else if same_text marker.card_digest (some digest)
    then true
    else not (route_allows_rerun_on_change route)

unfoldable pub completion_blocks : String → Card → Route → Marker → Bool
unfolding matches_card matches_current_route_fingerprint marker_blocks_current_digest
completion_blocks digest card route marker =
    matches_card marker.card_id marker.inner_card_id card
    && (matches_current_route_fingerprint marker route
        && (marker_blocks_current_digest marker digest route && not (is_false marker.no_repeat)))

unfoldable pub failure_blocks : String → Card → Route → Marker → Bool
unfolding matches_card matches_current_route_fingerprint marker_blocks_current_digest
failure_blocks digest card route marker =
    not (is_true marker.resolved)
    && (matches_card marker.card_id marker.inner_card_id card
        && (matches_current_route_fingerprint marker route
            && marker_blocks_current_digest marker digest route))

unfoldable pub has_no_repeat_completion_marker : String → List Marker → Card → Route → Bool
unfolding completion_blocks
has_no_repeat_completion_marker digest markers card route =
    any (completion_blocks digest card route) markers

unfoldable pub has_current_completion_failure_marker : String → List Marker → Card → Route → Bool
unfolding failure_blocks
has_current_completion_failure_marker digest markers card route =
    any (failure_blocks digest card route) markers

defaults_of : Option BoardEntry → Option Defaults
defaults_of none = none
defaults_of (some e) = e.defaults

abbrev pub no_defaults : Defaults
no_defaults = record {
  backend = none;
  model = none;
  workspace = none;
  persona = none;
  priority = none;
}

unfoldable pub defaults_for_board : Config → Option String → Defaults
unfolding defaults_of
defaults_for_board config id =
    get_or (defaults_of (find (is_entry id) (get_or config.board_entries []))) no_defaults
