-- ===== src/Golden/Completion.antt =====
-- The completion policy of a golden ticket (src/validation.js parseCompletion).
use fizzy_symphony.Base.{
  Bool, true, false, not, ◌&&◌, Option, none, some, List, [], ◌∷◌, String, if◌then◌else◌, str_eq,
  any, filter, Result, ok, err,
}
use fizzy_symphony.Fizzy.Text.{strip_prefix, completion_slug}
use fizzy_symphony.Router.Types.{Board, Column}
use fizzy_symphony.Golden.Types.{
  GoldenError, missing_completion_policy, conflicting_completion_tags, missing_completion_target,
  duplicate_completion_column_slug, completion_same_column, RouteCompletion, close, comment_once,
  move_to_column,
}

-- A completion tag: a move has what follows "move-to-".
pub data CompletionTag : Type 0 where
  moves : (slug : String) → CompletionTag
  closes comments : CompletionTag

tag_of : Option String → String → Option CompletionTag
tag_of (some slug) tag = some (moves slug)
tag_of none tag =
    if str_eq tag "close-on-complete"
    then some closes
    else if str_eq tag "comment-once"
    then some comments
    else none

add_tag : Option CompletionTag → List CompletionTag → List CompletionTag
add_tag none rest = rest
add_tag (some t) rest = t ∷ rest

unfoldable pub completion_tags : List String → List CompletionTag
unfolding tag_of add_tag
completion_tags [] = []
completion_tags (tag ∷ tags) =
    add_tag (tag_of (strip_prefix "move-to-" tag) tag) (completion_tags tags)

unfoldable pub find_column_by_completion_slug : Board → String → List Column
find_column_by_completion_slug board slug =
    filter (λ c. str_eq (completion_slug c.name) slug) board.columns

-- The column that a move goes to, out of those with its slug.
unfoldable pub move_target : (source : String) → List Column → Result GoldenError RouteCompletion
move_target source [] = err missing_completion_target
move_target source (c ∷ d ∷ cs) = err duplicate_completion_column_slug
move_target source (c ∷ []) =
    if str_eq c.id source then err completion_same_column else ok (move_to_column c.id c.name)

unfoldable pub select_completion :
    Board → String → CompletionTag → Result GoldenError RouteCompletion
unfolding move_target find_column_by_completion_slug
select_completion board source closes = ok close
select_completion board source comments = ok comment_once
select_completion board source (moves slug) =
    if str_eq slug ""
    then err missing_completion_target
    else move_target source (find_column_by_completion_slug board slug)

abbrev pub is_comment : CompletionTag → Bool
is_comment comments = true
is_comment _ = false

unfoldable pub parse_completion_tags :
    (no_repeat : Bool) → Board → String → List CompletionTag → Result GoldenError RouteCompletion
unfolding select_completion
parse_completion_tags no_repeat board source [] = err missing_completion_policy
parse_completion_tags no_repeat board source (t ∷ u ∷ ts) = err conflicting_completion_tags
parse_completion_tags no_repeat board source (t ∷ []) =
    if no_repeat && not (is_comment t)
    then err conflicting_completion_tags
    else select_completion board source t

unfoldable pub parse_completion : List String → Board → String → Result GoldenError RouteCompletion
unfolding parse_completion_tags completion_tags
parse_completion tags board source =
    parse_completion_tags (any (str_eq "no-repeat") tags) board source (completion_tags tags)
