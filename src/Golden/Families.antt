-- ===== src/Golden/Families.antt =====
-- The tags of a golden ticket by family (src/validation.js parseSingleFamily and its parsers).
use fizzy_symphony.Base.{
  Bool, not, ◌&&◌, ◌||◌, Option, none, some, List, [], ◌∷◌, String, if◌then◌else◌, str_eq, any,
  is_some, Result, ok, err, ◌>>=◌,
}
use fizzy_symphony.Fizzy.Card.{text}
use fizzy_symphony.Fizzy.Text.{strip_prefix}
use fizzy_symphony.Router.Tags.{normalize_tag}
use fizzy_symphony.Golden.Types.{
  Family, GoldenError, invalid_backend_tag, invalid_priority_tag, unknown_managed_tag,
  conflicting_tags,
}

abbrev pub starts_with : String → String → Bool
starts_with prefix tag = is_some (strip_prefix prefix tag)

-- KNOWN_BACKEND_TAGS.
abbrev pub known_backend_tags : List String
known_backend_tags = "claude" ∷ "codex" ∷ "opencode" ∷ "anthropic" ∷ "openai" ∷ "command" ∷ []

abbrev pub is_known_backend : String → Bool
is_known_backend tag = any (str_eq tag) known_backend_tags

nonempty : Option String → Option String
nonempty none = none
nonempty (some v) = if str_eq v "" then none else some v

unfoldable pub tag_value : String → String → Option String
unfolding nonempty
tag_value tag prefix = nonempty (strip_prefix prefix tag)

alias_backend : Option String → Result GoldenError (Option String)
alias_backend none = err invalid_backend_tag
alias_backend (some alias) =
    if is_known_backend alias then ok (some alias) else err invalid_backend_tag

unfoldable pub parse_backend_tag : String → Result GoldenError (Option String)
unfolding alias_backend tag_value
parse_backend_tag tag =
    if is_known_backend tag
    then ok (some tag)
    else if not (starts_with "backend-" tag)
    then ok none
    else alias_backend (tag_value tag "backend-")

unfoldable pub parse_default_backend : Option String → Result GoldenError (Option String)
unfolding alias_backend tag_value normalize_tag
parse_default_backend none = ok none
parse_default_backend (some value) =
    let normalized = normalize_tag (text value) in
    if str_eq value ""
    then ok none
    else if is_known_backend normalized
    then ok (some normalized)
    else alias_backend (tag_value normalized "backend-")

check_priority : Option String → Result GoldenError (Option String)
check_priority none = ok none
check_priority (some value) =
    if any (str_eq value) ("1" ∷ "2" ∷ "3" ∷ "4" ∷ "5" ∷ [])
    then ok (some value)
    else err invalid_priority_tag

unfoldable pub parse_priority_tag : String → Result GoldenError (Option String)
unfolding check_priority tag_value
parse_priority_tag tag = check_priority (tag_value tag "priority-")

-- `values.set(value, …)`: the keys in order of insertion.
add_value : Option String → List String → List String
add_value none values = values
add_value (some v) values = if any (str_eq v) values then values else v ∷ values

values_of :
    (String → Result GoldenError (Option String)) → List String → Result GoldenError (List String)
unfolding add_value
values_of parser [] = ok []
values_of parser (tag ∷ tags) =
    parser tag >>= λ value. values_of parser tags >>= λ values. ok (add_value value values)

single : Family → List String → Result GoldenError (Option String)
single family [] = ok none
single family (v ∷ []) = ok (some v)
single family (v ∷ w ∷ vs) = err (conflicting_tags family)

-- All tags are parsed before the values are counted.
unfoldable pub parse_single_family :
    Family
    → (String → Result GoldenError (Option String))
    → List String
    → Result GoldenError (Option String)
unfolding values_of single
parse_single_family family parser tags = values_of parser tags >>= single family

-- Of the tags that the source tests only these begin with "agent-", so the others do not count.
is_unknown_managed : String → Bool
is_unknown_managed tag =
    starts_with "agent-" tag
    && not (str_eq tag "agent-instructions" || str_eq tag "agent-board" || str_eq tag "agent-rerun")

unfoldable pub reject_unknown_managed_tags :
    List String → (warns : Bool) → Result GoldenError (Unit {0})
unfolding is_unknown_managed
reject_unknown_managed_tags tags warns =
    if any is_unknown_managed tags && not warns then err unknown_managed_tag else ok tt
