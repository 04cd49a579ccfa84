-- ===== src/Router/Tags.antt =====
-- Reading the override tags of a card (src/router.js parseCardOverrides, parseOverrideTag and
-- parseMoveToCompletionOverride; normalizeTag of src/validation.js).
use Prim.Native.String
use fizzy_symphony.Base.{Result, err, ok, ◌>>=◌}
use fizzy_symphony.Base.{
  Bool, true, false, ◌||◌, none, some, List, [], ◌∷◌, ◌++◌, String, if◌then◌else◌, str_eq, filter,
  any, get_or, or_else, ◌==◌,
}
use Prim.Native.Char.{code}
use fizzy_symphony.Fizzy.Card.{Card, Tag, text as tag_text, labelled}
use fizzy_symphony.Fizzy.Text.{strip_prefix, completion_slug, trim, to_lower_case, drop_while}
use fizzy_symphony.Router.Types.{
  Column, Board, Field, backend, model, workspace, persona, priority, completion, close,
  comment_once, move_to_column, Value, text, number, policy, IssueCode, invalid_backend_tag,
  invalid_model_tag, invalid_workspace_tag, invalid_persona_tag, invalid_priority_tag,
  missing_completion_target, duplicate_completion_column_slug, invalid_completion_tag, conflicting,
  Override,
}

raw_tag : Tag → String
raw_tag (tag_text s) = s
raw_tag (labelled name title slug label) =
    get_or (or_else name (or_else title (or_else slug label))) ""

-- `raw.trim().replace(/^#+/u, "").toLowerCase()`.
unfoldable pub normalize_tag : Tag → String
unfolding raw_tag trim drop_while to_lower_case
normalize_tag tag = to_lower_case (drop_while (λ c. code c == b'#') (trim (raw_tag tag)))

-- `[...new Set(tags)]` after `filter(Boolean)`: `seen` holds the earlier ones.
unfoldable pub unique_from : List String → List String → List String
unique_from seen [] = []
unique_from seen (t ∷ ts) =
    let rest = unique_from (t ∷ seen) ts in
    let same = unique_from seen ts in if str_eq t "" || any (str_eq t) seen then same else t ∷ rest

abbrev tag_list : Card → List Tag
tag_list card = get_or (or_else card.tags (or_else card.tag_names card.tag_names_alias)) []

normalize_tags : List Tag → List String
unfolding normalize_tag
normalize_tags [] = []
normalize_tags (t ∷ ts) = normalize_tag t ∷ normalize_tags ts

unfoldable pub normalized_tags : Card → List String
unfolding normalize_tags unique_from
normalized_tags card = unique_from [] (normalize_tags (tag_list card))

pub data Parsed : Type 0 where
  -- no override tag
  other : Parsed
  invalid : IssueCode → Parsed
  override : (field : Field) (key : String) (value : Value) → Parsed

-- What follows a prefix; an empty rest is the error.
with_text : Field → IssueCode → String → Parsed
with_text field issue rest =
    if str_eq rest "" then invalid issue else override field rest (text rest)

priority_tag : String → Parsed
priority_tag value =
    if str_eq value "1"
    then override priority value (number 1)
    else if str_eq value "2"
    then override priority value (number 2)
    else if str_eq value "3"
    then override priority value (number 3)
    else if str_eq value "4"
    then override priority value (number 4)
    else if str_eq value "5"
    then override priority value (number 5)
    else invalid invalid_priority_tag

target_column : List Column → Parsed
target_column [] = invalid missing_completion_target
target_column (c ∷ []) =
    override completion (String.◌++◌ "move_to_column:" c.id) (policy (move_to_column c.id c.name))
target_column (c ∷ d ∷ cs) = invalid duplicate_completion_column_slug

unfoldable pub parse_move_to_completion_override : String → Board → Parsed
unfolding target_column completion_slug
parse_move_to_completion_override slug board =
    if str_eq slug ""
    then invalid missing_completion_target
    else target_column (filter (λ c. str_eq (completion_slug c.name) slug) board.columns)

-- The first of the prefixes that the tag begins with decides, after the whole tags.
when_prefix : String → String → (String → Parsed) → Parsed → Parsed
when_prefix prefix tag found rest = elim (strip_prefix prefix tag) [
  | some value ↦ found value
  | none ↦ rest
]

unfoldable pub parse_override_tag : String → Board → Parsed
unfolding when_prefix with_text priority_tag parse_move_to_completion_override strip_prefix
parse_override_tag tag board =
    if str_eq tag "codex" || str_eq tag "backend-codex"
    then override backend "codex" (text "codex")
    else when_prefix "backend-" tag (λ v. invalid invalid_backend_tag)
        (when_prefix "model-" tag (with_text model invalid_model_tag) (
          when_prefix "workspace-" tag (with_text workspace invalid_workspace_tag) (
            when_prefix "persona-" tag (with_text persona invalid_persona_tag) (
              when_prefix "priority-" tag priority_tag (
                if str_eq tag "complete-close"
                then override completion "close" (policy close)
                else if str_eq tag "complete-comment-once"
                then override completion "comment_once" (policy comment_once)
                else when_prefix "complete-move-to-" tag
                    (λ slug. parse_move_to_completion_override slug board)
                    (when_prefix "complete-" tag (λ v. invalid invalid_completion_tag) other))))))

-- The values that the tags of one field ask for, by key, in order of insertion.
pub record Entry : Type 0 where
  pub key : String
  pub value : Value
  pub tags : List String

pub record Family : Type 0 where
  pub field : Field
  pub entries : List Entry

abbrev pub same_field : Field → Field → Bool
same_field backend backend = true
same_field model model = true
same_field workspace workspace = true
same_field persona persona = true
same_field priority priority = true
same_field completion completion = true
same_field _ _ = false

unfoldable pub put_entry : String → String → Value → List Entry → List Entry
put_entry tag key value [] = record { key = key; value = value; tags = tag ∷ [] } ∷ []
put_entry tag key value (e ∷ es) =
    if str_eq e.key key
    then record e { tags = e.tags ++ tag ∷ [] } ∷ es
    else e ∷ put_entry tag key value es

unfoldable pub put_family : String → Field → String → Value → List Family → List Family
unfolding put_entry
put_family tag field key value [] =
    record { field = field; entries = put_entry tag key value [] } ∷ []
put_family tag field key value (f ∷ fs) =
    if same_field f.field field
    then record f { entries = put_entry tag key value f.entries } ∷ fs
    else f ∷ put_family tag field key value fs

abbrev pub Outcome {ℓ} : Type ℓ → Type ℓ
Outcome A = Result IssueCode A

-- The loop over the tags; the first invalid one ends it.
unfoldable pub collect_tag : String → Parsed → List Family → Outcome (List Family)
unfolding put_family
collect_tag tag other fs = ok fs
collect_tag tag (invalid i) fs = err i
collect_tag tag (override field key value) fs = ok (put_family tag field key value fs)

unfoldable pub collect_tags : Board → List String → List Family → Outcome (List Family)
unfolding collect_tag
collect_tags board [] fs = ok fs
collect_tags board (t ∷ ts) fs =
    collect_tag t (parse_override_tag t board) fs >>= collect_tags board ts

-- A field with two keys is a conflict.
unfoldable pub select : Field → List Entry → Outcome (List Override) → Outcome (List Override)
select field [] rest = rest
select field (e ∷ []) rest = do
  os ← rest
  ok (record { field = field; value = e.value; tags = e.tags } ∷ os)
select field (e ∷ e' ∷ es) rest = err (conflicting field)

unfoldable pub select_overrides : List Family → Outcome (List Override)
unfolding select
select_overrides [] = ok []
select_overrides (f ∷ fs) = select f.field f.entries (select_overrides fs)

unfoldable pub parse_card_overrides : List String → Board → Outcome (List Override)
unfolding collect_tags select_overrides
parse_card_overrides tags board = do
  families ← collect_tags board tags []
  select_overrides families
