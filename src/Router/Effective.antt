-- ===== src/Router/Effective.antt =====
-- The route with a card's overrides (src/router.js resolveEffectiveRoute, validateEffectiveRoute
-- and isOverrideAllowed).
use fizzy_symphony.Base.{
  Bool, true, false, not, ◌&&◌, Option, none, some, List, [], ◌∷◌, String, if◌then◌else◌, str_eq,
  any, get_or, or_else, is_true,
}
use fizzy_symphony.Router.Types.{
  Field, backend, model, workspace, persona, priority, completion, Allowed, Route, Config, Value,
  text, number, policy, IssueCode, unknown_workspace, unknown_model, Override, EffectiveRoute,
}
use fizzy_symphony.Router.Gates.{defaults_for_board}

-- DEFAULT_ALLOWED_CARD_OVERRIDES with the route's own on top.
unfoldable pub allowed_by : Option Allowed → Field → Bool
allowed_by none priority = true
allowed_by none _ = false
allowed_by (some a) backend = is_true a.backend
allowed_by (some a) model = is_true a.model
allowed_by (some a) workspace = is_true a.workspace
allowed_by (some a) persona = is_true a.persona
allowed_by (some a) priority = get_or a.priority true
allowed_by (some a) completion = is_true a.completion

unfoldable pub is_override_allowed : Field → Route → Config → Bool
unfolding allowed_by
is_override_allowed completion route config =
    allowed_by route.allowed_card_overrides completion
    && is_true config.allow_card_completion_override
is_override_allowed field route config = allowed_by route.allowed_card_overrides field

map_option {ℓ κ} : {A : Type ℓ} {B : Type κ} → (A → B) → Option A → Option B
map_option f none = none
map_option f (some a) = some (f a)

-- The route's own fields, then the board's defaults, then those of the agent.
unfoldable pub base_route : Route → Option String → Config → EffectiveRoute
unfolding defaults_for_board map_option
base_route route board_id config =
    let d = defaults_for_board config board_id in
    record {
      route = route;
      backend =
          text (get_or (or_else route.backend (or_else d.backend config.default_backend)) "codex");
      model = text (get_or (or_else route.model (or_else d.model config.default_model)) "");
      workspace = text (get_or (or_else route.workspace d.workspace) "app");
      persona =
          text (
            get_or (or_else route.persona (or_else d.persona config.default_persona)) "repo-agent");
      priority = map_option number (or_else route.priority d.priority);
      completion = map_option policy route.completion;
    }

-- `effective[field] = value`.
unfoldable pub apply_override : Field → Value → EffectiveRoute → EffectiveRoute
apply_override backend v e = record e { backend = v }
apply_override model v e = record e { model = v }
apply_override workspace v e = record e { workspace = v }
apply_override persona v e = record e { persona = v }
apply_override priority v e = record e { priority = some v }
apply_override completion v e = record e { completion = some v }

unfoldable pub apply_overrides : List Override → EffectiveRoute → EffectiveRoute
unfolding apply_override
apply_overrides [] e = e
apply_overrides (o ∷ os) e = apply_overrides os (apply_override o.field o.value e)

unfoldable pub resolve_effective_route :
    Route → Option String → Config → List Override → EffectiveRoute
unfolding base_route apply_overrides
resolve_effective_route route board_id config overrides =
    apply_overrides overrides (base_route route board_id config)

-- A list of names that is given and does not have the non-empty value.
abbrev pub unknown_in : Option (List String) → Value → Bool
unknown_in none v = false
unknown_in (some names) (text s) = not (str_eq s "") && not (any (str_eq s) names)
unknown_in (some names) _ = true

unfoldable pub validate_effective_route : EffectiveRoute → Config → Option IssueCode
validate_effective_route e config =
    if unknown_in config.workspace_registry e.workspace
    then some unknown_workspace
    else if unknown_in (or_else config.routing_allowed_models config.agent_allowed_models) e.model
    then some unknown_model
    else none
