-- ===== src/Router/Eligible.antt =====
-- What a decision to spawn implies (src/router.js routeCard).
use fizzy_symphony.Base.{err, ok}
use fizzy_symphony.Base.{
  ℕ, ◌≡◌, refl, true, false, not, ◌&&◌, Option, none, some, List, [], ◌∷◌, String, arith, str_eq,
  any, is_true, is_false, All, any_none_All,
}
use fizzy_symphony.Fizzy.Card.{Card, card_column_id}
use fizzy_symphony.Router.Types.{
  Config, Route, Marker, Field, backend, Override, IssueCode, EffectiveRoute, ignored, spawned,
  Reason,
}
use fizzy_symphony.Router.Tags.{normalized_tags, parse_card_overrides, Outcome}
use fizzy_symphony.Router.Gates.{
  get_board_id, is_watched_board, is_closed, is_postponed, find_route, has_live_unexpired_claim,
  claim_blocks,
}
use fizzy_symphony.Router.Effective.{
  is_override_allowed, resolve_effective_route, validate_effective_route, unknown_in,
}
use fizzy_symphony.Router.Decide.{
  Request, has_override, forbidden_in, route_fields, accept, unless_forbidden, with_overrides,
  route_by, route_card,
}

-- A route for which a card may be dispatched, the overrides of its tags and the route with them.
pub record IsEligible (now : ℕ) (r : Request) (e : EffectiveRoute) (os : List Override)
    : Type 0 where
  pub route : Route
  pub found : find_route r.routes (get_board_id r.board r.card) (card_column_id r.card) ≡ some route
  pub enabled : is_false route.enabled ≡ false
  pub unclaimed : All (λ c. claim_blocks now r.card c ≡ false) r.active_claims
  pub parsed : parse_card_overrides (normalized_tags r.card) r.board ≡ ok os
  pub allowed : (f : Field) → has_override os f ≡ true → is_override_allowed f route r.config ≡ true
  pub effective : e ≡ resolve_effective_route route (get_board_id r.board r.card) r.config os
  pub known_workspace : unknown_in r.config.workspace_registry e.workspace ≡ false

forbidden_in-allowed :
    (fs : List Field) (os : List Override) (route : Route) (config : Config)
    → forbidden_in fs os route config ≡ none
    → All (λ f. (has_override os f && not (is_override_allowed f route config)) ≡ false) fs
unfolding forbidden_in
forbidden_in-allowed [] os route config h = tt
forbidden_in-allowed (f ∷ fs) os route config h =
    (ground arith, forbidden_in-allowed fs os route config (ground arith))

allowed_field :
    (os : List Override) (route : Route) (config : Config) (f : Field)
    → All
        (λ f. (has_override os f && not (is_override_allowed f route config)) ≡ false)
        route_fields
    → has_override os f ≡ true
    → is_override_allowed f route config ≡ true
allowed_field os route config backend h k = ground arith
allowed_field os route config _ h k = ground arith

accept-spawned :
    (e e' : EffectiveRoute) (os os' : List Override) (i : Option IssueCode)
    → accept e os i ≡ spawned e' os'
    → (i ≡ none) × (e' ≡ e) × (os' ≡ os)
unfolding accept
accept-spawned e e' os os' none h = (refl, cc, cc)
accept-spawned e e' os os' (some i) h = absurd (cc)

validate_known :
    (e : EffectiveRoute) (config : Config)
    → validate_effective_route e config ≡ none
    → unknown_in config.workspace_registry e.workspace ≡ false
unfolding validate_effective_route
validate_known e config h = ground arith

unless_forbidden-spawned :
    (r : Request) (route : Route) (os os' : List Override) (e : EffectiveRoute) (f : Option Field)
    → unless_forbidden r route os f ≡ spawned e os'
    → (f ≡ none)
      × (e ≡ resolve_effective_route route (get_board_id r.board r.card) r.config os)
      × (os' ≡ os)
      × (unknown_in r.config.workspace_registry e.workspace ≡ false)
unfolding unless_forbidden
unless_forbidden-spawned r route os os' e (some f) h = absurd (cc)
unless_forbidden-spawned r route os os' e none h =
    let full = resolve_effective_route route (get_board_id r.board r.card) r.config os in
    let (valid, same, same_os) =
      accept-spawned full e os os' (validate_effective_route full r.config) h in
    (refl, same, same_os, rw same (validate_known full r.config valid))

with_overrides-IsEligible :
    (now : ℕ) (r : Request) (route : Route) (e : EffectiveRoute) (os : List Override)
    (p : Outcome (List Override))
    → find_route r.routes (get_board_id r.board r.card) (card_column_id r.card) ≡ some route
    → is_false route.enabled ≡ false
    → All (λ c. claim_blocks now r.card c ≡ false) r.active_claims
    → parse_card_overrides (normalized_tags r.card) r.board ≡ p
    → with_overrides r route p ≡ spawned e os
    → IsEligible now r e os
unfolding with_overrides
with_overrides-IsEligible now r route e os (err i) found on free parsed h = absurd (cc)
with_overrides-IsEligible now r route e os (ok os') found on free parsed h =
    let (allowed, same, same_os, known) =
      unless_forbidden-spawned r route os' os e (forbidden_in route_fields os' route r.config) h in
    record {
      route = route;
      found = found;
      enabled = on;
      unclaimed = free;
      parsed = rw same_os parsed;
      allowed = rw same_os (λ f k.
          allowed_field os' route r.config f
            (forbidden_in-allowed route_fields os' route r.config allowed) k);
      effective = rw same_os same;
      known_workspace = known;
    }

-- The gates between the look-up of the route and the overrides.
route_by-with_overrides :
    (now : ℕ) (digest : Card → Route → String) (r : Request) (route : Route) (e : EffectiveRoute)
    (os : List Override)
    → route_by now digest r (some route) ≡ spawned e os
    → (is_false route.enabled ≡ false)
      × (has_live_unexpired_claim now r.active_claims r.card ≡ false)
      × (with_overrides r route (parse_card_overrides (normalized_tags r.card) r.board)
          ≡ spawned e os)
unfolding route_by
route_by-with_overrides now digest r route e os h = ground arith

route_by-IsEligible :
    (now : ℕ) (digest : Card → Route → String) (r : Request) (found : Option Route)
    (e : EffectiveRoute) (os : List Override)
    → find_route r.routes (get_board_id r.board r.card) (card_column_id r.card) ≡ found
    → route_by now digest r found ≡ spawned e os
    → IsEligible now r e os
unfolding has_live_unexpired_claim
route_by-IsEligible now digest r none e os f h = absurd (cc (unfolded h))
  where
    unfolded : route_by now digest r none ≡ spawned e os → ignored Reason.no_route ≡ spawned e os
    unfolded x = unfold route_by in x
route_by-IsEligible now digest r (some route) e os f h =
    let (on, free, rest) = route_by-with_overrides now digest r route e os h in
    with_overrides-IsEligible now r route e os _ f on
      (any_none_All (claim_blocks now r.card) r.active_claims free) refl rest

-- The tests of routeCard that a dispatched card has passed; Dispatchable says what they mean.
pub route_card-IsEligible :
    (now : ℕ) (digest : Card → Route → String) (r : Request) (e : EffectiveRoute)
    (os : List Override)
    → route_card now digest r ≡ spawned e os
    → (is_true r.card.golden ≡ false)
      × (is_watched_board (get_board_id r.board r.card) r.config r.board ≡ true)
      × (is_closed r.card ≡ false)
      × ((is_postponed now r.card && not r.config.allow_postponed_cards) ≡ false)
      × IsEligible now r e os
unfolding route_card
route_card-IsEligible now digest r e os h =
    let looked = find_route r.routes (get_board_id r.board r.card) (card_column_id r.card) in
    let rest : route_by now digest r looked ≡ spawned e os = ground arith in
    (
      ground arith,
      ground arith,
      ground arith,
      ground arith,
      route_by-IsEligible now digest r looked e os refl rest,
    )

route_by_rerun :
    (now : ℕ) (digest : Card → Route → String) (r : Request) (found : Option Route)
    (done failures : List Marker)
    → any (str_eq "agent-rerun") (normalized_tags r.card) ≡ true
    → route_by now digest
        (record r { completed_markers = done; completion_failure_markers = failures })
        found
      ≡ route_by now digest r found
unfolding route_by
route_by_rerun now digest r none done failures h = refl
route_by_rerun now digest r (some route) done failures h = rw h

-- With the tag agent-rerun, completion markers and completion failure markers change nothing in the
-- decision.
pub route_card_rerun :
    (now : ℕ) (digest : Card → Route → String) (r : Request) (done failures : List Marker)
    → any (str_eq "agent-rerun") (normalized_tags r.card) ≡ true
    → route_card now digest
        (record r { completed_markers = done; completion_failure_markers = failures })
      ≡ route_card now digest r
unfolding route_card
route_card_rerun now digest r done failures h = rw (
    route_by_rerun now digest r
      (find_route r.routes (get_board_id r.board r.card) (card_column_id r.card)) done failures h)
