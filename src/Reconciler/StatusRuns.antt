-- ===== src/Reconciler/StatusRuns.antt =====
-- reconcileActiveRuns of src/reconciler.js: its loop over the runs that the status holds as active,
-- and the whole. A visit is one pass of the loop, with what the calls made in it answer.
use fizzy_symphony.Base.{
  ℕ, suc, Bool, not, ◌&&◌, ◌||◌, Option, none, some, List, [], ◌∷◌, String, if◌then◌else◌, str_eq,
  truthy, same_text, is_true, is_false, or_else,
}
use fizzy_symphony.Fizzy.Card.{Card, card_status, card_board_id, card_column_id}
use fizzy_symphony.Orchestrator.Types.{Config, Run, State}
use fizzy_symphony.Reconciler.Lifecycle.{Reconciliation, add_id, reconcile_lifecycle}

pub record StatusRun : Type 0 where
  pub card_id : Option String
  pub board_id : Option String
  pub source_column_id : Option String  -- of its route
  pub route_fingerprint : Option String

pub record Visit : Type 0 where
  pub run : StatusRun
  pub renewed : Option Bool  -- of the claim's renewal
  pub fingerprint : Option String  -- of the route that the router gives the card
  pub cancellation_returns : Bool  -- else cancelStatusRun throws, where it is called

pub data Verdict : Type 0 where
  keep preempt : Verdict
  cancel : String → Verdict

-- `new Map(cards.map((card) => [card.id, card])).get(id)`: of two cards with one ID the later.
unfoldable pub card_by_id : Option String → List Card → Option Card
card_by_id id [] = none
card_by_id id (c ∷ cards) =
    or_else (card_by_id id cards) (if same_text c.id id then some c else none)

-- `a && b && a !== b`.
abbrev pub differ : Option String → Option String → Bool
differ a b = truthy a && (truthy b && not (same_text a b))

abbrev pub is_closed : Card → Bool
is_closed card = is_true card.closed || str_eq (card_status card) "closed"

abbrev pub is_postponed : Card → Bool
is_postponed card =
    is_true card.postponed
    || (str_eq (card_status card) "postponed"
        || (str_eq (card_status card) "not_now" || str_eq (card_status card) "not now"))

unfoldable pub active_run_ineligible_reason : StatusRun → Option Card → Option String
unfolding card_status card_board_id card_column_id
active_run_ineligible_reason run none = some "card_missing"
active_run_ineligible_reason run (some card) =
    if is_closed card
    then some "card_closed"
    else if is_true card.auto_postponed
    then some "card_auto_postponed"
    else if is_postponed card
    then some "card_postponed"
    else if differ (card_board_id card) run.board_id
    then some "card_board_changed"
    else if differ run.source_column_id (card_column_id card)
    then some "card_left_routed_column"
    else none

-- `decision?.route?.fingerprint ?? refreshedCard?.route_fingerprint`.
abbrev pub current_fingerprint : Visit → Option Card → Option String
current_fingerprint v none = v.fingerprint
current_fingerprint v (some card) = or_else v.fingerprint card.route_fingerprint

abbrev pub is_changed : Option String → StatusRun → Bool
is_changed current run = truthy current && not (same_text current run.route_fingerprint)

unfoldable pub verdict_of : Option Card → Visit → Verdict
unfolding active_run_ineligible_reason
verdict_of card v =
    if is_false v.renewed
    then cancel "claim_renewal_failed"
    else elim (active_run_ineligible_reason v.run card) [
      | some reason ↦ cancel reason
      | none ↦ if is_changed (current_fingerprint v card) v.run then preempt else keep
    ]

unfoldable pub verdict : List Card → Visit → Verdict
unfolding verdict_of card_by_id
verdict cards v = verdict_of (card_by_id v.run.card_id cards) v

-- One pass of the loop, unless cancelStatusRun throws.
unfoldable pub apply_verdict : Verdict → Visit → Reconciliation → Option Reconciliation
unfolding add_id
apply_verdict keep v r = some r
apply_verdict (cancel reason) v r =
    if v.cancellation_returns
    then some (record r { cancelled = suc r.cancelled; card_ids = add_id v.run.card_id r.card_ids })
    else none
apply_verdict preempt v r =
    if v.cancellation_returns
    then some (record r { preempted = suc r.preempted; card_ids = add_id v.run.card_id r.card_ids })
    else none

unfoldable pub reconcile_status_runs :
    List Card → List Visit → Reconciliation → Option Reconciliation
unfolding verdict apply_verdict
reconcile_status_runs cards [] r = some r
reconcile_status_runs cards (v ∷ vs) r = elim (apply_verdict (verdict cards v) v r) [
  | none ↦ none
  | some r' ↦ reconcile_status_runs cards vs r'
]

-- The cards are read anew for the second part, which runs only if the first returns; the first leaves
-- the orchestrator's state, `s`, alone.
unfoldable pub reconcile_active_runs :
    Config
    → ℕ
    → (Run → Bool)
    → (cards : List Card) → List Visit
    → (later_cards : List Card) → State
    → Reconciliation
    → State × Option Reconciliation
unfolding reconcile_status_runs reconcile_lifecycle
reconcile_active_runs config now cancels cards visits later_cards s r =
    elim (reconcile_status_runs cards visits r) [
      | none ↦ (s, none)
      | some r' ↦ reconcile_lifecycle config now cancels later_cards s r'
    ]
