-- ===== src/Reconciler/Lifecycle.antt =====
-- The second half of reconcileActiveRuns (src/reconciler.js): the cancellations that the orchestrator's
-- state makes for the cards that were read again, counted by its log.
use fizzy_symphony.Base.{
  ℕ, suc, ◌≡◌, ◌≤◌, refl, Bool, true, Option, none, some, List, [], ◌∷◌, String, if◌then◌else◌,
  length, drop, length-drop, str_eq, same_text, any, truthy, arith,
}
use fizzy_symphony.Fizzy.Card.{Card}
use fizzy_symphony.Orchestrator.Types.{Config, Run, Cancellation, State}
use fizzy_symphony.Orchestrator.Runs.{reconcile_active_cards}
use fizzy_symphony.Orchestrator.Logs.{IsBounded, reconcile_active_cards-IsBounded}

-- `emptyReconciliation()`; the set of card IDs as a list in which none repeats.
pub record Reconciliation : Type 0 where
  pub cancelled : ℕ
  pub preempted : ℕ
  pub card_ids : List (Option String)

abbrev pub empty_reconciliation : Reconciliation
empty_reconciliation = record { cancelled = 0; preempted = 0; card_ids = [] }

-- `set.add(id)`; the latest first.
unfoldable pub add_id : Option String → List (Option String) → List (Option String)
add_id id ids = if any (same_text id) ids then ids else id ∷ ids

note_card : Option String → Reconciliation → Reconciliation
unfolding add_id
note_card id r = if truthy id then record r { card_ids = add_id id r.card_ids } else r

note_cancellation : Cancellation → Reconciliation → Reconciliation
unfolding note_card
note_cancellation c r = note_card c.card_id (
    if str_eq c.reason "route_fingerprint_mismatch"
    then record r { preempted = suc r.preempted }
    else record r { cancelled = suc r.cancelled })

unfoldable pub count_cancellations : List Cancellation → Reconciliation → Reconciliation
unfolding note_cancellation
count_cancellations [] r = r
count_cancellations (c ∷ cs) r = count_cancellations cs (note_cancellation c r)

-- `after.cancellations.slice(before.cancellations.length)`.
unfoldable pub new_cancellations : (before after : State) → List Cancellation
new_cancellations before after = drop (length before.cancellations) after.cancellations

none_left : {A : Type 0} (ys : List A) → length ys ≡ 0 → ys ≡ []
none_left [] e = refl
none_left (y ∷ ys) e = absurd (omega arith)

drop_all : {A : Type 0} (n : ℕ) (xs : List A) → length xs ≤ n → drop n xs ≡ []
drop_all n xs h = none_left (drop n xs) (omega (arith, length-drop n xs))

-- The branch with active runs: the state after it, and the count, unless the runner's `cancel` throws.
module _ (config : Config) (now : ℕ) (cancels : Run → Bool) where
  unfoldable pub reconcile_lifecycle :
      List Card → State → Reconciliation → State × Option Reconciliation
  unfolding count_cancellations new_cancellations reconcile_active_cards
  reconcile_lifecycle cards s r =
      let (after, returned) = reconcile_active_cards config now cancels cards s in
      let counted = count_cancellations (new_cancellations s after) r in
      if returned then (after, some counted) else (after, none)

  -- Once the log of cancellations holds 50 entries, no cancellation counts, whatever runs are
  -- cancelled: the count stays as it was, if the runner's cancellations return.
  pub reconcile_lifecycle_full :
      (cards : List Card) (s : State) (r : Reconciliation)
      → IsBounded s
      → length s.cancellations ≡ 50
      → (reconcile_active_cards config now cancels cards s).1 ≡ true
      → (reconcile_lifecycle cards s r).1 ≡ some r
  unfolding reconcile_lifecycle new_cancellations count_cancellations
  reconcile_lifecycle_full cards s r bounded full returned =
      let after = (reconcile_active_cards config now cancels cards s).0 in
      let few = (reconcile_active_cards-IsBounded config now cancels cards s bounded).cancelled in
      let same : drop (length s.cancellations) after.cancellations ≡ [] =
        drop_all (length s.cancellations) after.cancellations (omega (arith, few, full)) in
      rw (returned, same) refl
