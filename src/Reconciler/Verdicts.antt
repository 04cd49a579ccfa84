-- ===== src/Reconciler/Verdicts.antt =====
-- About the loop of reconcileActiveRuns (src/reconciler.js): which runs it ends, and how it counts.
use fizzy_symphony.Base.{
  same_text, ◌+◌, ◌≡◌, Bool, true, false, not, ◌&&◌, ◌||◌, Option, List, String, length, filter,
  any,
}
use fizzy_symphony.Fizzy.Card.{Card}
use fizzy_symphony.Reconciler.Lifecycle.{Reconciliation}
use fizzy_symphony.Reconciler.StatusRuns.{Visit, Verdict, keep, preempt, cancel, verdict}

abbrev pub is_cancelled : Verdict → Bool
is_cancelled (cancel reason) = true
is_cancelled _ = false

abbrev pub is_preempted : Verdict → Bool
is_preempted preempt = true
is_preempted _ = false

abbrev pub is_ended : Verdict → Bool
is_ended keep = false
is_ended _ = true

-- The pass ends the run, and that throws.
abbrev pub throws : List Card → Visit → Bool
throws cards v = is_ended (verdict cards v) && not v.cancellation_returns

-- What the loop adds up to.
pub record Tally (cards : List Card) (vs : List Visit) (before after : Reconciliation)
    : Type 0 where
  pub cancelled :
      after.cancelled ≡ before.cancelled + length (filter (λ v. is_cancelled (verdict cards v)) vs)
  pub preempted :
      after.preempted ≡ before.preempted + length (filter (λ v. is_preempted (verdict cards v)) vs)
  pub card_ids :
      (id : Option String)
      → any (same_text id) after.card_ids ≡ (
          any (same_text id) before.card_ids
          || any (λ v. is_ended (verdict cards v) && same_text id v.run.card_id) vs)
