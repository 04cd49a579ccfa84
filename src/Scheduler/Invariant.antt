-- ===== src/Scheduler/Invariant.antt =====
-- What holds of the scheduler after any events (src/scheduler.js).
use fizzy_symphony.Base.{
  ℕ, ◌+◌, ◌≡◌, refl, Bool, true, false, none, List, [], ◌∷◌, arith, length, is_some, length-snoc,
  All, ◌∙◌,
}
use fizzy_symphony.Scheduler.Defs.{
  Scheduler, Event, Reason, Tick, create, step, run, tick_settles, stops, asks, starts,
}

pub record IsLive (s : Scheduler) : Type 0 where
  pub armed : s.started ≡ true → s.stopped ≡ false → s.running ≡ false → is_some s.timer ≡ true
  pub quiet : s.stopped ≡ true → s.timer ≡ none

create-IsLive : (interval_ms limit : ℕ) → IsLive (create interval_ms limit)
unfolding create
create-IsLive interval_ms limit = ground arith

step-IsLive : (s : Scheduler) (e : Event) → IsLive s → IsLive (step s e)
unfolding step
step-IsLive s (starts b) h = ground arith
step-IsLive s _ h = ground arith

run-IsLive : (s : Scheduler) (es : List Event) → IsLive s → IsLive (run s es)
unfolding run
run-IsLive s [] h = h
run-IsLive s (e ∷ es) h = run-IsLive (step s e) es (step-IsLive s e h)

-- After any calls, timers and settled ticks: a scheduler that is started and not stopped either
-- runs a tick or has a timer set for the next one, and a stopped one has no timer.
pub create-run-IsLive :
    (interval_ms limit : ℕ) (es : List Event) → IsLive (run (create interval_ms limit) es)
create-run-IsLive interval_ms limit es = run-IsLive _ es (create-IsLive interval_ms limit)

abbrev pub one_if : Bool → ℕ
one_if true = 1
one_if false = 0

-- How many ticks settle while the events are handled.
abbrev pub settled_by : Scheduler → Event → ℕ
settled_by s tick_settles = one_if s.running
settled_by s _ = 0

pub settled : Scheduler → List Event → ℕ
settled s [] = 0
settled s (e ∷ es) = settled_by s e + settled (step s e) es

step_flight :
    (s : Scheduler) (e : Event)
    → length (step s e).ticks + one_if s.running
      ≡ length s.ticks + settled_by s e + one_if (step s e).running
unfolding step
step_flight s (starts b) = ground arith
step_flight s _ = grind (arith, length-snoc)

run_flight :
    (s : Scheduler) (es : List Event)
    → length (run s es).ticks + one_if s.running
      ≡ length s.ticks + settled s es + one_if (run s es).running
unfolding run settled
run_flight s [] = omega arith
run_flight s (e ∷ es) = omega (arith, step_flight s e, run_flight (step s e) es)

-- At every moment the calls of `runTick` are the settled ones and the one that is running, if
-- any: two ticks never overlap.
pub single_flight :
    (interval_ms limit : ℕ) (es : List Event)
    → length (run (create interval_ms limit) es).ticks
      ≡ settled (create interval_ms limit) es + one_if (run (create interval_ms limit) es).running
unfolding create
single_flight interval_ms limit es = omega (arith, run_flight (create interval_ms limit) es)

step_stopped :
    (s : Scheduler) (e : Event)
    → s.started ≡ true
    → s.stopped ≡ true
    → ((step s e).started ≡ true) × ((step s e).stopped ≡ true) × ((step s e).ticks ≡ s.ticks)
unfolding step
step_stopped s (starts b) h k = ground arith
step_stopped s _ h k = ground arith

run_stopped :
    (s : Scheduler) (es : List Event)
    → s.started ≡ true
    → s.stopped ≡ true
    → (run s es).ticks ≡ s.ticks
unfolding run
run_stopped s [] h k = refl
run_stopped s (e ∷ es) h k =
    let (h', k', same) = step_stopped s e h k in run_stopped (step s e) es h' k' ∙ same

-- Once a started scheduler is stopped, no events whatever make it call `runTick` again.
pub stop_final :
    (s : Scheduler) (es : List Event) → s.started ≡ true → (run (step s stops) es).ticks ≡ s.ticks
unfolding step
stop_final s es h = run_stopped (step s stops) es h refl

-- Events under which a tick that runs goes on and the scheduler is not stopped.
abbrev pub IsCalm : Event → Type 0
IsCalm stops = ⊥
IsCalm tick_settles = ⊥
IsCalm _ = Unit

pub record IsBusy (ticks : List Tick) (s : Scheduler) : Type 0 where
  pub running : s.running ≡ true
  pub stopped : s.stopped ≡ false
  pub pending : is_some s.pending_reason ≡ true
  pub same : s.ticks ≡ ticks

step-IsBusy :
    (ticks : List Tick) (s : Scheduler) (e : Event)
    → IsCalm e
    → IsBusy ticks s
    → IsBusy ticks (step s e)
unfolding step
step-IsBusy ticks s (starts b) c h = ground arith
step-IsBusy ticks s _ c h = ground arith

run-IsBusy :
    (ticks : List Tick) (s : Scheduler) (es : List Event)
    → All IsCalm es
    → IsBusy ticks s
    → IsBusy ticks (run s es)
unfolding run
run-IsBusy ticks s [] c h = h
run-IsBusy ticks s (e ∷ es) (c, cs) h =
    run-IsBusy ticks (step s e) es cs (step-IsBusy ticks s e c h)

settle-IsBusy :
    (ticks : List Tick) (s : Scheduler)
    → IsBusy ticks s
    → ((step s tick_settles).running ≡ true)
      × (length (step s tick_settles).ticks ≡ length ticks + 1)
      × ((step s tick_settles).pending_reason ≡ none)
unfolding step
settle-IsBusy ticks s h = grind (arith, length-snoc)

asks-IsBusy :
    (s : Scheduler) (r : Reason)
    → s.running ≡ true
    → s.stopped ≡ false
    → IsBusy s.ticks (step s (asks r))
unfolding step
asks-IsBusy s r h k = ground arith

-- A request that comes while a tick runs is not lost, and any number of further calls before that
-- tick settles are merged with it: when the tick settles, exactly one more tick starts at once and
-- nothing is left pending, if the scheduler was not stopped.
pub coalesced :
    (s : Scheduler) (r : Reason) (es : List Event)
    → s.running ≡ true
    → s.stopped ≡ false
    → All IsCalm es
    → let t = step (run (step s (asks r)) es) tick_settles in
      (t.running ≡ true) × (length t.ticks ≡ length s.ticks + 1) × (t.pending_reason ≡ none)
coalesced s r es h k c = settle-IsBusy s.ticks _ (run-IsBusy s.ticks _ es c (asks-IsBusy s r h k))
