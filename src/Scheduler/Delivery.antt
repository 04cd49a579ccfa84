-- ===== src/Scheduler/Delivery.antt =====
-- What becomes of the webhook hints (src/server.js createWebhookHintQueue, drained by
-- src/scheduler.js).
use mathlib.Core.List.{append_assoc, append-nil}
use fizzy_symphony.Base.{
  ℕ, zero, suc, ◌+◌, ◌≡◌, refl, sym, ◌∙◌, false, Option, none, some, List, [], ◌∷◌, ◌++◌, arith,
  length, length-snoc, ◌≤◌, length-drop, ◌-◌, drop,
}
use fizzy_symphony.Scheduler.Defs.{
  Scheduler, Event, Reason, Timer, Tick, create, step, run, tick_settles, stops, asks, hint, starts,
  timer_fires, tick_rejects_timer, enqueue, run_once, tick_now, fire_timer, after_tick, next_reason,
  start, stop, settle, timer_rejected,
}

enqueue_bounded : (limit h : ℕ) (q : List ℕ) → length (enqueue limit h q) ≤ limit
unfolding enqueue
enqueue_bounded limit h q =
    omega (arith, length-drop {0} (length (q ++ h ∷ []) - limit) (q ++ h ∷ []))

drop_zero : (n : ℕ) (q : List ℕ) → n ≡ 0 → drop n q ≡ q
drop_zero zero q e = refl
drop_zero (suc n) q e = absurd (omega arith)

enqueue_room : (limit h : ℕ) (q : List ℕ) → suc (length q) ≤ limit → enqueue limit h q ≡ q ++ h ∷ []
unfolding enqueue
enqueue_room limit h q e = drop_zero _ _ (omega (arith, length-snoc {0} q h))

-- The hints that came in, in order.
abbrev pub hints_of : List Event → List ℕ
hints_of [] = []
hints_of (hint h ∷ es) = h ∷ hints_of es
hints_of (_ ∷ es) = hints_of es

-- The hints that the calls of `runTick` were given, in order.
abbrev pub delivered : List Tick → List ℕ
delivered [] = []
delivered (t ∷ ts) = t.webhook_events ++ delivered ts

delivered-snoc :
    (ts : List Tick) (t : Tick) → delivered (ts ++ t ∷ []) ≡ delivered ts ++ t.webhook_events
delivered-snoc [] t = append-nil _
delivered-snoc (u ∷ ts) t =
    rw (delivered-snoc ts t) (sym (append_assoc u.webhook_events (delivered ts) t.webhook_events))

-- Delivered hints, followed by those that wait.
abbrev pub accounted : Scheduler → List ℕ
accounted s = delivered s.ticks ++ s.hints

step_bounded :
    (s : Scheduler) (e : Event)
    → length s.hints ≤ s.limit
    → (length (step s e).hints ≤ (step s e).limit) × ((step s e).limit ≡ s.limit)
unfolding step
step_bounded s (starts b) h = ground arith
step_bounded s (hint x) h = ground (arith, enqueue_bounded s.limit x s.hints)
step_bounded s _ h = ground arith

run_once-accounted : (r : Reason) (s : Scheduler) → accounted (run_once r s) ≡ accounted s
unfolding run_once
run_once-accounted r s = simp (delivered-snoc, append-nil)

tick_now-accounted : (r : Reason) (s : Scheduler) → accounted (tick_now r s) ≡ accounted s
unfolding tick_now
tick_now-accounted r s = ground (arith, run_once-accounted r s)

fire_timer-accounted : (t : Option Timer) (s : Scheduler) → accounted (fire_timer t s) ≡ accounted s
unfolding fire_timer
fire_timer-accounted none s = refl
fire_timer-accounted (some t) s = tick_now-accounted t.reason (record s { timer = none })

after_tick-accounted :
    (p : Option Reason) (s : Scheduler) → accounted (after_tick p s) ≡ accounted s
unfolding after_tick
after_tick-accounted (some r) s =
    ground (arith, run_once-accounted (next_reason s.hints r) (record s { pending_reason = none }))
after_tick-accounted none s = ground arith

-- Any event but a hint only moves waiting hints into a call of `runTick`.
step-accounted :
    (s : Scheduler) (e : Event)
    → length s.hints + length (hints_of (e ∷ [])) ≤ s.limit
    → accounted (step s e) ≡ accounted s ++ hints_of (e ∷ [])
unfolding start stop settle timer_rejected step
step-accounted s (starts b) h = rw append-nil (ground arith)
step-accounted s stops h = sym (append-nil (accounted s))
step-accounted s (asks r) h = rw append-nil (tick_now-accounted r s)
step-accounted s (hint x) h =
    tick_now-accounted Reason.webhook (record s { hints = enqueue s.limit x s.hints })
    ∙ rw (enqueue_room s.limit x s.hints (omega arith))
        (sym (append_assoc (delivered s.ticks) s.hints (x ∷ [])))
step-accounted s timer_fires h = rw append-nil (fire_timer-accounted s.timer s)
step-accounted s tick_settles h =
    rw append-nil
      (ground (arith, after_tick-accounted s.pending_reason (record s { running = false })))
step-accounted s tick_rejects_timer h = rw append-nil (ground arith)

length-enqueue : (limit h : ℕ) (q : List ℕ) → length (enqueue limit h q) ≤ length q + 1
unfolding enqueue
length-enqueue limit h q =
    omega (arith, length-drop {0} (length (q ++ h ∷ []) - limit) (q ++ h ∷ []), length-snoc {0} q h)

step_room :
    (s : Scheduler) (e : Event)
    → (length (step s e).hints ≤ length s.hints + length (hints_of (e ∷ [])))
      × ((step s e).limit ≡ s.limit)
unfolding step
step_room s (starts b) = ground arith
step_room s (hint x) = ground (arith, length-enqueue s.limit x s.hints)
step_room s _ = ground arith

hints_of-cons : (e : Event) (es : List Event) → hints_of (e ∷ es) ≡ hints_of (e ∷ []) ++ hints_of es
hints_of-cons (hint x) es = refl
hints_of-cons _ es = refl

length-hints_of-cons :
    (e : Event) (es : List Event)
    → length (hints_of (e ∷ es)) ≡ length (hints_of (e ∷ [])) + length (hints_of es)
length-hints_of-cons (hint x) es = omega arith
length-hints_of-cons _ es = omega arith

run-accounted :
    (s : Scheduler) (es : List Event)
    → length s.hints + length (hints_of es) ≤ s.limit
    → accounted (run s es) ≡ accounted s ++ hints_of es
unfolding run
run-accounted s [] h = sym (append-nil (accounted s))
run-accounted s (e ∷ es) h =
    let (room, limit) = step_room s e in
    let split = length-hints_of-cons e es in
    run-accounted (step s e) es (omega arith)
    ∙ rw (step-accounted s e (omega arith), hints_of-cons e es)
        (append_assoc (accounted s) (hints_of (e ∷ [])) (hints_of es))

run_bounded :
    (s : Scheduler) (es : List Event) → length s.hints ≤ s.limit → length (run s es).hints ≤ s.limit
unfolding run
run_bounded s [] h = h
run_bounded s (e ∷ es) h =
    let (small, same) = step_bounded s e h in omega (arith, run_bounded (step s e) es small)

-- However many hints come in, and whatever else happens, the queue never holds more than its limit.
pub queue_bounded :
    (interval_ms limit : ℕ) (es : List Event)
    → length (run (create interval_ms limit) es).hints ≤ limit
unfolding create
queue_bounded interval_ms limit es = run_bounded (create interval_ms limit) es (omega arith)

-- If no more hints come in than the queue holds, every hint is given to `runTick` exactly once, in
-- the order of arrival, or still waits in the queue behind those.
pub hints_delivered :
    (interval_ms limit : ℕ) (es : List Event)
    → length (hints_of es) ≤ limit
    → delivered (run (create interval_ms limit) es).ticks
        ++ (run (create interval_ms limit) es).hints
      ≡ hints_of es
unfolding create
hints_delivered interval_ms limit es h = run-accounted (create interval_ms limit) es (omega arith)
