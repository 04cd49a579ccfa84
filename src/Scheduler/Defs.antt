-- ===== src/Scheduler/Defs.antt =====
-- The scheduler's variables and its handlers, one function for each (src/scheduler.js), and the
-- hint queue (src/server.js).
-- What `runTick`, `snapshot` and the timers do is the environment's: an event says when a tick
-- settles, when the pending timer fires and when a rejected tick reaches the timer's `catch`.
-- A hint is a number that stands for its content; a clone of it is the same number.
use fizzy_symphony.Base.{
  ℕ, ◌-◌, Bool, true, false, not, ◌&&◌, ◌||◌, Option, none, some, List, [], ◌∷◌, ◌++◌,
  if◌then◌else◌, length, drop, is_some,
}

pub data Reason : Type 0 where
  startup interval webhook manual : Reason

abbrev pub is_webhook : Option Reason → Bool
is_webhook (some webhook) = true
is_webhook _ = false

-- One call of `runTick({ reason, webhookEvents })`.
pub record Tick : Type 0 where
  pub reason : Reason
  pub webhook_events : List ℕ

pub record Timer : Type 0 where
  pub reason : Reason
  pub delay : ℕ

pub record Scheduler : Type 0 where
  pub interval_ms : ℕ
  pub limit : ℕ
  pub stopped : Bool
  pub started : Bool
  pub running : Bool
  pub pending_reason : Option Reason
  pub timer : Option Timer
  pub hints : List ℕ
  pub ticks : List Tick

unfoldable pub create : ℕ → ℕ → Scheduler
create interval_ms limit = record {
  interval_ms = interval_ms;
  limit = limit;
  stopped = false;
  started = false;
  running = false;
  pending_reason = none;
  timer = none;
  hints = [];
  ticks = [];
}

-- `queue.push(hint); while (queue.length > limit) queue.shift();`
unfoldable pub enqueue : ℕ → ℕ → List ℕ → List ℕ
enqueue limit hint queue = let pushed = queue ++ hint ∷ [] in drop (length pushed - limit) pushed

unfoldable pub schedule : Reason → ℕ → Scheduler → Scheduler
schedule reason delay s =
    if s.stopped || is_some s.timer
    then s
    else record s { timer = some (record { reason = reason; delay = delay }) }

-- `runOnce` up to its first `await`: what it does at once, and the call of `runTick`.
unfoldable pub run_once : Reason → Scheduler → Scheduler
run_once reason s = record s {
  running = true;
  timer = none;
  hints = [];
  ticks = s.ticks ++ record { reason = reason; webhook_events = s.hints } ∷ [];
}

-- `hints.size > 0 ? "webhook" : pendingReason`.
unfoldable pub next_reason : List ℕ → Reason → Reason
next_reason [] pending = pending
next_reason (h ∷ hs) pending = webhook

-- What `finally` does once the tick is no longer running.
unfoldable pub after_tick : Option Reason → Scheduler → Scheduler
unfolding run_once schedule next_reason
after_tick (some pending) s =
    if s.stopped
    then s
    else run_once (next_reason s.hints pending) (record s { pending_reason = none })
after_tick none s = if not s.stopped && s.started then schedule interval s.interval_ms s else s

-- The `finally` block of `runOnce`, which is the same after a result and after an error.
unfoldable pub settle : Scheduler → Scheduler
unfolding after_tick
settle s = after_tick s.pending_reason (record s { running = false })

unfoldable pub tick_now : Reason → Scheduler → Scheduler
unfolding run_once
tick_now reason s =
    if s.stopped
    then s
    else if s.running
    then record s {
      pending_reason = if is_webhook s.pending_reason then some webhook else some reason;
    }
    else run_once reason s

unfoldable pub enqueue_webhook_hint : ℕ → Scheduler → Scheduler
unfolding tick_now enqueue
enqueue_webhook_hint hint s = tick_now webhook (record s { hints = enqueue s.limit hint s.hints })

-- `immediate` is `startOptions.immediate !== false && options.immediate !== false`.
unfoldable pub start : Bool → Scheduler → Scheduler
unfolding schedule
start immediate s =
    let t = record s { started = true; stopped = false } in
    if s.started
    then s
    else if immediate
    then schedule startup 0 t
    else schedule interval s.interval_ms t

unfoldable pub stop : Scheduler → Scheduler
stop s = record s { stopped = true; timer = none }

-- The timer's callback up to its `await`.
unfoldable pub fire_timer : Option Timer → Scheduler → Scheduler
unfolding tick_now
fire_timer none s = s
fire_timer (some t) s = tick_now t.reason (record s { timer = none })

-- The `catch` of the timer's callback.
unfoldable pub timer_rejected : Scheduler → Scheduler
unfolding schedule
timer_rejected s = if not s.stopped && s.started then schedule interval s.interval_ms s else s

pub data Event : Type 0 where
  starts : Bool → Event
  stops : Event
  asks : Reason → Event
  hint : ℕ → Event
  timer_fires : Event
  tick_settles : Event
  tick_rejects_timer : Event

-- A tick settles only while one runs, and a timer fires only while one is set.
unfoldable pub step : Scheduler → Event → Scheduler
unfolding start stop tick_now enqueue_webhook_hint fire_timer settle timer_rejected
step s (starts immediate) = start immediate s
step s stops = stop s
step s (asks reason) = tick_now reason s
step s (hint h) = enqueue_webhook_hint h s
step s timer_fires = fire_timer s.timer s
step s tick_settles = if s.running then settle s else s
step s tick_rejects_timer = timer_rejected s

unfoldable pub run : Scheduler → List Event → Scheduler
run s [] = s
run s (e ∷ es) = run (step s e) es
