-- ===== src/Tests/Scheduler.antt =====
-- Runs of the scheduler.
use fizzy_symphony.Base.{◌≡◌, refl, ◌≤◌, ◌+◌, ◌++◌, true, none, List, [], ◌∷◌, length, arith}
use fizzy_symphony.Scheduler.Defs.{
  startup, webhook, manual, Scheduler, create, enqueue, Event, starts, stops, asks, hint,
  timer_fires, tick_settles, step, run,
}
use fizzy_symphony.Scheduler.Invariant.{
  one_if, settled, IsLive, create-run-IsLive, single_flight, stop_final, coalesced,
}
use fizzy_symphony.Scheduler.Delivery.{delivered, hints_delivered, queue_bounded}

abbrev burst : List Event
burst =
    starts true
    ∷ timer_fires
    ∷ hint 7
    ∷ hint 8
    ∷ asks manual
    ∷ tick_settles
    ∷ hint 9
    ∷ tick_settles
    ∷ []

burst_ticks :
    (run (create 1000 2) burst).ticks
    ≡ (record { reason = startup; webhook_events = [] })
      ∷ (record { reason = webhook; webhook_events = 7 ∷ 8 ∷ [] })
      ∷ (record { reason = webhook; webhook_events = 9 ∷ [] })
      ∷ []
unfolding run step create
burst_ticks = refl

enqueue_test : enqueue 2 9 (7 ∷ 8 ∷ []) ≡ 8 ∷ 9 ∷ []
unfolding enqueue
enqueue_test = refl

single_flight_example :
    length (run (create 1000 2) burst).ticks
    ≡ settled (create 1000 2) burst + one_if (run (create 1000 2) burst).running
single_flight_example = single_flight 1000 2 burst

create-run-IsLive_example : IsLive (run (create 1000 2) burst)
create-run-IsLive_example = create-run-IsLive 1000 2 burst

queue_bounded_example : length (run (create 1000 2) burst).hints ≤ 2
queue_bounded_example = queue_bounded 1000 2 burst

hints_delivered_example :
    delivered (run (create 1000 3) burst).ticks ++ (run (create 1000 3) burst).hints
    ≡ 7 ∷ 8 ∷ 9 ∷ []
hints_delivered_example = hints_delivered 1000 3 burst (omega arith)

abbrev started : Scheduler
started = record (create 1000 2) { started = true }

stop_final_example : (run (step started stops) burst).ticks ≡ []
unfolding create
stop_final_example = stop_final started burst refl

abbrev ticking : Scheduler
ticking = record (create 1000 2) {
  started = true;
  running = true;
  ticks = record { reason = startup; webhook_events = [] } ∷ [];
}

coalesced_example :
    let t = step (run (step ticking (asks manual)) (hint 3 ∷ asks webhook ∷ [])) tick_settles in
    (t.running ≡ true) × (length t.ticks ≡ 2) × (t.pending_reason ≡ none)
unfolding create
coalesced_example = coalesced ticking manual (hint 3 ∷ asks webhook ∷ []) refl refl (tt, (tt, tt))
