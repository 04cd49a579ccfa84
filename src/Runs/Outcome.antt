-- ===== src/Runs/Outcome.antt =====
-- How runCard of src/reconciler.js ends: what it has done where it returns, and the order of its
-- calls.
use fizzy_symphony.Base.{
  ℕ, ◌≤◌, ◌≡◌, refl, Bool, true, false, not, ◌&&◌, ◌||◌, [], arith, Result, ok, err,
}
use fizzy_symphony.Orchestrator.Types.{Problem, State}
use fizzy_symphony.Reconciler.Dispatch.{RunStatus}
use fizzy_symphony.Runs.Completion.{Settled, run_body-Settled}
use fizzy_symphony.Runs.Types.{
  AttemptStatus, Outside, Job, World, Kind, records_attempt, records_failure, releases_claim,
  creates_failure_marker,
}
use fizzy_symphony.Runs.Exec.{wait, push}
use fizzy_symphony.Runs.Turns.{max_turns_of}
use fizzy_symphony.Runs.Sessions.{finalize_runner_session, finalize_runner_session-keeps}
use fizzy_symphony.Runs.Card.{
  report_failure, record_blocking_failure_marker, on_failure, run_card, start, is_runner,
  is_retryable_runner_error,
}
use fizzy_symphony.Runs.Triples.{
  Triple, Ends, Triple-pure, Triple-gets, Triple-if, Triple-attempt, Triple-modify, Triple-call,
  Triple-bind,
}
use fizzy_symphony.Runs.Protocol.{
  did, has_posted, may_follow, is_ordered, has_lost, has_settled, turns,
}
use fizzy_symphony.Runs.TurnCount.{turns_few}
use fizzy_symphony.Runs.Order.{early, At, Broken}

module _ (o : Outside) (job : Job) (most : ℕ) where
  -- What holds where a run throws.
  pub record Lost (w : World) : Type 0 where
    pub in_order : is_ordered most w.log ≡ true
    pub has_thrown : has_lost w.log ≡ true

  -- What the `catch` starts from, by the kind of the failure.
  record Blamed (k : Kind) (w : World) : Type 0 where
    in_order : is_ordered most w.log ≡ true
    is_clear : (not (is_runner k) || not (has_posted w.log)) ≡ true

  abbrev Kept : World → Type 0
  Kept w = is_ordered most w.log ≡ true

  Blamed-push :
      (k : Kind) (b : Bool) (w : World) → Blamed k w → Blamed k (push records_failure b (wait o w))
  unfolding push wait is_ordered may_follow has_posted
  Blamed-push k b w a = record { in_order = a.in_order; is_clear = a.is_clear }

  Blamed-made :
      (k : Kind) (b : Bool) (w : World)
      → Blamed k w
      → Blamed k (push creates_failure_marker b (wait o w))
  unfolding push wait is_ordered may_follow has_posted
  Blamed-made k b w a = record { in_order = a.in_order; is_clear = a.is_clear }

  thrown : (w : World) → has_lost (push creates_failure_marker false (wait o w)).log ≡ true
  unfolding push wait has_lost
  thrown w = refl

  record_blocking_failure_marker-Blamed :
      (k : Kind) (e : Problem)
      → Triple (Blamed k) (record_blocking_failure_marker o job k e) (λ _. Blamed k) Lost
  unfolding record_blocking_failure_marker
  record_blocking_failure_marker-Blamed k e =
      Triple-bind {Q = λ _. Blamed k} _ _ (Triple-gets _ (λ w a. a)) λ ws.
        Triple-if _ _ _
          (λ _.
            Triple-bind {Q = λ _. Blamed k} _ _
              (Triple-call o creates_failure_marker (Blamed-made k true) λ w a.
                let made = Blamed-made k false w a in
                record { in_order = made.in_order; has_thrown = thrown w })
              λ _.
                Triple-attempt {T = Blamed k} _ _
                  (Triple-call o records_failure (Blamed-push k true) (Blamed-push k false))
                  (λ x. Triple-pure _ (λ w a. a)))
          (λ _. Triple-pure _ (λ w a. a))

  report_failure-Kept :
      (k : Kind) (again : Bool) (e : Problem)
      → Triple (Blamed k) (report_failure o job (is_runner k && again) k e) (λ _. Kept) Lost
  unfolding report_failure push is_ordered may_follow
  report_failure-Kept k again e =
      Triple-modify _
        (λ w a. rw (told (is_runner k) again (has_posted w.log) a.is_clear) a.in_order)
    where
      told :
          (r again posted : Bool)
          → (not r || not posted) ≡ true
          → not ((r && again) && posted) ≡ true
      told r again posted h = ground arith

  finalize-Kept : Triple Kept (finalize_runner_session o job) (λ _. Kept) Lost
  unfolding push wait is_ordered may_follow
  finalize-Kept = finalize_runner_session-keeps o job _ _ (λ b w k. k) (λ b w k. k)

  on_failure-Settled :
      (e : Problem) → Triple (Broken o most) (on_failure o job e) (Settled o job most) Lost
  unfolding on_failure push wait is_ordered may_follow did has_lost
  on_failure-Settled e =
      Triple-bind {Q = Blamed} _ _
        (Triple-gets _ (λ w a. record { in_order = a.in_order; is_clear = a.is_clear }))
        λ k. Triple-bind {Q = λ _. Blamed k} _ _ (record_blocking_failure_marker-Blamed k e) λ _.
          Triple-bind {Q = λ _. Kept} _ _ (report_failure-Kept k (is_retryable_runner_error e) e)
            λ _. Triple-bind {Q = λ _. Kept} _ _ finalize-Kept λ _.
              Triple-bind {Q = λ _. Kept} _ _
                (Triple-call o (records_attempt AttemptStatus.failed) (λ w k. k)
                  (λ w k. record { in_order = k; has_thrown = refl }))
                λ _.
                  Triple-bind {Q = λ _. Settled o job most RunStatus.failed} _ _
                    (Triple-call o (releases_claim false)
                      (λ w k. record { in_order = k; has_done = refl })
                      (λ w k. record { in_order = k; has_thrown = refl }))
                    λ _. Triple-pure RunStatus.failed (λ w a. a)

  run_card-Settled :
      max_turns_of job.max_turns ≤ most
      → Triple (λ w. w.log ≡ []) (run_card o job) (Settled o job most) Lost
  unfolding run_card push wait is_ordered may_follow did has_posted has_lost
  run_card-Settled few =
      Triple-bind {Q = λ _. At o most early (λ c. true)} _ _
        (Triple-call o (records_attempt AttemptStatus.claimed)
          (λ w e. record { in_order = rw e refl; is_clear = rw e refl; has_done = refl })
          (λ w e. record { in_order = rw e refl; has_thrown = refl }))
        λ _.
          Triple-bind {Q = λ _. At o most early (λ c. true)} _ _
            (Triple-call o (records_attempt AttemptStatus.preparing_workspace)
              (λ w a. record { in_order = a.in_order; is_clear = a.is_clear; has_done = refl })
              (λ w a. record { in_order = a.in_order; has_thrown = refl }))
            λ _.
              Triple-attempt {T = Broken o most} _ _ (run_body-Settled o job most few)
                on_failure-Settled

module _ (o : Outside) (job : Job) where
  abbrev ends : State → Result Problem RunStatus × World
  ends s = run_card o job (start s)

  run_card-Ends :
      (s : State)
      → Ends
          (Settled o job (max_turns_of job.max_turns))
          (Lost o job (max_turns_of job.max_turns))
          (ends s)
  unfolding start
  run_card-Ends s =
      (run_card-Settled o job (max_turns_of job.max_turns) (omega arith)).at (start s) refl

  -- However a run ends, and whatever throws, its calls are in the order of the protocol: the
  -- workflow is loaded after the workspace is prepared, the session starts after that, each turn
  -- after the session or the turn before, and each call that comes later, up to the hand-off, after
  -- the one that it rests on has returned: the result is posted after the runner and the hook are
  -- done, the completion is marked after the proof and the policy, the claim is released as completed
  -- after the mark, and the workspace is cleaned after that; no failure is told as retryable once the
  -- result was posted; and no more turns start than are configured.
  pub run_card-is_ordered :
      (s : State)
      → (is_ordered (max_turns_of job.max_turns) (ends s).1.log ≡ true)
        × (turns (ends s).1.log ≤ max_turns_of job.max_turns)
  run_card-is_ordered s = (in_order (ends s) (run_card-Ends s), turns_few o job s)
    where
      in_order :
          (r : Result Problem RunStatus × World)
          → Ends
              (Settled o job (max_turns_of job.max_turns))
              (Lost o job (max_turns_of job.max_turns))
              r
          → is_ordered (max_turns_of job.max_turns) r.1.log ≡ true
      in_order (ok a, w) h = h.in_order
      in_order (err e, w) h = h.in_order

  -- In a run that returns "completed" the workpad's hand-off has returned, and in one that returns
  -- "failed" the call that releases the claim as failed has. A run throws only if writing a record of
  -- the attempt, releasing the claim, or making the failure marker in the `catch` has thrown.
  pub run_card_settles : (s : State) → has_settled (ends s).0 (ends s).1.log ≡ true
  run_card_settles s = settles (ends s) (run_card-Ends s)
    where
      settles :
          (r : Result Problem RunStatus × World)
          → Ends
              (Settled o job (max_turns_of job.max_turns))
              (Lost o job (max_turns_of job.max_turns))
              r
          → has_settled r.0 r.1.log ≡ true
      settles (ok a, w) h = h.has_done
      settles (err x, w) h = h.has_thrown
