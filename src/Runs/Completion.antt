-- ===== src/Runs/Completion.antt =====
-- What a run of src/reconciler.js runCard has done where the body of its `try` returns: the completion
-- of the card, or its failure.
use fizzy_symphony.Base.{ℕ, ◌≤◌, ◌≡◌, refl, Bool, true, false, List, [], ◌∷◌}
use fizzy_symphony.Orchestrator.Types.{Problem}
use fizzy_symphony.Cleanup.Eligibility.{Cleanup, eligible}
use fizzy_symphony.Cleanup.Policy.{PolicyResult, apply_completion_policy}
use fizzy_symphony.Reconciler.Dispatch.{RunStatus}
use fizzy_symphony.Runs.Ordered.{prepare-At, execute-At, run_after_run_hook-At, prove_result-At}
use fizzy_symphony.Runs.Types.{
  Call, AttemptStatus, PadPhase, Outside, Job, World, Kind, records_attempt, applies_policy,
  records_completion, records_failure, cleans_workspace, updates_workpad, reports_failure,
  releases_claim, stops_session, terminates_process,
}
use fizzy_symphony.Runs.Exec.{Exec, wait, push}
use fizzy_symphony.Runs.Steps.{CardStep}
use fizzy_symphony.Runs.Turns.{max_turns_of}
use fizzy_symphony.Runs.Sessions.{finalize_runner_session, finalize_runner_session-keeps}
use fizzy_symphony.Runs.Card.{
  Finished, report_failure, fail_completion, apply_policy, clean_up, tell_completed, complete,
  after_policy, settle, run_body, is_success,
}
use fizzy_symphony.Runs.Triples.{
  Triple, Triple-pure, Triple-if, Triple-attempt, Triple-modify, Triple-call, Triple-bind,
}
use fizzy_symphony.Runs.Protocol.{
  did, may_follow, is_ordered, is_load, is_stream, is_hook, is_proof, is_policy, is_marker,
  is_release, is_handoff, is_settled,
}
use fizzy_symphony.Runs.Order.{
  Half, early, late, At, Broken, At-push, At-step, still, reach, reach_call, pass_call, assign,
  and_then,
}

module _ (o : Outside) (job : Job) (most : ℕ) where
  abbrev Between : Half → (Call → Bool) → {A : Type 0} → Exec A → (Call → Bool) → Type 0
  Between h p m q = Triple (At o most h p) m (λ _. At o most h q) (Broken o most)

  -- What holds where a run returns a status.
  pub record Settled (status : RunStatus) (w : World) : Type 0 where
    pub in_order : is_ordered most w.log ≡ true
    pub has_done : did (is_settled status) w.log ≡ true

  At-Settled :
      (status : RunStatus) (w : World) → At o most late (is_settled status) w → Settled status w
  At-Settled status w a = record { in_order = a.in_order; has_done = a.has_done }

  finalize-At : (h : Half) (p : Call → Bool) → Between h p (finalize_runner_session o job) p
  unfolding may_follow
  finalize-At early p =
      finalize_runner_session-keeps o job _ _
        (λ b w a.
          At-push o most early p p stops_session b w refl (λ l h. refl)
            (still o most p stops_session b) a)
        (λ b w a.
          At-push o most early p p terminates_process b w refl (λ l h. refl)
            (still o most p terminates_process b) a)
  finalize-At late p =
      finalize_runner_session-keeps o job _ _
        (λ b w a.
          At-push o most late p p stops_session b w refl (λ l h. refl)
            (still o most p stops_session b) a)
        (λ b w a.
          At-push o most late p p terminates_process b w refl (λ l h. refl)
            (still o most p terminates_process b) a)

  -- A failure that is not to be retried may be told at any time.
  report_failure-At :
      (p : Call → Bool) (k : Kind) (e : Problem) → Between late p (report_failure o job false k e) p
  unfolding report_failure may_follow push
  report_failure-At p k e = Triple-modify _ (λ w a.
      At-step o most late p p (reports_failure false k) true w _ refl refl refl (λ l h. refl)
        (still o most p (reports_failure false k) true) a)

  fail_completion-At :
      (p : Call → Bool) (e : Problem)
      → Triple (At o most late p) (fail_completion o job e) Settled (Broken o most)
  unfolding fail_completion may_follow
  fail_completion-At p e =
      and_then o most p (pass_call o most late p records_failure refl (λ l h. refl)) λ _.
        and_then o most p (report_failure-At p Kind.completion e) λ _.
          and_then o most p (finalize-At late p) λ _.
            and_then o most p
              (pass_call o most late p (records_attempt AttemptStatus.failed) refl (λ l h. refl))
              λ _.
                and_then o most p
                  (pass_call o most late p (updates_workpad PadPhase.completion_failed) refl
                    (λ l h. refl))
                  λ _.
                    and_then o most (is_release false)
                      (reach_call o most late p (is_release false) (releases_claim false) refl
                        (λ l h. refl) refl)
                      λ _. Triple-pure RunStatus.failed (At-Settled RunStatus.failed)

  clean_up-At : (c : Cleanup) → Between late (is_release true) (clean_up o job c) (is_release true)
  unfolding clean_up may_follow
  clean_up-At (Cleanup.preserve reason) = Triple-pure _ (λ w a. a)
  clean_up-At (eligible policy) =
      Triple-if job.can_clean _ _
        (λ _.
          and_then o most (is_release true)
            (pass_call o most late (is_release true) (records_attempt AttemptStatus.cleanup_started)
              refl (λ l h. refl))
            λ _.
              Triple-attempt {T = At o most late (is_release true)} _ _
                (Triple-call o cleans_workspace
                  (λ w a.
                    At-push o most late (is_release true) (is_release true) cleans_workspace true w
                      refl (λ l h. h) (still o most (is_release true) cleans_workspace true) a)
                  (λ w a.
                    At-push o most late (is_release true) (is_release true) cleans_workspace false w
                      refl (λ l h. h) (still o most (is_release true) cleans_workspace false) a))
                (λ e. Triple-pure _ (λ w a. a)))
        (λ _. Triple-pure _ (λ w a. a))

  complete-At :
      (f : Finished) → Triple (At o most late is_policy) (complete o job f) Settled (Broken o most)
  unfolding complete tell_completed may_follow
  complete-At f =
      and_then o most is_marker
        (reach o most late is_policy is_marker records_completion o.completion_marker refl
          (λ l h. h) refl)
        λ m. and_then o most is_marker (finalize-At late is_marker) λ _.
          and_then o most (is_release true)
            (reach o most late is_marker (is_release true) (releases_claim true) o.released refl
              (λ l h. h) refl)
            λ r.
              and_then o most (is_release true)
                (assign o most late (is_release true) _ (λ w. refl) (λ w. refl))
                λ _. and_then o most (is_release true) (clean_up-At _) λ _.
                  and_then o most is_handoff
                    (reach_call o most late (is_release true) is_handoff
                      (updates_workpad PadPhase.handoff) refl (λ l h. h) refl)
                    λ _.
                      and_then o most is_handoff
                        (pass_call o most late is_handoff (records_attempt AttemptStatus.completed)
                          refl (λ l h. h))
                        λ _. Triple-pure RunStatus.completed (At-Settled RunStatus.completed)

  policy_reached : PolicyResult → Call → Bool
  policy_reached (PolicyResult.succeeded policy) = is_policy
  policy_reached (PolicyResult.failed code) = is_proof

  apply_policy-At :
      Triple
        (At o most late is_proof)
        (apply_policy o job)
        (λ r. At o most late (policy_reached r))
        (Broken o most)
  unfolding apply_policy may_follow did policy_reached
  apply_policy-At = record {
    at = λ w a. reached (apply_completion_policy (o.client w.log) job.completion).result w a;
  }
    where
      reached :
          (r : PolicyResult) (w : World)
          → At o most late is_proof w
          → At o most late (policy_reached r) (push applies_policy (is_success o job r) (wait o w))
      reached (PolicyResult.succeeded policy) w a =
          At-push o most late is_proof is_policy applies_policy true w refl (λ l h. h) (λ l h. refl)
            a
      reached (PolicyResult.failed code) w a =
          At-push o most late is_proof is_proof applies_policy false w refl (λ l h. h)
            (still o most is_proof applies_policy false) a

  after_policy-Settled :
      (f : Finished) (r : PolicyResult)
      → Triple (At o most late (policy_reached r)) (after_policy o job f r) Settled (Broken o most)
  unfolding after_policy policy_reached
  after_policy-Settled f (PolicyResult.succeeded policy) = complete-At f
  after_policy-Settled f (PolicyResult.failed code) = fail_completion-At is_proof _

  settle-Settled :
      (f : Finished) (blockers : List CardStep)
      → Triple (At o most late is_proof) (settle o job f blockers) Settled (Broken o most)
  unfolding settle
  settle-Settled f (b ∷ bs) = fail_completion-At is_proof _
  settle-Settled f [] = Triple-bind _ _ apply_policy-At (after_policy-Settled f)

  pub run_body-Settled :
      max_turns_of job.max_turns ≤ most
      → Triple (At o most early (λ c. true)) (run_body o job) Settled (Broken o most)
  unfolding run_body
  run_body-Settled few = and_then o most is_load (prepare-At o job most) λ p.
      and_then o most is_stream (execute-At o job most p.1 few) λ r.
        and_then o most is_hook (run_after_run_hook-At o job most)
          λ _. and_then o most is_proof (prove_result-At o job most p.0 r) λ f. settle-Settled f _
