-- ===== src/Runs/TurnCount.antt =====
-- How many turns a run of src/reconciler.js runCard starts.
use fizzy_symphony.Base.{
  ℕ, ◌≤◌, refl, Bool, Option, none, some, String, List, [], ◌∷◌, arith, same_text, is_some, ◌&&◌,
  ◌||◌, Result, ok, err,
}
use fizzy_symphony.Orchestrator.Types.{Problem, State}
use fizzy_symphony.Cleanup.Eligibility.{Cleanup, eligible, Workspace}
use fizzy_symphony.Cleanup.Policy.{PolicyResult}
use fizzy_symphony.Reconciler.Dispatch.{RunStatus}
use fizzy_symphony.Runs.Types.{
  Outside, Job, World, Kind, TurnResult, Refreshed, creates_failure_marker, records_failure,
}
use fizzy_symphony.Runs.Exec.{Exec, wait, push, ◌>>=◌}
use fizzy_symphony.Runs.Steps.{CardStep}
use fizzy_symphony.Runs.Turns.{max_turns_of}
use fizzy_symphony.Runs.Sessions.{finalize_runner_session, finalize_runner_session-keeps}
use fizzy_symphony.Runs.Card.{
  Finished, render_run_prompt, execute, run_after_run_hook, assert_route_still_current,
  prove_result, is_route_current, report_failure, fail_completion, apply_policy, clean_up,
  tell_completed, complete, after_policy, settle, run_body, should_record_blocking_failure_marker,
  record_blocking_failure_marker, on_failure, run_card, start,
}
use fizzy_symphony.Runs.Triples.{
  Triple, Ends, Triple-raise, Triple-gets, Triple-if, Triple-attempt, Triple-modify, Triple-bind,
  Triple-weaken,
}
use fizzy_symphony.Runs.Protocol.{turns}
use fizzy_symphony.Runs.TurnRules.{
  Few-push, asks, calls, assigns, chains, yields, enters, prepare-none, run_same_thread_turns-Few,
  StartsNone, Few,
}

module _ (o : Outside) (job : Job) where
  render_run_prompt-none :
      (k : ℕ) (p : Option String) → StartsNone o job k (render_run_prompt o job p)
  unfolding render_run_prompt
  render_run_prompt-none k none = asks o job k _ _ refl
  render_run_prompt-none k (some given) = yields o job k given

  abbrev most : ℕ
  most = max_turns_of job.max_turns

  -- At most the configured turns, from none before.
  abbrev StartsFew : {A : Type 0} → Exec A → Type 0
  StartsFew m = Triple (Few o job 0) m (λ _. Few o job most) (Few o job most)

  first_none :
      {A B : Type 0} (m : Exec A) (f : A → Exec B)
      → StartsNone o job 0 m
      → ((a : A) → StartsFew (f a))
      → StartsFew (m >>= f)
  first_none m f a b =
      Triple-bind {Q = λ _. Few o job 0} m f
        (Triple-weaken a (λ w h. h) (λ a w h. h) (λ w h. omega (arith, h))) b

  execute-Few : (p : Option String) → StartsFew (execute o job p)
  unfolding execute
  execute-Few p = first_none _ _ (enters o job 0 _) λ _. first_none _ _ (asks o job 0 _ _ refl) λ s.
      first_none _ _ (assigns o job 0 _ (λ w. refl)) λ _. first_none _ _ (calls o job 0 _ refl) λ _.
        first_none _ _ (render_run_prompt-none 0 _) λ prompt.
          Triple-bind {Q = λ _. Few o job most} _ _ (run_same_thread_turns-Few o job prompt) λ r.
            Triple-if (same_text r.status (some "completed")) _ _ (λ _. yields o job most r)
              (λ _. Triple-raise _ (λ w h. h))

  run_after_run_hook-none : StartsNone o job most (run_after_run_hook o job)
  unfolding run_after_run_hook
  run_after_run_hook-none = chains o job most _ _ (enters o job most _) λ _.
      chains o job most _ _ (asks o job most _ _ refl)
        λ hooked. Triple-if hooked _ _ (λ _. calls o job most _ refl) (λ _. yields o job most tt)

  assert_route_still_current-none :
      (card : Refreshed) → StartsNone o job most (assert_route_still_current o job card)
  unfolding assert_route_still_current
  assert_route_still_current-none card =
      Triple-if (is_route_current job.route.fingerprint card) _ _ (λ _. yields o job most tt)
        (λ _. Triple-raise _ (λ w h. h))

  prove_result-none :
      (ws : Workspace) (r : TurnResult) → StartsNone o job most (prove_result o job ws r)
  unfolding prove_result
  prove_result-none ws r = chains o job most _ _ (enters o job most _) λ _.
      chains o job most _ _ (calls o job most _ refl) λ _.
        chains o job most _ _ (asks o job most _ _ refl) λ card.
          chains o job most _ _ (assert_route_still_current-none card) λ _.
            chains o job most _ _ (asks o job most _ _ refl)
              λ c. chains o job most _ _ (asks o job most _ _ refl) λ q. yields o job most _

  finalize-none : StartsNone o job most (finalize_runner_session o job)
  finalize-none =
      finalize_runner_session-keeps o job _ _ (λ b w h. Few-push o job most _ b w refl h)
        (λ b w h. Few-push o job most _ b w refl h)

  report_failure-none :
      (again : Bool) (k : Kind) (e : Problem)
      → StartsNone o job most (report_failure o job again k e)
  unfolding report_failure push turns
  report_failure-none again k e = Triple-modify _ (λ w h. h)

  tell_completed-none : StartsNone o job most (tell_completed o job)
  unfolding tell_completed
  tell_completed-none = assigns o job most _ (λ w. refl)

  fail_completion-none : (e : Problem) → StartsNone o job most (fail_completion o job e)
  unfolding fail_completion
  fail_completion-none e = chains o job most _ _ (calls o job most _ refl) λ _.
      chains o job most _ _ (report_failure-none _ _ e) λ _.
        chains o job most _ _ finalize-none λ _.
          chains o job most _ _ (calls o job most _ refl) λ _.
            chains o job most _ _ (calls o job most _ refl)
              λ _. chains o job most _ _ (calls o job most _ refl) λ _. yields o job most _

  clean_up-none : (c : Cleanup) → StartsNone o job most (clean_up o job c)
  unfolding clean_up
  clean_up-none (Cleanup.preserve reason) = yields o job most tt
  clean_up-none (eligible policy) =
      Triple-if job.can_clean _ _
        (λ _. chains o job most _ _ (calls o job most _ refl) λ _.
          Triple-attempt {T = Few o job most} _ _ (calls o job most _ refl)
            (λ e. yields o job most tt))
        (λ _. yields o job most tt)

  complete-none : (f : Finished) → StartsNone o job most (complete o job f)
  unfolding complete
  complete-none f = chains o job most _ _ (asks o job most _ _ refl) λ m.
      chains o job most _ _ finalize-none λ _. chains o job most _ _ (asks o job most _ _ refl) λ r.
        chains o job most _ _ tell_completed-none λ _. chains o job most _ _ (clean_up-none _) λ _.
          chains o job most _ _ (calls o job most _ refl)
            λ _. chains o job most _ _ (calls o job most _ refl) λ _. yields o job most _

  after_policy-none :
      (f : Finished) (r : PolicyResult) → StartsNone o job most (after_policy o job f r)
  unfolding after_policy
  after_policy-none f (PolicyResult.succeeded policy) = complete-none f
  after_policy-none f (PolicyResult.failed code) = fail_completion-none _

  apply_policy-none : StartsNone o job most (apply_policy o job)
  unfolding apply_policy push wait turns
  apply_policy-none = record { at = λ w h. h }

  settle-none :
      (f : Finished) (blockers : List CardStep) → StartsNone o job most (settle o job f blockers)
  unfolding settle
  settle-none f (b ∷ bs) = fail_completion-none _
  settle-none f [] = chains o job most _ _ apply_policy-none (after_policy-none f)

  run_body-Few : StartsFew (run_body o job)
  unfolding run_body
  run_body-Few = first_none _ _ (prepare-none o job 0) λ p.
      Triple-bind {Q = λ _. Few o job most} _ _ (execute-Few _) λ r.
        chains o job most _ _ run_after_run_hook-none
          λ _. chains o job most _ _ (prove_result-none _ r) λ f. settle-none f _

  record_blocking_failure_marker-none :
      (k : Kind) (e : Problem) → StartsNone o job most (record_blocking_failure_marker o job k e)
  unfolding record_blocking_failure_marker
  record_blocking_failure_marker-none k e = chains o job most _ _ (Triple-gets _ (λ w h. h)) λ ws.
      Triple-if
        (should_record_blocking_failure_marker k e
          && (is_some ws || job.has_identity || o.names_path e))
        _ _
        (λ _. chains o job most _ _ (calls o job most creates_failure_marker refl) λ _.
          Triple-attempt {T = Few o job most} _ _ (calls o job most records_failure refl)
            (λ x. yields o job most tt))
        (λ _. yields o job most tt)

  on_failure-none : (e : Problem) → StartsNone o job most (on_failure o job e)
  unfolding on_failure
  on_failure-none e = chains o job most _ _ (Triple-gets _ (λ w h. h)) λ k.
      chains o job most _ _ (record_blocking_failure_marker-none k e) λ _.
        chains o job most _ _ (report_failure-none _ k e) λ _.
          chains o job most _ _ finalize-none λ _.
            chains o job most _ _ (calls o job most _ refl)
              λ _. chains o job most _ _ (calls o job most _ refl) λ _. yields o job most _

  run_card-Few : StartsFew (run_card o job)
  unfolding run_card
  run_card-Few = first_none _ _ (calls o job 0 _ refl) λ _.
      first_none _ _ (calls o job 0 _ refl)
        λ _. Triple-attempt {T = Few o job most} _ _ run_body-Few on_failure-none

  pub turns_few : (s : State) → turns (run_card o job (start s)).1.log ≤ most
  unfolding start turns
  turns_few s = few (run_card o job (start s)) (run_card-Few.at (start s) (omega arith))
    where
      few :
          (r : Result Problem RunStatus × World)
          → Ends (λ _. Few o job most) (Few o job most) r
          → turns r.1.log ≤ most
      few (ok a, w) h = h
      few (err e, w) h = h
