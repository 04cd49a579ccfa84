-- ===== src/Runs/Ordered.antt =====
-- The rules of Runs/Order applied to runCard of src/reconciler.js, part by part.
use fizzy_symphony.Base.{
  ℕ, zero, suc, ◌+◌, ◌≤◌, ◌≡◌, refl, Bool, true, false, Option, none, some, String, leb, le→leb,
  arith, truthy, get_or, or_else, same_text,
}
use fizzy_symphony.Cleanup.Eligibility.{Workspace}
use fizzy_symphony.Runs.Types.{
  Call, AttemptStatus, PadPhase, Outside, Job, Kind, TurnResult, Refreshed, records_attempt,
  prepares_workspace, loads_workflow, starts_session, runs_after_hook, refreshes_card, posts_result,
  writes_proof, updates_workpad, starts_turn, streams_turn, renders_prompt,
}
use fizzy_symphony.Runs.Exec.{Exec}
use fizzy_symphony.Runs.Turns.{
  tell_started, tell_activities, one_turn, after_turn, turns_from, run_same_thread_turns,
  max_turns_of, is_last, continuation_prompt,
}
use fizzy_symphony.Runs.Card.{
  prepare, render_run_prompt, execute, run_after_run_hook, assert_route_still_current, prove_result,
  is_route_current,
}
use fizzy_symphony.Runs.Triples.{Triple, Triple-pure, Triple-raise, Triple-if}
use fizzy_symphony.Runs.Protocol.{
  may_follow, is_prepare, is_load, is_session, is_stream, is_hook, is_refresh, is_post, is_proof,
  is_before, is_start_of,
}
use fizzy_symphony.Runs.Order.{
  Half, early, late, At, Broken, At-Broken, At-mono, reach, pass, reach_call, pass_call, assign,
  enter_early, enter_late, and_then,
}

module _ (o : Outside) (job : Job) (most : ℕ) where
  abbrev Between : Half → (Call → Bool) → {A : Type 0} → Exec A → (Call → Bool) → Type 0
  Between h p m q = Triple (At o most h p) m (λ _. At o most h q) (Broken o most)

  abbrev anything : Call → Bool
  anything c = true

  pub prepare-At : Between early anything (prepare o job) is_load
  unfolding prepare may_follow
  prepare-At = and_then o most anything (enter_early o most anything Kind.workspace) λ _.
      and_then o most is_prepare
        (reach o most early anything is_prepare prepares_workspace o.prepared refl (λ l h. refl)
          refl)
        λ ws.
          and_then o most is_prepare (assign o most early is_prepare _ (λ w. refl) (λ w. refl)) λ _.
            and_then o most is_prepare (enter_early o most is_prepare Kind.workflow) λ _.
              and_then o most is_load
                (reach o most early is_prepare is_load loads_workflow o.workflow_prompt refl
                  (λ l h. h) refl)
                λ p.
                  and_then o most is_load
                    (pass_call o most early is_load (records_attempt AttemptStatus.running) refl
                      (λ l h. refl))
                    λ _. and_then o most is_load (enter_early o most is_load Kind.workpad) λ _.
                      and_then o most is_load
                        (pass_call o most early is_load (updates_workpad PadPhase.pad_claimed) refl
                          (λ l h. refl))
                        λ _. Triple-pure _ (λ w a. a)

  one_turn-At :
      (n : ℕ) (prompt : String)
      → suc n ≤ most
      → Between early (is_before (suc n)) (one_turn o job (suc n) prompt) (is_before (suc (suc n)))
  unfolding one_turn tell_started tell_activities may_follow
  one_turn-At n prompt few =
      and_then o most b
        (reach_call o most early (is_before (suc n)) b (starts_turn (suc n) prompt) refl
          (λ l h. rw (h, le→leb (suc n) most few) refl) (ground arith))
        λ _.
          and_then o most b
            (pass_call o most early b (records_attempt AttemptStatus.running) refl (λ l h. refl))
            λ _. and_then o most b (assign o most early b _ (λ w. refl) (λ w. refl)) λ _.
              and_then o most b (assign o most early b _ (λ w. refl) (λ w. refl)) λ _.
                reach o most early b (is_before (suc (suc n))) (streams_turn (suc n)) o.streamed
                  refl (λ l h. h) (ground arith)
    where
      b : Call → Bool
      b = is_start_of (suc n)

  streams-before : (n : ℕ) (c : Call) → is_before (suc (suc n)) c ≡ true → is_stream c ≡ true
  streams-before n (streams_turn m) h = refl
  streams-before n c h = absurd (cc)

  after_turn-At :
      (n : ℕ) (last final : Bool) (r : Option TurnResult) (again : String → Exec TurnResult)
      → (final ≡ false → (p : String) → Between early (is_before (suc (suc n))) (again p) is_stream)
      → Between early (is_before (suc (suc n))) (after_turn o job last final r again) is_stream
  unfolding after_turn
  after_turn-At n true final r again h =
      Triple-pure _ (At-mono o most early (is_before (suc (suc n))) is_stream (streams-before n))
  after_turn-At n false true r again h = Triple-raise _ (At-Broken o most early _)
  after_turn-At n false false none again h = Triple-raise _ (At-Broken o most early _)
  after_turn-At n false false (some r) again h =
      Triple-if (truthy (continuation_prompt r)) _ _
        (λ _. h refl (get_or (continuation_prompt r) ""))
        (λ _. Triple-raise _ (At-Broken o most early _))

  turns_from-At :
      (left n : ℕ) (prompt : String)
      → suc (n + left) ≤ most
      → Between early (is_before (suc n)) (turns_from o job (suc left) (suc n) prompt) is_stream
  unfolding turns_from
  turns_from-At zero n prompt few =
      and_then o most (is_before (suc (suc n))) (one_turn-At n prompt (omega arith))
        λ r. after_turn-At n (is_last r) (leb zero 0) r _ (λ no. absurd (cc))
  turns_from-At (suc left) n prompt few =
      and_then o most (is_before (suc (suc n))) (one_turn-At n prompt (omega arith)) λ r.
        after_turn-At n (is_last r) (leb (suc left) 0) r _
          (λ _ p. turns_from-At left (suc n) p (omega arith))

  run_same_thread_turns-At :
      (prompt : String)
      → max_turns_of job.max_turns ≤ most
      → Between early is_session (run_same_thread_turns o job prompt) is_stream
  unfolding run_same_thread_turns max_turns_of
  run_same_thread_turns-At prompt few =
      from (max_turns_of job.max_turns) (positive job.max_turns) few
    where
      positive : (m : Option ℕ) → 1 ≤ max_turns_of m
      positive none = omega arith
      positive (some zero) = omega arith
      positive (some (suc n)) = omega arith

      from :
          (m : ℕ)
          → 1 ≤ m
          → m ≤ most
          → Between early is_session (turns_from o job m 1 prompt) is_stream
      from zero one le = absurd (omega arith)
      from (suc m) one le = turns_from-At m 0 prompt (omega arith)

  render_run_prompt-At :
      (p : Option String) → Between early is_session (render_run_prompt o job p) is_session
  unfolding render_run_prompt may_follow
  render_run_prompt-At none =
      pass o most early is_session renders_prompt o.rendered_prompt refl (λ l h. refl)
  render_run_prompt-At (some given) = Triple-pure _ (λ w a. a)

  pub execute-At :
      (p : Option String)
      → max_turns_of job.max_turns ≤ most
      → Between early is_load (execute o job p) is_stream
  unfolding execute may_follow
  execute-At p few = and_then o most is_load (enter_early o most is_load Kind.runner) λ _.
      and_then o most is_session
        (reach o most early is_load is_session starts_session o.session refl (λ l h. h) refl)
        λ s.
          and_then o most is_session (assign o most early is_session _ (λ w. refl) (λ w. refl)) λ _.
            and_then o most is_session
              (pass_call o most early is_session (records_attempt AttemptStatus.running) refl
                (λ l h. refl))
              λ _.
                and_then o most is_session (render_run_prompt-At (or_else job.decision_prompt p))
                  λ prompt. and_then o most is_stream (run_same_thread_turns-At prompt few) λ r.
                    Triple-if (same_text r.status (some "completed")) _ _
                      (λ _. Triple-pure _ (λ w a. a))
                      (λ _. Triple-raise _ (At-Broken o most early is_stream))

  pub run_after_run_hook-At : Between early is_stream (run_after_run_hook o job) is_hook
  unfolding run_after_run_hook may_follow
  run_after_run_hook-At =
      and_then o most is_stream (enter_early o most is_stream Kind.after_run) λ _.
        and_then o most is_hook
          (reach o most early is_stream is_hook runs_after_hook o.hooked refl (λ l h. h) refl)
          λ hooked.
            Triple-if hooked _ _
              (λ _.
                pass_call o most early is_hook (records_attempt AttemptStatus.running) refl
                  (λ l h. refl))
              (λ _. Triple-pure _ (λ w a. a))

  assert_route_still_current-At :
      (card : Refreshed)
      → Between late is_refresh (assert_route_still_current o job card) is_refresh
  unfolding assert_route_still_current
  assert_route_still_current-At card =
      Triple-if (is_route_current job.route.fingerprint card) _ _ (λ _. Triple-pure _ (λ w a. a))
        (λ _. Triple-raise _ (At-Broken o most late is_refresh))

  pub prove_result-At :
      (ws : Workspace) (r : TurnResult)
      → Triple
          (At o most early is_hook)
          (prove_result o job ws r)
          (λ _. At o most late is_proof)
          (Broken o most)
  unfolding prove_result may_follow
  prove_result-At ws r =
      and_then o most is_hook (enter_late o most is_hook Kind.completion refl) λ _.
        and_then o most is_hook
          (pass_call o most late is_hook (updates_workpad PadPhase.runner_completed) refl
            (λ l h. refl))
          λ _.
            and_then o most is_refresh
              (reach o most late is_hook is_refresh refreshes_card o.refreshed refl (λ l h. h) refl)
              λ card. and_then o most is_refresh (assert_route_still_current-At card) λ _.
                and_then o most is_post
                  (reach o most late is_refresh is_post posts_result o.result_comment refl
                    (λ l h. h) refl)
                  λ c.
                    and_then o most is_proof
                      (reach o most late is_post is_proof writes_proof o.proof refl (λ l h. h) refl)
                      λ q. Triple-pure _ (λ w a. a)
