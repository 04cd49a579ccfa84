-- ===== src/Runs/TurnRules.antt =====
-- The turns that are started by the parts of a run (src/reconciler.js runCard), and rules for those
-- that start none.
use fizzy_symphony.Base.{
  ℕ, zero, suc, ◌+◌, ◌≤◌, ◌≡◌, refl, Bool, true, false, Option, none, some, String, arith, leb,
  truthy,
}
use fizzy_symphony.Runs.Types.{Call, Log, Outside, Job, World, Kind, TurnResult, starts_turn}
use fizzy_symphony.Runs.Exec.{Exec, pure, modify, ask, call, set_kind, wait, push, ◌>>=◌}
use fizzy_symphony.Runs.Turns.{
  tell_started, tell_activities, one_turn, after_turn, turns_from, run_same_thread_turns,
  max_turns_of, is_last, continuation_prompt,
}
use fizzy_symphony.Runs.Card.{prepare}
use fizzy_symphony.Runs.Triples.{
  Triple, Triple-pure, Triple-raise, Triple-if, Triple-ask, Triple-modify, Triple-bind,
  Triple-weaken,
}
use fizzy_symphony.Runs.Protocol.{is_start, turns}

module _ (o : Outside) (job : Job) where
  abbrev pub Few : ℕ → World → Type 0
  Few k w = turns w.log ≤ k

  -- From at most `k` turns to at most `k`.
  abbrev pub StartsNone : {A : Type 0} → ℕ → Exec A → Type 0
  StartsNone k m = Triple (Few k) m (λ _. Few k) (Few k)

  pub Few-push :
      (k : ℕ) (c : Call) (b : Bool) (w : World)
      → is_start c ≡ false
      → Few k w
      → Few k (push c b (wait o w))
  unfolding push wait turns
  Few-push k c b w other few = rw other few

  pub asks :
      {A : Type 0} (k : ℕ) (c : Call) (f : Log → A) → is_start c ≡ false → StartsNone k (ask o c f)
  asks k c f other =
      Triple-ask o c f (λ w h. Few-push k c true w other h) (λ w h. Few-push k c false w other h)

  pub calls : (k : ℕ) (c : Call) → is_start c ≡ false → StartsNone k (call o c)
  unfolding call
  calls k c other = asks k c (λ l. tt) other

  pub assigns :
      (k : ℕ) (f : World → World) → ((w : World) → (f w).log ≡ w.log) → StartsNone k (modify f)
  assigns k f same = Triple-modify f (λ w h. rw (same w) h)

  pub chains :
      {A B : Type 0} (k : ℕ) (m : Exec A) (f : A → Exec B)
      → StartsNone k m
      → ((a : A) → StartsNone k (f a))
      → StartsNone k (m >>= f)
  chains k m f a b = Triple-bind {Q = λ _. Few k} m f a b

  pub yields : {A : Type 0} (k : ℕ) (a : A) → StartsNone k (pure a)
  yields k a = Triple-pure a (λ w h. h)

  pub enters : (k : ℕ) (kind : Kind) → StartsNone k (set_kind kind)
  unfolding set_kind
  enters k kind = assigns k _ (λ w. refl)

  pub prepare-none : (k : ℕ) → StartsNone k (prepare o job)
  unfolding prepare
  prepare-none k = chains k _ _ (enters k _) λ _. chains k _ _ (asks k _ _ refl) λ ws.
      chains k _ _ (assigns k _ (λ w. refl)) λ _. chains k _ _ (enters k _) λ _.
        chains k _ _ (asks k _ _ refl) λ p.
          chains k _ _ (calls k _ refl)
            λ _. chains k _ _ (enters k _) λ _. chains k _ _ (calls k _ refl) λ _. yields k _

  -- One turn more.
  one_turn-Few :
      (n k : ℕ) (prompt : String)
      → Triple (Few k) (one_turn o job n prompt) (λ _. Few (suc k)) (Few (suc k))
  unfolding one_turn call tell_started tell_activities push wait turns
  one_turn-Few n k prompt =
      Triple-bind {Q = λ _. Few (suc k)} _ _
        (Triple-ask o (starts_turn n prompt) _ (λ w h. omega (arith, h)) (λ w h. omega (arith, h)))
        λ _. chains (suc k) _ _ (calls (suc k) _ refl) λ _.
          chains (suc k) _ _ (assigns (suc k) _ (λ w. refl))
            λ _. chains (suc k) _ _ (assigns (suc k) _ (λ w. refl)) λ _. asks (suc k) _ _ refl

  after_turn-Few :
      (k most : ℕ) (last final : Bool) (r : Option TurnResult) (again : String → Exec TurnResult)
      → k ≤ most
      → (final ≡ false → (p : String) → Triple (Few k) (again p) (λ _. Few most) (Few most))
      → Triple (Few k) (after_turn o job last final r again) (λ _. Few most) (Few most)
  unfolding after_turn
  after_turn-Few k most true final r again le h = Triple-pure _ (λ w f. omega (arith, f, le))
  after_turn-Few k most false true r again le h = Triple-raise _ (λ w f. omega (arith, f, le))
  after_turn-Few k most false false none again le h = Triple-raise _ (λ w f. omega (arith, f, le))
  after_turn-Few k most false false (some r) again le h =
      Triple-if (truthy (continuation_prompt r)) _ _ (λ _. h refl _)
        (λ _. Triple-raise _ (λ w f. omega (arith, f, le)))

  turns_from-Few :
      (left n k most : ℕ) (prompt : String)
      → k + left ≤ most
      → Triple (Few k) (turns_from o job left n prompt) (λ _. Few most) (Few most)
  unfolding turns_from
  turns_from-Few zero n k most prompt le = Triple-pure _ (λ w f. omega (arith, f, le))
  turns_from-Few (suc left) n k most prompt le =
      Triple-bind {Q = λ _. Few (suc k)} _ _
        (Triple-weaken (one_turn-Few n k prompt) (λ w f. f) (λ a w f. f)
          (λ w f. omega (arith, f, le)))
        λ r.
          after_turn-Few (suc k) most (is_last r) (leb left 0) r _ (omega (arith, le))
            (λ _ p. turns_from-Few left (suc n) (suc k) most p (omega (arith, le)))

  -- The session's turns.
  pub run_same_thread_turns-Few :
      (prompt : String)
      → Triple
          (Few 0)
          (run_same_thread_turns o job prompt)
          (λ _. Few (max_turns_of job.max_turns))
          (Few (max_turns_of job.max_turns))
  unfolding run_same_thread_turns
  run_same_thread_turns-Few prompt =
      turns_from-Few (max_turns_of job.max_turns) 1 0 (max_turns_of job.max_turns) prompt
        (omega arith)
