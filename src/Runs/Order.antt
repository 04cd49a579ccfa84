-- ===== src/Runs/Order.antt =====
-- The rules of assertions about the order of calls of Runs/Protocol, by a call, an assignment and a sequence.
use fizzy_symphony.Base.{ℕ, ◌≡◌, refl, Bool, true, false, not, ◌||◌, [], ◌∷◌, arith}
use fizzy_symphony.Runs.Types.{Call, Log, Outside, World, Kind}
use fizzy_symphony.Runs.Exec.{Exec, modify, ask, call, set_kind, wait, push, ◌>>=◌}
use fizzy_symphony.Runs.Card.{is_runner}
use fizzy_symphony.Runs.Triples.{Triple, Triple-ask, Triple-modify, Triple-bind}
use fizzy_symphony.Runs.Protocol.{did, has_posted, may_follow, is_ordered, is_post}

-- Before the result is posted, and after the runner has ended.
pub data Half : Type 0 where
  early late : Half

abbrev pub clear : Half → World → Bool
clear early w = not (has_posted w.log)
clear late w = not (is_runner w.failure_kind)

-- A call that leaves the half clear.
abbrev pub fits : Half → Call → Bool
fits early c = not (is_post c)
fits late c = true

module _ (o : Outside) (most : ℕ) where
  -- The calls so far were in order, and one that passes `p` has returned.
  pub record At (h : Half) (p : Call → Bool) (w : World) : Type 0 where
    pub in_order : is_ordered most w.log ≡ true
    pub is_clear : clear h w ≡ true
    pub has_done : did p w.log ≡ true

  -- What holds where a run throws.
  pub record Broken (w : World) : Type 0 where
    pub in_order : is_ordered most w.log ≡ true
    pub is_clear : (not (is_runner w.failure_kind) || not (has_posted w.log)) ≡ true

  pub At-Broken : (h : Half) (p : Call → Bool) (w : World) → At h p w → Broken w
  At-Broken early p w a = record { in_order = a.in_order; is_clear = ground (arith, a.is_clear) }
  At-Broken late p w a = record { in_order = a.in_order; is_clear = ground (arith, a.is_clear) }

  clear-step :
      (h : Half) (c : Call) (b : Bool) (w v : World)
      → v.log ≡ record { call = c; returned = b } ∷ w.log
      → v.failure_kind ≡ w.failure_kind
      → fits h c ≡ true
      → clear h w ≡ true
      → clear h v ≡ true
  unfolding has_posted
  clear-step early c b w v e k fit ok = rw e (ground (arith, fit, ok))
  clear-step late c b w v e k fit ok = rw k ok

  -- A call that may follow `p`, and a test `q` that it passes or that held before.
  pub At-step :
      (h : Half) (p q : Call → Bool) (c : Call) (b : Bool) (w v : World)
      → v.log ≡ record { call = c; returned = b } ∷ w.log
      → v.failure_kind ≡ w.failure_kind
      → fits h c ≡ true
      → ((l : Log) → did p l ≡ true → may_follow most c l ≡ true)
      → ((l : Log) → did p l ≡ true → did q (record { call = c; returned = b } ∷ l) ≡ true)
      → At h p w
      → At h q v
  unfolding is_ordered
  At-step h p q c b w v e k fit follows reaches a = record {
    in_order = rw (e, follows w.log a.has_done, a.in_order) refl;
    is_clear = clear-step h c b w v e k fit a.is_clear;
    has_done = rw e (reaches w.log a.has_done);
  }

  pub At-push :
      (h : Half) (p q : Call → Bool) (c : Call) (b : Bool) (w : World)
      → fits h c ≡ true
      → ((l : Log) → did p l ≡ true → may_follow most c l ≡ true)
      → ((l : Log) → did p l ≡ true → did q (record { call = c; returned = b } ∷ l) ≡ true)
      → At h p w
      → At h q (push c b (wait o w))
  unfolding push wait
  At-push h p q c b w fit follows reaches a =
      At-step h p q c b w (push c b (wait o w)) refl refl fit follows reaches a

  pub still :
      (p : Call → Bool) (c : Call) (b : Bool) (l : Log)
      → did p l ≡ true
      → did p (record { call = c; returned = b } ∷ l) ≡ true
  unfolding did
  still p c b l h = ground (arith, h)

  did_mono :
      (p q : Call → Bool)
      → ((c : Call) → p c ≡ true → q c ≡ true)
      → (l : Log) → did p l ≡ true
      → did q l ≡ true
  unfolding did
  did_mono p q sub [] h = h
  did_mono p q sub (e ∷ es) h = ground (arith, did_mono p q sub es, sub e.call)

  -- A weaker test of the same calls.
  pub At-mono :
      (h : Half) (p q : Call → Bool)
      → ((c : Call) → p c ≡ true → q c ≡ true)
      → (w : World) → At h p w
      → At h q w
  At-mono h p q sub w a = record {
    in_order = a.in_order;
    is_clear = a.is_clear;
    has_done = did_mono p q sub w.log a.has_done;
  }

  -- A call that reaches `q`.
  pub reach :
      {A : Type 0} (h : Half) (p q : Call → Bool) (c : Call) (f : Log → A)
      → fits h c ≡ true
      → ((l : Log) → did p l ≡ true → may_follow most c l ≡ true)
      → q c ≡ true
      → Triple (At h p) (ask o c f) (λ _. At h q) Broken
  unfolding did
  reach h p q c f fit follows hit =
      Triple-ask o c f (λ w a. At-push h p q c true w fit follows (λ l d. rw hit refl) a)
        (λ w a. At-Broken h p _ (At-push h p p c false w fit follows (still p c false) a))

  -- A call that may come at any time.
  pub pass :
      {A : Type 0} (h : Half) (p : Call → Bool) (c : Call) (f : Log → A)
      → fits h c ≡ true
      → ((l : Log) → did p l ≡ true → may_follow most c l ≡ true)
      → Triple (At h p) (ask o c f) (λ _. At h p) Broken
  pass h p c f fit follows =
      Triple-ask o c f (λ w a. At-push h p p c true w fit follows (still p c true) a)
        (λ w a. At-Broken h p _ (At-push h p p c false w fit follows (still p c false) a))

  pub reach_call :
      (h : Half) (p q : Call → Bool) (c : Call)
      → fits h c ≡ true
      → ((l : Log) → did p l ≡ true → may_follow most c l ≡ true)
      → q c ≡ true
      → Triple (At h p) (call o c) (λ _. At h q) Broken
  unfolding call
  reach_call h p q c fit follows hit = reach h p q c (λ l. tt) fit follows hit

  pub pass_call :
      (h : Half) (p : Call → Bool) (c : Call)
      → fits h c ≡ true
      → ((l : Log) → did p l ≡ true → may_follow most c l ≡ true)
      → Triple (At h p) (call o c) (λ _. At h p) Broken
  unfolding call
  pass_call h p c fit follows = pass h p c (λ l. tt) fit follows

  -- An assignment of another variable.
  pub assign :
      (h : Half) (p : Call → Bool) (f : World → World)
      → ((w : World) → (f w).log ≡ w.log)
      → ((w : World) → (f w).failure_kind ≡ w.failure_kind)
      → Triple (At h p) (modify f) (λ _. At h p) Broken
  assign h p f same_log same_kind = Triple-modify f (λ w a. record {
    in_order = rw (same_log w) a.in_order;
    is_clear = left h w (same_log w) (same_kind w) a.is_clear;
    has_done = rw (same_log w) a.has_done;
  })
    where
      left :
          (h : Half) (w : World)
          → (f w).log ≡ w.log
          → (f w).failure_kind ≡ w.failure_kind
          → clear h w ≡ true
          → clear h (f w) ≡ true
      left early w e k c = rw e c
      left late w e k c = rw k c

  pub enter_early :
      (p : Call → Bool) (k : Kind) → Triple (At early p) (set_kind k) (λ _. At early p) Broken
  unfolding set_kind
  enter_early p k =
      Triple-modify _
        (λ w a. record { in_order = a.in_order; is_clear = a.is_clear; has_done = a.has_done })

  -- With another kind than the runner's, the result may be posted.
  pub enter_late :
      (p : Call → Bool) (k : Kind)
      → is_runner k ≡ false
      → Triple (At early p) (set_kind k) (λ _. At late p) Broken
  unfolding set_kind
  enter_late p k other =
      Triple-modify _
        (λ w a. record { in_order = a.in_order; is_clear = rw other refl; has_done = a.has_done })

  -- A sequence, by what has returned in between.
  pub and_then :
      {A B : Type 0} {P : World → Type 0} {k : Half} {R : B → World → Type 0} {m : Exec A}
      {f : A → Exec B} (q : Call → Bool)
      → Triple P m (λ _. At k q) Broken
      → ((a : A) → Triple (At k q) (f a) R Broken)
      → Triple P (m >>= f) R Broken
  and_then q a b = Triple-bind _ _ a b
