-- ===== src/Runs/Triples.antt =====
-- Assertions before and after code that may throw, one rule for each way to build it. The lemmas of
-- the modules below rest on these rules.
use fizzy_symphony.Base.{
  ◌≡◌, refl, Bool, true, false, Option, none, some, Result, ok, err, if◌then◌else◌,
}
use fizzy_symphony.Orchestrator.Types.{Problem}
use fizzy_symphony.Runs.Types.{Call, Log, Outside, World}
use fizzy_symphony.Runs.Exec.{
  Exec, pure, raise, attempt, handle, modify, gets, ask, call, wait, finish, push, ◌>>=◌, proceed,
}

-- `Q` where the code returns, `E` where it throws.
abbrev pub Ends :
    {A : Type 0} → (A → World → Type 0) → (World → Type 0) → Result Problem A × World → Type 0
Ends Q E (ok a, w) = Q a w
Ends Q E (err e, w) = E w

pub record Triple {A : Type 0} (P : World → Type 0) (m : Exec A) (Q : A → World → Type 0)
    (E : World → Type 0) : Type 0 where
  pub at : (w : World) → P w → Ends Q E (m w)

module _ {A : Type 0} {P : World → Type 0} {Q : A → World → Type 0} {E : World → Type 0} where
  pub Triple-pure : (a : A) → ((w : World) → P w → Q a w) → Triple P (pure a) Q E
  unfolding pure
  Triple-pure a h = record { at = λ w p. h w p }

  pub Triple-raise : (e : Problem) → ((w : World) → P w → E w) → Triple P (raise {A = A} e) Q E
  unfolding raise
  Triple-raise e h = record { at = λ w p. h w p }

  pub Triple-gets : (f : World → A) → ((w : World) → P w → Q (f w) w) → Triple P (gets f) Q E
  unfolding gets
  Triple-gets f h = record { at = λ w p. h w p }

  pub Triple-ask :
      (o : Outside) (c : Call) (f : Log → A)
      → ((w : World) → P w → Q (f w.log) (push c true (wait o w)))
      → ((w : World) → P w → E (push c false (wait o w)))
      → Triple P (ask o c f) Q E
  unfolding ask wait finish
  Triple-ask o c f returned thrown = record { at = λ w p. ends w p (o.throws w.log c) }
    where
      ends : (w : World) → P w → (t : Option Problem) → Ends Q E (finish c f t (wait o w))
      ends w p none = returned w p
      ends w p (some e) = thrown w p

  pub Triple-if :
      (b : Bool) (m n : Exec A)
      → (b ≡ true → Triple P m Q E)
      → (b ≡ false → Triple P n Q E)
      → Triple P (if b then m else n) Q E
  Triple-if true m n h k = h refl
  Triple-if false m n h k = k refl

  -- The handler starts where the body threw.
  pub Triple-attempt :
      {T : World → Type 0} (m : Exec A) (handler : Problem → Exec A)
      → Triple P m Q T
      → ((e : Problem) → Triple T (handler e) Q E)
      → Triple P (attempt m handler) Q E
  unfolding attempt
  Triple-attempt {T} m handler h k = record { at = λ w p. let r = m w in ends r (h.at w p) }
    where
      ends : (r : Result Problem A × World) → Ends Q T r → Ends Q E (handle handler r)
      ends (ok a, w) q = q
      ends (err e, w) t = (k e).at w t

module _ {P : World → Type 0} {Q : World → Type 0} {E : World → Type 0} where
  pub Triple-modify :
      (f : World → World) → ((w : World) → P w → Q (f w)) → Triple P (modify f) (λ _. Q) E
  unfolding modify
  Triple-modify f h = record { at = λ w p. h w p }

  pub Triple-call :
      (o : Outside) (c : Call)
      → ((w : World) → P w → Q (push c true (wait o w)))
      → ((w : World) → P w → E (push c false (wait o w)))
      → Triple P (call o c) (λ _. Q) E
  unfolding call
  Triple-call o c h k = Triple-ask o c (λ l. tt) h k

module _ {A B : Type 0} {P : World → Type 0} {R : B → World → Type 0} {E : World → Type 0} where
  pub Triple-bind :
      {Q : A → World → Type 0} (m : Exec A) (f : A → Exec B)
      → Triple P m Q E
      → ((a : A) → Triple (Q a) (f a) R E)
      → Triple P (m >>= f) R E
  unfolding ◌>>=◌
  Triple-bind {Q} m f h k = record { at = λ w p. let r = m w in ends r (h.at w p) }
    where
      ends : (r : Result Problem A × World) → Ends Q E r → Ends R E (proceed f r)
      ends (ok a, w) q = (k a).at w q
      ends (err e, w) t = t

-- Weaker assertions after, and stronger ones before.
pub Triple-weaken :
    {A : Type 0} {P P' : World → Type 0} {Q Q' : A → World → Type 0} {E E' : World → Type 0}
    {m : Exec A}
    → Triple P m Q E
    → ((w : World) → P' w → P w)
    → ((a : A) (w : World) → Q a w → Q' a w)
    → ((w : World) → E w → E' w)
    → Triple P' m Q' E'
Triple-weaken {A} {Q} {Q'} {E} {E'} {m} h before after thrown = record {
  at = λ w p. let r = m w in ends r (h.at w (before w p));
}
  where
    ends : (r : Result Problem A × World) → Ends Q E r → Ends Q' E' r
    ends (ok a, w) q = after a w q
    ends (err e, w) t = thrown w t
