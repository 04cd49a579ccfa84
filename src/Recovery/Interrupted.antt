-- ===== src/Recovery/Interrupted.antt =====
-- About the attempts that performStartupRecovery of src/recovery.js leaves.
use fizzy_symphony.Base.{
  ◌≡◌, refl, sym, subst, Bool, true, false, not, ◌||◌, List, [], ◌∷◌, String, any, filter, str_eq,
  eq_iff, All, Bool-cases, inl, inr, arith,
}
use fizzy_symphony.Recovery.Types.{Attempt, Surroundings, Reason}
use fizzy_symphony.Recovery.Evidence.{evaluate_cleanup_recovery}
use fizzy_symphony.Recovery.Startup.{
  is_interruptible, is_cleaning, update_attempt, interrupted, resumable, unresumable, interrupt_all,
  decision, decide_all, perform_startup_recovery,
}

abbrev same_id : Attempt → Attempt → Bool
same_id a b = str_eq a.attempt_id b.attempt_id

-- An attempt that was interrupted, if at all, is still to be visited.
abbrev Visited : List Attempt → Attempt → Type 0
Visited todo x = (not (is_interruptible x) || any (same_id x) todo) ≡ true

interrupted-is_interruptible : (a : Attempt) → is_interruptible (interrupted a) ≡ false
unfolding is_interruptible interrupted
interrupted-is_interruptible a = refl

visit :
    (a : Attempt) (todo registry : List Attempt)
    → All (Visited (a ∷ todo)) registry
    → All (Visited todo) (update_attempt a.attempt_id interrupted registry)
unfolding update_attempt
visit a todo [] h = tt
visit a todo (x ∷ xs) (p, h) = elim (Bool-cases (str_eq x.attempt_id a.attempt_id)) [
  | inl e ↦
      let now : Visited todo (interrupted x) = rw (interrupted-is_interruptible x) refl in
      rw (update_attempt, e) (now, visit a todo xs h)
  | inr e ↦
      let before : Visited todo x = ground (arith, p, e) in
      rw (update_attempt, e) (before, visit a todo xs h)
]

interrupt_all-Visited :
    (todo registry : List Attempt)
    → All (Visited todo) registry
    → All (Visited []) (interrupt_all todo registry)
unfolding interrupt_all
interrupt_all-Visited [] registry h = h
interrupt_all-Visited (a ∷ todo) registry h =
    interrupt_all-Visited todo (update_attempt a.attempt_id interrupted registry)
      (visit a todo registry h)

-- A decision about a clean-up keeps the status.
decision-is_interruptible :
    (rs : List Reason) (a : Attempt) → is_interruptible (decision rs a) ≡ is_interruptible a
unfolding decision resumable unresumable is_interruptible
decision-is_interruptible [] a = refl
decision-is_interruptible (r ∷ rs) a = refl

decide :
    (rs : List Reason) (id : String) (registry : List Attempt)
    → All (Visited []) registry
    → All (Visited []) (update_attempt id (decision rs) registry)
unfolding update_attempt
decide rs id [] h = tt
decide rs id (x ∷ xs) (p, h) = elim (Bool-cases (str_eq x.attempt_id id)) [
  | inl e ↦
      let now : Visited [] (decision rs x) = rw (decision-is_interruptible rs x) p in
      rw (update_attempt, e) (now, decide rs id xs h)
  | inr e ↦ rw (update_attempt, e) (p, decide rs id xs h)
]

decide_all-Visited :
    (s : Surroundings) (todo registry : List Attempt)
    → All (Visited []) registry
    → All (Visited []) (decide_all s todo registry)
unfolding decide_all
decide_all-Visited s [] registry h = h
decide_all-Visited s (a ∷ todo) registry h =
    decide_all-Visited s todo _ (decide (evaluate_cleanup_recovery s a) a.attempt_id registry h)

more_todo :
    (a : Attempt) (todo registry : List Attempt)
    → All (Visited todo) registry
    → All (Visited (a ∷ todo)) registry
more_todo a todo [] h = tt
more_todo a todo (x ∷ xs) (p, h) =
    let wider : Visited (a ∷ todo) x = ground (arith, p) in (wider, more_todo a todo xs h)

-- Each attempt with such a status is among those that are visited.
all_visited : (xs : List Attempt) → All (Visited (filter is_interruptible xs)) xs
all_visited [] = tt
all_visited (x ∷ xs) = elim (Bool-cases (is_interruptible x)) [
  | inl e ↦
      let self : str_eq x.attempt_id x.attempt_id ≡ true =
        (eq_iff x.attempt_id x.attempt_id).1 refl in
      let here : Visited (x ∷ filter is_interruptible xs) x = ground (arith, self) in
      let found : filter is_interruptible (x ∷ xs) ≡ x ∷ filter is_interruptible xs = rw e refl in
      subst (λ todo. All (Visited todo) (x ∷ xs)) (sym found)
        (here, more_todo x (filter is_interruptible xs) xs (all_visited xs))
  | inr e ↦
      let here : Visited (filter is_interruptible xs) x = ground (arith, e) in
      let passed : filter is_interruptible (x ∷ xs) ≡ filter is_interruptible xs = rw e refl in
      subst (λ todo. All (Visited todo) (x ∷ xs)) (sym passed) (here, all_visited xs)
]

none_left :
    (registry : List Attempt)
    → All (Visited []) registry
    → All (λ a. is_interruptible a ≡ false) registry
none_left [] h = tt
none_left (x ∷ xs) (p, h) =
    let done : is_interruptible x ≡ false = ground (arith, p) in (done, none_left xs h)

-- After the recovery at startup no attempt has a status that counts as interrupted.
pub perform_startup_recovery-is_interruptible :
    (s : Surroundings) (attempts : List Attempt)
    → All (λ a. is_interruptible a ≡ false) (perform_startup_recovery s attempts)
unfolding perform_startup_recovery
perform_startup_recovery-is_interruptible s attempts = none_left _ (
    decide_all-Visited s (filter is_cleaning attempts) _
      (interrupt_all-Visited (filter is_interruptible attempts) attempts (all_visited attempts)))
