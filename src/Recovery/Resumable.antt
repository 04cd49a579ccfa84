-- ===== src/Recovery/Resumable.antt =====
-- About the clean-ups that performStartupRecovery of src/recovery.js decides on.
use fizzy_symphony.Base.{
  ◌≡◌, refl, sym, subst, Bool, true, false, not, ◌&&◌, ◌||◌, List, [], ◌∷◌, any, filter, str_eq,
  eq_iff, All, All-filter, Bool-cases, inl, inr, arith,
}
use fizzy_symphony.Recovery.Types.{Attempt, Surroundings}
use fizzy_symphony.Recovery.Startup.{is_interruptible, is_cleaning, perform_startup_recovery}
use fizzy_symphony.Recovery.Decisions.{
  same_id, is_decided, Agrees, Pending, decide_all-is_decided, interrupt_all-Pending,
}

abbrev pub distinct_ids : List Attempt → Bool
distinct_ids [] = true
distinct_ids (a ∷ rest) = not (any (same_id a) rest) && distinct_ids rest

-- A record of another ID than all of these agrees with them.
apart_agreeing :
    (s : Surroundings) (x : Attempt) (xs : List Attempt)
    → any (same_id x) xs ≡ false
    → All (Agrees s x) xs × All (λ y. Agrees s y x) xs
apart_agreeing s x [] h = (tt, tt)
apart_agreeing s x (y ∷ ys) h =
    let (before, after) = apart_agreeing s x ys (ground (arith, h)) in
    let other : str_eq x.attempt_id y.attempt_id ≡ false = ground (arith, h) in
    (
      (λ same. absurd (cc (other, (eq_iff x.attempt_id y.attempt_id).1 (sym same))), before),
      (λ same. absurd (cc (other, (eq_iff x.attempt_id y.attempt_id).1 same)), after),
    )

add_agreeing :
    (s : Surroundings) (x : Attempt) (xs ys : List Attempt)
    → All (λ y. Agrees s y x) ys
    → All (λ y. All (Agrees s y) xs) ys
    → All (λ y. All (Agrees s y) (x ∷ xs)) ys
add_agreeing s x xs [] h k = tt
add_agreeing s x xs (y ∷ ys) (p, h) (q, k) = ((p, q), add_agreeing s x xs ys h k)

agreeing :
    (s : Surroundings) (xs : List Attempt)
    → distinct_ids xs ≡ true
    → All (λ x. All (Agrees s x) xs) xs
agreeing s [] h = tt
agreeing s (x ∷ xs) h =
    let (before, after) = apart_agreeing s x xs (ground (arith, h)) in
    (((λ same. refl), before), add_agreeing s x xs xs after (agreeing s xs (ground (arith, h))))

abbrev Covered : Surroundings → List Attempt → Attempt → Type 0
Covered s todo x = (is_decided s x || any (same_id x) todo) ≡ true

cover_more :
    (s : Surroundings) (a : Attempt) (todo registry : List Attempt)
    → All (Covered s todo) registry
    → All (Covered s (a ∷ todo)) registry
cover_more s a todo [] h = tt
cover_more s a todo (x ∷ xs) (p, h) =
    let wider : Covered s (a ∷ todo) x = ground (arith, p) in (wider, cover_more s a todo xs h)

cover_all : (s : Surroundings) (xs : List Attempt) → All (Covered s (filter is_cleaning xs)) xs
unfolding is_decided
cover_all s [] = tt
cover_all s (x ∷ xs) = elim (Bool-cases (is_cleaning x)) [
  | inl e ↦
      let self : str_eq x.attempt_id x.attempt_id ≡ true =
        (eq_iff x.attempt_id x.attempt_id).1 refl in
      let here : Covered s (x ∷ filter is_cleaning xs) x = ground (arith, self) in
      let found : filter is_cleaning (x ∷ xs) ≡ x ∷ filter is_cleaning xs = rw e refl in
      subst (λ todo. All (Covered s todo) (x ∷ xs)) (sym found)
        (here, cover_more s x (filter is_cleaning xs) xs (cover_all s xs))
  | inr e ↦
      let here : Covered s (filter is_cleaning xs) x = ground (arith, e) in
      let passed : filter is_cleaning (x ∷ xs) ≡ filter is_cleaning xs = rw e refl in
      subst (λ todo. All (Covered s todo) (x ∷ xs)) (sym passed) (here, cover_all s xs)
]

pending :
    (s : Surroundings) (xs ys : List Attempt)
    → All (Covered s (filter is_cleaning xs)) ys
    → All (λ y. All (Agrees s y) xs) ys
    → All (Pending s (filter is_cleaning xs)) ys
pending s xs [] h k = tt
pending s xs (y ∷ ys) (p, h) (q, k) = (
  record { is_covered = p; agrees = All-filter (Agrees s y) is_cleaning xs q },
  pending s xs ys h k,
)

-- After the recovery at startup a clean-up that is still under way is one that was found safe to
-- resume, and there is no reason against resuming it, provided that no two attempts have one ID.
pub perform_startup_recovery-is_decided :
    (s : Surroundings) (attempts : List Attempt)
    → distinct_ids attempts ≡ true
    → All (λ a. is_decided s a ≡ true) (perform_startup_recovery s attempts)
unfolding perform_startup_recovery
perform_startup_recovery-is_decided s attempts distinct =
    decide_all-is_decided s (filter is_cleaning attempts) _ (
      interrupt_all-Pending s (filter is_cleaning attempts) (filter is_interruptible attempts)
        attempts
        (pending s attempts attempts (cover_all s attempts) (agreeing s attempts distinct)))
