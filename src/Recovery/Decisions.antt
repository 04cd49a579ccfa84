-- ===== src/Recovery/Decisions.antt =====
-- What a step of performStartupRecovery of src/recovery.js keeps of the attempts still to decide on.
use fizzy_symphony.Base.{
  ◌≡◌, refl, sym, ◌∙◌, Bool, true, false, not, ◌&&◌, ◌||◌, some, List, [], ◌∷◌, String, any, str_eq,
  eq_iff, All, Bool-cases, inl, inr, arith, same_text,
}
use fizzy_symphony.Recovery.Types.{Attempt, Surroundings, Reason}
use fizzy_symphony.Recovery.Evidence.{evaluate_cleanup_recovery}
use fizzy_symphony.Recovery.Startup.{
  is_cleaning, update_attempt, interrupted, resumable, unresumable, interrupt_all, decision,
  decide_all,
}

abbrev pub same_id : Attempt → Attempt → Bool
same_id a b = str_eq a.attempt_id b.attempt_id

abbrev pub has_no_reason : List Reason → Bool
has_no_reason [] = true
has_no_reason (r ∷ rs) = false

-- A clean-up that is still under way was found safe to resume, with nothing against it.
unfoldable pub is_decided : Surroundings → Attempt → Bool
is_decided s a =
    not (is_cleaning a)
    || (same_text a.cleanup_recovery_state (some "safe_to_resume")
        && has_no_reason (evaluate_cleanup_recovery s a))

-- Records of one ID have the same evidence.
abbrev pub Agrees : Surroundings → Attempt → Attempt → Type 0
Agrees s x t =
    t.attempt_id ≡ x.attempt_id → evaluate_cleanup_recovery s t ≡ evaluate_cleanup_recovery s x

pub record Pending (s : Surroundings) (todo : List Attempt) (x : Attempt) : Type 0 where
  pub is_covered : (is_decided s x || any (same_id x) todo) ≡ true
  pub agrees : All (Agrees s x) todo

-- A change that keeps the ID and the evidence.
keep_agreeing :
    (s : Surroundings) (x y : Attempt) (todo : List Attempt)
    → x.attempt_id ≡ y.attempt_id
    → evaluate_cleanup_recovery s x ≡ evaluate_cleanup_recovery s y
    → All (Agrees s x) todo
    → All (Agrees s y) todo
keep_agreeing s x y [] i e h = tt
keep_agreeing s x y (t ∷ todo) i e (p, h) =
    (λ same. p (same ∙ sym i) ∙ e, keep_agreeing s x y todo i e h)

decision-evaluate :
    (s : Surroundings) (rs : List Reason) (x : Attempt)
    → evaluate_cleanup_recovery s (decision rs x) ≡ evaluate_cleanup_recovery s x
unfolding decision resumable unresumable evaluate_cleanup_recovery
decision-evaluate s [] x = refl
decision-evaluate s (r ∷ rs) x = refl

decision-attempt_id : (rs : List Reason) (x : Attempt) → x.attempt_id ≡ (decision rs x).attempt_id
unfolding decision resumable unresumable
decision-attempt_id [] x = refl
decision-attempt_id (r ∷ rs) x = refl

decision-is_decided :
    (s : Surroundings) (rs : List Reason) (x : Attempt)
    → evaluate_cleanup_recovery s x ≡ rs
    → is_decided s (decision rs x) ≡ true
unfolding is_decided decision resumable unresumable is_cleaning
decision-is_decided s [] x e =
    let still : evaluate_cleanup_recovery s (resumable x) ≡ [] = decision-evaluate s [] x ∙ e in
    ground (arith, still)
decision-is_decided s (r ∷ rs) x e = refl

decide :
    (s : Surroundings) (a : Attempt) (todo registry : List Attempt)
    → All (Pending s (a ∷ todo)) registry
    → All
        (Pending s todo)
        (update_attempt a.attempt_id (decision (evaluate_cleanup_recovery s a)) registry)
unfolding update_attempt
decide s a todo [] h = tt
decide s a todo (x ∷ xs) (p, h) = elim (Bool-cases (str_eq x.attempt_id a.attempt_id)) [
  | inl e ↦
      let rs = evaluate_cleanup_recovery s a in
      let same : rs ≡ evaluate_cleanup_recovery s x =
        p.agrees.0 (sym ((eq_iff x.attempt_id a.attempt_id).0 e)) in
      let now : Pending s todo (decision rs x) = record {
        is_covered = rw (decision-is_decided s rs x (sym same)) refl;
        agrees =
            keep_agreeing s x (decision rs x) todo (decision-attempt_id rs x)
              (sym (decision-evaluate s rs x)) p.agrees.1;
      } in
      rw (update_attempt, e) (now, decide s a todo xs h)
  | inr e ↦
      let before : Pending s todo x = record {
        is_covered = ground (arith, p.is_covered, e);
        agrees = p.agrees.1;
      } in
      rw (update_attempt, e) (before, decide s a todo xs h)
]

decided :
    (s : Surroundings) (registry : List Attempt)
    → All (Pending s []) registry
    → All (λ a. is_decided s a ≡ true) registry
decided s [] h = tt
decided s (x ∷ xs) (p, h) =
    let done : is_decided s x ≡ true = ground (arith, p.is_covered) in (done, decided s xs h)

pub decide_all-is_decided :
    (s : Surroundings) (todo registry : List Attempt)
    → All (Pending s todo) registry
    → All (λ a. is_decided s a ≡ true) (decide_all s todo registry)
unfolding decide_all
decide_all-is_decided s [] registry h = decided s registry h
decide_all-is_decided s (a ∷ todo) registry h =
    decide_all-is_decided s todo _ (decide s a todo registry h)

interrupted-is_decided :
    (s : Surroundings) (x : Attempt) → is_decided s (interrupted x) ≡ is_decided s x
unfolding is_decided interrupted is_cleaning evaluate_cleanup_recovery
interrupted-is_decided s x = refl

interrupted-evaluate :
    (s : Surroundings) (x : Attempt)
    → evaluate_cleanup_recovery s x ≡ evaluate_cleanup_recovery s (interrupted x)
unfolding interrupted evaluate_cleanup_recovery
interrupted-evaluate s x = refl

interrupted-attempt_id : (x : Attempt) → x.attempt_id ≡ (interrupted x).attempt_id
unfolding interrupted
interrupted-attempt_id x = refl

interrupt :
    (s : Surroundings) (id : String) (todo registry : List Attempt)
    → All (Pending s todo) registry
    → All (Pending s todo) (update_attempt id interrupted registry)
unfolding update_attempt
interrupt s id todo [] h = tt
interrupt s id todo (x ∷ xs) (p, h) = elim (Bool-cases (str_eq x.attempt_id id)) [
  | inl e ↦
      let now : Pending s todo (interrupted x) = record {
        is_covered = rw (interrupted-is_decided s x, sym (interrupted-attempt_id x)) p.is_covered;
        agrees =
            keep_agreeing s x (interrupted x) todo (interrupted-attempt_id x)
              (interrupted-evaluate s x) p.agrees;
      } in
      rw (update_attempt, e) (now, interrupt s id todo xs h)
  | inr e ↦ rw (update_attempt, e) (p, interrupt s id todo xs h)
]

pub interrupt_all-Pending :
    (s : Surroundings) (todo visited registry : List Attempt)
    → All (Pending s todo) registry
    → All (Pending s todo) (interrupt_all visited registry)
unfolding interrupt_all
interrupt_all-Pending s todo [] registry h = h
interrupt_all-Pending s todo (a ∷ visited) registry h =
    interrupt_all-Pending s todo visited _ (interrupt s a.attempt_id todo registry h)
