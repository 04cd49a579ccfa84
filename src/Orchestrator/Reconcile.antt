-- ===== src/Orchestrator/Reconcile.antt =====
-- reconcileActiveCards of src/orchestrator-state.js: which runs it cancels.
use mathlib.Core.List.{append_assoc}
use fizzy_symphony.Base.{
  ℕ, ◌≡◌, refl, sym, ◌∙◌, ap, Bool, true, false, not, Option, List, [], ◌∷◌, ◌++◌, String, arith,
  same_text_refl, same_text_comm, All, filter, is_some, Option-cases, inl, inr,
}
use fizzy_symphony.Fizzy.Card.{Card}
use fizzy_symphony.Orchestrator.Types.{Config, Run, State}
use fizzy_symphony.Orchestrator.Defs.{is_run, delete_run}
use fizzy_symphony.Orchestrator.Runs.{cancel_run, reconcile_runs, reconcile_active_cards, leaves}
use fizzy_symphony.Orchestrator.Logs.{Distinct, Distinct-filter, IsBounded}

filter-All :
    (id : Option String) (rs : List Run) → All (λ q. is_run id q ≡ false) rs → delete_run id rs ≡ rs
unfolding delete_run
filter-All id [] h = refl
filter-All id (r ∷ rs) (p, h) = rw p (ap (◌∷◌ r) (filter-All id rs h))

All-middle {ℓ} :
    (P : Run → Type ℓ) (kept : List Run) (r : Run) (runs : List Run)
    → All P (kept ++ r ∷ runs)
    → P r
All-middle P [] r runs h = h.0
All-middle P (k ∷ kept) r runs h = All-middle P kept r runs h.1

delete_run-middle :
    (kept : List Run) (r : Run) (runs : List Run)
    → Distinct (kept ++ r ∷ runs)
    → delete_run r.run_id (kept ++ r ∷ runs) ≡ kept ++ runs
unfolding delete_run
delete_run-middle [] r runs (p, h) = rw (same_text_refl r.run_id) (filter-All r.run_id runs p)
delete_run-middle (k ∷ kept) r runs (p, h) =
    let apart = All-middle (λ q. is_run k.run_id q ≡ false) kept r runs p in
    rw (same_text_comm k.run_id r.run_id ∙ apart) (ap (◌∷◌ k) (delete_run-middle kept r runs h))

Distinct-removed :
    (kept : List Run) (r : Run) (runs : List Run)
    → Distinct (kept ++ r ∷ runs)
    → Distinct (kept ++ runs)
unfolding delete_run
Distinct-removed kept r runs d =
    rw (delete_run-middle kept r runs d) at
      (Distinct-filter (λ q. not (is_run r.run_id q)) (kept ++ r ∷ runs) d)

cancel_run-active :
    (config : Config) (now : ℕ) (works : Run → Bool) (r : Run) (reason : String) (s : State)
    → works r ≡ true
    → ((cancel_run config now works r reason false s).1 ≡ true)
      × ((cancel_run config now works r reason false s).0.active_runs
          ≡ delete_run r.run_id s.active_runs)
unfolding cancel_run
cancel_run-active config now works r reason s h = ground arith

module _ (config : Config) (now : ℕ) (works : Run → Bool) (cards : List Card) where
  -- No card rules the run out.
  abbrev pub stays : Run → Bool
  stays run = not (is_some (leaves config now works cards run))

  reconcile_runs-filter :
      ((run : Run) → works run ≡ true)
      → (kept runs : List Run) (s : State) → s.active_runs ≡ kept ++ runs
      → Distinct (kept ++ runs)
      → ((reconcile_runs config now works cards runs s).0.active_runs ≡ kept ++ filter stays runs)
        × ((reconcile_runs config now works cards runs s).1 ≡ true)
  unfolding reconcile_runs
  reconcile_runs-filter ok kept [] s e d = (e, refl)
  reconcile_runs-filter ok kept (r ∷ runs) s e d =
      elim (Option-cases (leaves config now works cards r)) [
        | inl here ↦ rw here (
            rw (append_assoc kept (r ∷ []) (filter stays runs)) at (
              reconcile_runs-filter ok (kept ++ r ∷ []) runs s
                (e ∙ sym (append_assoc kept (r ∷ []) runs))
                (rw (append_assoc kept (r ∷ []) runs) d)))
        | inr (reason, gone) ↦
            let (returned, left) = cancel_run-active config now works r reason s (ok r) in
            let active = left ∙ (rw e (delete_run-middle kept r runs d)) in
            rw (gone, returned)
              (reconcile_runs-filter ok kept runs (cancel_run config now works r reason false s).0
                active (Distinct-removed kept r runs d))
      ]

-- If the runner's `cancel` always returns and no two active runs share an ID, then reconciling with
-- refreshed cards leaves active exactly the runs that no refreshed card rules out, in their order
-- and unchanged; it cancels every other one.
pub reconcile_active_cards_lem :
    (config : Config) (now : ℕ) (works : Run → Bool) (cards : List Card) (s : State)
    → ((run : Run) → works run ≡ true)
    → IsBounded s
    → (reconcile_active_cards config now works cards s).0.active_runs
      ≡ filter (stays config now works cards) s.active_runs
unfolding reconcile_active_cards
reconcile_active_cards_lem config now works cards s ok h =
    (reconcile_runs-filter config now works cards ok [] s.active_runs s refl h.distinct).0
