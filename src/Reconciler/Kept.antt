-- ===== src/Reconciler/Kept.antt =====
-- Which runs the loop of reconcileActiveRuns (src/reconciler.js) keeps.
use fizzy_symphony.Base.{
  ◌≢◌, All, is_true_iff, is_false_iff, str_eq-other, or_else, same_text, same_text_iff, str_eq,
  eq_iff, ◌≡◌, refl, sym, subst, ap, ◌∙◌, Bool, true, false, ◌||◌, Option, none, some, [], ◌∷◌,
  String, if◌then◌else◌, is_true, is_false, inl, inr, ◌↔◌, Bool-cases, arith,
}
use fizzy_symphony.Fizzy.Card.{Card, card_status, card_board_id, card_column_id}
use fizzy_symphony.Reconciler.StatusRuns.{
  StatusRun, Visit, keep, preempt, cancel, differ, is_closed, is_postponed,
  active_run_ineligible_reason, current_fingerprint, is_changed, verdict_of,
}

keeps :
    (c : Card) (v : Visit)
    → is_false v.renewed ≡ false
    → is_changed (current_fingerprint v (some c)) v.run ≡ false
    → is_closed c ≡ false
    → is_true c.auto_postponed ≡ false
    → is_postponed c ≡ false
    → differ (card_board_id c) v.run.board_id ≡ false
    → differ v.run.source_column_id (card_column_id c) ≡ false
    → verdict_of (some c) v ≡ keep
unfolding verdict_of active_run_ineligible_reason
keeps c v a b f g i j k = rw (a, f, g, i, j, k, b) refl

passed :
    (a : Bool) (reason : String) (rest : Option String)
    → (if a then some reason else rest) ≡ none
    → (a ≡ false) × (rest ≡ none)
passed false reason rest h = (refl, h)
passed true reason rest h = absurd (cc)

eligible :
    (lost changed : Bool) (reason : String) (o : Option String)
    → (if lost
        then cancel reason
        else elim o [ some r ↦ cancel r | none ↦ if changed then preempt else keep ])
      ≡ keep
    → (lost ≡ false) × (changed ≡ false) × (o ≡ none)
eligible false false reason none h = (refl, refl, refl)
eligible false true reason none h = absurd (cc)
eligible false changed reason (some r) h = absurd (cc)
eligible true changed reason o h = absurd (cc)

kept :
    (card : Option Card) (v : Visit)
    → verdict_of card v ≡ keep
    → (is_false v.renewed ≡ false)
      × (is_changed (current_fingerprint v card) v.run ≡ false)
      × (c : Card) × (card ≡ some c)
      × (is_closed c ≡ false)
      × (is_true c.auto_postponed ≡ false)
      × (is_postponed c ≡ false)
      × (differ (card_board_id c) v.run.board_id ≡ false)
      × (differ v.run.source_column_id (card_column_id c) ≡ false)
unfolding verdict_of active_run_ineligible_reason
kept none v h = absurd (ground (arith, h))
kept (some c) v h =
    let (renewed, same, free) = eligible _ _ _ _ h in
    let (closed, free) = passed _ _ _ free in
    let (auto, free) = passed _ _ _ free in
    let (postponed, free) = passed _ _ _ free in
    let (board, free) = passed _ _ _ free in
    let (column, free) = passed _ _ _ free in
    (renewed, same, c, refl, closed, auto, postponed, board, column)

-- Two texts that are both there, and not empty, are equal.
abbrev pub Agree : Option String → Option String → Type 0
Agree a b = (x y : String) → a ≡ some x → b ≡ some y → x ≢ "" → y ≢ "" → x ≡ y

-- What a run must be like to be kept.
pub record IsKept (card : Option Card) (v : Visit) : Type 0 where
  pub renewed : v.renewed ≢ some false
  pub found : Card
  pub is_there : card ≡ some found
  pub not_closed : found.closed ≢ some true
  pub not_auto_postponed : found.auto_postponed ≢ some true
  pub not_postponed : found.postponed ≢ some true
  pub status :
      All (λ s. card_status found ≢ s) ("closed" ∷ "postponed" ∷ "not_now" ∷ "not now" ∷ [])
  pub same_board : Agree (card_board_id found) v.run.board_id
  pub same_column : Agree v.run.source_column_id (card_column_id found)
  pub same_route :
      (p : String)
      → or_else v.fingerprint found.route_fingerprint ≡ some p
      → p ≢ ""
      → v.run.route_fingerprint ≡ some p

differ_iff : (a b : Option String) → (differ a b ≡ false) ↔ Agree a b
differ_iff none b = (λ h x y e f n m. absurd (cc), λ h. refl)
differ_iff (some x) none = (λ h x' y e f n m. absurd (cc), λ h. ground arith)
differ_iff (some x) (some y) = (
  λ h x' y' e f n m.
      let p : x ≡ x' = cc in
      let q : y ≡ y' = cc in
      let full_x : str_eq x "" ≡ false = (str_eq-other x "").1 (λ z. n (sym p ∙ z)) in
      let full_y : str_eq y "" ≡ false = (str_eq-other y "").1 (λ z. m (sym q ∙ z)) in
      let same : str_eq x y ≡ true = ground (arith, h, full_x, full_y) in
      sym p ∙ (eq_iff x y).0 same ∙ q,
  λ h. elim (Bool-cases (str_eq x "")) [
    | inl e ↦ rw e refl
    | inr e ↦ elim (Bool-cases (str_eq y "")) [
      | inl k ↦ ground (arith, k)
      | inr k ↦
          let same : str_eq x y ≡ true =
            (eq_iff x y).1 (h x y refl refl ((str_eq-other x "").0 e) ((str_eq-other y "").0 k)) in
          ground (arith, same)
    ]
  ],
)

is_changed_iff :
    (o : Option String) (run : StatusRun)
    → (is_changed o run ≡ false)
      ↔ ((p : String) → o ≡ some p → p ≢ "" → run.route_fingerprint ≡ some p)
is_changed_iff none run = (λ h p e n. absurd (cc), λ h. refl)
is_changed_iff (some x) run = (
  λ h p e n.
      let q : x ≡ p = cc in
      let full : str_eq x "" ≡ false = (str_eq-other x "").1 (λ z. n (sym q ∙ z)) in
      let same : same_text (some x) run.route_fingerprint ≡ true = ground (arith, h, full) in
      sym ((same_text_iff (some x) run.route_fingerprint).0 same) ∙ ap some q,
  λ h. elim (Bool-cases (str_eq x "")) [
    | inl e ↦ rw e refl
    | inr e ↦
        let same : same_text (some x) run.route_fingerprint ≡ true =
          (same_text_iff (some x) run.route_fingerprint).1
            (sym (h x refl ((str_eq-other x "").0 e))) in
        ground (arith, same)
  ],
)

-- The card that is open by its status and its flags.
flags :
    (closed named_closed postponed named not_now spaced : Bool)
    → ((closed || named_closed) ≡ false)
    → ((postponed || (named || (not_now || spaced))) ≡ false)
    → (closed ≡ false)
      × (named_closed ≡ false)
      × (postponed ≡ false)
      × (named ≡ false)
      × (not_now ≡ false)
      × (spaced ≡ false)
flags closed named_closed postponed named not_now spaced h k = ground (arith, h, k)

-- A run is kept exactly if its claim was not found lost, its card is there, is neither closed nor
-- postponed by a flag or by its status, is on the run's board and in the route's column where both
-- are known, and the fingerprint of its route, where it is known, is that of the run.
pub verdict_of_keep : (card : Option Card) (v : Visit) → (verdict_of card v ≡ keep) ↔ IsKept card v
verdict_of_keep card v = (to, from)
  where
    to : verdict_of card v ≡ keep → IsKept card v
    to h =
        let (a, b, c, e, f, g, i, j, k) = kept card v h in
        let (f0, f1, i0, i1, i2, i3) = flags _ _ _ _ _ _ f i in
        let changed : is_changed (or_else v.fingerprint c.route_fingerprint) v.run ≡ false =
          rw e at b in
        record {
          renewed = (is_false_iff v.renewed).0 a;
          found = c;
          is_there = e;
          not_closed = (is_true_iff c.closed).0 f0;
          not_auto_postponed = (is_true_iff c.auto_postponed).0 g;
          not_postponed = (is_true_iff c.postponed).0 i0;
          status = (
            (str_eq-other _ _).0 f1,
            ((str_eq-other _ _).0 i1, ((str_eq-other _ _).0 i2, ((str_eq-other _ _).0 i3, tt))),
          );
          same_board = (differ_iff (card_board_id c) v.run.board_id).0 j;
          same_column = (differ_iff v.run.source_column_id (card_column_id c)).0 k;
          same_route = (is_changed_iff _ v.run).0 changed;
        }

    from : IsKept card v → verdict_of card v ≡ keep
    from h =
        let c = h.found in
        let (s0, (s1, (s2, (s3, u)))) = h.status in
        let closed : is_closed c ≡ false =
          rw ((is_true_iff c.closed).1 h.not_closed, (str_eq-other _ _).1 s0) refl in
        let postponed : is_postponed c ≡ false =
          rw
            (
              (is_true_iff c.postponed).1 h.not_postponed,
              (str_eq-other _ _).1 s1,
              (str_eq-other _ _).1 s2,
              (str_eq-other _ _).1 s3,
            )
            refl in
        subst (λ x. verdict_of x v ≡ keep) (sym h.is_there)
          (keeps c v ((is_false_iff v.renewed).1 h.renewed)
            ((is_changed_iff _ v.run).1 h.same_route) closed
            ((is_true_iff c.auto_postponed).1 h.not_auto_postponed) postponed
            ((differ_iff (card_board_id c) v.run.board_id).1 h.same_board)
            ((differ_iff v.run.source_column_id (card_column_id c)).1 h.same_column))
