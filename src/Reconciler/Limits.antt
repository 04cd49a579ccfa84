-- ===== src/Reconciler/Limits.antt =====
-- The limits that the dispatch loop keeps (src/reconciler.js runReconciliationTick).
use fizzy_symphony.Base.{
  ℕ, suc, ◌+◌, ◌≡◌, refl, ◌∙◌, Bool, true, false, not, Option, none, some, List, [], ◌∷◌, ◌++◌,
  String, arith, if◌then◌else◌, str_eq, leb, length, filter, any, same_text, same_text_iff,
  same_text_refl, subst, ◌||◌, Option-cases, Bool-cases, inl, inr,
}
use fizzy_symphony.Fizzy.Card.{Card}
use fizzy_symphony.Orchestrator.Types.{Retry, State}
use fizzy_symphony.Reconciler.Capacity.{
  Limits, DispatchRoute, numeric_limit, or_one, board_concurrency_limit, count_of, active_for,
  exceeded, Count, Tracker, refusal_for, reserve, board_key,
}
use fizzy_symphony.Reconciler.Dispatch.{
  Spawn, Acquisition, RunStatus, Loop, Tally, dispatch, dispatch_all, Discovered, has_card,
  retry_candidates, merge_retry_candidates,
}
use fizzy_symphony.Reconciler.Counts.{count_of-increment}

abbrev fits : Option ℕ → ℕ → Bool
fits none n = true
fits (some limit) n = leb n limit

-- No more runs than the limits allow: in all, of the card `c`, and on the board `b`.
pub record IsWithin (limits : Limits) (c b : String) (t : Tracker) : Type 0 where
  pub in_all : fits (or_one limits.max_concurrent) t.global ≡ true
  pub of_card : fits (or_one limits.max_concurrent_per_card) (count_of c t.cards) ≡ true
  pub on_board :
      fits (numeric_limit (board_concurrency_limit limits (some b))) (count_of b t.boards) ≡ true

-- Where no card is refused, none of the first three limits is reached.
admitted_room :
    (limits : Limits) (card : Card) (route : DispatchRoute) (t : Tracker)
    → refusal_for limits card route t ≡ none
    → (exceeded (or_one limits.max_concurrent) t.global ≡ false)
      × (exceeded (or_one limits.max_concurrent_per_card) (active_for card.id t.cards) ≡ false)
      × (exceeded
            (numeric_limit (board_concurrency_limit limits (board_key card route)))
            (active_for (board_key card route) t.boards)
          ≡ false)
unfolding refusal_for
admitted_room limits card route t h = ground arith

fits-suc : (limit : Option ℕ) (n : ℕ) → exceeded limit n ≡ false → fits limit (suc n) ≡ true
unfolding exceeded
fits-suc limit n h = ground arith

-- A counter goes up only for its own key, and then there was room.
fits-increment :
    (limit : Option ℕ) (k : String) (n m : ℕ) (same : Bool)
    → fits limit n ≡ true
    → (same ≡ true → exceeded limit n ≡ false)
    → m ≡ (if same then suc n else n)
    → fits limit m ≡ true
fits-increment limit k n m true h room e = rw e (fits-suc limit n (room refl))
fits-increment limit k n m false h room e = rw e h

-- A check that passed for a key passed for the text that the key is.
passed_for :
    (limit_of : Option String → Option ℕ) (k : String) (key : Option String) (counts : List Count)
    → str_eq k "" ≡ false
    → exceeded (limit_of key) (active_for key counts) ≡ false
    → same_text key (some k) ≡ true
    → exceeded (limit_of (some k)) (count_of k counts) ≡ false
unfolding active_for
passed_for limit_of k key counts h room e =
    let passed : exceeded (limit_of (some k)) (active_for (some k) counts) ≡ false =
      subst (λ x. exceeded (limit_of x) (active_for x counts) ≡ false)
        ((same_text_iff key (some k)).0 e) room in
    rw h at passed

reserve-IsWithin :
    (limits : Limits) (c b : String) (card : Card) (route : DispatchRoute) (t : Tracker)
    → str_eq c "" ≡ false
    → str_eq b "" ≡ false
    → refusal_for limits card route t ≡ none
    → IsWithin limits c b t
    → IsWithin limits c b (reserve card route t)
unfolding reserve
reserve-IsWithin limits c b card route t hc hb admitted h =
    let (room, card_room, board_room) = admitted_room limits card route t admitted in
    record {
      in_all = fits-suc _ t.global room;
      of_card =
          fits-increment _ c (count_of c t.cards) _ (same_text card.id (some c)) h.of_card
            (passed_for (λ x. or_one limits.max_concurrent_per_card) c card.id t.cards hc card_room)
            (count_of-increment c card.id t.cards hc);
      on_board =
          fits-increment _ b (count_of b t.boards) _ (same_text (board_key card route) (some b))
            h.on_board
            (passed_for (λ x. numeric_limit (board_concurrency_limit limits x)) b
              (board_key card route) t.boards hb board_room)
            (count_of-increment b (board_key card route) t.boards hb);
    }

abbrev pub settled_cards : Tally → ℕ
settled_cards t = t.capacity_refused + t.claim_blocked + t.dispatched

module _ (limits : Limits) (now : ℕ) (acquires : Spawn → State → Option Acquisition)
    (run_card : Spawn → Acquisition → State → State × RunStatus) where
  dispatch-IsWithin :
      (c b : String) (d : Spawn) (l : Loop)
      → str_eq c "" ≡ false
      → str_eq b "" ≡ false
      → IsWithin limits c b l.tracker
      → IsWithin limits c b (dispatch limits now acquires run_card d l).tracker
  unfolding dispatch
  dispatch-IsWithin c b d l hc hb h =
      elim (Option-cases (refusal_for limits d.card d.route l.tracker)) [
        | inr (refusal, refused) ↦ rw refused h
        | inl admitted ↦ elim (Option-cases (acquires d l.state)) [
          | inl blocked ↦ rw (admitted, blocked) h
          | inr (a, claimed) ↦
              rw (admitted, claimed)
                (reserve-IsWithin limits c b d.card d.route l.tracker hc hb admitted h)
        ]
      ]

  -- If the limits in all, of a card and of a board, with nonempty IDs, were kept before the loop, they are kept
  -- after it, whichever claims are acquired and whatever the runs do: no card runs more often, and no
  -- board runs more cards, than is allowed.
  pub dispatch_all-IsWithin :
      (c b : String) (ds : List Spawn) (l : Loop)
      → str_eq c "" ≡ false
      → str_eq b "" ≡ false
      → IsWithin limits c b l.tracker
      → IsWithin limits c b (dispatch_all limits now acquires run_card ds l).tracker
  unfolding dispatch_all
  dispatch_all-IsWithin c b [] l hc hb h = h
  dispatch_all-IsWithin c b (d ∷ ds) l hc hb h =
      dispatch_all-IsWithin c b ds (dispatch limits now acquires run_card d l) hc hb
        (dispatch-IsWithin c b d l hc hb h)

  dispatch_settles :
      (d : Spawn) (l : Loop)
      → settled_cards (dispatch limits now acquires run_card d l).result
        ≡ suc (settled_cards l.result)
  unfolding dispatch
  dispatch_settles d l = elim (Option-cases (refusal_for limits d.card d.route l.tracker)) [
    | inr (refusal, refused) ↦ rw refused (omega arith)
    | inl admitted ↦ elim (Option-cases (acquires d l.state)) [
      | inl blocked ↦ rw (admitted, blocked) (omega arith)
      | inr (a, claimed) ↦ rw (admitted, claimed) (ground arith)
    ]
  ]

  -- Every decision is counted exactly once: as refused for capacity, as blocked by a claim, or as
  -- dispatched.
  pub dispatch_all_accounted :
      (ds : List Spawn) (l : Loop)
      → settled_cards (dispatch_all limits now acquires run_card ds l).result
        ≡ length ds + settled_cards l.result
  unfolding dispatch_all
  dispatch_all_accounted [] l = omega arith
  dispatch_all_accounted (d ∷ ds) l = omega (
    arith,
    dispatch_all_accounted ds (dispatch limits now acquires run_card d l),
    dispatch_settles d l,
  )

any-++ : {A : Type 0} (p : A → Bool) (xs ys : List A) → any p (xs ++ ys) ≡ (any p xs || any p ys)
any-++ p [] ys = refl
any-++ p (x ∷ xs) ys = ground (arith, any-++ p xs ys)

any-filter-not :
    (id : Option String) (retried candidates : List Discovered)
    → any (has_card id) retried ≡ false
    → any (has_card id) (filter (λ d. not (any (has_card d.card.id) retried)) candidates)
      ≡ any (has_card id) candidates
any-filter-not id retried [] h = refl
any-filter-not id retried (d ∷ ds) h = elim (Bool-cases (has_card id d)) [
  | inl same ↦ rw ((same_text_iff d.card.id id).0 same, h, same_text_refl id)
  | inr apart ↦ ground (arith, any-filter-not id retried ds h)
]

-- Merging the ready retries loses no card: a card is among the candidates exactly if it was
-- discovered or is the card of a ready retry.
pub merge_retry_candidates_lem :
    (id : Option String) (candidates : List Discovered) (retries : List Retry)
    → any (has_card id) (merge_retry_candidates candidates retries)
      ≡ (any (has_card id) (retry_candidates retries) || any (has_card id) candidates)
unfolding merge_retry_candidates
merge_retry_candidates_lem id candidates retries =
    any-++ (has_card id) (retry_candidates retries) _
    ∙ ground (arith, any-filter-not id (retry_candidates retries) candidates)
