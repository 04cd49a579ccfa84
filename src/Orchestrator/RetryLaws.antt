-- ===== src/Orchestrator/RetryLaws.antt =====
-- When a retry is handed out and consumed (src/orchestrator-state.js readyRetries, consumeRetry
-- and the timer of scheduleRetry).
use fizzy_symphony.Base.{
  ℕ, ◌≤◌, ◌≡◌, refl, Bool, true, false, Option, none, some, List, [], ◌∷◌, String, arith, All,
  is_some, Option-cases, inl, inr, if◌then◌else◌, find, leb, leb→le, Bool-cases,
}
use fizzy_symphony.Orchestrator.Types.{Run, Retry, ready, State}
use fizzy_symphony.Orchestrator.Retries.{
  RetryKey, has_key, is_consumed, is_open, is_replaced, refresh, refresh_all, pick_ready,
  ready_retries, change_first, consume, consume_retry, wake, retry_fires,
}

-- What `readyRetries` promises of an entry that it returns.
pub record IsReady (at : ℕ) (active : List Run) (r : Retry) : Type 0 where
  pub status : r.status ≡ ready
  pub due : r.next_retry_at ≤ at
  pub unreplaced : is_replaced active r ≡ false

refresh-IsReady :
    (at : ℕ) (active : List Run) (r : Retry)
    → is_open r.status ≡ true
    → leb r.next_retry_at at ≡ true
    → is_replaced active r ≡ false
    → IsReady at active (refresh at active r)
unfolding refresh is_replaced
refresh-IsReady at active r o d n =
    rw (o, d, n) (record { status = refl; due = leb→le r.next_retry_at at d; unreplaced = n })

pick_ready-IsReady :
    (at : ℕ) (active : List Run) (rs : List Retry)
    → All (IsReady at active) (pick_ready at active rs)
unfolding pick_ready
pick_ready-IsReady at active [] = tt
pick_ready-IsReady at active (r ∷ rs) =
    grind (arith, refresh-IsReady, pick_ready-IsReady at active rs)

-- Every retry that is handed out is due and marked ready, and no other attempt of its card is
-- active.
pub ready_retries-IsReady :
    (at : ℕ) (s : State) → All (IsReady at s.active_runs) (ready_retries at s).1
unfolding ready_retries
ready_retries-IsReady at s = pick_ready-IsReady at s.active_runs s.retry_queue

-- The first entry with the key is consumed.
first_consumed : RetryKey → List Retry → Bool
first_consumed k [] = false
first_consumed k (r ∷ rs) = if has_key k r then is_consumed r.status else first_consumed k rs

change_first-consume :
    (now : ℕ) (k : RetryKey) (a b : Option String) (rs : List Retry) (r : Retry)
    → find (has_key k) rs ≡ some r
    → first_consumed k (change_first k (consume now a b) rs) ≡ true
unfolding first_consumed change_first
change_first-consume now k a b [] r h = cc
change_first-consume now k a b (q ∷ rs) r h = ground (arith, change_first-consume now k a b rs r)

refresh_consumed :
    (at : ℕ) (active : List Run) (r : Retry) → is_consumed r.status ≡ true → refresh at active r ≡ r
unfolding refresh
refresh_consumed at active r h = ground arith

has_key-refresh :
    (at : ℕ) (active : List Run) (k : RetryKey) (r : Retry)
    → has_key k (refresh at active r) ≡ has_key k r
unfolding refresh
has_key-refresh at active k r = ground arith

refresh_all-first_consumed :
    (at : ℕ) (active : List Run) (k : RetryKey) (rs : List Retry)
    → first_consumed k rs ≡ true
    → first_consumed k (refresh_all at active rs) ≡ true
unfolding first_consumed refresh_all
refresh_all-first_consumed at active k [] h = h
refresh_all-first_consumed at active k (r ∷ rs) h = ground (
  arith,
  refresh_all-first_consumed at active k rs,
  has_key-refresh at active k r,
  refresh_consumed at active r,
)

find_consumed :
    (k : RetryKey) (rs : List Retry)
    → first_consumed k rs ≡ true
    → (r : Retry) × (find (has_key k) rs ≡ some r) × (is_consumed r.status ≡ true)
unfolding first_consumed
find_consumed k [] h = cc
find_consumed k (r ∷ rs) h = elim (Bool-cases (has_key k r)) [
  | inl here ↦ (r, rw here, ground arith)
  | inr there ↦ rw there (find_consumed k rs (ground arith))
]

consume_first_consumed :
    (now : ℕ) (k : RetryKey) (a b : Option String) (s : State)
    → first_consumed k s.retry_queue ≡ true
    → (consume_retry now k a b s).1 ≡ none
unfolding consume_retry
consume_first_consumed now k a b s h = ground (arith, find_consumed k s.retry_queue h)

consume_retry-first_consumed :
    (now : ℕ) (k : RetryKey) (a b : Option String) (s : State) (r : Retry)
    → (consume_retry now k a b s).1 ≡ some r
    → first_consumed k (consume_retry now k a b s).0.retry_queue ≡ true
unfolding consume_retry
consume_retry-first_consumed now k a b s r h =
    elim (Option-cases (find (has_key k) s.retry_queue)) [
      | inl none_found ↦ ground arith
      | inr (q, found) ↦ ground (arith, change_first-consume now k a b s.retry_queue q)
    ]

-- Any number of calls of `readyRetries`, at any times.
pub sweeps : List ℕ → State → State
sweeps [] s = s
sweeps (at ∷ ats) s = sweeps ats (ready_retries at s).0

sweeps-first_consumed :
    (ats : List ℕ) (k : RetryKey) (s : State)
    → first_consumed k s.retry_queue ≡ true
    → first_consumed k (sweeps ats s).retry_queue ≡ true
unfolding sweeps ready_retries
sweeps-first_consumed [] k s h = h
sweeps-first_consumed (at ∷ ats) k s h =
    sweeps-first_consumed ats k _ (refresh_all-first_consumed at s.active_runs k s.retry_queue h)

-- A retry that was consumed cannot be consumed again, however often and at whatever times the ready
-- retries are asked for in between.
pub consume_retry_once :
    (now later : ℕ) (k : RetryKey) (a b c d : Option String) (ats : List ℕ) (s : State) (r : Retry)
    → (consume_retry now k a b s).1 ≡ some r
    → (consume_retry later k c d (sweeps ats (consume_retry now k a b s).0)).1 ≡ none
consume_retry_once now later k a b c d ats s r h =
    consume_first_consumed later k c d (sweeps ats (consume_retry now k a b s).0) (
      sweeps-first_consumed ats k (consume_retry now k a b s).0
        (consume_retry-first_consumed now k a b s r h))

woken :
    (now : ℕ) (a b : Option String) (active : List Run) (r : Retry)
    → is_replaced active r ≡ false
    → is_consumed (wake active (consume now a b r)).status ≡ false
unfolding wake is_replaced
woken now a b active r n = ground arith

has_key-wake :
    (now : ℕ) (a b : Option String) (active : List Run) (k : RetryKey) (r : Retry)
    → has_key k (wake active (consume now a b r)) ≡ has_key k r
unfolding wake
has_key-wake now a b active k r = ground arith

wake-consume :
    (now : ℕ) (a b : Option String) (active : List Run) (k : RetryKey) (rs : List Retry) (r : Retry)
    → find (has_key k) rs ≡ some r
    → find (has_key k) (change_first k (wake active) (change_first k (consume now a b) rs))
      ≡ some (wake active (consume now a b r))
unfolding change_first
wake-consume now a b active k [] r h = cc
wake-consume now a b active k (q ∷ rs) r h =
    ground (arith, wake-consume now a b active k rs r, has_key-wake now a b active k q)

consume_open :
    (now : ℕ) (k : RetryKey) (a b : Option String) (s : State) (r : Retry)
    → find (has_key k) s.retry_queue ≡ some r
    → is_consumed r.status ≡ false
    → is_some (consume_retry now k a b s).1 ≡ true
unfolding consume_retry
consume_open now k a b s r h o = rw h (rw o)

fired :
    (now : ℕ) (k : RetryKey) (a b : Option String) (s : State) (r : Retry)
    → find (has_key k) s.retry_queue ≡ some r
    → is_consumed r.status ≡ false
    → find (has_key k) (retry_fires k (consume_retry now k a b s).0).retry_queue
      ≡ some (wake s.active_runs (consume now a b r))
unfolding consume_retry retry_fires
fired now k a b s r h o = rw h (rw o (wake-consume now a b s.active_runs k s.retry_queue r h))

-- The timer of a retry does not look at its status: if it fires after the retry was consumed, while
-- no other attempt of the card is active, the same retry can be consumed a second time.
pub retry_fires_revives :
    (now later : ℕ) (k : RetryKey) (a b c d : Option String) (s : State) (r : Retry)
    → find (has_key k) s.retry_queue ≡ some r
    → is_consumed r.status ≡ false
    → is_replaced s.active_runs r ≡ false
    → is_some (consume_retry later k c d (retry_fires k (consume_retry now k a b s).0)).1 ≡ true
retry_fires_revives now later k a b c d s r h o n =
    consume_open later k c d (retry_fires k (consume_retry now k a b s).0)
      (wake s.active_runs (consume now a b r)) (fired now k a b s r h o)
      (woken now a b s.active_runs r n)
