-- ===== src/Claims/Exclusive.antt =====
-- When two daemons cannot both acquire a card (src/claims.js createBoardClaimStore, acquire).
use fizzy_symphony.Base.{
  ℕ, ◌≡◌, ◌≢◌, ◌⊎◌, inl, inr, sym, ◌∙◌, Bool, true, false, ◌&&◌, Option, List, [], ◌∷◌, String, ok,
  ok-injective, any, str_eq, eq_iff, All, Bool-cases, arith,
}
use fizzy_symphony.Base.Sort.{is_less}
use fizzy_symphony.Claims.Types.{Claim, Comment, Collation, IsCollation}
use fizzy_symphony.Claims.Inputs.{Setting}
use fizzy_symphony.Claims.EventLog.{ClaimState, apply_claim_event_log}
use fizzy_symphony.Claims.Select.{is_unexpired}
use fizzy_symphony.Claims.Selection.{counts}
use fizzy_symphony.Claims.Winner.{StartedNear, select_claim_winner_least}
use fizzy_symphony.Claims.Store.{Options, acquired, acquire}
use fizzy_symphony.Claims.Acquire.{acquire_sound}

-- The claim with this ID is live and unexpired for the card.
abbrev pub shows : ℕ → Option String → String → ClaimState → Bool
shows now card_id id = counts card_id (λ s. is_unexpired now s && str_eq s.claim.claim_id id)

-- A reading shows the claim, and all live and unexpired claims for the card started within the
-- clock skew of one another.
pub record Sees (collate : Collation) (options : Options) (now : ℕ) (card_id : Option String)
    (comments : List Comment) (id : String) : Type 0 where
  pub states : List ClaimState
  pub read : apply_claim_event_log collate comments ≡ ok states
  pub shown : any (shows now card_id id) states ≡ true
  pub earliest : ℕ
  pub near :
      All
        (λ s.
          counts card_id (is_unexpired now) s ≡ true
          → StartedNear earliest options.max_clock_skew_ms s)
        states

any_sub :
    (p q : ClaimState → Bool)
    → ((s : ClaimState) → q s ≡ true → p s ≡ true)
    → (states : List ClaimState) → any q states ≡ true
    → any p states ≡ true
any_sub p q sub [] h = h
any_sub p q sub (s ∷ states) h = ground (arith, sub s, any_sub p q sub states, h)

-- What no shown claim comes before, a shown one does not.
not_before :
    (collate : Collation) (now : ℕ) (card_id : Option String) (id least : String)
    (states : List ClaimState)
    → any (shows now card_id id) states ≡ true
    → any
        (counts card_id (λ s. is_unexpired now s && is_less (collate s.claim.claim_id least)))
        states
      ≡ false
    → is_less (collate id least) ≡ false
not_before collate now card_id id least states shown none_less =
    elim (Bool-cases (is_less (collate id least))) [
      | inl less ↦
          let before =
            any_sub
              (counts card_id (λ s. is_unexpired now s && is_less (collate s.claim.claim_id least)))
              (shows now card_id id) (λ s q. earlier less s q) states shown in
          absurd (cc (before, none_less))
      | inr e ↦ e
    ]
  where
    earlier :
        is_less (collate id least) ≡ true
        → (s : ClaimState) → shows now card_id id s ≡ true
        → counts card_id (λ s. is_unexpired now s && is_less (collate s.claim.claim_id least)) s
          ≡ true
    earlier less s q =
        let same : s.claim.claim_id ≡ id = (eq_iff s.claim.claim_id id).0 (ground (arith, q)) in
        let after : is_less (collate s.claim.claim_id least) ≡ true = rw same less in
        ground (arith, q, after)

module _ (collate : Collation) (c : IsCollation collate) where
  -- The claim that a daemon acquires is one that no claim shown to it comes before.
  acquired-least :
      (options : Options) (now : ℕ) (w : Setting) (initial graced reread : List Comment)
      (claim : Claim) (replaced : List ClaimState) (id : String)
      → Sees collate options now w.card_id reread id
      → (acquire collate options now w initial graced reread).outcome ≡ acquired claim replaced
      → is_less (collate id claim.claim_id) ≡ false
  acquired-least options now w initial graced reread claim replaced id sees h =
      let x = (acquire_sound collate options now w initial graced reread claim replaced h).1 in
      let same : x.states ≡ sees.states = ok-injective (sym x.read ∙ sees.read) in
      let least =
        select_claim_winner_least collate w.card_id now sees.earliest options.max_clock_skew_ms
          sees.states x.winner c sees.near (rw same at x.won) in
      rw (sym x.own)
        (not_before collate now w.card_id id x.winner.claim.claim_id sees.states sees.shown least)

  -- Two daemons do not both acquire a card if, at its reading after the post, each is shown the
  -- other's claim as live and unexpired, among claims that started within the clock skew of one
  -- another, and texts are compared by a total preorder that tells the two IDs apart. The readings,
  -- the times and the settings of the two may differ.
  pub acquire_exclusive :
      (options_a options_b : Options) (now_a now_b : ℕ) (w_a w_b : Setting)
      (initial_a initial_b graced_a graced_b reread_a reread_b : List Comment) (a b : Claim)
      (replaced_a replaced_b : List ClaimState)
      → (is_less (collate a.claim_id b.claim_id) ≡ true)
        ⊎ (is_less (collate b.claim_id a.claim_id) ≡ true)
      → Sees collate options_a now_a w_a.card_id reread_a b.claim_id
      → Sees collate options_b now_b w_b.card_id reread_b a.claim_id
      → (acquire collate options_a now_a w_a initial_a graced_a reread_a).outcome
        ≡ acquired a replaced_a
      → (acquire collate options_b now_b w_b initial_b graced_b reread_b).outcome
        ≢ acquired b replaced_b
  acquire_exclusive options_a options_b now_a now_b w_a w_b initial_a initial_b graced_a graced_b
        reread_a reread_b a b replaced_a replaced_b apart sees_b sees_a h k =
      let first =
        acquired-least options_a now_a w_a initial_a graced_a reread_a a replaced_a b.claim_id
          sees_b h in
      let second =
        acquired-least options_b now_b w_b initial_b graced_b reread_b b replaced_b a.claim_id
          sees_a k in
      elim apart [ inl e ↦ absurd (cc (e, second)) | inr e ↦ absurd (cc (e, first)) ]
