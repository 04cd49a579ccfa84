-- ===== src/Router/Conditions.antt =====
-- What the predicates of routeCard (src/router.js) say of the fields of the card, the route, the
-- board's entries and the claims.
use fizzy_symphony.Base.{
  ℕ, ◌≡◌, ◌≢◌, ◌∙◌, eq_iff, ◌≤◌, ◌<◌, ◌⊎◌, inl, inr, refl, sym, ap, Bool, true, false, not, ◌&&◌,
  ◌||◌, Option, none, some, List, [], ◌∷◌, ◌++◌, String, str_eq, any, find, get_or, or_else,
  is_true, is_false, truthy, same_text, same_text_iff, is_true_iff, is_false_iff, str_eq-other, All,
  Bool-cases, lt→ltb, arith,
}
use fizzy_symphony.Fizzy.Text.{to_lower_case}
use fizzy_symphony.Fizzy.Card.{Card, Stamp, at, unparsable, empty, stamped, parse_stamp}
use fizzy_symphony.Router.Types.{Board, BoardEntry, Config, Route, ActiveClaim}
use fizzy_symphony.Router.Gates.{
  is_watched_board, is_closed, is_postponed, find_route, serves, same_id, claim_blocks,
  matches_card, is_terminal_status, is_entry, after,
}

-- A claim for the card that is neither over nor expired.
pub record IsLiveClaim (now : ℕ) (card : Card) (c : ActiveClaim) : Type 0 where
  pub of_card : or_else c.card_id c.inner_card_id ≡ card.id
  pub not_over :
      All (λ s. c.status ≢ some s) ("released" ∷ "completed" ∷ "failed" ∷ "cancelled" ∷ "lost" ∷ [])
  pub unexpired : c.expired ≢ some true
  pub in_time : (c.expires_at ≡ none) ⊎ ((ms : ℕ) × (c.expires_at ≡ some (at ms)) × (now < ms))

abbrev pub Among {ℓ} : {A : Type ℓ} → A → List A → Type ℓ
Among {A} x xs = (before : List A) × (after : List A) × (xs ≡ before ++ (x ∷ after))

-- A board with an entry that is not disabled, or the configured one where there are no entries.
pub data IsWatched (id : String) (config : Config) (board : Board) : Type 0 where
  by_entry :
      (es : List BoardEntry) (e : BoardEntry)
      → config.board_entries ≡ some es
      → Among e es
      → e.id ≡ some id
      → e.enabled ≢ some false
      → IsWatched id config board
  without_entries :
      (config.board_entries ≡ none) ⊎ (config.board_entries ≡ some [])
      → board.id ≡ some id
      → IsWatched id config board

-- A text that is not there, or is empty.
abbrev pub Unset : Option String → Type 0
Unset o = (x : String) → o ≡ some x → x ≡ ""

pub record IsOpen (card : Card) : Type 0 where
  pub not_closed : card.closed ≢ some true
  pub no_closing : Unset card.closed_at
  pub no_archiving : Unset card.archived_at
  pub status : to_lower_case (get_or card.status "") ≢ "closed"

pub record IsDue (now : ℕ) (card : Card) : Type 0 where
  pub not_postponed : card.postponed ≢ some true
  pub until : (ms : ℕ) → card.postponed_until ≡ some (at ms) → ms ≤ now
  pub known : card.postponed_until ≢ some unparsable

find-Among :
    {A : Type 0} (p : A → Bool) (xs : List A) (x : A)
    → find p xs ≡ some x
    → Among x xs × (p x ≡ true)
find-Among p [] x h = absurd (cc)
find-Among {A} p (y ∷ ys) x h = elim (Bool-cases (p y)) [
  | inl e ↦
      let same : ◌≡◌ {A = Option A} (some y) (some x) = rw e at h in
      let y≡x : y ≡ x = cc (same) in (([], ys, ap (λ z. z ∷ ys) y≡x), rw (sym y≡x) e)
  | inr e ↦
      let ((before, after, at_), hit) = find-Among p ys x (rw e at h) in
      ((y ∷ before, after, ap (λ zs. y ∷ zs) at_), hit)
]

any-Among :
    {A : Type 0} (p : A → Bool) (xs : List A)
    → any p xs ≡ true
    → (x : A) × Among x xs × (p x ≡ true)
any-Among p [] h = absurd (cc)
any-Among p (y ∷ ys) h = elim (Bool-cases (p y)) [
  | inl e ↦ (y, ([], ys, refl), e)
  | inr e ↦
      let (x, (before, after, at_), hit) = any-Among p ys (ground (arith, h, e)) in
      (x, (y ∷ before, after, ap (λ zs. y ∷ zs) at_), hit)
]

same_id-some :
    (a b : Option String) → same_id a b ≡ true → (x : String) × (a ≡ some x) × (b ≡ some x)
same_id-some none b h = absurd (cc)
same_id-some (some x) b h = (x, refl, sym ((same_text_iff (some x) b).0 h))

open-terminal :
    (o : Option String)
    → All (λ s. o ≢ some s) ("released" ∷ "completed" ∷ "failed" ∷ "cancelled" ∷ "lost" ∷ [])
    → is_terminal_status o ≡ false
open-terminal none h = refl
open-terminal (some s) (a, (b, (c, (d, (e, u))))) =
    rw
      (
        other "released" a,
        other "completed" b,
        other "failed" c,
        other "cancelled" d,
        other "lost" e,
      )
      refl
  where
    other : (t : String) → ◌≢◌ {A = Option String} (some s) (some t) → str_eq s t ≡ false
    other t n = (str_eq-other s t).1 (λ same. n (ap some same))

IsLiveClaim-claim_blocks :
    (now : ℕ) (card : Card) (c : ActiveClaim)
    → IsLiveClaim now card c
    → claim_blocks now card c ≡ true
unfolding claim_blocks matches_card
IsLiveClaim-claim_blocks now card c live =
    let same : same_text (or_else c.card_id c.inner_card_id) card.id ≡ true =
      (same_text_iff _ _).1 live.of_card in
    let alive : is_terminal_status c.status ≡ false = open-terminal c.status live.not_over in
    let unexpired : is_true c.expired ≡ false = (is_true_iff c.expired).1 live.unexpired in
    let in_time : (not (stamped c.expires_at) || after now (parse_stamp c.expires_at)) ≡ true =
      lasts c.expires_at live.in_time in
    rw (same, alive, unexpired) (ground (arith, in_time))
  where
    lasts :
        (o : Option Stamp)
        → (o ≡ none) ⊎ ((ms : ℕ) × (o ≡ some (at ms)) × (now < ms))
        → (not (stamped o) || after now (parse_stamp o)) ≡ true
    lasts o (inl e) = rw e refl
    lasts o (inr (ms, e, ahead)) = rw (e, lt→ltb now ms ahead) refl

is_entry-IsWatched :
    (id : String) (config : Config) (board : Board) (es : List BoardEntry)
    → config.board_entries ≡ some es
    → any (λ e. is_entry (some id) e && not (is_false e.enabled)) es ≡ true
    → IsWatched id config board
is_entry-IsWatched id config board es found h =
    let (e, among, hit) = any-Among _ es h in
    let same : same_id e.id (some id) ≡ true = ground (arith, hit) in
    let on : is_false e.enabled ≡ false = ground (arith, hit) in
    let (x, named, as_id) = same_id-some e.id (some id) same in
    by_entry es e found among (rw as_id named) ((is_false_iff e.enabled).0 on)

pub is_watched_board-IsWatched :
    (id : String) (config : Config) (board : Board) (es : Option (List BoardEntry))
    → config.board_entries ≡ es
    → is_watched_board (some id) config board ≡ true
    → IsWatched id config board
unfolding is_watched_board
is_watched_board-IsWatched id config board none found h =
    let (x, named, as_id) = same_id-some board.id (some id) (rw (is_watched_board, found) at h) in
    without_entries (inl found) (rw as_id named)
is_watched_board-IsWatched id config board (some []) found h =
    let (x, named, as_id) = same_id-some board.id (some id) (rw (is_watched_board, found) at h) in
    without_entries (inr found) (rw as_id named)
is_watched_board-IsWatched id config board (some (e ∷ es)) found h =
    is_entry-IsWatched id config board (e ∷ es) found (rw (is_watched_board, found) at h)

truthy-Unset : (o : Option String) → truthy o ≡ false → Unset o
truthy-Unset none h x e = absurd (cc)
truthy-Unset (some y) h x e =
    let same : y ≡ x = cc (e) in
    let blank : str_eq y "" ≡ true = ground (arith, h) in sym same ∙ (eq_iff y "").0 blank

pub is_closed-IsOpen : (card : Card) → is_closed card ≡ false → IsOpen card
unfolding is_closed
is_closed-IsOpen card h =
    let closed : is_true card.closed ≡ false = ground (arith, h) in
    let closing : truthy card.closed_at ≡ false = ground (arith, h) in
    let archiving : truthy card.archived_at ≡ false = ground (arith, h) in
    let named : str_eq (to_lower_case (get_or card.status "")) "closed" ≡ false =
      ground (arith, h) in
    record {
      not_closed = (is_true_iff card.closed).0 closed;
      no_closing = truthy-Unset card.closed_at closing;
      no_archiving = truthy-Unset card.archived_at archiving;
      status = (str_eq-other _ _).0 named;
    }

past :
    (now : ℕ) (o : Option Stamp)
    → (stamped o && after now (parse_stamp o)) ≡ false
    → ((ms : ℕ) → o ≡ some (at ms) → ms ≤ now) × (o ≢ some unparsable)
past now none h = (λ ms e. absurd (cc), λ e. absurd (cc))
past now (some empty) h = (λ ms e. absurd (cc), λ e. absurd (cc))
past now (some unparsable) h = absurd (cc)
past now (some (at n)) h =
    (λ ms e. let same : n ≡ ms = cc (e) in rw (sym same) (ground (arith, h)), λ e. absurd (cc))

pub is_postponed-IsDue :
    (now : ℕ) (card : Card) (allowed : Bool)
    → (is_postponed now card && not allowed) ≡ false
    → (allowed ≡ true) ⊎ IsDue now card
unfolding is_postponed
is_postponed-IsDue now card true h = inl refl
is_postponed-IsDue now card false h =
    let kept : is_true card.postponed ≡ false = ground (arith, h) in
    let waited : (stamped card.postponed_until && after now (parse_stamp card.postponed_until))
        ≡ false =
      ground (arith, h) in
    let (until, known) = past now card.postponed_until waited in
    inr
      (record { not_postponed = (is_true_iff card.postponed).0 kept; until = until; known = known })

pub serves-some :
    (board_id column_id : Option String) (route : Route)
    → serves board_id column_id route ≡ true
    → (board : String) × (column : String) × (route.board_id ≡ some board)
      × (board_id ≡ some board)
      × (route.source_column_id ≡ some column)
      × (column_id ≡ some column)
unfolding serves
serves-some board_id column_id route h =
    let (b, p, q) = same_id-some route.board_id board_id (ground (arith, h)) in
    let (c, u, v) = same_id-some route.source_column_id column_id (ground (arith, h)) in
    (b, c, p, q, u, v)

pub find_route-Among :
    (routes : List Route) (board_id column_id : Option String) (route : Route)
    → find_route routes board_id column_id ≡ some route
    → Among route routes × (serves board_id column_id route ≡ true)
unfolding find_route
find_route-Among routes board_id column_id route h =
    find-Among (serves board_id column_id) routes route h

pub unlive :
    (now : ℕ) (card : Card) (c : ActiveClaim)
    → claim_blocks now card c ≡ false
    → ¬ IsLiveClaim now card c
unlive now card c h live =
    let blocks = IsLiveClaim-claim_blocks now card c live in absurd (cc (h, blocks))
