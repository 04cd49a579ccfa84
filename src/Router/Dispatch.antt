-- ===== src/Router/Dispatch.antt =====
-- The order in which cards are dispatched (src/router.js sortDispatchCandidates).
use Prim.Native.Nat.{Ordering}
use fizzy_symphony.Base.{
  ℕ, Bool, Option, none, some, List, String, if◌then◌else◌, str_eq, filter, or_else,
}
use fizzy_symphony.Base.Sort.{or_compare, compare_last, sort_by}
use fizzy_symphony.Fizzy.Card.{Card, Rank, number, word, null, parse_stamp}
use fizzy_symphony.Fizzy.Text.{to_lower_case}

-- What the sort reads of a decision: whether it spawns, the explicit priority if it is a number,
-- the card, and its number, which may be `null` here.
pub record Candidate : Type 0 where
  pub spawn : Bool
  pub explicit_priority : Option ℕ
  pub card : Card
  pub number : Option Rank

numeric : Option Rank → Option ℕ
numeric (some (number n)) = some n
numeric (some null) = some 0
numeric _ = none

named : String → Option ℕ
named s =
    if str_eq s "urgent"
    then some 0
    else if str_eq s "high"
    then some 1
    else if str_eq s "medium"
    then some 3
    else if str_eq s "low"
    then some 5
    else none

named_priority : Option Rank → Option ℕ
unfolding named to_lower_case
named_priority (some (word s)) = named (to_lower_case s)
named_priority _ = none

unfoldable pub card_priority_value : Card → Option ℕ
unfolding numeric named_priority
card_priority_value card =
    or_else (numeric card.priority) (
      or_else (numeric card.order) (or_else (numeric card.position) (named_priority card.priority)))

-- 0 with an explicit priority, 1 without.
abbrev pub explicit_priority_rank : Candidate → Option ℕ
explicit_priority_rank c = elim c.explicit_priority [ none ↦ some 1 | some p ↦ some 0 ]

-- `card?.last_active_at ?? card?.updated_at`.
abbrev pub last_active_at : Card → Option ℕ
last_active_at card = parse_stamp (or_else card.last_active_at card.updated_at)

unfoldable pub card_number : Candidate → Option ℕ
unfolding numeric
card_number c = numeric c.number

unfoldable pub compare_dispatch_candidates : Candidate → Candidate → Ordering
compare_dispatch_candidates a b =
    or_compare (compare_last (explicit_priority_rank a) (explicit_priority_rank b)) (
      or_compare (compare_last a.explicit_priority b.explicit_priority) (
        or_compare (compare_last (card_priority_value a.card) (card_priority_value b.card)) (
          or_compare (compare_last (last_active_at a.card) (last_active_at b.card))
            (compare_last (card_number a) (card_number b)))))

unfoldable pub sort_dispatch_candidates : List Candidate → List Candidate
unfolding compare_dispatch_candidates sort_by
sort_dispatch_candidates decisions =
    sort_by compare_dispatch_candidates (filter (λ d. d.spawn) decisions)
