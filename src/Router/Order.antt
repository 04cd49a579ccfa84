-- ===== src/Router/Order.antt =====
-- The dispatch order (src/router.js sortDispatchCandidates).
use Prim.Native.Nat.{Ordering}
use fizzy_symphony.Base.{
  ◌<◌, ap, true, false, Option, none, some, ℕ, All-map, ◌≡◌, ◌∙◌, Bool, List, [], ◌∷◌, filter,
  length, All, ◌&&◌, arith, refl,
}
use fizzy_symphony.Base.Sort.{
  is_less, compare_last, or_compare, IsSorted, IsOrder, compare_last-IsOrder, or_compare-IsOrder,
  IsOrder-IsConsistent, sort_by-IsSorted, length-filter-sort_by,
}
use fizzy_symphony.Router.Dispatch.{
  Candidate, explicit_priority_rank, card_priority_value, last_active_at, card_number,
  compare_dispatch_candidates, sort_dispatch_candidates,
}

compare_dispatch_candidates-IsOrder : IsOrder compare_dispatch_candidates
unfolding compare_dispatch_candidates
compare_dispatch_candidates-IsOrder =
    or_compare-IsOrder _ _ (compare_last-IsOrder explicit_priority_rank) (
      or_compare-IsOrder _ _ (compare_last-IsOrder (λ c. c.explicit_priority)) (
        or_compare-IsOrder _ _ (compare_last-IsOrder (λ c. card_priority_value c.card)) (
          or_compare-IsOrder _ _ (compare_last-IsOrder (λ c. last_active_at c.card))
            (compare_last-IsOrder card_number))))

All-trivial : (xs : List Candidate) → All (λ x. Unit {0}) xs
All-trivial [] = tt
All-trivial (x ∷ xs) = (tt, All-trivial xs)

length-filter-filter :
    (p q : Candidate → Bool) (xs : List Candidate)
    → length (filter p (filter q xs)) ≡ length (filter (λ x. q x && p x) xs)
length-filter-filter p q [] = refl
length-filter-filter p q (x ∷ xs) = ground (arith, length-filter-filter p q xs)

-- A number comes before a greater one, and before none.
abbrev pub Less : Option ℕ → Option ℕ → Type 0
Less (some m) (some n) = m < n
Less (some m) none = Unit
Less none b = ⊥

-- The first candidate is to be dispatched before the second: one with an explicit priority before one
-- without, and by its smaller number; where these are equal by the card's priority, then by the
-- earlier last activity, and then by the smaller number of the card; what is missing comes last.
pub data Precedes (a b : Candidate) : Type 0 where
  by_explicit : Less a.explicit_priority b.explicit_priority → Precedes a b
  by_priority :
      a.explicit_priority ≡ b.explicit_priority
      → Less (card_priority_value a.card) (card_priority_value b.card)
      → Precedes a b
  by_activity :
      a.explicit_priority ≡ b.explicit_priority
      → card_priority_value a.card ≡ card_priority_value b.card
      → Less (last_active_at a.card) (last_active_at b.card)
      → Precedes a b
  by_number :
      a.explicit_priority ≡ b.explicit_priority
      → card_priority_value a.card ≡ card_priority_value b.card
      → last_active_at a.card ≡ last_active_at b.card
      → Less (card_number a) (card_number b)
      → Precedes a b

-- No element precedes one that stands before it.
abbrev pub InOrder : List Candidate → Type 0
InOrder [] = Unit
InOrder (x ∷ xs) = All (λ y. ¬ Precedes y x) xs × InOrder xs

Less-compare : (a b : Option ℕ) → Less a b → compare_last a b ≡ Ordering.lt
Less-compare (some m) (some n) h = ground (arith, h)
Less-compare (some m) none h = refl
Less-compare none b h = absurd h

same-compare : (a b : Option ℕ) → a ≡ b → compare_last a b ≡ Ordering.eq
same-compare a b e = rw e (self b)
  where
    self : (o : Option ℕ) → compare_last o o ≡ Ordering.eq
    self none = refl
    self (some n) = ground arith

-- With equal explicit priorities, both are there or none is.
same-rank :
    (a b : Candidate)
    → a.explicit_priority ≡ b.explicit_priority
    → compare_last (explicit_priority_rank a) (explicit_priority_rank b) ≡ Ordering.eq
same-rank a b e =
    same-compare _ _ (ap (λ o. elim o as (λ _. Option ℕ) [ none ↦ some 1 | some p ↦ some 0 ]) e)

by_rank :
    (a b : Option ℕ) (o : Ordering)
    → Less a b
    → or_compare
        (compare_last
          (elim a as (λ _. Option ℕ) [ none ↦ some 1 | some p ↦ some 0 ])
          (elim b as (λ _. Option ℕ) [ none ↦ some 1 | some p ↦ some 0 ]))
        (or_compare (compare_last a b) o)
      ≡ Ordering.lt
by_rank (some m) (some n) o h = rw (Less-compare (some m) (some n) h) refl
by_rank (some m) none o h = refl
by_rank none b o h = absurd h

Precedes-less : (a b : Candidate) → Precedes a b → is_less (compare_dispatch_candidates a b) ≡ true
unfolding compare_dispatch_candidates
Precedes-less a b (by_explicit l) = rw (by_rank a.explicit_priority b.explicit_priority _ l) refl
Precedes-less a b (by_priority e l) =
    rw (same-rank a b e, same-compare _ _ e, Less-compare _ _ l) refl
Precedes-less a b (by_activity e p l) =
    rw (same-rank a b e, same-compare _ _ e, same-compare _ _ p, Less-compare _ _ l) refl
Precedes-less a b (by_number e p t l) =
    rw
      (
        same-rank a b e,
        same-compare _ _ e,
        same-compare _ _ p,
        same-compare _ _ t,
        Less-compare _ _ l,
      )
      refl

IsSorted-InOrder : (xs : List Candidate) → IsSorted compare_dispatch_candidates xs → InOrder xs
IsSorted-InOrder [] h = tt
IsSorted-InOrder (x ∷ xs) (h, k) = (
  All-map (λ y. ¬ Precedes y x) (λ y. is_less (compare_dispatch_candidates y x) ≡ false) xs
      (λ y e p. let less = Precedes-less y x p in absurd (cc (e, less))) h,
  IsSorted-InOrder xs k,
)

-- In the dispatch order no candidate precedes one that stands before it, by explicit priority, card
-- priority, last activity and number, in this order of weight. And it holds the decisions to spawn,
-- each as often as it was given, and nothing else: as many of its elements pass any test as decisions
-- to spawn do.
pub sort_dispatch_candidates_lem :
    (decisions : List Candidate) (test : Candidate → Bool)
    → InOrder (sort_dispatch_candidates decisions)
      × (length (filter test (sort_dispatch_candidates decisions))
          ≡ length (filter (λ d. d.spawn && test d) decisions))
unfolding sort_dispatch_candidates
sort_dispatch_candidates_lem decisions test = (
  IsSorted-InOrder _ (
      sort_by-IsSorted (λ x. Unit {0}) compare_dispatch_candidates
        (IsOrder-IsConsistent compare_dispatch_candidates compare_dispatch_candidates-IsOrder)
        (filter (λ d. d.spawn) decisions) (All-trivial _)),
  length-filter-sort_by test compare_dispatch_candidates (filter (λ d. d.spawn) decisions)
      ∙ length-filter-filter test (λ d. d.spawn) decisions,
)
