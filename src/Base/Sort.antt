-- ===== src/Base/Sort.antt =====
-- `Array.prototype.sort` with a comparator: a stable sort. It is an insertion sort here; ECMAScript
-- leaves the method open and fixes the result for every consistent comparator.
use Prim.Native.Nat.{ℕ, Ordering, compare, ◌+◌}
use mathlib.Core.Path.{◌≡◌, refl, ◌∙◌, sym, subst}
use mathlib.Core.Bool.{Bool, true, false, ◌||◌}
use mathlib.Core.Logic.{inl, inr}
use mathlib.Core.Option.{Option, none, some, some-injective}
use mathlib.Core.List.{List, [], ◌∷◌}
use native.Mathlib.Omega.{arith}
use fizzy_symphony.Base.Lists.{All, any, first, filter, length}
use fizzy_symphony.Base.Tests.{if◌then◌else◌, Bool-cases}

-- `a || b` on the numbers that comparators return.
abbrev pub or_compare : Ordering → Ordering → Ordering
or_compare Ordering.eq o = o
or_compare Ordering.lt o = Ordering.lt
or_compare Ordering.gt o = Ordering.gt

-- A missing number counts as infinity, and two of them as equal.
abbrev pub compare_last : Option ℕ → Option ℕ → Ordering
compare_last none none = Ordering.eq
compare_last none (some b) = Ordering.gt
compare_last (some a) none = Ordering.lt
compare_last (some a) (some b) = compare a b

abbrev pub is_less : Ordering → Bool
is_less Ordering.lt = true
is_less _ = false

module _ {ℓ} {A : Type ℓ} where
  -- Puts an element behind all that it is not less than, up to the first that it is less than.
  unfoldable pub insert_by : (A → A → Ordering) → A → List A → List A
  insert_by cmp x [] = x ∷ []
  insert_by cmp x (y ∷ ys) = if is_less (cmp x y) then x ∷ y ∷ ys else y ∷ insert_by cmp x ys

  unfoldable pub sort_onto : (A → A → Ordering) → List A → List A → List A
  sort_onto cmp acc [] = acc
  sort_onto cmp acc (x ∷ xs) = sort_onto cmp (insert_by cmp x acc) xs

  unfoldable pub sort_by : (A → A → Ordering) → List A → List A
  unfolding sort_onto insert_by
  sort_by cmp xs = sort_onto cmp [] xs

  -- Sorting changes neither whether some element passes a test nor whether all have a property.
  any-insert_by :
      (p : A → Bool) (cmp : A → A → Ordering) (x : A) (xs : List A)
      → any p (insert_by cmp x xs) ≡ (p x || any p xs)
  unfolding insert_by
  any-insert_by p cmp x [] = refl
  any-insert_by p cmp x (y ∷ ys) = ground (arith, any-insert_by p cmp x ys)

  any-sort_onto :
      (p : A → Bool) (cmp : A → A → Ordering) (acc xs : List A)
      → any p (sort_onto cmp acc xs) ≡ (any p acc || any p xs)
  unfolding sort_onto
  any-sort_onto p cmp acc [] = ground arith
  any-sort_onto p cmp acc (x ∷ xs) =
      ground (arith, any-sort_onto p cmp (insert_by cmp x acc) xs, any-insert_by p cmp x acc)

  pub any-sort_by :
      (p : A → Bool) (cmp : A → A → Ordering) (xs : List A) → any p (sort_by cmp xs) ≡ any p xs
  unfolding sort_by
  any-sort_by p cmp xs = any-sort_onto p cmp [] xs

module _ {ℓ κ} {A : Type ℓ} (P : A → Type κ) where
  All-insert_by :
      (cmp : A → A → Ordering) (x : A) (xs : List A) → P x → All P xs → All P (insert_by cmp x xs)
  unfolding insert_by
  All-insert_by cmp x [] p h = (p, tt)
  All-insert_by cmp x (y ∷ ys) p (q, h) = elim (Bool-cases (is_less (cmp x y))) [
    | inl less ↦ rw less (p, (q, h))
    | inr more ↦ rw more (q, All-insert_by cmp x ys p h)
  ]

  All-sort_onto :
      (cmp : A → A → Ordering) (acc xs : List A)
      → All P acc
      → All P xs
      → All P (sort_onto cmp acc xs)
  unfolding sort_onto
  All-sort_onto cmp acc [] h k = h
  All-sort_onto cmp acc (x ∷ xs) h (p, k) =
      All-sort_onto cmp (insert_by cmp x acc) xs (All-insert_by cmp x acc p h) k

  pub All-sort_by : (cmp : A → A → Ordering) (xs : List A) → All P xs → All P (sort_by cmp xs)
  unfolding sort_by
  All-sort_by cmp xs h = All-sort_onto cmp [] xs tt h

module _ {ℓ} {A : Type ℓ} (cmp : A → A → Ordering) where
  -- Every element is at most each later one.
  abbrev pub IsSorted : List A → Type ℓ
  IsSorted [] = Unit
  IsSorted (x ∷ xs) = All (λ y. is_less (cmp y x) ≡ false) xs × IsSorted xs

-- A comparator is consistent on the elements with a property.
pub record IsConsistent {ℓ κ} {A : Type ℓ} (P : A → Type κ) (cmp : A → A → Ordering)
    : Type (ℓ ⊔ κ) where
  pub asym : (x y : A) → P x → P y → is_less (cmp x y) ≡ true → is_less (cmp y x) ≡ false
  pub trans :
      (x y z : A)
      → P x
      → P y
      → P z
      → is_less (cmp y x) ≡ false
      → is_less (cmp z y) ≡ false
      → is_less (cmp z x) ≡ false

module _ {ℓ κ} {A : Type ℓ} (P : A → Type κ) (cmp : A → A → Ordering) (c : IsConsistent P cmp) where
  above :
      (x y : A) (ys : List A)
      → P x
      → P y
      → All P ys
      → is_less (cmp y x) ≡ false
      → All (λ z. is_less (cmp z y) ≡ false) ys
      → All (λ z. is_less (cmp z x) ≡ false) ys
  above x y [] p q h e k = tt
  above x y (z ∷ zs) p q (r, h) e (f, k) = (c.trans x y z p q r e f, above x y zs p q h e k)

  insert_by-IsSorted :
      (x : A) (ys : List A) → P x → All P ys → IsSorted cmp ys → IsSorted cmp (insert_by cmp x ys)
  unfolding insert_by
  insert_by-IsSorted x [] p h k = (tt, tt)
  insert_by-IsSorted x (y ∷ ys) p (q, h) (k, s) = elim (Bool-cases (is_less (cmp x y))) [
    | inl less ↦ let e = c.asym x y p q less in rw less ((e, above x y ys p q h e k), (k, s))
    | inr more ↦ rw more (
      All-insert_by (λ z. is_less (cmp z y) ≡ false) cmp x ys more k,
      insert_by-IsSorted x ys p h s,
    )
  ]

  sort_onto-IsSorted :
      (acc xs : List A)
      → All P acc
      → All P xs
      → IsSorted cmp acc
      → IsSorted cmp (sort_onto cmp acc xs)
  unfolding sort_onto
  sort_onto-IsSorted acc [] h k s = s
  sort_onto-IsSorted acc (x ∷ xs) h (p, k) s =
      sort_onto-IsSorted (insert_by cmp x acc) xs (All-insert_by P cmp x acc p h) k
        (insert_by-IsSorted x acc p h s)

  pub sort_by-IsSorted : (xs : List A) → All P xs → IsSorted cmp (sort_by cmp xs)
  unfolding sort_by
  sort_by-IsSorted xs h = sort_onto-IsSorted [] xs tt h tt

  refl_less : (x : A) → P x → is_less (cmp x x) ≡ false
  refl_less x p = elim (Bool-cases (is_less (cmp x x))) [ inl e ↦ c.asym x x p p e | inr e ↦ e ]

  no_any : (q : A → Bool) (xs : List A) → All (λ z. q z ≡ false) xs → any q xs ≡ false
  no_any q [] h = refl
  no_any q (x ∷ xs) (e, h) = rw e (no_any q xs h)

  sorted_first :
      (w : A) (ys : List A)
      → All P ys
      → IsSorted cmp ys
      → first ys ≡ some w
      → any (λ z. is_less (cmp z w)) ys ≡ false
  sorted_first w [] h s e = cc
  sorted_first w (y ∷ ys) (p, h) (k, s) e =
      subst (λ u. any (λ z. is_less (cmp z u)) (y ∷ ys) ≡ false) (some-injective y w e)
        (rw (refl_less y p) (no_any (λ z. is_less (cmp z y)) ys k))

  -- No element is less than the first one of the sorted list.
  pub first-sort_by :
      (w : A) (xs : List A)
      → All P xs
      → first (sort_by cmp xs) ≡ some w
      → any (λ z. is_less (cmp z w)) xs ≡ false
  first-sort_by w xs h e =
      sym (any-sort_by (λ z. is_less (cmp z w)) cmp xs)
      ∙ sorted_first w (sort_by cmp xs) (All-sort_by P cmp xs h) (sort_by-IsSorted xs h) e

module _ {ℓ} {A : Type ℓ} where
  length-filter-insert_by :
      (p : A → Bool) (cmp : A → A → Ordering) (x : A) (xs : List A)
      → length (filter p (insert_by cmp x xs)) ≡ length (filter p (x ∷ xs))
  unfolding insert_by
  length-filter-insert_by p cmp x [] = refl
  length-filter-insert_by p cmp x (y ∷ ys) = ground (arith, length-filter-insert_by p cmp x ys)

  length-filter-sort_onto :
      (p : A → Bool) (cmp : A → A → Ordering) (acc xs : List A)
      → length (filter p (sort_onto cmp acc xs)) ≡ length (filter p acc) + length (filter p xs)
  unfolding sort_onto
  length-filter-sort_onto p cmp acc [] = omega arith
  length-filter-sort_onto p cmp acc (x ∷ xs) = ground (
    arith,
    length-filter-sort_onto p cmp (insert_by cmp x acc) xs,
    length-filter-insert_by p cmp x acc,
  )

  -- As many elements pass a test after the sort as before.
  pub length-filter-sort_by :
      (p : A → Bool) (cmp : A → A → Ordering) (xs : List A)
      → length (filter p (sort_by cmp xs)) ≡ length (filter p xs)
  unfolding sort_by
  length-filter-sort_by p cmp xs = omega (arith, length-filter-sort_onto p cmp [] xs)

abbrev pub flipped : Ordering → Ordering
flipped Ordering.lt = Ordering.gt
flipped Ordering.eq = Ordering.eq
flipped Ordering.gt = Ordering.lt

abbrev pub is_more : Ordering → Bool
is_more Ordering.gt = true
is_more _ = false

-- A comparator that orders by some key.
pub record IsOrder {ℓ} {A : Type ℓ} (cmp : A → A → Ordering) : Type ℓ where
  pub flip : (x y : A) → cmp y x ≡ flipped (cmp x y)
  pub trans :
      (x y z : A)
      → is_more (cmp x y) ≡ false
      → is_more (cmp y z) ≡ false
      → is_more (cmp x z) ≡ false

compare_last-flip : (a b : Option ℕ) → compare_last b a ≡ flipped (compare_last a b)
compare_last-flip a b = ground arith

compare_last_trans :
    (a b c : Option ℕ)
    → is_more (compare_last a b) ≡ false
    → is_more (compare_last b c) ≡ false
    → is_more (compare_last a c) ≡ false
compare_last_trans a b c h k = ground arith

module _ {ℓ} {A : Type ℓ} where
  pub compare_last-IsOrder : (key : A → Option ℕ) → IsOrder (λ x y. compare_last (key x) (key y))
  compare_last-IsOrder key = record {
    flip = λ x y. compare_last-flip (key x) (key y);
    trans = λ x y z. compare_last_trans (key x) (key y) (key z);
  }

  pub or_compare-IsOrder :
      (f g : A → A → Ordering) → IsOrder f → IsOrder g → IsOrder (λ x y. or_compare (f x y) (g x y))
  or_compare-IsOrder f g o q = record {
    flip = λ x y. ground (arith, o.flip x y, q.flip x y);
    trans = λ x y z h k. ground (
      arith,
      o.trans x y z,
      o.trans y z x,
      o.trans z x y,
      o.flip x y,
      o.flip y z,
      o.flip x z,
      q.trans x y z,
    );
  }

  pub IsOrder-IsConsistent : (f : A → A → Ordering) → IsOrder f → IsConsistent (λ x. Unit {0}) f
  IsOrder-IsConsistent f o = record {
    asym = λ x y p q h. ground (arith, o.flip x y);
    trans = λ x y z p q r h k. ground (arith, o.trans x y z, o.flip x y, o.flip y z, o.flip x z);
  }
