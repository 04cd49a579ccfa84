-- ===== src/Base/Lists.antt =====
-- Lists measured by native numbers, and the array methods that the source calls.
use Prim.Native.Nat.{ℕ, zero, suc, ◌+◌, ◌-◌}
use mathlib.Core.Path.{◌≡◌, refl, ap, subst}
use mathlib.Core.Bool.{Bool, true, false, ◌&&◌, ◌||◌}
use mathlib.Core.Option.{Option, none, some, some-injective}
use mathlib.Core.List.{List, [], ◌∷◌, ◌++◌}
use mathlib.Core.Logic.{inl, inr}
use native.Mathlib.Omega.{arith}
use fizzy_symphony.Base.Tests.{if◌then◌else◌, Bool-cases}
use fizzy_symphony.Base.Options.{is_some}

module _ {ℓ} {A : Type ℓ} where
  abbrev pub length : List A → ℕ
  length [] = 0
  length (x ∷ xs) = suc (length xs)

  abbrev pub drop : ℕ → List A → List A
  drop zero xs = xs
  drop (suc n) [] = []
  drop (suc n) (x ∷ xs) = drop n xs

  -- `xs.some(p)`.
  abbrev pub any : (A → Bool) → List A → Bool
  any p [] = false
  any p (x ∷ xs) = p x || any p xs

  -- `xs.find(p)`.
  abbrev pub find : (A → Bool) → List A → Option A
  find p [] = none
  find p (x ∷ xs) = if p x then some x else find p xs

  -- `xs.filter(p)`.
  abbrev pub filter : (A → Bool) → List A → List A
  filter p [] = []
  filter p (x ∷ xs) = if p x then x ∷ filter p xs else filter p xs

  -- `xs[0]`.
  abbrev pub first : List A → Option A
  first [] = none
  first (x ∷ xs) = some x

  pub length-append : (xs ys : List A) → length (xs ++ ys) ≡ length xs + length ys
  length-append [] ys = omega arith
  length-append (x ∷ xs) ys = omega (arith, length-append xs ys)

  pub length-snoc : (xs : List A) (x : A) → length (xs ++ x ∷ []) ≡ suc (length xs)
  length-snoc [] x = refl
  length-snoc (y ∷ xs) x = ap suc (length-snoc xs x)

  pub length-drop : (n : ℕ) (xs : List A) → length (drop n xs) ≡ length xs - n
  length-drop zero xs = omega arith
  length-drop (suc n) [] = omega arith
  length-drop (suc n) (x ∷ xs) = omega (arith, length-drop n xs)

module _ {ℓ κ} {A : Type ℓ} (P : A → Type κ) where
  abbrev pub All : List A → Type κ
  All [] = Unit
  All (x ∷ xs) = P x × All xs

  pub All-append : (xs ys : List A) → All xs → All ys → All (xs ++ ys)
  All-append [] ys h k = k
  All-append (x ∷ xs) ys (p, h) k = (p, All-append xs ys h k)

  pub All-drop : (n : ℕ) (xs : List A) → All xs → All (drop n xs)
  All-drop zero xs h = h
  All-drop (suc n) [] h = h
  All-drop (suc n) (x ∷ xs) (p, h) = All-drop n xs h

  pub All-filter : (f : A → Bool) (xs : List A) → All xs → All (filter f xs)
  All-filter f [] h = h
  All-filter f (x ∷ xs) (p, h) =
      elim (f x) as (λ b. All (if b then x ∷ filter f xs else filter f xs)) [
        | true ↦ (p, All-filter f xs h)
        | false ↦ All-filter f xs h
      ]

module _ {ℓ} {A : Type ℓ} where
  pub any-filter : (p q : A → Bool) (xs : List A) → any p (filter q xs) ≡ any (λ x. q x && p x) xs
  any-filter p q [] = refl
  any-filter p q (x ∷ xs) = ground (arith, any-filter p q xs)

  pub is_some-find : (p : A → Bool) (xs : List A) → is_some (find p xs) ≡ any p xs
  is_some-find p [] = refl
  is_some-find p (x ∷ xs) = ground (arith, is_some-find p xs)

  pub is_some-first : (xs : List A) → is_some (first xs) ≡ any (λ x. true) xs
  is_some-first [] = refl
  is_some-first (x ∷ xs) = refl

  -- A test that follows from another one.
  pub any_mono :
      (p q : A → Bool) (xs : List A)
      → ((x : A) → p x ≡ true → q x ≡ true)
      → any p xs ≡ true
      → any q xs ≡ true
  any_mono p q [] h e = e
  any_mono p q (x ∷ xs) h e = ground (arith, h x, any_mono p q xs h)

  pub any_ext : (p q : A → Bool) (xs : List A) → ((x : A) → p x ≡ q x) → any p xs ≡ any q xs
  any_ext p q [] h = refl
  any_ext p q (x ∷ xs) h = rw (h x, any_ext p q xs h)

  -- Of what all elements satisfy.
  pub any_none_All : (p : A → Bool) (xs : List A) → any p xs ≡ false → All (λ x. p x ≡ false) xs
  any_none_All p [] e = tt
  any_none_All p (x ∷ xs) e = (ground arith, any_none_All p xs (ground arith))

  pub any_ext_All : (p q : A → Bool) (xs : List A) → All (λ x. p x ≡ q x) xs → any p xs ≡ any q xs
  any_ext_All p q [] h = refl
  any_ext_All p q (x ∷ xs) (e, h) = rw (e, any_ext_All p q xs h)

module _ {ℓ κ} {A : Type ℓ} (P : A → Type κ) where
  -- What passes both tests has the property; so what is left of the first test has it if it passes
  -- the second one.
  pub All-filter_and :
      (f g : A → Bool) (xs : List A)
      → All (λ x. (f x && g x) ≡ true → P x) xs
      → All (λ x. g x ≡ true → P x) (filter f xs)
  All-filter_and f g [] h = tt
  All-filter_and f g (x ∷ xs) (p, h) = elim (Bool-cases (f x)) [
    | inl e ↦ rw e ((λ k. p (rw e k)), All-filter_and f g xs h)
    | inr e ↦ rw e (All-filter_and f g xs h)
  ]

  pub All-filter_if :
      (f : A → Bool) (xs : List A) → All (λ x. f x ≡ true → P x) xs → All P (filter f xs)
  All-filter_if f [] h = tt
  All-filter_if f (x ∷ xs) (p, h) = elim (Bool-cases (f x)) [
    | inl e ↦ rw e (p e, All-filter_if f xs h)
    | inr e ↦ rw e (All-filter_if f xs h)
  ]

  pub All-first : (xs : List A) (w : A) → All P xs → first xs ≡ some w → P w
  All-first [] w h e = cc
  All-first (x ∷ xs) w (p, h) e = subst P (some-injective x w e) p

pub All-map {ℓ κ μ} :
    {A : Type ℓ} (P : A → Type κ) (Q : A → Type μ) (xs : List A)
    → ((x : A) → Q x → P x)
    → All Q xs
    → All P xs
All-map P Q [] f h = tt
All-map P Q (x ∷ xs) f (q, h) = (f x q, All-map P Q xs f h)
