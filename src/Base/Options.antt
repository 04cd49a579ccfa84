-- ===== src/Base/Options.antt =====
-- JavaScript's `??` and the tests on values that may be `undefined`.
use Prim.Native.String.{String}
use mathlib.Core.Bool.{Bool, true, false, not}
use mathlib.Core.Option.{Option, none, some}
use text.Mathlib.Text.{◌==◌}
use text.Mathlib.TextEquality.{eq_iff}
use mathlib.Core.Path.{◌≡◌, refl, sym, ap, ◌∙◌}
use mathlib.Core.Logic.{◌↔◌, ◌≢◌, inl, inr}
use fizzy_symphony.Base.Tests.{Bool-cases}
use native.Mathlib.Omega.{arith}

module _ {ℓ} {A : Type ℓ} where
  -- `o ?? d`, where `d` is never missing.
  abbrev pub get_or : Option A → A → A
  get_or none d = d
  get_or (some a) d = a

  -- `o ?? p`.
  abbrev pub or_else : Option A → Option A → Option A
  or_else none p = p
  or_else (some a) p = some a

  abbrev pub is_some : Option A → Bool
  is_some none = false
  is_some (some a) = true

-- `a === b` on texts that may be missing.
abbrev pub same_text : Option String → Option String → Bool
same_text none none = true
same_text none (some b) = false
same_text (some a) none = false
same_text (some a) (some b) = a == b

-- A text that is missing or empty is falsy.
abbrev pub truthy : Option String → Bool
truthy none = false
truthy (some a) = not (a == "")

-- `flag === true`.
abbrev pub is_true : Option Bool → Bool
is_true (some true) = true
is_true _ = false

-- `flag === false`.
abbrev pub is_false : Option Bool → Bool
is_false (some false) = true
is_false _ = false

pub same_text_iff : (a b : Option String) → (same_text a b ≡ true) ↔ (a ≡ b)
same_text_iff none none = (λ h. refl, λ h. refl)
same_text_iff none (some b) = (λ h. cc, λ h. cc)
same_text_iff (some a) none = (λ h. cc, λ h. cc)
same_text_iff (some a) (some b) =
    (λ h. ap some ((eq_iff a b).0 h), λ h. (eq_iff a b).1 (ground arith))

pub same_text_refl : (a : Option String) → same_text a a ≡ true
same_text_refl a = (same_text_iff a a).1 refl

pub same_text_comm : (a b : Option String) → same_text a b ≡ same_text b a
same_text_comm a b = go (same_text a b) (same_text b a) refl refl
  where
    go : (x y : Bool) → same_text a b ≡ x → same_text b a ≡ y → x ≡ y
    go true y e f = sym (sym f ∙ (same_text_iff b a).1 (sym ((same_text_iff a b).0 e)))
    go false true e f = sym e ∙ (same_text_iff a b).1 (sym ((same_text_iff b a).0 f))
    go false false e f = refl

pub is_true_iff : (o : Option Bool) → (is_true o ≡ false) ↔ (o ≢ some true)
is_true_iff none = (λ h e. absurd (cc), λ h. refl)
is_true_iff (some false) = (λ h e. absurd (cc), λ h. refl)
is_true_iff (some true) = (λ h e. absurd (cc), λ h. absurd (h refl))

pub is_false_iff : (o : Option Bool) → (is_false o ≡ false) ↔ (o ≢ some false)
is_false_iff none = (λ h e. absurd (cc), λ h. refl)
is_false_iff (some true) = (λ h e. absurd (cc), λ h. refl)
is_false_iff (some false) = (λ h e. absurd (cc), λ h. absurd (h refl))

pub str_eq-other : (s t : String) → ((s == t) ≡ false) ↔ (s ≢ t)
str_eq-other s t = (
  λ h e. let same = (eq_iff s t).1 e in absurd (cc (h, same)),
  λ h. elim (Bool-cases ((s == t))) [ inl e ↦ absurd (h ((eq_iff s t).0 e)) | inr e ↦ e ],
)
