-- ===== src/Router/Conflicts.antt =====
-- Tags that ask for two values of one field (src/router.js parseCardOverrides).
use fizzy_symphony.Base.{ok, ok-injective, ok_chain}
use fizzy_symphony.Base.{
  ◌≡◌, ◌≢◌, refl, sym, ap, subst, ◌∙◌, Bool, true, false, ◌||◌, List, [], ◌∷◌, String, arith,
  if◌then◌else◌, str_eq, eq_iff, any, Bool-cases, inl, inr,
}
use mathlib.Core.List.{Memᴰ}
use fizzy_symphony.Router.Types.{Board, Field, backend, Value, Override}
use fizzy_symphony.Router.Tags.{
  Parsed, other, invalid, override, parse_override_tag, Entry, Family, same_field, put_entry,
  put_family, Outcome, collect_tag, collect_tags, select, select_overrides, parse_card_overrides,
}

same_field_iff : (f g : Field) → same_field f g ≡ true → f ≡ g
same_field_iff f g h = ground arith

same_field_refl : (f : Field) → same_field f f ≡ true
same_field_refl backend = refl
same_field_refl _ = refl

-- The values that are asked for a field.
entries_of : Field → List Family → List Entry
entries_of f [] = []
entries_of f (g ∷ gs) = if same_field g.field f then g.entries else entries_of f gs

has_key : String → List Entry → Bool
has_key k es = any (λ e. str_eq e.key k) es

has_key-put_entry :
    (tag k j : String) (v : Value) (es : List Entry)
    → has_key k (put_entry tag j v es) ≡ (has_key k es || str_eq j k)
unfolding has_key put_entry
has_key-put_entry tag k j v [] = ground arith
has_key-put_entry tag k j v (e ∷ es) =
    ground (arith, has_key-put_entry tag k j v es, eq_iff e.key j, eq_iff e.key k, eq_iff j k)

same_field_apart :
    (a b c : Field) → same_field a b ≡ false → same_field a c ≡ true → same_field b c ≡ false
same_field_apart a b c h k = elim (Bool-cases (same_field b c)) [
  | inl e ↦
      let same : a ≡ b = same_field_iff a c k ∙ sym (same_field_iff b c e) in
      let x : same_field a b ≡ true = rw same (same_field_refl b) in absurd (cc)
  | inr e ↦ e
]

entries_of-put_family :
    (tag j : String) (f g : Field) (v : Value) (fs : List Family)
    → entries_of f (put_family tag g j v fs)
      ≡ (if same_field g f then put_entry tag j v (entries_of f fs) else entries_of f fs)
unfolding entries_of put_family
entries_of-put_family tag j f g v [] = refl
entries_of-put_family tag j f g v (h ∷ fs) = elim (Bool-cases (same_field h.field g)) [
  | inl e ↦
      let same : same_field h.field f ≡ same_field g f =
        ap (λ x. same_field x f) (same_field_iff h.field g e) in
      rw e (ground (arith, same))
  | inr e ↦
      rw e (ground (arith, same_field_apart h.field g f e, entries_of-put_family tag j f g v fs))
]

-- Once asked for, a key stays.
has_key-put_family :
    (tag j k : String) (f g : Field) (v : Value) (fs : List Family)
    → has_key k (entries_of f fs) ≡ true
    → has_key k (entries_of f (put_family tag g j v fs)) ≡ true
has_key-put_family tag j k f g v fs h =
    rw (entries_of-put_family tag j f g v fs)
      (ground (arith, has_key-put_entry tag k j v (entries_of f fs)))

has_key-put_family_self :
    (tag k : String) (f : Field) (v : Value) (fs : List Family)
    → has_key k (entries_of f (put_family tag f k v fs)) ≡ true
has_key-put_family_self tag k f v fs =
    rw (entries_of-put_family tag k f f v fs, same_field_refl f)
      (ground (arith, has_key-put_entry tag k k v (entries_of f fs), eq_iff k k))

-- A tag asks for a value.
abbrev pub Asks : Board → Field → String → String → Type 0
Asks board f k tag = (v : Value) × (parse_override_tag tag board ≡ override f k v)

collect_tag-keeps :
    (t k : String) (f : Field) (p : Parsed) (fs gs : List Family)
    → has_key k (entries_of f fs) ≡ true
    → collect_tag t p fs ≡ ok gs
    → has_key k (entries_of f gs) ≡ true
unfolding collect_tag
collect_tag-keeps t k f other fs gs h e =
    subst (λ x. has_key k (entries_of f x) ≡ true) (ok-injective e) h
collect_tag-keeps t k f (invalid i) fs gs h e = absurd (cc)
collect_tag-keeps t k f (override g j v) fs gs h e =
    subst (λ x. has_key k (entries_of f x) ≡ true) (ok-injective e)
      (has_key-put_family t j k f g v fs h)

select-rest :
    (field : Field) (es : List Entry) (rest : Outcome (List Override)) (os : List Override)
    → select field es rest ≡ ok os
    → (os' : List Override) × (rest ≡ ok os')
unfolding select
select-rest field [] rest os h = (os, h)
select-rest field (e ∷ []) rest os h = let (os', ok_rest, _) = ok_chain _ rest h in (os', ok_rest)
select-rest field (e ∷ e' ∷ es) rest os h = absurd (cc)

collect_tags-keeps :
    (board : Board) (f : Field) (k : String) (tags : List String) (fs gs : List Family)
    → has_key k (entries_of f fs) ≡ true
    → collect_tags board tags fs ≡ ok gs
    → has_key k (entries_of f gs) ≡ true
unfolding collect_tags
collect_tags-keeps board f k [] fs gs h e =
    subst (λ x. has_key k (entries_of f x) ≡ true) (ok-injective e) h
collect_tags-keeps board f k (t ∷ tags) fs gs h e =
    let (fs', step, rest) =
      ok_chain (collect_tags board tags) (collect_tag t (parse_override_tag t board) fs) e in
    collect_tags-keeps board f k tags fs' gs
      (collect_tag-keeps t k f (parse_override_tag t board) fs fs' h step) rest

collect_tags-Asks :
    (board : Board) (f : Field) (k t : String) (tags : List String) (fs gs : List Family)
    → Memᴰ t tags
    → Asks board f k t
    → collect_tags board tags fs ≡ ok gs
    → has_key k (entries_of f gs) ≡ true
unfolding collect_tags collect_tag
collect_tags-Asks board f k t [] fs gs (m) a e = elim m [ ]
collect_tags-Asks board f k t (u ∷ tags) fs gs (Memᴰ.head same) (v, a) e =
    let asked : parse_override_tag u board ≡ override f k v =
      ap (λ x. parse_override_tag x board) (sym same) ∙ a in
    collect_tags-keeps board f k tags (put_family u f k v fs) gs
      (has_key-put_family_self u k f v fs) (rw (asked, collect_tag) at e)
collect_tags-Asks board f k t (u ∷ tags) fs gs (Memᴰ.tail m) a e =
    let (fs', step, rest) =
      ok_chain (collect_tags board tags) (collect_tag u (parse_override_tag u board) fs) e in
    collect_tags-Asks board f k t tags fs' gs m a rest

two_keys :
    (k j : String) (es : List Entry) (field : Field) (rest : Outcome (List Override))
    (os : List Override)
    → k ≢ j
    → has_key k es ≡ true
    → has_key j es ≡ true
    → select field es rest ≢ ok os
unfolding has_key select
two_keys k j [] field rest os d h g = cc
two_keys k j (e ∷ []) field rest os d h g =
    λ x. d (sym ((eq_iff e.key k).0 (ground arith)) ∙ (eq_iff e.key j).0 (ground arith))
two_keys k j (e ∷ e' ∷ es) field rest os d h g = λ x. cc

select_overrides-conflict :
    (k j : String) (f : Field) (fs : List Family) (os : List Override)
    → k ≢ j
    → has_key k (entries_of f fs) ≡ true
    → has_key j (entries_of f fs) ≡ true
    → select_overrides fs ≢ ok os
unfolding entries_of select_overrides has_key
select_overrides-conflict k j f [] os d h g = absurd (cc)
select_overrides-conflict k j f (x ∷ fs) os d h g = elim (Bool-cases (same_field x.field f)) [
  | inl e ↦ two_keys k j x.entries x.field (select_overrides fs) os d (rw e at h) (rw e at g)
  | inr e ↦ λ eq.
      let (os', later) = select-rest x.field x.entries (select_overrides fs) os eq in
      select_overrides-conflict k j f fs os' d (rw e at h) (rw e at g) later
]

-- A card whose tags ask for two different values of one field is given no overrides, whatever its
-- other tags are.
pub parse_card_overrides-conflict :
    (board : Board) (tags : List String) (t u k j : String) (f : Field) (os : List Override)
    → Memᴰ t tags
    → Memᴰ u tags
    → Asks board f k t
    → Asks board f j u
    → k ≢ j
    → parse_card_overrides tags board ≢ ok os
unfolding parse_card_overrides
parse_card_overrides-conflict board tags t u k j f os m n a b d e =
    let (fs, collected, selected) = ok_chain select_overrides (collect_tags board tags []) e in
    select_overrides-conflict k j f fs os d (collect_tags-Asks board f k t tags [] fs m a collected)
      (collect_tags-Asks board f j u tags [] fs n b collected) selected
