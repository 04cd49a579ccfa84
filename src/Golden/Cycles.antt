-- ===== src/Golden/Cycles.antt =====
-- About the walk of validateCompletionGraph (src/validation.js).
use fizzy_symphony.Base.{
  ℕ, zero, suc, ◌≤◌, ◌<◌, ◌≡◌, ◌≢◌, ◌↔◌, inl, inr, refl, Bool, true, false, not, ◌||◌, Option, none,
  some, List, [], ◌∷◌, String, if◌then◌else◌, str_eq, eq_iff, any, length, filter, arith,
  Bool-cases, Option-cases, is_some, Result, ok, err,
}
use fizzy_symphony.Golden.Graph.{
  Targets, target_of, walk, find_cycle, is_cycle, has_cycle, move_target_by_source,
  validate_completion_graph,
}
use fizzy_symphony.Golden.Types.{GoldenRoute, GoldenError, completion_cycle}

unwrap : {a b : String} → ◌≡◌ {A = Option String} (some a) (some b) → a ≡ b
unwrap h = cc

-- The entries whose targets were not seen.
unseen : Targets → List String → ℕ
unseen targets seen = length (filter (λ e. not (any (str_eq e.1) seen)) targets)

unseen-cons :
    (targets : Targets) (next : String) (seen : List String)
    → unseen targets (next ∷ seen) ≤ unseen targets seen
unfolding unseen
unseen-cons [] next seen = omega arith
unseen-cons ((k, t) ∷ rest) next seen = ground (arith, unseen-cons rest next seen)

unseen-length : (targets : Targets) (seen : List String) → unseen targets seen ≤ length targets
unfolding unseen
unseen-length [] seen = omega arith
unseen-length (e ∷ rest) seen = ground (arith, unseen-length rest seen)

same_str : (a : String) → str_eq a a ≡ true
same_str a = (eq_iff a a).1 refl

-- A new target leaves fewer.
unseen_falls :
    (targets : Targets) (current next : String) (seen : List String)
    → target_of targets current ≡ some next
    → any (str_eq next) seen ≡ false
    → unseen targets (next ∷ seen) < unseen targets seen
unfolding unseen target_of
unseen_falls [] current next seen found new = absurd (cc)
unseen_falls ((k, t) ∷ rest) current next seen found new = elim (Bool-cases (str_eq k current)) [
  | inl e ↦
      let same : t ≡ next = unwrap (rw e at found) in
      let hit : str_eq t next ≡ true = rw same (same_str next) in
      let fresh : any (str_eq t) seen ≡ false = rw same new in
      ground (arith, hit, fresh, unseen-cons rest next seen)
  | inr e ↦ ground (arith, unseen_falls rest current next seen (rw e at found) new)
]

-- The steps of the graph.
unfoldable pub follow : Targets → ℕ → String → Option String
unfolding target_of
follow targets zero x = some x
follow targets (suc n) x = elim (target_of targets x) [ none ↦ none | some y ↦ follow targets n y ]

walk_ends :
    (targets : Targets) (source : String) (fuel : ℕ) (seen : List String) (current : String)
    → unseen targets seen < fuel
    → (b : Bool) × (walk targets source fuel seen current ≡ some b)
unfolding walk
walk_ends targets source zero seen current enough = absurd (omega arith)
walk_ends targets source (suc fuel) seen current enough =
    elim (Option-cases (target_of targets current)) [
      | inl e ↦ (false, rw (walk, e) refl)
      | inr (next, e) ↦ elim (Bool-cases (str_eq next source || any (str_eq next) seen)) [
        | inl y ↦ (true, rw (walk, e, y) refl)
        | inr n ↦
            let fewer = unseen_falls targets current next seen e (ground arith) in
            let (b, h) = walk_ends targets source fuel (next ∷ seen) next (omega (arith, fewer)) in
            (b, rw (walk, e, n) h)
      ]
    ]

-- The loop from any source ends within as many rounds as there are moves between routes, and one.
pub find_cycle_ends :
    (targets : Targets) (source : String) → is_some (find_cycle targets source) ≡ true
unfolding find_cycle
find_cycle_ends targets source =
    let (b, h) =
      walk_ends targets source (suc (length targets)) [] source
        (omega (arith, unseen-length targets [])) in
    rw h refl

-- A walk that finds none never comes back to its source.
walk_no_cycle :
    (targets : Targets) (source : String) (fuel : ℕ) (seen : List String) (current : String)
    → walk targets source fuel seen current ≡ some false
    → (n : ℕ) → follow targets (suc n) current ≢ some source
unfolding walk follow
walk_no_cycle targets source zero seen current h n back = cc
walk_no_cycle targets source (suc fuel) seen current h n back =
    elim (Option-cases (target_of targets current)) [
      | inl e ↦ cc (rw (follow, e) at back)
      | inr (next, e) ↦ elim (Bool-cases (str_eq next source || any (str_eq next) seen)) [
        | inl y ↦ cc (rw (walk, e, y) at h)
        | inr k ↦
            onward n next k
              (walk_no_cycle targets source fuel (next ∷ seen) next (rw (walk, e, k) at h))
              (rw (follow, e) at back)
      ]
    ]
  where
    onward :
        (n : ℕ) (next : String)
        → (str_eq next source || any (str_eq next) seen) ≡ false
        → ((m : ℕ) → follow targets (suc m) next ≢ some source)
        → follow targets n next ≡ some source
        → ⊥
    onward zero next k later back = cc (rw (unwrap back, same_str source) at k)
    onward (suc m) next k later back = later m back

-- One more step, at the end.
follow-suc :
    (targets : Targets) (n : ℕ) (x y z : String)
    → follow targets n x ≡ some y
    → target_of targets y ≡ some z
    → follow targets (suc n) x ≡ some z
unfolding follow
follow-suc targets zero x y z h e = rw (unwrap h, follow, e) refl
follow-suc targets (suc n) x y z h e = elim (Option-cases (target_of targets x)) [
  | inl none_ ↦ absurd (cc (rw (follow, none_) at h))
  | inr (u, step) ↦ rw (follow, step) (follow-suc targets n u y z (rw (follow, step) at h) e)
]

-- A step of the graph reaches `y` from each of these.
record Reaching (targets : Targets) (xs : List String) (y : String) : Type 0 where
  at : (x : String) → any (str_eq x) xs ≡ true → (n : ℕ) × (follow targets n x ≡ some y)

-- A route that comes back to where it started.
pub record Cycle (targets : Targets) : Type 0 where
  pub start : String
  pub steps : ℕ
  pub returns : follow targets (suc steps) start ≡ some start

walk-Cycle :
    (targets : Targets) (source : String) (fuel : ℕ) (seen : List String) (current : String)
    → Reaching targets (source ∷ seen) current
    → walk targets source fuel seen current ≡ some true
    → Cycle targets
unfolding walk follow
walk-Cycle targets source zero seen current r h = absurd (cc)
walk-Cycle targets source (suc fuel) seen current r h =
    elim (Option-cases (target_of targets current)) [
      | inl e ↦ absurd (cc (rw (walk, e) at h))
      | inr (next, e) ↦ elim (Bool-cases (str_eq next source || any (str_eq next) seen)) [
        | inl y ↦
            let (n, back) = r.at next y in
            record {
              start = next;
              steps = n;
              returns = follow-suc targets n next current next back e;
            }
        | inr k ↦
            walk-Cycle targets source fuel (next ∷ seen) next (reached next e)
              (rw (walk, e, k) at h)
      ]
    ]
  where
    reached :
        (next : String)
        → target_of targets current ≡ some next
        → Reaching targets (source ∷ next ∷ seen) next
    reached next e = record {
      at = λ x among. elim (Bool-cases (str_eq x next)) [
        | inl y ↦ (0, rw ((eq_iff x next).0 y) refl)
        | inr k ↦
            let (n, back) = r.at x (ground (arith, among, k)) in
            (suc n, follow-suc targets n x current next back e)
      ];
    }

-- A source of a move is the key of an entry.
has_source :
    (p : String → Bool) (targets : Targets) (x y : String)
    → target_of targets x ≡ some y
    → p x ≡ true
    → any (λ entry. p entry.0) targets ≡ true
unfolding target_of
has_source p [] x y h hit = absurd (cc)
has_source p ((k, t) ∷ rest) x y h hit = elim (Bool-cases (str_eq k x)) [
  | inl e ↦ rw ((eq_iff k x).0 e, hit) refl
  | inr e ↦ ground (arith, has_source p rest x y (rw e at h) hit)
]

-- And an entry that passes a test has a source that does.
some_source :
    (p : String → Bool) (targets : Targets)
    → any (λ entry. p entry.0) targets ≡ true
    → (x : String) × (p x ≡ true)
some_source p [] h = absurd (cc)
some_source p ((k, t) ∷ rest) h = elim (Bool-cases (p k)) [
  | inl e ↦ (k, e)
  | inr e ↦ some_source p rest (rw e at h)
]

find_cycle-Cycle :
    (targets : Targets) (x : String) → is_cycle (find_cycle targets x) ≡ true → Cycle targets
unfolding find_cycle follow
find_cycle-Cycle targets x h = found (find_cycle targets x) refl h
  where
    found : (b : Option Bool) → find_cycle targets x ≡ b → is_cycle b ≡ true → Cycle targets
    found none e h = absurd (cc)
    found (some false) e h = absurd (cc)
    found (some true) e h =
        walk-Cycle targets x (suc (length targets)) [] x
          (record { at = λ y among. (0, rw ((eq_iff y x).0 (ground (arith, among))) refl) }) e

Cycle-find_cycle :
    (targets : Targets) (c : Cycle targets) → is_cycle (find_cycle targets c.start) ≡ true
unfolding find_cycle
Cycle-find_cycle targets c =
    found (find_cycle targets c.start) refl (find_cycle_ends targets c.start)
  where
    found :
        (b : Option Bool) → find_cycle targets c.start ≡ b → is_some b ≡ true → is_cycle b ≡ true
    found none e h = absurd (cc)
    found (some true) e h = refl
    found (some false) e h =
        absurd (walk_no_cycle targets c.start (suc (length targets)) [] c.start e c.steps c.returns)

has_cycle_iff : (targets : Targets) → (has_cycle targets ≡ true) ↔ Cycle targets
unfolding has_cycle follow
has_cycle_iff targets = (
  λ h.
      let (x, e) = some_source (λ x. is_cycle (find_cycle targets x)) targets h in
      find_cycle-Cycle targets x e,
  λ c. elim (Option-cases (target_of targets c.start)) [
    | inl e ↦ absurd (cc (rw (follow, e) at c.returns))
    | inr (y, e) ↦
        has_source (λ x. is_cycle (find_cycle targets x)) targets c.start y e
          (Cycle-find_cycle targets c)
  ],
)

-- Routes are refused for a cycle exactly where the moves from the source of one route to the source
-- of another, followed from some source, come back to it.
pub validate_completion_graph_iff :
    (routes : List GoldenRoute)
    → (validate_completion_graph routes ≡ err completion_cycle)
      ↔ Cycle (move_target_by_source routes)
unfolding validate_completion_graph
validate_completion_graph_iff routes = (
  λ h.
      (has_cycle_iff (move_target_by_source routes)).0
        (refused (has_cycle (move_target_by_source routes)) h),
  λ c. rw ((has_cycle_iff (move_target_by_source routes)).1 c) refl,
)
  where
    refused :
        (b : Bool)
        → ◌≡◌ {A = Result GoldenError (Unit {0})}
            (if b then err completion_cycle else ok tt)
            (err completion_cycle)
        → b ≡ true
    refused true h = refl
    refused false h = absurd (cc)
