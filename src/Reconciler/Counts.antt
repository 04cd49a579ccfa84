-- ===== src/Reconciler/Counts.antt =====
-- What the counters of the capacity tracker count (src/reconciler.js createCapacityTracker).
use fizzy_symphony.Base.{
  suc, ◌+◌, ◌≡◌, refl, false, Option, none, some, List, [], ◌∷◌, String, arith, if◌then◌else◌,
  str_eq, eq_iff, length, filter, same_text,
}
use fizzy_symphony.Reconciler.Capacity.{
  CapacityRun, Count, count_of, add_one, increment, count_by, route_capacity_key,
  create_capacity_tracker,
}

count_of-add_one :
    (k j : String) (cs : List Count)
    → count_of k (add_one j cs) ≡ (if str_eq j k then suc (count_of k cs) else count_of k cs)
unfolding count_of add_one
count_of-add_one k j [] = ground arith
count_of-add_one k j (c ∷ cs) =
    ground (arith, count_of-add_one k j cs, eq_iff c.key j, eq_iff c.key k, eq_iff j k)

pub count_of-increment :
    (k : String) (j : Option String) (cs : List Count)
    → str_eq k "" ≡ false
    → count_of k (increment j cs)
      ≡ (if same_text j (some k) then suc (count_of k cs) else count_of k cs)
unfolding increment
count_of-increment k none cs h = refl
count_of-increment k (some j) cs h =
    ground (arith, count_of-add_one k j cs, eq_iff j k, eq_iff j "", eq_iff k "")

count_of-count_by :
    (key : CapacityRun → Option String) (k : String) (rs : List CapacityRun) (cs : List Count)
    → str_eq k "" ≡ false
    → count_of k (count_by key rs cs)
      ≡ length (filter (λ r. same_text (key r) (some k)) rs) + count_of k cs
unfolding count_by
count_of-count_by key k [] cs h = omega arith
count_of-count_by key k (r ∷ rs) cs h =
    ground (
      arith,
      count_of-count_by key k rs (increment (key r) cs) h,
      count_of-increment k (key r) cs h,
    )

-- At its creation the tracker counts the runs: all of them, and for any nonempty text those of that
-- card, of that board, and of the route with that fingerprint, or that ID where there is none.
pub create_capacity_tracker-count_of :
    (runs : List CapacityRun) (k : String)
    → str_eq k "" ≡ false
    → let t = create_capacity_tracker runs in
      (t.global ≡ length runs)
      × (count_of k t.cards ≡ length (filter (λ r. same_text r.card_id (some k)) runs))
      × (count_of k t.boards ≡ length (filter (λ r. same_text r.board_id (some k)) runs))
      × (count_of k t.routes
          ≡ length (
              filter
                (λ r. same_text (route_capacity_key r.route_fingerprint r.route_id) (some k))
                runs))
unfolding create_capacity_tracker count_of
create_capacity_tracker-count_of runs k h = (
  refl,
  grind (arith, count_of-count_by (λ r. r.card_id) k runs [] h),
  grind (arith, count_of-count_by (λ r. r.board_id) k runs [] h),
  grind (
    arith,
    count_of-count_by (λ r. route_capacity_key r.route_fingerprint r.route_id) k runs [] h,
  ),
)
