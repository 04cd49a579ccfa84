-- ===== src/Golden/Graph.antt =====
-- The check that no route moves cards round in a circle (src/validation.js validateCompletionGraph).
-- A `Map` is the list of its entries, the latest first, so that the first entry of a key counts.
use Prim.Native.String as String
use fizzy_symphony.Base.{
  ℕ, zero, suc, Bool, true, false, ◌||◌, Option, none, some, List, [], ◌∷◌, String, if◌then◌else◌,
  str_eq, any, length, get_or, map, Result, ok, err,
}
use fizzy_symphony.Golden.Types.{
  GoldenRoute, RouteCompletion, close, comment_once, move_to_column, GoldenError, completion_cycle,
}

unfoldable pub route_column_key : Option String → String → String
route_column_key board_id column_id =
    String.◌++◌ (get_or board_id "undefined") (String.◌++◌ ":" column_id)

abbrev pub Targets : Type 0
Targets = List (String × String)

-- `moveTargetBySource.get(key)`.
unfoldable pub target_of : Targets → String → Option String
target_of [] key = none
target_of ((k, target) ∷ rest) key = if str_eq k key then some target else target_of rest key

unfoldable pub source_key : GoldenRoute → String
unfolding route_column_key
source_key r = route_column_key r.board_id r.source_column_id

-- The entry of a route that moves cards to the source of a route.
add_target : List String → GoldenRoute → RouteCompletion → Targets → Targets
unfolding source_key
add_target sources r close rest = rest
add_target sources r comment_once rest = rest
add_target sources r (move_to_column id name) rest =
    let target = route_column_key r.board_id id in
    if any (str_eq target) sources then (source_key r, target) ∷ rest else rest

-- The routes in the order of the source; `done` is the map so far.
unfoldable pub targets_from : List String → List GoldenRoute → Targets → Targets
unfolding add_target
targets_from sources [] done = done
targets_from sources (r ∷ routes) done =
    targets_from sources routes (add_target sources r r.completion done)

unfoldable pub move_target_by_source : List GoldenRoute → Targets
unfolding targets_from source_key
move_target_by_source routes = targets_from (map source_key routes) routes []

-- The `while` loop from a source: whether it finds a cycle; none if the fuel does not do.
unfoldable pub walk :
    Targets → (source : String) → ℕ → (seen : List String) → (current : String) → Option Bool
unfolding target_of
walk targets source zero seen current = none
walk targets source (suc fuel) seen current = elim (target_of targets current) [
  | none ↦ some false
  | some next ↦
      let rest = walk targets source fuel (next ∷ seen) next in
      if str_eq next source || any (str_eq next) seen then some true else rest
]

-- One more round than the map has entries.
unfoldable pub find_cycle : Targets → String → Option Bool
unfolding walk
find_cycle targets source = walk targets source (suc (length targets)) [] source

abbrev pub is_cycle : Option Bool → Bool
is_cycle (some b) = b
is_cycle none = false

-- Some source runs into a cycle.
unfoldable pub has_cycle : Targets → Bool
unfolding find_cycle
has_cycle targets = any (λ entry. is_cycle (find_cycle targets entry.0)) targets

unfoldable pub validate_completion_graph : List GoldenRoute → Result GoldenError (Unit {0})
unfolding has_cycle move_target_by_source
validate_completion_graph routes =
    if has_cycle (move_target_by_source routes) then err completion_cycle else ok tt
