-- ===== src/Reconciler/Capacity.antt =====
-- How many cards may run at once (src/reconciler.js createCapacityTracker and its helpers).
use fizzy_symphony.Base.{
  ℕ, suc, Bool, false, Option, none, some, List, [], ◌∷◌, ◌++◌, String, if◌then◌else◌, leb, str_eq,
  length, find, get_or, or_else, same_text, truthy,
}
use fizzy_symphony.Fizzy.Card.{Card, no_card}

-- A configured limit: the empty text, what is no finite number, or a number, cut to an integer.
pub data LimitValue : Type 0 where
  blank not_finite negative : LimitValue
  amount : ℕ → LimitValue

unfoldable pub numeric_limit : Option LimitValue → Option ℕ
numeric_limit (some negative) = some 0
numeric_limit (some (amount n)) = some n
numeric_limit _ = none

-- An entry of `config.boards.entries`.
pub record BoardLimit : Type 0 where
  pub id : Option String
  pub defaults_max_concurrent : Option LimitValue
  pub max_concurrent : Option LimitValue

-- `config.agent` and the entries of `config.boards`.
pub record Limits : Type 0 where
  pub max_concurrent : Option LimitValue
  pub max_concurrent_per_card : Option LimitValue
  pub entries : List BoardLimit

pub record DispatchRoute : Type 0 where
  pub id : Option String
  pub board_id : Option String
  pub fingerprint : Option String
  pub route_fingerprint : Option String
  pub max_concurrent : Option LimitValue  -- concurrency.max_concurrent

-- A run as the status or the orchestrator's state gives it.
pub record ActiveRun : Type 0 where
  pub id : Option String
  pub run_id : Option String
  pub attempt_id : Option String
  pub card_id : Option String
  pub board_id : Option String
  pub route_id : Option String
  pub route_fingerprint : Option String
  pub card : Option Card
  pub route : Option DispatchRoute

pub record CapacityRun : Type 0 where
  pub key : Option String
  pub card_id : Option String
  pub board_id : Option String
  pub route_id : Option String
  pub route_fingerprint : Option String

abbrev no_dispatch_route : DispatchRoute
no_dispatch_route = record {
  id = none;
  board_id = none;
  fingerprint = none;
  route_fingerprint = none;
  max_concurrent = none;
}

unfoldable pub normalize_capacity_run : ActiveRun → CapacityRun
normalize_capacity_run run =
    let card = get_or run.card no_card in
    let route = get_or run.route no_dispatch_route in
    record {
      key = or_else run.id (or_else run.run_id run.attempt_id);
      card_id = or_else run.card_id card.id;
      board_id = or_else run.board_id (or_else card.board_id route.board_id);
      route_id = or_else run.route_id route.id;
      route_fingerprint =
          or_else run.route_fingerprint (or_else route.fingerprint route.route_fingerprint);
    }

-- `byId.set(normalized.key, normalized)`.
unfoldable pub put_run : CapacityRun → List CapacityRun → List CapacityRun
put_run run [] = run ∷ []
put_run run (old ∷ runs) = if same_text old.key run.key then run ∷ runs else old ∷ put_run run runs

unfoldable pub collect_runs : List CapacityRun → List ActiveRun → List CapacityRun
unfolding put_run normalize_capacity_run
collect_runs seen [] = seen
collect_runs seen (r ∷ rs) =
    let run = normalize_capacity_run r in
    collect_runs (if truthy run.key then put_run run seen else seen) rs

-- The status's runs and those of the orchestrator's state, each key once.
unfoldable pub active_capacity_runs : List ActiveRun → List ActiveRun → List CapacityRun
unfolding collect_runs
active_capacity_runs status_runs lifecycle_runs = collect_runs [] (status_runs ++ lifecycle_runs)

-- A `Map` from texts to numbers.
pub record Count : Type 0 where
  pub key : String
  pub count : ℕ

-- `counts.get(key) ?? 0`.
unfoldable pub count_of : String → List Count → ℕ
count_of key [] = 0
count_of key (c ∷ cs) = if str_eq c.key key then c.count else count_of key cs

unfoldable pub add_one : String → List Count → List Count
add_one key [] = record { key = key; count = 1 } ∷ []
add_one key (c ∷ cs) =
    if str_eq c.key key then record c { count = suc c.count } ∷ cs else c ∷ add_one key cs

-- A missing or empty key is not counted.
unfoldable pub increment : Option String → List Count → List Count
unfolding add_one
increment none counts = counts
increment (some key) counts = if str_eq key "" then counts else add_one key counts

-- `key ? counts.get(key) ?? 0 : 0`.
unfoldable pub active_for : Option String → List Count → ℕ
unfolding count_of
active_for none counts = 0
active_for (some key) counts = if str_eq key "" then 0 else count_of key counts

unfoldable pub route_capacity_key : Option String → Option String → Option String
route_capacity_key fingerprint id = or_else fingerprint id

pub record Tracker : Type 0 where
  pub global : ℕ
  pub cards : List Count
  pub boards : List Count
  pub routes : List Count

unfoldable pub count_by : (CapacityRun → Option String) → List CapacityRun → List Count → List Count
unfolding increment
count_by key [] counts = counts
count_by key (r ∷ rs) counts = count_by key rs (increment (key r) counts)

unfoldable pub create_capacity_tracker : List CapacityRun → Tracker
unfolding count_by route_capacity_key
create_capacity_tracker runs = record {
  global = length runs;
  cards = count_by (λ r. r.card_id) runs [];
  boards = count_by (λ r. r.board_id) runs [];
  routes = count_by (λ r. route_capacity_key r.route_fingerprint r.route_id) runs [];
}

defaults_limit : Option BoardLimit → Option LimitValue
defaults_limit none = none
defaults_limit (some e) = or_else e.defaults_max_concurrent e.max_concurrent

unfoldable pub board_concurrency_limit : Limits → Option String → Option LimitValue
unfolding defaults_limit
board_concurrency_limit limits board_id =
    defaults_limit (find (λ e. same_text e.id board_id) limits.entries)

pub data Scope : Type 0 where
  global card board route : Scope

pub record Refusal : Type 0 where
  pub scope : Scope
  pub limit : ℕ
  pub active_count : ℕ

-- `limit !== null && active >= limit`.
unfoldable pub exceeded : Option ℕ → ℕ → Bool
exceeded none active = false
exceeded (some limit) active = leb limit active

-- One of the four checks; the next ones count where it passes.
unfoldable pub check_limit : Scope → Option ℕ → ℕ → Option Refusal → Option Refusal
unfolding exceeded
check_limit scope limit active next =
    if exceeded limit active
    then some (record { scope = scope; limit = get_or limit 0; active_count = active })
    else next

abbrev pub board_key : Card → DispatchRoute → Option String
board_key c r = or_else c.board_id r.board_id

abbrev pub route_key : DispatchRoute → Option String
route_key r = or_else (or_else r.fingerprint r.route_fingerprint) r.id

-- A missing number of concurrent runs is 1.
abbrev pub or_one : Option LimitValue → Option ℕ
or_one limit = numeric_limit (some (get_or limit (amount 1)))

unfoldable pub refusal_for : Limits → Card → DispatchRoute → Tracker → Option Refusal
unfolding check_limit active_for numeric_limit board_concurrency_limit
refusal_for limits c r t = check_limit global (or_one limits.max_concurrent) t.global (
    check_limit card (or_one limits.max_concurrent_per_card) (active_for c.id t.cards) (
      check_limit board (numeric_limit (board_concurrency_limit limits (board_key c r)))
        (active_for (board_key c r) t.boards)
        (check_limit route (numeric_limit r.max_concurrent) (active_for (route_key r) t.routes)
          none)))

unfoldable pub reserve : Card → DispatchRoute → Tracker → Tracker
unfolding increment
reserve c r t = record {
  global = suc t.global;
  cards = increment c.id t.cards;
  boards = increment (board_key c r) t.boards;
  routes = increment (route_key r) t.routes;
}
