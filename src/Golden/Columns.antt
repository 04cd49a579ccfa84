-- ===== src/Golden/Columns.antt =====
-- What the routes that are discovered on a board hold (src/validation.js).
use fizzy_symphony.Base.{
  ◌≡◌, refl, sym, inl, inr, Bool, true, false, not, ◌&&◌, ◌||◌, Option, none, some, List, [], ◌∷◌,
  String, str_eq, eq_iff, any, filter, map, All, Result, ok, ok_chain, ok-injective, get_or,
  is_true, arith, Bool-cases,
}
use fizzy_symphony.Fizzy.Card.{Card}
use fizzy_symphony.Router.Types.{Board, Column}
use fizzy_symphony.Golden.Types.{
  BoardCards, Options, Family, GoldenError, GoldenRoute, RouteCompletion, close, comment_once,
  move_to_column,
}
use fizzy_symphony.Golden.Completion.{
  parse_completion, parse_completion_tags, completion_tags, CompletionTag, moves, closes, comments,
  is_comment, select_completion, move_target, find_column_by_completion_slug,
}
use fizzy_symphony.Golden.Discover.{
  check_column, discover_cards, discover_board, parse_golden_ticket_route, get_column_id,
  backend_or, no_defaults, value_parser, has_tag, is_instruction,
}
use fizzy_symphony.Router.Tags.{normalized_tags}
use fizzy_symphony.Golden.Families.{
  parse_single_family, parse_backend_tag, parse_priority_tag, reject_unknown_managed_tags,
}

-- Cards that are done stay in their column or move to another column of the board.
abbrev pub is_valid_completion : Board → String → RouteCompletion → Bool
is_valid_completion board source close = true
is_valid_completion board source comment_once = true
is_valid_completion board source (move_to_column id name) =
    not (str_eq id source) && any (λ c. str_eq c.id id) board.columns

pub record IsRoute (board : Board) (r : GoldenRoute) : Type 0 where
  pub on_board : r.board_id ≡ board.id
  pub moves_elsewhere : is_valid_completion board r.source_column_id r.completion ≡ true

abbrev pub sources : List GoldenRoute → List String
sources = map (λ r. r.source_column_id)

abbrev pub distinct : List String → Bool
distinct [] = true
distinct (x ∷ xs) = not (any (str_eq x) xs) && distinct xs

any-filter : (p q : Column → Bool) (cs : List Column) → any p (filter q cs) ≡ true → any p cs ≡ true
any-filter p q [] h = h
any-filter p q (c ∷ cs) h = ground (arith, any-filter p q cs)

move_target_valid :
    (board : Board) (source : String) (q : Column → Bool) (cs : List Column) (c : RouteCompletion)
    → filter q board.columns ≡ cs
    → move_target source cs ≡ ok c
    → is_valid_completion board source c ≡ true
unfolding move_target
move_target_valid board source q [] c e h = absurd (cc)
move_target_valid board source q (x ∷ y ∷ cs) c e h = absurd (cc)
move_target_valid board source q (x ∷ []) c e h = elim (Bool-cases (str_eq x.id source)) [
  | inl k ↦ absurd (cc (rw k at h))
  | inr k ↦
      let there : any (λ d. str_eq d.id x.id) board.columns ≡ true =
        any-filter (λ d. str_eq d.id x.id) q board.columns
          (rw (e, (eq_iff x.id x.id).1 refl) refl) in
      rw (sym (ok-injective (rw k at h)), k, there) refl
]

select_completion_valid :
    (board : Board) (source : String) (t : CompletionTag) (c : RouteCompletion)
    → select_completion board source t ≡ ok c
    → is_valid_completion board source c ≡ true
unfolding select_completion find_column_by_completion_slug
select_completion_valid board source closes c h = rw (sym (ok-injective h)) refl
select_completion_valid board source comments c h = rw (sym (ok-injective h)) refl
select_completion_valid board source (moves slug) c h = elim (Bool-cases (str_eq slug "")) [
  | inl e ↦ absurd (cc (rw e at h))
  | inr e ↦ move_target_valid board source _ _ c refl (rw e at h)
]

parse_completion_valid :
    (tags : List String) (board : Board) (source : String) (c : RouteCompletion)
    → parse_completion tags board source ≡ ok c
    → is_valid_completion board source c ≡ true
unfolding parse_completion parse_completion_tags
parse_completion_valid tags board source c h =
    by_tags (any (str_eq "no-repeat") tags) (completion_tags tags) h
  where
    by_tags :
        (no_repeat : Bool) (ts : List CompletionTag)
        → parse_completion_tags no_repeat board source ts ≡ ok c
        → is_valid_completion board source c ≡ true
    by_tags no_repeat [] h = absurd (cc)
    by_tags no_repeat (t ∷ u ∷ ts) h = absurd (cc)
    by_tags no_repeat (t ∷ []) h = elim (Bool-cases (no_repeat && not (is_comment t))) [
      | inl e ↦ absurd (cc (rw (parse_completion_tags, e) at h))
      | inr e ↦ select_completion_valid board source t c (rw (parse_completion_tags, e) at h)
    ]

same-IsRoute :
    (board : Board) (source : String) (route r : GoldenRoute)
    → ◌≡◌ {A = Result GoldenError GoldenRoute} (ok route) (ok r)
    → route.source_column_id ≡ source
    → IsRoute board route
    → (r.source_column_id ≡ source) × IsRoute board r
same-IsRoute board source route r e h k = rw (sym (ok-injective e)) (h, k)

-- What a parsed route is made of.
parse_golden_ticket_route-IsRoute :
    (board : Board) (card : Card) (source : String) (options : Options) (r : GoldenRoute)
    → parse_golden_ticket_route board card source options ≡ ok r
    → (r.source_column_id ≡ source) × IsRoute board r
unfolding parse_golden_ticket_route
parse_golden_ticket_route-IsRoute board card source options r h0 =
    let tags = normalized_tags card in
    let d = get_or options.defaults no_defaults in
    let (tagged, e1, h1) =
      ok_chain _ (parse_single_family Family.backend parse_backend_tag tags) h0 in
    let (backend, e2, h2) = ok_chain _ (backend_or tagged d.backend) h1 in
    let (model, e3, h3) =
      ok_chain _ (parse_single_family Family.model (value_parser "model-") tags) h2 in
    let (workspace, e4, h4) =
      ok_chain _ (parse_single_family Family.workspace (value_parser "workspace-") tags) h3 in
    let (persona, e5, h5) =
      ok_chain _ (parse_single_family Family.persona (value_parser "persona-") tags) h4 in
    let (priority, e6, h6) =
      ok_chain _ (parse_single_family Family.priority parse_priority_tag tags) h5 in
    let (completion, e7, h7) = ok_chain _ (parse_completion tags board source) h6 in
    let (known, e8, h8) = ok_chain _ (reject_unknown_managed_tags tags options.warns_unknown) h7 in
    let valid = parse_completion_valid tags board source completion e7 in
    same-IsRoute board source _ r h8 refl (record { on_board = refl; moves_elsewhere = valid })

-- The rest of the cards has routes for columns that were not seen.
record Fresh (board : Board) (seen : List String) (routes : List GoldenRoute) : Type 0 where
  are_routes : All (IsRoute board) routes
  are_distinct : distinct (sources routes) ≡ true
  are_new : (s : String) → any (str_eq s) seen ≡ true → any (str_eq s) (sources routes) ≡ false

check_column_lem :
    (card : Card) (seen : List String) (o : Option String) (column : String)
    → check_column card seen o ≡ ok column
    → any (str_eq column) seen ≡ false
unfolding check_column
check_column_lem card seen none column h = absurd (cc)
check_column_lem card seen (some c) column h =
    elim (Bool-cases (str_eq c "" || has_tag card "agent-board")) [
      | inl e ↦ absurd (cc (rw (check_column, e) at h))
      | inr e ↦ elim (Bool-cases (any (str_eq c) seen)) [
        | inl k ↦ absurd (cc (rw (check_column, e, k) at h))
        | inr k ↦ rw (sym (ok-injective (rw (check_column, e, k) at h))) k
      ]
    ]

Fresh-cons :
    (board : Board) (seen : List String) (column : String) (route : GoldenRoute)
    (rest : List GoldenRoute)
    → any (str_eq column) seen ≡ false
    → route.source_column_id ≡ column
    → IsRoute board route
    → Fresh board (column ∷ seen) rest
    → Fresh board seen (route ∷ rest)
Fresh-cons board seen column route rest new same valid later =
    let hit : str_eq column column ≡ true = (eq_iff column column).1 refl in
    let apart : any (str_eq column) (sources rest) ≡ false =
      later.are_new column (ground (arith, hit)) in
    record {
      are_routes = (valid, later.are_routes);
      are_distinct = rw (same, apart, later.are_distinct) refl;
      are_new = λ s k. rw same (elim (Bool-cases (str_eq s column)) [
        | inl e ↦ absurd (cc (rw ((eq_iff s column).0 e, new) at k))
        | inr e ↦
            let later_new : any (str_eq s) (sources rest) ≡ false =
              later.are_new s (ground (arith, k)) in
            rw (e, later_new) refl
      ]);
    }

discover_cards-Fresh :
    (board : Board) (options : Options) (seen : List String) (cards : List Card)
    (routes : List GoldenRoute)
    → discover_cards board options seen cards ≡ ok routes
    → Fresh board seen routes
unfolding discover_cards
discover_cards-Fresh board options seen [] routes h =
    rw (sym (ok-injective h))
      (record { are_routes = tt; are_distinct = refl; are_new = λ s k. refl })
discover_cards-Fresh board options seen (card ∷ cards) routes h0 =
    let (column, e1, h1) = ok_chain _ (check_column card seen (get_column_id card)) h0 in
    let (route, e2, h2) = ok_chain _ (parse_golden_ticket_route board card column options) h1 in
    let (rest, e3, h3) = ok_chain _ (discover_cards board options (column ∷ seen) cards) h2 in
    let (same, valid) = parse_golden_ticket_route-IsRoute board card column options route e2 in
    let later = discover_cards-Fresh board options (column ∷ seen) cards rest e3 in
    rw (sym (ok-injective h3)) (
      Fresh-cons board seen column route rest
        (check_column_lem card seen (get_column_id card) column e1) same valid later)

-- The routes that are discovered on a board have different source columns, belong to the board, and
-- move cards, if they move them, to a column of the board other than their own.
pub discover_board-IsRoute :
    (options : Options) (b : BoardCards) (routes : List GoldenRoute)
    → discover_board options b ≡ ok routes
    → (distinct (sources routes) ≡ true) × All (IsRoute b.board) routes
unfolding discover_board
discover_board-IsRoute options b routes h =
    elim (Bool-cases (any (λ card. not (is_true card.golden)) (filter is_instruction b.cards))) [
      | inl e ↦ absurd (cc (rw (discover_board, e) at h))
      | inr e ↦
          let f =
            discover_cards-Fresh b.board options []
              (filter (λ card. is_true card.golden && is_instruction card) b.cards) routes
              (rw (discover_board, e) at h) in
          (f.are_distinct, f.are_routes)
    ]
