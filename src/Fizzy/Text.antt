-- ===== src/Fizzy/Text.antt =====
-- The JavaScript text methods that the source calls, over the native `String`.
-- Upper case is that of the 26 Latin letters; other letters stand for themselves. Tags, statuses
-- and column names are compared with literals of those letters.
use Prim.Native.Char.{Char, code}
use Prim.Native.String
use Prim.Native.String.{String, [], ◌∷◌}
use fizzy_symphony.Base.{
  Bool, true, false, ◌&&◌, ◌||◌, Option, none, some, ◌==◌, leb, if◌then◌else◌,
}

abbrev lower_in : String → String → Char → Char
lower_in (u ∷ us) (l ∷ ls) c = if code c == code u then l else lower_in us ls c
lower_in _ _ c = c

to_lower : Char → Char
to_lower c = lower_in "ABCDEFGHIJKLMNOPQRSTUVWXYZ" "abcdefghijklmnopqrstuvwxyz" c

-- `s.toLowerCase()`.
unfoldable pub to_lower_case : String → String
unfolding to_lower
to_lower_case [] = []
to_lower_case (c ∷ s) = to_lower c ∷ to_lower_case s

-- What `trim` removes and `\s` matches.
unfoldable pub is_space : Char → Bool
is_space c =
    let n = code c in
    (leb 9 n && leb n 13)
    || n == 32
    || n == 160
    || n == 0x1680
    || (leb 0x2000 n && leb n 0x200a)
    || n == 0x2028
    || n == 0x2029
    || n == 0x202f
    || n == 0x205f
    || n == 0x3000
    || n == 0xfeff

unfoldable pub drop_while : (Char → Bool) → String → String
drop_while p [] = []
drop_while p (c ∷ s) = elim (p c) [ true ↦ drop_while p s | false ↦ c ∷ s ]

-- A white character at the very end is dropped.
attach : Char → String → String
attach c [] = if is_space c then [] else c ∷ []
attach c (d ∷ s) = c ∷ d ∷ s

trim_end : String → String
unfolding is_space attach
trim_end [] = []
trim_end (c ∷ s) = attach c (trim_end s)

-- `s.trim()`.
unfoldable pub trim : String → String
unfolding trim_end drop_while is_space
trim s = trim_end (drop_while is_space s)

-- `s.startsWith(prefix)`, with `s.slice(prefix.length)`.
unfoldable pub strip_prefix : String → String → Option String
strip_prefix [] s = some s
strip_prefix (c ∷ p) [] = none
strip_prefix (c ∷ p) (d ∷ s) = if code c == code d then strip_prefix p s else none

-- `s.replace(/[\s-]+/gu, "-")`: `after` says whether the last character was replaced.
dashed : Bool → String → String
unfolding is_space
dashed after [] = []
dashed after (c ∷ s) =
    let gap = is_space c || code c == b'-' in
    let rest = dashed gap s in
    if gap then (if after then rest else String.◌++◌ "-" rest) else c ∷ rest

-- src/router.js completionSlug.
unfoldable pub completion_slug : String → String
unfolding trim to_lower_case dashed
completion_slug name = dashed false (to_lower_case (trim name))
