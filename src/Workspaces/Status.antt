-- ===== src/Workspaces/Status.antt =====
-- What git says of a worktree (src/workspace.js gitStatus, parsePorcelainStatus, revListCount and
-- inspectWorktreeForCleanup).
use Prim.Native.Char.{Char, code}
use Prim.Native.String
use Prim.Native.String.{[], ◌∷◌}
use fizzy_symphony.Base.{
  ℕ, zero, suc, Bool, true, false, not, ◌&&◌, ◌||◌, Option, none, some, List, [], ◌∷◌, String,
  if◌then◌else◌, str_eq, ◌==◌, filter, get_or, Result, ok, ◌>>=◌, ◌>>◌,
}
use fizzy_symphony.Orchestrator.Types.{Problem}
use fizzy_symphony.Fizzy.Text.{strip_prefix}
use fizzy_symphony.Workspaces.Types.{
  StatusEntry, Git, Unpushed, without_upstream, ahead_of, Inspection,
}

-- `s.split(/\r?\n/u)`: a carriage return before a line's end is dropped with it.
add_char : Char → List String → List String
add_char c [] = []
add_char c (line ∷ []) = (c ∷ line) ∷ []
add_char c (line ∷ next ∷ rest) =
    if code c == 13 && str_eq line "" then line ∷ next ∷ rest else (c ∷ line) ∷ next ∷ rest

split_lines : String → List String
unfolding add_char
split_lines [] = "" ∷ []
split_lines (c ∷ s) =
    let rest = split_lines s in if code c == 10 then "" ∷ rest else add_char c rest

take : ℕ → String → String
take zero s = []
take (suc n) [] = []
take (suc n) (c ∷ s) = c ∷ take n s

drop : ℕ → String → String
drop zero s = s
drop (suc n) [] = []
drop (suc n) (c ∷ s) = drop n s

-- `raw.split(" -> ").at(-1)`, which is `raw` where it has no arrow. `part` is the part so far, and
-- `skip` what is left of an arrow.
last_part : String → ℕ → String → String
last_part part skip [] = part
last_part part (suc skip) (c ∷ s) = last_part part skip s
last_part part zero (c ∷ s) =
    let same = last_part part zero s in
    elim (strip_prefix " -> " (c ∷ s)) [ some rest ↦ last_part rest 3 s | none ↦ same ]

entry_of : String → StatusEntry
unfolding take drop last_part
entry_of line = record { status = take 2 line; path = last_part (drop 3 line) 0 (drop 3 line) }

entries_of : List String → List StatusEntry
unfolding entry_of
entries_of [] = []
entries_of (line ∷ lines) =
    let rest = entries_of lines in if str_eq line "" then rest else entry_of line ∷ rest

unfoldable pub parse_porcelain_status : String → List StatusEntry
unfolding split_lines entries_of
parse_porcelain_status stdout = entries_of (split_lines stdout)

with_slashes : String → String
with_slashes [] = []
with_slashes (c ∷ s) =
    let rest = with_slashes s in if code c == 92 then String.◌++◌ "/" rest else c ∷ rest

unfoldable pub normalize_status_path : String → String
unfolding with_slashes
normalize_status_path path = get_or (strip_prefix "./" (with_slashes path)) (with_slashes path)

abbrev pub guard_file_name : String
guard_file_name = ".fizzy-symphony-workspace-guard.json"

-- `matchesIgnoredPath` for the one ignored path, which has no slash.
unfoldable pub is_ignored : StatusEntry → Bool
unfolding normalize_status_path
is_ignored entry = str_eq (normalize_status_path entry.path) guard_file_name

unfoldable pub dirty_entries : String → List StatusEntry
unfolding parse_porcelain_status is_ignored
dirty_entries stdout = filter (λ entry. not (is_ignored entry)) (parse_porcelain_status stdout)

abbrev pub is_empty {ℓ} : {A : Type ℓ} → List A → Bool
is_empty [] = true
is_empty (x ∷ xs) = false

-- `revListCount`: where git fails, no commits are counted.
unfoldable pub rev_list_count : Option ℕ → ℕ
rev_list_count count = get_or count 0

unpushed : ℕ → Option String → ℕ → List Unpushed
unpushed zero upstream ahead_upstream = []
unpushed (suc n) none ahead_upstream = without_upstream (suc n) ∷ []
unpushed (suc n) (some upstream) zero = []
unpushed (suc n) (some upstream) (suc m) = ahead_of (suc m) upstream ∷ []

unfoldable pub inspect_worktree_for_cleanup : Git → Result Problem Inspection
unfolding dirty_entries rev_list_count unpushed
inspect_worktree_for_cleanup git = do
  stdout ← git.status
  git.branch
  ok (record {
    clean = is_empty (dirty_entries stdout);
    unpushed_commits =
        unpushed (rev_list_count git.ahead) git.upstream (rev_list_count git.ahead_upstream);
    branch_merged = rev_list_count git.ahead == 0 || git.is_ancestor;
  })
