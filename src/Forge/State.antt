-- ===== src/Forge/State.antt =====
-- The forge's metadata, src/blizzard_mock/forge/internal/state_store.py and check_store.py. A
-- repository that was never touched reads as an empty one.
use blizzard_mock.Base.{
  ℕ, ◌+◌, Bool, true, false, String, Option, none, some, List, [], ◌∷◌, ◌++◌, string_eq, nat_eq,
  pair_eq, ◌==◌, leb, if◌then◌else◌, get_or,
}
use blizzard_mock.Base.Dict.{Dict, lookup, insert, values}
use blizzard_mock.Base.Lists.{keep_if, all, contains}
use blizzard_mock.Base.Sorting.{sorted}
use blizzard_mock.Forge.Models.{State, opened, closed, Comment, Issue, Label, PullRequest, CheckRun}

pub record RepoState : Type 0 where
  pub issues : Dict ℕ Issue
  pub pulls : Dict ℕ PullRequest
  pub labels : Dict String Label
  pub next_number : ℕ
  pub next_comment_id : ℕ

abbrev pub no_repo : RepoState
no_repo = record { issues = []; pulls = []; labels = []; next_number = 1; next_comment_id = 1 }

abbrev pub ForgeState : Type 0
ForgeState = Dict String RepoState

-- `_repo`
unfoldable pub repo_state : String → ForgeState → RepoState
repo_state repo s = get_or (lookup repo s) no_repo

abbrev pub state_text : State → String
state_text opened = "open"
state_text closed = "closed"

unfoldable pub get_issue : String → ℕ → ForgeState → Option Issue
get_issue repo number s = lookup number (repo_state repo s).issues

unfoldable pub get_pull : String → ℕ → ForgeState → Option PullRequest
get_pull repo number s = lookup number (repo_state repo s).pulls

unfoldable pub get_label : String → String → ForgeState → Option Label
get_label repo name s = lookup name (repo_state repo s).labels

abbrev pub any_state : Option String → Bool
any_state none = true
any_state (some t) = t == "all"

abbrev is_in : Option String → State → Bool
is_in none st = false
is_in (some t) st = state_text st == t

unfoldable pub list_issues : String → Option String → List String → ForgeState → List Issue
list_issues repo state labels s =
    let issues = sorted (λ i j. leb i.number j.number) (values (repo_state repo s).issues) in
    let chosen = if any_state state then issues else keep_if (λ i. is_in state i.state) issues in
    keep_if (λ i. all (λ l. contains l i.labels) labels) chosen

unfoldable pub list_pulls : String → Option String → ForgeState → List PullRequest
list_pulls repo state s =
    let pulls = sorted (λ p q. leb p.number q.number) (values (repo_state repo s).pulls) in
    if any_state state then pulls else keep_if (λ p. is_in state p.state) pulls

abbrev pub put_repo : String → RepoState → ForgeState → ForgeState
put_repo repo r s = insert repo r s

unfoldable pub next_number : String → ForgeState → ℕ × ForgeState
next_number repo s =
    let r = repo_state repo s in
    (r.next_number, put_repo repo (record r { next_number = r.next_number + 1 }) s)

unfoldable pub next_comment_id : String → ForgeState → ℕ × ForgeState
next_comment_id repo s =
    let r = repo_state repo s in
    (r.next_comment_id, put_repo repo (record r { next_comment_id = r.next_comment_id + 1 }) s)

unfoldable pub put_issue : String → Issue → ForgeState → ForgeState
put_issue repo i s =
    let r = repo_state repo s in put_repo repo (record r { issues = insert i.number i r.issues }) s

unfoldable pub put_pull : String → PullRequest → ForgeState → ForgeState
put_pull repo p s =
    let r = repo_state repo s in put_repo repo (record r { pulls = insert p.number p r.pulls }) s

unfoldable pub put_label : String → Label → ForgeState → ForgeState
put_label repo l s =
    let r = repo_state repo s in put_repo repo (record r { labels = insert l.name l r.labels }) s

-- `add_issue_comment`, `add_pull_comment`: on the issue or pull that the caller has looked up.
abbrev pub add_issue_comment : String → Issue → Comment → ForgeState → ForgeState
add_issue_comment repo i c s = put_issue repo (record i { comments = i.comments ++ c ∷ [] }) s

abbrev pub add_pull_comment : String → PullRequest → Comment → ForgeState → ForgeState
add_pull_comment repo p c s = put_pull repo (record p { comments = p.comments ++ c ∷ [] }) s

-- `InMemoryCheckRunStore._runs`
abbrev pub CheckStore : Type 0
CheckStore = Dict (String × String) (Dict String CheckRun)

unfoldable pub runs : String → String → CheckStore → Option (List CheckRun)
runs repo sha s = elim (lookup (repo, sha) s) [ none ↦ none | some armed ↦ some (values armed) ]

-- `replace_all` with no runs
unfoldable pub arm_none : String → String → CheckStore → CheckStore
arm_none repo sha s = insert (repo, sha) [] s

-- `put`
unfoldable pub put_run : String → String → CheckRun → CheckStore → CheckStore
put_run repo sha run s =
    insert (repo, sha) (insert run.name run (get_or (lookup (repo, sha) s) [])) s
