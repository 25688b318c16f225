-- ===== src/Forge/Service/Issues.antt =====
-- Issues, comments and labels of the forge's service. `is_blank title` stands for
-- `not title.strip()`, Python's own whitespace test.
use blizzard_mock.Base.{
  ℕ, Bool, not, ◌&&◌, String, Option, none, some, List, [], ◌∷◌, ◌++◌, string_eq, ◌==◌,
  if◌then◌else◌, is_none, is_some, ok, err, ◌>>=◌, ◌>>◌, pure, raise_if,
}
use blizzard_mock.Base.Lists.{contains}
use blizzard_mock.Forge.Models.{
  State, opened, closed, Repo, full_name, Comment, Issue, Label, PullRequest, validation_error,
  issue_not_found, label_already_exists, label_not_found,
}
use blizzard_mock.Forge.State.{
  get_issue, get_pull, get_label, next_number, next_comment_id, put_label, add_issue_comment,
  add_pull_comment,
}
use blizzard_mock.Forge.Git.{GitBackend}
use blizzard_mock.Forge.Service.{
  Method, ask, consult, update, draw, clock_now, require_issue, store_issue,
}

-- `_append` of the loop of `add_issue_labels`: each label once.
unfoldable pub add_labels : List String → List String → List String
add_labels [] have = have
add_labels (l ∷ ls) have = add_labels ls (if contains l have then have else have ++ l ∷ [])

-- `list.remove`: the first of the name.
unfoldable pub remove_label : String → List String → List String
remove_label l [] = []
remove_label l (x ∷ xs) = if x == l then xs else x ∷ remove_label l xs

-- `State(state)` after the check of its text
abbrev state_of : String → Option State
state_of s = if s == "open" then some opened else if s == "closed" then some closed else none

module _ {G : Type 0} (git : GitBackend G) where
  unfoldable pub get_issue_of : String → String → ℕ → Method G Issue
  get_issue_of owner name number = do
    repo ← ask (git.get_repo owner name)
    require_issue repo number

  -- `create_issue`, once its arguments were checked
  unfoldable pub file_issue : Repo → String → String → String → List String → Method G Issue
  file_issue repo title body user labels = do
    now ← clock_now
    number ← draw (next_number (full_name repo))
    let issue : Issue = record {
      number = number;
      title = title;
      body = body;
      state = opened;
      state_reason = none;
      user = user;
      labels = labels;
      created_at = now;
      updated_at = now;
      comments = [];
    }
    store_issue repo issue
    pure issue

  unfoldable pub create_issue :
      (String → Bool) → String → String → String → String → String → List String → Method G Issue
  create_issue is_blank owner name title body user labels = do
    repo ← ask (git.get_repo owner name)
    raise_if (is_blank title) validation_error
    file_issue repo title body user labels

  -- `_new_comment`
  unfoldable pub new_comment : Repo → String → String → Method G Comment
  new_comment repo body user = do
    now ← clock_now
    id ← draw (next_comment_id (full_name repo))
    pure (record { id = id; body = body; user = user; created_at = now; updated_at = now })

  -- Where a comment goes: the issue of the number, else the pull.
  unfoldable pub file_comment :
      Repo → Comment → Option Issue → Option PullRequest → Method G (Unit {0})
  file_comment repo c (some i) p = update (add_issue_comment (full_name repo) i c)
  file_comment repo c none (some p) = update (add_pull_comment (full_name repo) p c)
  file_comment repo c none none = pure tt

  unfoldable pub create_issue_comment : String → String → ℕ → String → String → Method G Comment
  create_issue_comment owner name number body user = do
    repo ← ask (git.get_repo owner name)
    issue ← consult (get_issue (full_name repo) number)
    pull ← consult (get_pull (full_name repo) number)
    raise_if (is_none issue && is_none pull) issue_not_found
    comment ← new_comment repo body user
    file_comment repo comment issue pull
    pure comment

  unfoldable pub create_label : String → String → String → Method G Label
  create_label owner name label_name = do
    repo ← ask (git.get_repo owner name)
    held ← consult (get_label (full_name repo) label_name)
    raise_if (is_some held) label_already_exists
    let label : Label = record { name = label_name }
    update (put_label (full_name repo) label)
    pure label

  unfoldable pub add_issue_labels : String → String → ℕ → List String → Method G Issue
  add_issue_labels owner name number labels = do
    repo ← ask (git.get_repo owner name)
    issue ← get_issue_of owner name number
    let issue' = record issue { labels = add_labels labels issue.labels }
    store_issue repo issue'
    pure issue'

  unfoldable pub remove_issue_label : String → String → ℕ → String → Method G Issue
  remove_issue_label owner name number label_name = do
    repo ← ask (git.get_repo owner name)
    issue ← get_issue_of owner name number
    raise_if (not (contains label_name issue.labels)) label_not_found
    let issue' = record issue { labels = remove_label label_name issue.labels }
    store_issue repo issue'
    pure issue'

  -- The checked text of a state, or the refusal.
  abbrev parse_state : String → Method G State
  parse_state s w = elim (state_of s) [ none ↦ (err validation_error, w) | some st ↦ (ok st, w) ]

  unfoldable pub set_issue_state : String → String → ℕ → String → Option String → Method G Issue
  set_issue_state owner name number state state_reason = do
    st ← parse_state state
    repo ← ask (git.get_repo owner name)
    issue ← get_issue_of owner name number
    now ← clock_now
    let issue' = record issue { state = st; state_reason = state_reason; updated_at = now }
    store_issue repo issue'
    pure issue'
