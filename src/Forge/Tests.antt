-- ===== src/Forge/Tests.antt =====
-- Runs of the forge over a git backend of one repository and one branch, and instances of its
-- theorems.
use blizzard_mock.Base.{
  ◌≡◌, refl, ◌≢◌, true, false, not, ◌&&◌, String, Option, none, some, [], ◌∷◌, ok, string_eq,
  nat_eq, option_eq, pair_eq, ◌==◌, arith, ◌>>=◌, is_some, Bool,
}
use blizzard_mock.Base.Dict.{lookup, insert}
use blizzard_mock.Base.Lists.{first}
use blizzard_mock.Base.Keyed.{IsKeyed}
use blizzard_mock.Base.Text.{show}
use blizzard_mock.Base.Int.{pos, ◌-ℤ◌, ◌≤ℤ◌}
use blizzard_mock.Forge.Models.{Repo, full_name, PullRequest, opened, merge, squash}
use blizzard_mock.Forge.Levers.{
  Lever, LeverStore, checks_failed, key, kind_value, scope_key, matches, find, arm, clear,
}
use blizzard_mock.Forge.Rate.{RateLedger, count, peek, spend, live, fresh, window_of}
use blizzard_mock.Forge.State.{get_pull, put_pull, repo_state, no_repo}
use blizzard_mock.Forge.Git.{GitBackend}
use blizzard_mock.Forge.Service.{World}
use blizzard_mock.Forge.Service.Merging.{
  MergeResult, merge_pull, merged_as, land, record_merge, refuse_merge, finish_merge, merge_message,
  squash_message,
}
use blizzard_mock.Forge.Models.{Issue}
use blizzard_mock.Forge.State.{put_issue, next_number, get_issue}
use blizzard_mock.Forge.Service.Issues.{create_issue, file_issue}
use mathlib.Core.Path.{subst}
use blizzard_mock.Base.{sym, ◌||◌}
use blizzard_mock.Base.Lists.{contains}
use blizzard_mock.Forge.Service.Issues.{add_issue_labels, add_labels, get_issue_of}
use blizzard_mock.Forge.Labels.{NoRepeat, add_issue_labels-union}
use blizzard_mock.Forge.Merges.{merge_grants, merges_once}
use blizzard_mock.Forge.Landing.{Mergeable, Landed}
use blizzard_mock.Forge.Windows.{count_spends, peek-count, one_less}
use blizzard_mock.Forge.Armed.{find_armed, arm-clear, Covers, Found}

program : Unit {0}
unfolding add_issue_labels add_labels contains get_issue_of create_issue file_issue next_number
    put_issue get_issue lookup insert first show full_name kind_value scope_key matches find arm
    clear count peek spend live fresh window_of get_pull put_pull repo_state merge_pull merged_as
    land record_merge refuse_merge finish_merge merge_message squash_message ◌-ℤ◌ ◌>>=◌
program = tt

-- Every branch is at the commit that the git state names; a landing makes the next commit.
abbrev one : GitBackend String
one = record {
  get_repo = λ owner name g. ok (record { owner = owner; name = name; default_branch = "main" });
  branch_exists = λ r b g. true;
  resolve_ref = λ r b g. ok g;
  is_mergeable = λ r b h g. ok true;
  is_ancestor = λ r a d g. ok true;
  merge = λ r b h m g. (ok "landed", "landed");
  rebase = λ r b h m g. (ok "landed", "landed");
  squash = λ r b h m g. (ok "landed", "landed");
  create_ref = λ r b s g. (ok tt, g);
  delete_ref = λ r b g. (ok tt, g);
  update_ref = λ r b s g. (ok tt, g);
}

abbrev repo : Repo
repo = record { owner = "o"; name = "n"; default_branch = "main" }

abbrev pull : PullRequest
pull = record {
  number = 1;
  title = "t";
  body = "";
  state = opened;
  user = "u";
  head = "feature";
  base = "main";
  created_at = 0;
  updated_at = 0;
  comments = [];
  merged = false;
  merged_at = none;
  merged_by = none;
  merge_commit_sha = none;
  closed_head_sha = none;
  closed_base_sha = none;
}

abbrev ledger : RateLedger
ledger = record { limit = pos 5000; windows = []; template = none }

abbrev world : World String
world = record {
  git = "tip";
  state = ("o/n", record no_repo { pulls = (1, pull) ∷ []; next_number = 2 }) ∷ [];
  levers = [];
  checks = [];
  rate = ledger;
  now = 7;
}

abbrev result : MergeResult
result = record { sha = "landed"; merged = true }

abbrev after : World String
after = record world {
  git = "landed";
  state = put_pull "o/n" (merged_as pull "landed" "u" "tip" 7) world.state;
}

abbrev guard : Option String
guard = some "tip"

was_merged : merge_pull one "o" "n" 1 merge none (some "tip") "u" world ≡ (ok result, after)
unfolding program
was_merged = refl

merge_grants_example :
    (r : Repo) × (p : PullRequest) × (head_sha : String) × (one.get_repo "o" "n" world.git ≡ ok r)
    × (get_pull (full_name r) 1 world.state ≡ some p)
    × Mergeable r p 1 merge world
    × (one.resolve_ref r p.head world.git ≡ ok head_sha)
    × ((is_some guard && not (guard == some head_sha)) ≡ false)
    × Landed one r p merge none "u" head_sha world result after
merge_grants_example =
    merge_grants one "o" "n" 1 merge none (some "tip") "u" world after result was_merged

named : (g : String) (r : Repo) → one.get_repo "o" "n" g ≡ ok r → (r.owner ≡ "o") × (r.name ≡ "n")
named g r e = ground arith

numbered : (r : String) (p : PullRequest) → get_pull r 1 world.state ≡ some p → p.number ≡ 1
unfolding get_pull repo_state lookup
numbered r p e = ground arith

merges_once_example : merge_pull one "o" "n" 1 squash none none "v" after ≢ (ok result, after)
merges_once_example =
    merges_once one "o" "n" 1 world after after result result merge squash none none (some "tip")
      none "u" "v" named numbered was_merged

count_spends_example :
    let before = (peek 7 "token" ledger).0 in
    let spent = (count 7 "token" ledger).0 in
    (spent.remaining ≡ one_less before.remaining)
    × (spent.reset ≡ before.reset)
    × (spent.limit ≡ before.limit)
    × (pos 0 ≤ℤ spent.remaining)
count_spends_example = count_spends 7 "token" ledger

counted : (count 7 "token" ledger).0.remaining ≡ pos 4999
unfolding program
counted = refl

peek-count_example : (peek 3600 "token" (count 7 "token" ledger).1).0 ≡ (count 7 "token" ledger).0
unfolding program
peek-count_example = peek-count 7 "token" ledger 3600 refl

abbrev red : Lever
red = record {
  kind = checks_failed;
  repo = some "o/n";
  number = some 1;
  remaining = none;
  message = none;
  branch = none;
  pattern = none;
  state = none;
}

abbrev store : LeverStore
store = (key red, red) ∷ []

store-IsKeyed : IsKeyed key store
unfolding program
store-IsKeyed = (refl, refl, tt)

find_armed_example :
    (lookup (key red) store ≡ some red)
    × (kind_value red.kind ≡ kind_value checks_failed)
    × Covers red (some "o/n") (some 1)
unfolding program
find_armed_example = find_armed checks_failed (some "o/n") (some 1) store red store-IsKeyed refl

arm-clear_example :
    (lookup (key red) (arm red []) ≡ some red)
    × Found checks_failed (some "o/n") (some 1) (arm red [])
    × (lookup (key red) (clear checks_failed (some "o/n") (some 1) none none (arm red [])) ≡ none)
    × ((j : String × String)
        → key red ≢ j
        → (lookup j (arm red []) ≡ none)
          × (lookup j (clear checks_failed (some "o/n") (some 1) none none (arm red [])) ≡ none))
    × IsKeyed key (arm red [])
    × IsKeyed key (clear checks_failed (some "o/n") (some 1) none none (arm red []))
unfolding lookup
arm-clear_example = arm-clear red [] tt

abbrev fresh_issue : Issue
fresh_issue = record {
  number = 2;
  title = "a title";
  body = "";
  state = opened;
  state_reason = none;
  user = "u";
  labels = [];
  created_at = 7;
  updated_at = 7;
  comments = [];
}

abbrev is_empty : String → Bool
is_empty t = t == ""

abbrev filed : World String
filed = record world { state = put_issue "o/n" fresh_issue (next_number "o/n" world.state).1 }

-- A world with one issue, its state written out.
abbrev labelled : World String
labelled = record world {
  state =
      ("o/n", record no_repo { issues = (2, record fresh_issue { labels = "a" ∷ [] }) ∷ [] }) ∷ [];
}

abbrev relabelled : Issue
relabelled = record fresh_issue { labels = "a" ∷ "b" ∷ [] }

abbrev stored : World String
stored = record labelled { state = put_issue "o/n" relabelled labelled.state }

was_labelled :
    add_issue_labels one "o" "n" 2 ("a" ∷ "b" ∷ "b" ∷ []) labelled ≡ (ok relabelled, stored)
unfolding program
was_labelled = refl

one_label : (r : String) (j : Issue) → get_issue r 2 labelled.state ≡ some j → j.labels ≡ "a" ∷ []
unfolding get_issue repo_state lookup
one_label r j e = ground arith

one_label-NoRepeat : NoRepeat ("a" ∷ [])
unfolding contains
one_label-NoRepeat = (refl, tt)

labelled-NoRepeat :
    (r : String) (j : Issue) → get_issue r 2 labelled.state ≡ some j → NoRepeat j.labels
labelled-NoRepeat r j e = subst NoRepeat (sym (one_label r j e)) one_label-NoRepeat

add_issue_labels-union_example :
    (r : Repo) × (old : Issue) × (one.get_repo "o" "n" labelled.git ≡ ok r)
    × (get_issue (full_name r) 2 labelled.state ≡ some old)
    × (record relabelled { labels = old.labels } ≡ old)
    × ((l : String)
        → contains l relabelled.labels
          ≡ (contains l ("a" ∷ "b" ∷ "b" ∷ []) || contains l old.labels))
    × NoRepeat relabelled.labels
    × (stored.state ≡ put_issue (full_name r) relabelled labelled.state)
add_issue_labels-union_example =
    add_issue_labels-union one "o" "n" 2 ("a" ∷ "b" ∷ "b" ∷ []) labelled stored relabelled
      labelled-NoRepeat was_labelled
