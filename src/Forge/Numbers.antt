-- ===== src/Forge/Numbers.antt =====
-- The numbers of a repository, which issues and pulls share.
use blizzard_mock.Base.{Result, err, ℕ, ◌+◌, ◌<◌, ◌≡◌, String, some, string_eq, nat_eq, ok}
use blizzard_mock.Base.Dict.{lookup, insert}
use blizzard_mock.Forge.Models.{Issue, PullRequest, ForgeError}
use blizzard_mock.Forge.State.{RepoState, ForgeState, repo_state, next_number, put_issue}

-- Every number that an issue or a pull of the repository has lies below the next one.
pub record Numbered (r : RepoState) : Type 0 where
  pub issue_below : (n : ℕ) (i : Issue) → lookup n r.issues ≡ some i → n < r.next_number
  pub pull_below : (n : ℕ) (p : PullRequest) → lookup n r.pulls ≡ some p → n < r.next_number

-- The repository's state after an issue was filed under the next number.
abbrev filed : RepoState → Issue → RepoState
filed r i = record r { next_number = r.next_number + 1; issues = insert i.number i r.issues }

-- The repositories of a forge, each with its numbers below the next one.
abbrev pub AllNumbered : ForgeState → Type 0
AllNumbered s = (k : String) → Numbered (repo_state k s)

-- The metadata after an issue was numbered and filed.
abbrev after : String → Issue → ForgeState → ForgeState
after k i s = put_issue k i (next_number k s).1

abbrev issue_of : Issue → Result ForgeError Issue → Issue
issue_of d (ok j) = j
issue_of d (err x) = d
