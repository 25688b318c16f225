-- ===== src/Forge/Service/Merging.antt =====
-- Merges of the forge's service: `merge_pull`, `merge_branches`, `update_branch` and the external
-- merge. A commit message is built from the pull's number, head and title as the source builds it.
use Prim.Native.String.{◌++◌}
use blizzard_mock.Base.{
  ℕ, Bool, true, false, not, ◌||◌, ◌&&◌, String, Option, none, some, string_eq, option_eq, ◌==◌,
  if◌then◌else◌, is_some, get_or, ok, err, ◌>>=◌, ◌>>◌, pure, raise_if,
}
use blizzard_mock.Base.Text.{show}
use blizzard_mock.Base.Lists.{any}
use blizzard_mock.Forge.Models.{
  closed, is_closed, MergeMethod, merge, squash, rebase, Repo, full_name, PullRequest, ForgeError,
  validation_error, branch_not_found, not_mergeable, head_mismatch, compare_ref_not_found,
  rule_violation, merge_rejected, merge_method_not_allowed, update_conflict,
}
use blizzard_mock.Forge.Models as Models
use blizzard_mock.Forge.Levers.{
  LeverKind, Lever, clear, merge_conflict, stale_branch, merge_commits_disallowed, ruled,
}
use blizzard_mock.Forge.Levers as Levers
use blizzard_mock.Forge.Git.{GitBackend}
use blizzard_mock.Forge.Service.{
  Method, ask, act, clock_now, find_lever, matching, refuse_armed, rename_error, require_pull,
  store_pull,
}

pub record MergeResult : Type 0 where
  pub sha : String
  pub merged : Bool

-- `message or default`: the empty text is falsy.
abbrev or_text : Option String → String → String
or_text none d = d
or_text (some m) d = if m == "" then d else m

abbrev pub is_merge : MergeMethod → Bool
is_merge merge = true
is_merge m = false

unfoldable pub squash_message : PullRequest → String
squash_message p = p.title ++ (" (#" ++ (show p.number ++ ")"))

unfoldable pub merge_message : PullRequest → String
merge_message p = "Merge pull request #" ++ (show p.number ++ (" from " ++ p.head))

-- The pull as `_record_merge` writes it.
unfoldable pub merged_as : PullRequest → String → String → String → ℕ → PullRequest
merged_as p sha merged_by head_sha now = record p {
  merged = true;
  merged_at = some now;
  merged_by = some merged_by;
  merge_commit_sha = some sha;
  closed_head_sha = some head_sha;
  closed_base_sha = some sha;
  state = closed;
  updated_at = now;
}

-- `except BranchNotFound: raise CompareRefNotFound`, `except NotMergeable: raise …`
abbrev missing_ref : ForgeError → ForgeError
missing_ref branch_not_found = compare_ref_not_found
missing_ref e = e

abbrev conflict_as : ForgeError → ForgeError → ForgeError
conflict_as raised not_mergeable = raised
conflict_as raised e = e

-- Does a rule's pattern cover the branch? `matched` is `fnmatch.fnmatchcase`.
abbrev covers : (String → String → Bool) → String → Lever → Bool
covers matched branch l = elim l.pattern [ none ↦ false | some pattern ↦ matched branch pattern ]

module _ {G : Type 0} (git : GitBackend G) where
  -- `_land`
  unfoldable pub land : Repo → PullRequest → MergeMethod → Option String → Method G String
  land repo p squash message =
      act (git.squash repo p.base p.head (or_text message (squash_message p)))
  land repo p rebase message =
      act (git.rebase repo p.base p.head (or_text message (merge_message p)))
  land repo p merge message = act (git.merge repo p.base p.head (or_text message (merge_message p)))

  unfoldable pub record_merge : Repo → PullRequest → String → String → String → Method G (Unit {0})
  record_merge repo p sha merged_by head_sha = do
    now ← clock_now
    store_pull repo (merged_as p sha merged_by head_sha now)

  -- The first lever is asked for without a number, so that only a repository's or a global one counts.
  abbrev pub refuse_method : Repo → MergeMethod → Method G (Unit {0})
  refuse_method repo method w =
      if is_merge method && is_some (find_lever merge_commits_disallowed repo none w)
      then (err merge_method_not_allowed, w)
      else (ok tt, w)

  -- The guards of `merge_pull` on the pull and the levers.
  unfoldable pub refuse_merge : Repo → PullRequest → ℕ → MergeMethod → Method G (Unit {0})
  refuse_merge repo p number method = do
    raise_if (p.merged || is_closed p.state) not_mergeable
    refuse_method repo method
    refuse_armed Levers.merge_rejected repo (some number) merge_rejected
    refuse_armed merge_conflict repo (some number) not_mergeable

  -- `merge_pull`, from the landing on
  unfoldable pub finish_merge :
      Repo → PullRequest → MergeMethod → Option String → String → String → Method G MergeResult
  finish_merge repo p method message user head_sha = do
    new_sha ← land repo p method message
    record_merge repo p new_sha user head_sha
    pure (record { sha = new_sha; merged = true })

  unfoldable pub merge_pull :
      String
      → String
      → ℕ
      → MergeMethod
      → Option String
      → Option String
      → String
      → Method G MergeResult
  merge_pull owner name number method message sha user = do
    repo ← ask (git.get_repo owner name)
    p ← require_pull repo number
    refuse_merge repo p number method
    head_sha ← ask (git.resolve_ref repo p.head)
    raise_if (is_some sha && not (sha == some head_sha)) head_mismatch
    finish_merge repo p method message user head_sha

  -- `_refuse_by_ruleset`
  unfoldable pub refuse_by_ruleset : (String → String → Bool) → Repo → String → Method G (Unit {0})
  refuse_by_ruleset matched repo branch w =
      if any (covers matched branch) (matching ruled repo w)
      then (err rule_violation, w)
      else (ok tt, w)

  -- The merge of `merge_branches`; `none` is "the base already holds the head".
  unfoldable pub merge_into :
      Repo → String → String → String → Option String → Bool → Method G (Option String)
  merge_into repo base head head_sha message true = pure none
  merge_into repo base head head_sha message false = do
    sha ← rename_error (conflict_as Models.merge_conflict) (
        act (
          git.merge repo base head_sha
            (or_text message ("Merge branch '" ++ (head ++ ("' into " ++ base))))))
    pure (some sha)

  -- `merge_branches`, up to the sha whose commit it answers with.
  unfoldable pub merge_branches :
      (String → String → Bool)
      → String
      → String
      → String
      → String
      → Option String
      → Method G (Option String)
  merge_branches matched owner name base head message = do
    repo ← ask (git.get_repo owner name)
    raise_if (base == "" || head == "") validation_error
    no_base ← (λ w. (ok (not (git.branch_exists repo base w.git)), w))
    raise_if no_base compare_ref_not_found
    head_sha ← rename_error missing_ref (ask (git.resolve_ref repo head))
    refuse_by_ruleset matched repo base
    held ← ask (git.is_ancestor repo head_sha base)
    merge_into repo base head head_sha message held

  -- The self-heal after the merge: the lever that `find` answers is cleared by kind, repo and number.
  unfoldable pub heal : Repo → ℕ → Method G (Unit {0})
  heal repo number w = elim (find_lever stale_branch repo (some number) w) [
    | none ↦ (ok tt, w)
    | some l ↦ (ok tt, record w { levers = clear l.kind l.repo l.number none none w.levers })
  ]

  unfoldable pub update_branch : String → String → ℕ → Option String → Method G (Unit {0})
  update_branch owner name number expected_head_sha = do
    repo ← ask (git.get_repo owner name)
    p ← require_pull repo number
    raise_if (p.merged || is_closed p.state) not_mergeable
    head_sha ← ask (git.resolve_ref repo p.head)
    raise_if (is_some expected_head_sha && not (expected_head_sha == some head_sha)) head_mismatch
    refuse_armed merge_conflict repo (some number) update_conflict
    _ ←
        rename_error (conflict_as update_conflict) (
          act
            (git.merge repo p.head p.base ("Merge branch '" ++ (p.base ++ ("' into " ++ p.head)))))
    heal repo number

  abbrev external_message : PullRequest → MergeMethod → String
  external_message p squash = squash_message p ++ " (external)"
  external_message p m = merge_message p ++ " (external)"

  -- `_external_merge`, of the pull that the lever names: a merged pull is left alone.
  unfoldable pub land_external : Repo → PullRequest → MergeMethod → Bool → Method G (Unit {0})
  land_external repo p method true = pure tt
  land_external repo p method false = do
    head_sha ← ask (git.resolve_ref repo p.head)
    new_sha ← land repo p method (some (external_message p method))
    record_merge repo p new_sha "external" head_sha

  unfoldable pub external_merge : String → String → ℕ → Option MergeMethod → Method G (Unit {0})
  external_merge owner name number method = do
    repo ← ask (git.get_repo owner name)
    p ← require_pull repo number
    land_external repo p (get_or method merge) p.merged
