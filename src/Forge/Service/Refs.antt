-- ===== src/Forge/Service/Refs.antt =====
-- Refs of the forge's service: `update_ref`, `create_ref` and `delete_ref`; and the arming of levers.
use blizzard_mock.Base.{
  Bool, true, false, not, ◌||◌, String, Option, none, some, List, [], ◌∷◌, string_eq, option_eq,
  ◌==◌, if◌then◌else◌, is_none, ok, err, ◌>>=◌, ◌>>◌, pure, raise_if,
}
use blizzard_mock.Base.Lists.{any}
use blizzard_mock.Forge.Models.{
  closed, is_forceable, Repo, full_name, PullRequest, ForgeError, validation_error,
  branch_not_found, protected_branch, not_fast_forward, ref_already_exists, ref_missing,
}
use blizzard_mock.Forge.Levers.{
  LeverKind, Lever, arm, branch_protected, ruled, merge_commits_disallowed, mergeable_state,
}
use blizzard_mock.Forge.State.{list_pulls}
use blizzard_mock.Forge.Git.{GitBackend}
use blizzard_mock.Forge.Service.{
  Method, ask, act, consult, clock_now, matching, rename_error, store_pull,
}
use blizzard_mock.Forge.Service.Pulls.{freeze, lacks_branch}
use blizzard_mock.Forge.Service.Merging.{refuse_by_ruleset}

abbrev names_branch : String → Lever → Bool
names_branch ref l = l.branch == some ref

-- `except BranchNotFound: raise ValidationError`
abbrev missing_object : ForgeError → ForgeError
missing_object branch_not_found = validation_error
missing_object e = e

module _ {G : Type 0} (git : GitBackend G) where
  unfoldable pub refuse_protected : Repo → String → Method G (Unit {0})
  refuse_protected repo ref w =
      if any (names_branch ref) (matching branch_protected repo w)
      then (err protected_branch, w)
      else (ok tt, w)

  -- The fast-forward test, which `force` skips.
  unfoldable pub refuse_rewind : Repo → Bool → String → String → Method G (Unit {0})
  refuse_rewind repo true current target = pure tt
  refuse_rewind repo false current target = do
    onward ← ask (git.is_ancestor repo current target)
    raise_if (not onward) not_fast_forward

  unfoldable pub update_ref : String → String → String → String → Bool → Method G String
  update_ref owner name ref sha force = do
    repo ← ask (git.get_repo owner name)
    refuse_protected repo ref
    current ← ask (git.resolve_ref repo ref)
    target ← ask (git.resolve_ref repo sha)
    refuse_rewind repo force current target
    act (git.update_ref repo ref target)
    pure target

  -- `create_ref`, of the branch that `refs/heads/<branch>` names; `none` where it names none.
  unfoldable pub create_ref :
      (String → String → Bool) → String → String → Option String → String → Method G String
  create_ref matched owner name none sha = do
    repo ← ask (git.get_repo owner name)
    λ w. (err validation_error, w)
  create_ref matched owner name (some branch) sha = do
    repo ← ask (git.get_repo owner name)
    refuse_by_ruleset git matched repo branch
    lacking ← lacks_branch git repo branch
    raise_if (not lacking) ref_already_exists
    target ← rename_error missing_object (ask (git.resolve_ref repo sha))
    act (git.create_ref repo branch target)
    pure target

  -- One open pull of the loop of `delete_ref`, whose head or base the branch is.
  unfoldable pub close_pull : Repo → PullRequest → Method G (Unit {0})
  close_pull repo p = do
    frozen ← freeze git repo p
    now ← clock_now
    store_pull repo (record frozen { state = closed; updated_at = now })

  unfoldable pub close_pulls : Repo → String → List PullRequest → Method G (Unit {0})
  close_pulls repo branch [] = pure tt
  close_pulls repo branch (p ∷ ps) =
      if branch == p.head || branch == p.base
      then (do close_pull repo p; close_pulls repo branch ps)
      else close_pulls repo branch ps

  unfoldable pub delete_ref : String → String → String → Method G (Unit {0})
  delete_ref owner name branch = do
    repo ← ask (git.get_repo owner name)
    lacking ← lacks_branch git repo branch
    raise_if lacking ref_missing
    pulls ← consult (list_pulls (full_name repo) (some "open"))
    close_pulls repo branch pulls
    act (git.delete_ref repo branch)

-- `_require_scope`, as a test of what the lever lacks
unfoldable pub lacks_scope : Lever → LeverKind → Bool
lacks_scope l branch_protected = is_none l.repo || is_none l.branch
lacks_scope l ruled = is_none l.repo || is_none l.pattern
lacks_scope l merge_commits_disallowed = is_none l.repo
lacks_scope l mergeable_state = is_none l.repo || is_none l.number || not (is_forceable l.state)
lacks_scope l kind = false

-- `arm_lever` of a state lever, given as the lever it would arm
unfoldable pub arm_state_lever : {G : Type 0} → Lever → Method G Lever
arm_state_lever l = do
  raise_if (lacks_scope l l.kind) validation_error
  λ w. (ok l, record w { levers = arm l w.levers })
