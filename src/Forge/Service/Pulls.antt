-- ===== src/Forge/Service/Pulls.antt =====
-- Pull requests of the forge's service: their view with the live mergeability, `create_pull` and
-- `set_pull_state`.
use blizzard_mock.Base.{
  ℕ, Bool, true, false, not, ◌||◌, ◌&&◌, String, Option, none, some, [], string_eq, ◌==◌,
  if◌then◌else◌, is_some, Result, ok, err, ◌>>=◌, ◌>>◌, pure, raise_if,
}
use blizzard_mock.Base.Lists.{any}
use blizzard_mock.Forge.Models.{
  State, opened, closed, is_closed, MergeableState, clean, dirty, unknown, behind, blocked, Repo,
  full_name, PullRequest, ForgeError, validation_error, branch_not_found,
}
use blizzard_mock.Forge.Levers.{
  Lever, merge_conflict, mergeable_state, stale_branch, checks_pending, checks_failed,
  checks_startup_failure,
}
use blizzard_mock.Forge.State.{list_pulls, next_number}
use blizzard_mock.Forge.Git.{GitBackend}
use blizzard_mock.Forge.Service.{
  World, Method, ask, consult, draw, clock_now, find_lever, require_pull, store_pull,
}

pub record PullView : Type 0 where
  pub pull : PullRequest
  pub head_sha : String
  pub base_sha : String
  pub mergeable : Option Bool
  pub mergeable_state : MergeableState

-- `forced is not None and forced.state is not None`, and the state
abbrev forced_state : Option Lever → Option MergeableState
forced_state none = none
forced_state (some l) = l.state

-- What the levers say of an open pull, in the order that they are asked; `none`: ask git.
unfoldable pub lever_verdict : {G : Type 0} → Repo → ℕ → World G → Option (Bool × MergeableState)
lever_verdict repo number w =
    if is_some (find_lever merge_conflict repo (some number) w)
    then some (false, dirty)
    else elim (forced_state (find_lever mergeable_state repo (some number) w)) [
      | some s ↦ some (true, s)
      | none ↦
          if is_some (find_lever stale_branch repo (some number) w)
          then some (true, behind)
          else if is_some (find_lever checks_pending repo (some number) w)
          then some (true, blocked)
          else if is_some (find_lever checks_failed repo (some number) w)
          then some (true, blocked)
          else if is_some (find_lever checks_startup_failure repo (some number) w)
          then some (true, blocked)
          else none
    ]

abbrev git_verdict : Bool → Option Bool × MergeableState
git_verdict true = (some true, clean)
git_verdict false = (some false, dirty)

module _ {G : Type 0} (git : GitBackend G) where
  -- `_mergeability`
  unfoldable pub mergeability : Repo → PullRequest → Method G (Option Bool × MergeableState)
  mergeability repo p w =
      if p.merged || is_closed p.state
      then (ok (none, unknown), w)
      else elim (lever_verdict repo p.number w) [
        | some (b, s) ↦ (ok (some b, s), w)
        | none ↦ elim (git.is_mergeable repo p.base p.head w.git) [
          | err e ↦ (err e, w)
          | ok b ↦ (ok (git_verdict b), w)
        ]
      ]

  -- The head's sha: frozen in a closed pull that has one, else the branch's.
  unfoldable pub head_of : Repo → PullRequest → Method G String
  head_of repo p = elim (if is_closed p.state then p.closed_head_sha else none) [
    | some sha ↦ pure sha
    | none ↦ ask (git.resolve_ref repo p.head)
  ]

  abbrev base_or : Option String → Result ForgeError String → Result ForgeError String
  base_or frozen (ok sha) = ok sha
  base_or (some sha) (err branch_not_found) = ok sha
  base_or frozen (err e) = err e

  -- The base's sha, or the frozen one where the branch is gone.
  unfoldable pub base_of : Repo → PullRequest → Method G String
  base_of repo p w = (base_or p.closed_base_sha (git.resolve_ref repo p.base w.git), w)

  -- `_view`
  unfoldable pub view : Repo → PullRequest → Method G PullView
  view repo p = do
    head_sha ← head_of repo p
    base_sha ← base_of repo p
    m ← mergeability repo p
    pure (record {
      pull = p;
      head_sha = head_sha;
      base_sha = base_sha;
      mergeable = m.0;
      mergeable_state = m.1;
    })

  unfoldable pub get_pull_view : String → String → ℕ → Method G PullView
  get_pull_view owner name number = do
    repo ← ask (git.get_repo owner name)
    p ← require_pull repo number
    view repo p

  -- `not git.branch_exists(repo, branch)`
  abbrev pub lacks_branch : Repo → String → Method G Bool
  lacks_branch repo branch w = (ok (not (git.branch_exists repo branch w.git)), w)

  abbrev joins : String → String → PullRequest → Bool
  joins head base p = p.head == head && p.base == base

  unfoldable pub create_pull :
      String → String → String → String → String → String → String → Method G PullView
  create_pull owner name title body head base user = do
    repo ← ask (git.get_repo owner name)
    raise_if (head == "" || base == "") validation_error
    no_head ← lacks_branch repo head
    raise_if no_head validation_error
    no_base ← lacks_branch repo base
    raise_if no_base validation_error
    pulls ← consult (list_pulls (full_name repo) (some "open"))
    raise_if (any (joins head base) pulls) validation_error
    now ← clock_now
    number ← draw (next_number (full_name repo))
    let p : PullRequest = record {
      number = number;
      title = title;
      body = body;
      state = opened;
      user = user;
      head = head;
      base = base;
      created_at = now;
      updated_at = now;
      comments = [];
      merged = false;
      merged_at = none;
      merged_by = none;
      merge_commit_sha = none;
      closed_head_sha = none;
      closed_base_sha = none;
    }
    store_pull repo p
    view repo p

  -- `_freeze`: the pull is the stored object, so the first write stays if the second read raises.
  unfoldable pub freeze : Repo → PullRequest → Method G PullRequest
  freeze repo p = do
    head_sha ← ask (git.resolve_ref repo p.head)
    let half = record p { closed_head_sha = some head_sha }
    store_pull repo half
    base_sha ← ask (git.resolve_ref repo p.base)
    let frozen = record half { closed_base_sha = some base_sha }
    store_pull repo frozen
    pure frozen

  -- What `set_pull_state` does to the shas before it writes the state.
  unfoldable pub turn : Repo → PullRequest → State → Method G PullRequest
  turn repo p closed = if is_closed p.state then pure p else freeze repo p
  turn repo p opened = if p.merged then pure p else (do
    gone ← lacks_branch repo p.head
    raise_if gone validation_error
    pure (record p { closed_head_sha = none; closed_base_sha = none }))

  unfoldable pub set_pull_state : String → String → ℕ → State → Method G PullView
  set_pull_state owner name number state = do
    repo ← ask (git.get_repo owner name)
    p ← require_pull repo number
    turned ← turn repo p state
    now ← clock_now
    let p' = record turned { state = state; updated_at = now }
    store_pull repo p'
    view repo p'
