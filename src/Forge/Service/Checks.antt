-- ===== src/Forge/Service/Checks.antt =====
-- Check runs of the forge's service: `list_check_runs` and `_ref_checks`. `run_id` stands for the
-- hash, and `crc` for the checksum, that an id is computed by.
use blizzard_mock.Base.{
  ℕ, Bool, false, not, String, Option, none, some, List, [], ◌∷◌, string_eq, ◌==◌, if◌then◌else◌,
  is_none, is_some, ok, err, ◌>>=◌, ◌>>◌, pure, raise_if,
}
use blizzard_mock.Base.Lists.{all}
use blizzard_mock.Forge.Models.{Repo, full_name, PullRequest, CheckRun, validation_error}
use blizzard_mock.Forge.Levers.{
  LeverKind, checks_failed, checks_startup_failure, base_checks_failed, checks_pending,
}
use blizzard_mock.Forge.State.{list_pulls, runs, arm_none, put_run, CheckStore}
use blizzard_mock.Forge.Git.{GitBackend}
use blizzard_mock.Forge.Service.{World, Method, ask, consult, find_lever}

pub record CheckSpec : Type 0 where
  pub name : String
  pub status : String

-- `CHECK_STATUSES`
unfoldable pub check_status : String → Option (String × Option String)
check_status s =
    if s == "pending"
    then some ("in_progress", none)
    else if s == "failed"
    then some ("completed", some "failure")
    else if s == "success"
    then some ("completed", some "success")
    else none

module _ (run_id : String → String → Option String → ℕ) where
  -- `_synthetic_check_run`
  unfoldable pub synthetic : String → String → Option String → CheckRun
  synthetic sha status conclusion = record {
    id = run_id sha status conclusion;
    name = "ci";
    status = status;
    conclusion = conclusion;
    head_sha = sha;
  }

  abbrev pull_lever : {G : Type 0} → LeverKind → Repo → Option PullRequest → World G → Bool
  pull_lever kind repo none w = false
  pull_lever kind repo (some p) w = is_some (find_lever kind repo (some p.number) w)

  module _ {G : Type 0} (git : GitBackend G) where
    -- `_find_pull_by_head_sha`
    unfoldable pub pull_of_sha : Repo → String → List PullRequest → Method G (Option PullRequest)
    pull_of_sha repo sha [] = pure none
    pull_of_sha repo sha (p ∷ ps) = do
      head_sha ← ask (git.resolve_ref repo p.head)
      if head_sha == sha then pure (some p) else pull_of_sha repo sha ps

    -- Is the base gate armed red, and `sha` the default branch's?
    unfoldable pub base_red : Repo → String → Method G Bool
    base_red repo sha w =
        if is_none (find_lever base_checks_failed repo none w)
        then (ok false, w)
        else elim (git.resolve_ref repo repo.default_branch w.git) [
          | err e ↦ (err e, w)
          | ok tip ↦ (ok (sha == tip), w)
        ]

    -- The run derived from the levers, once the base gate was read.
    unfoldable pub derived_tail : Repo → String → Option PullRequest → Bool → World G → CheckRun
    derived_tail repo sha p red w =
        if red
        then synthetic sha "completed" (some "failure")
        else if pull_lever checks_pending repo p w
        then synthetic sha "in_progress" none
        else synthetic sha "completed" (some "success")

    unfoldable pub derived : Repo → String → Option PullRequest → Method G CheckRun
    derived repo sha p w =
        if pull_lever checks_failed repo p w
        then (ok (synthetic sha "completed" (some "failure")), w)
        else if pull_lever checks_startup_failure repo p w
        then (ok (synthetic sha "completed" (some "startup_failure")), w)
        else ((do red ← base_red repo sha; λ w'. (ok (derived_tail repo sha p red w'), w')) w)

    unfoldable pub answer_runs : Repo → String → Option (List CheckRun) → Method G (List CheckRun)
    answer_runs repo sha (some armed) = pure armed
    answer_runs repo sha none = do
      pulls ← consult (list_pulls (full_name repo) (some "open"))
      p ← pull_of_sha repo sha pulls
      run ← derived repo sha p
      pure (run ∷ [])

    unfoldable pub list_check_runs : String → String → String → Method G (List CheckRun)
    list_check_runs owner name ref = do
      repo ← ask (git.get_repo owner name)
      sha ← ask (git.resolve_ref repo ref)
      armed ← (λ w. (ok (runs (full_name repo) sha w.checks), w))
      answer_runs repo sha armed

module _ (crc : String → String → ℕ) where
  -- `_named_check_run`, of a spec whose status was checked
  unfoldable pub named_run : String → CheckSpec → String × Option String → CheckRun
  named_run sha spec (status, conclusion) = record {
    id = crc sha spec.name;
    name = spec.name;
    status = status;
    conclusion = conclusion;
    head_sha = sha;
  }

  unfoldable pub arm_specs : String → String → List CheckSpec → CheckStore → CheckStore
  arm_specs repo sha [] s = s
  arm_specs repo sha (spec ∷ specs) s = elim (check_status spec.status) [
    | none ↦ arm_specs repo sha specs s
    | some st ↦ arm_specs repo sha specs (put_run repo sha (named_run sha spec st) s)
  ]

  abbrev is_known : CheckSpec → Bool
  is_known spec = is_some (check_status spec.status)

  abbrev start_specs : String → String → List CheckSpec → CheckStore → CheckStore
  start_specs repo sha [] s = arm_none repo sha s
  start_specs repo sha (_ ∷ _) s = s

  -- `_ref_checks`, of a repository's two names
  unfoldable pub ref_checks :
      {G : Type 0} → GitBackend G → String → String → String → List CheckSpec → Method G (Unit {0})
  ref_checks git owner name ref specs = do
    raise_if (not (all is_known specs)) validation_error
    repo ← ask (git.get_repo owner name)
    sha ← ask (git.resolve_ref repo ref)
    λ w. (
      ok tt,
      record w {
        checks =
            arm_specs (full_name repo) sha specs (start_specs (full_name repo) sha specs w.checks);
      },
    )
