-- ===== src/Forge/Service.antt =====
-- The forge's service, src/blizzard_mock/forge/domain/service.py: what its methods share.
pub mod Issues
pub mod Pulls
pub mod Merging
pub mod Checks
pub mod Refs
use blizzard_mock.Base.{
  ℕ, Bool, true, false, String, Option, none, some, List, [], ◌∷◌, Result, ok, err, Action, ◌>>=◌,
  ◌>>◌, pure, raise_if, gets, modify, or_raise, if◌then◌else◌, is_none,
}
use blizzard_mock.Base.Lists.{keep_if}
use blizzard_mock.Forge.Models.{
  Repo, full_name, PullRequest, ForgeError, issue_not_found, pull_not_found, Issue,
}
use blizzard_mock.Forge.Levers.{Lever, LeverKind, LeverStore, is_hit, find, active}
use blizzard_mock.Forge.Rate.{RateLedger}
use blizzard_mock.Forge.State.{ForgeState, CheckStore, get_issue, get_pull, put_issue, put_pull}
use blizzard_mock.Forge.Git.{GitBackend}

-- The seams that the service holds, and the clock's reading.
pub record World (G : Type 0) : Type 0 where
  pub git : G
  pub state : ForgeState
  pub levers : LeverStore
  pub checks : CheckStore
  pub rate : RateLedger
  pub now : ℕ

abbrev pub Method : Type 0 → Type 0 → Type 0
Method G A = Action (World G) ForgeError A

module _ {G : Type 0} where
  -- A read of the git seam, which may raise, and an operation on it.
  abbrev pub ask : {A : Type 0} → (G → Result ForgeError A) → Method G A
  ask f w = (f w.git, w)

  abbrev pub act : {A : Type 0} → (G → Result ForgeError A × G) → Method G A
  act f w = let (r, g) = f w.git in (r, record w { git = g })

  abbrev pub consult : {A : Type 0} → (ForgeState → A) → Method G A
  consult f w = (ok (f w.state), w)

  abbrev pub update : (ForgeState → ForgeState) → Method G (Unit {0})
  update f w = (ok tt, record w { state = f w.state })

  -- A write that answers, `next_number` and `next_comment_id`
  abbrev pub draw : (ForgeState → ℕ × ForgeState) → Method G ℕ
  draw f w = let (n, s) = f w.state in (ok n, record w { state = s })

  abbrev pub clock_now : Method G ℕ
  clock_now w = (ok w.now, w)

  abbrev pub find_lever : LeverKind → Repo → Option ℕ → World G → Option Lever
  find_lever kind repo number w = find kind (some (full_name repo)) number w.levers

  -- `_matching`
  unfoldable pub matching : LeverKind → Repo → World G → List Lever
  matching kind repo w = keep_if (is_hit kind (some (full_name repo)) none) (active w.levers)

  -- A lever that refuses with an exception while it is armed.
  abbrev pub refuse_armed : LeverKind → Repo → Option ℕ → ForgeError → Method G (Unit {0})
  refuse_armed kind repo number e w =
      if is_none (find_lever kind repo number w) then (ok tt, w) else (err e, w)

  -- A handler of one exception: `try: ... except x: raise y`.
  abbrev pub rename_error : {A : Type 0} → (ForgeError → ForgeError) → Method G A → Method G A
  rename_error f m w = let (r, w') = m w in elim r [ ok a ↦ (ok a, w') | err e ↦ (err (f e), w') ]

  -- `_require_pull`
  abbrev pub require_pull : Repo → ℕ → Method G PullRequest
  require_pull repo number w = elim (get_pull (full_name repo) number w.state) [
    | none ↦ (err pull_not_found, w)
    | some p ↦ (ok p, w)
  ]

  abbrev pub require_issue : Repo → ℕ → Method G Issue
  require_issue repo number w = elim (get_issue (full_name repo) number w.state) [
    | none ↦ (err issue_not_found, w)
    | some i ↦ (ok i, w)
  ]

  abbrev pub store_pull : Repo → PullRequest → Method G (Unit {0})
  store_pull repo p = update (put_pull (full_name repo) p)

  abbrev pub store_issue : Repo → Issue → Method G (Unit {0})
  store_issue repo i = update (put_issue (full_name repo) i)
