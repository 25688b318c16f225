-- ===== src/Forge/Models.antt =====
-- The forge's data, src/blizzard_mock/forge/domain/models.py and errors.py. Times are the clock's
-- readings in seconds.
use blizzard_mock.Base.{ℕ, Bool, String, Option, List, true, some, false}
use Prim.Native.String.{◌++◌}

pub data State : Type 0 where
  opened closed : State

pub data MergeableState : Type 0 where
  clean dirty unknown behind blocked unstable has_hooks draft : MergeableState

-- `FORCEABLE_MERGEABLE_STATES`
abbrev pub is_forceable : Option MergeableState → Bool
is_forceable (some unstable) = true
is_forceable (some has_hooks) = true
is_forceable (some draft) = true
is_forceable s = false

pub data MergeMethod : Type 0 where
  merge squash rebase : MergeMethod

pub record Repo : Type 0 where
  pub owner : String
  pub name : String
  pub default_branch : String

unfoldable pub full_name : Repo → String
full_name r = r.owner ++ ("/" ++ r.name)

pub record Comment : Type 0 where
  pub id : ℕ
  pub body : String
  pub user : String
  pub created_at : ℕ
  pub updated_at : ℕ

pub record Issue : Type 0 where
  pub number : ℕ
  pub title : String
  pub body : String
  pub state : State
  pub state_reason : Option String
  pub user : String
  pub labels : List String
  pub created_at : ℕ
  pub updated_at : ℕ
  pub comments : List Comment

pub record Label : Type 0 where
  pub name : String

pub record CheckRun : Type 0 where
  pub id : ℕ
  pub name : String
  pub status : String
  pub conclusion : Option String
  pub head_sha : String

pub record PullRequest : Type 0 where
  pub number : ℕ
  pub title : String
  pub body : String
  pub state : State
  pub user : String
  pub head : String
  pub base : String
  pub created_at : ℕ
  pub updated_at : ℕ
  pub comments : List Comment
  pub merged : Bool
  pub merged_at : Option ℕ
  pub merged_by : Option String
  pub merge_commit_sha : Option String
  pub closed_head_sha : Option String
  pub closed_base_sha : Option String

-- `state is State.CLOSED`
abbrev pub is_closed : State → Bool
is_closed closed = true
is_closed opened = false

-- The exceptions of errors.py, without their texts.
pub data ForgeError : Type 0 where
  repo_not_found repo_already_exists issue_not_found pull_not_found branch_not_found : ForgeError
  compare_ref_not_found not_fast_forward validation_error not_mergeable update_conflict : ForgeError
  merge_rejected head_mismatch git_error label_already_exists label_not_found : ForgeError
  merge_conflict protected_branch rule_violation merge_method_not_allowed : ForgeError
  ref_already_exists ref_missing : ForgeError

-- `ForgeError.status`
pub status : ForgeError → ℕ
status repo_not_found = 404
status repo_already_exists = 409
status issue_not_found = 404
status pull_not_found = 404
status branch_not_found = 422
status compare_ref_not_found = 404
status not_fast_forward = 422
status validation_error = 422
status not_mergeable = 405
status update_conflict = 422
status merge_rejected = 405
status head_mismatch = 409
status git_error = 500
status label_already_exists = 422
status label_not_found = 404
status merge_conflict = 409
status protected_branch = 422
status rule_violation = 422
status merge_method_not_allowed = 405
status ref_already_exists = 422
status ref_missing = 422
