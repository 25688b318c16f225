-- ===== src/Forge/Levers.antt =====
-- The forge's levers, src/blizzard_mock/forge/domain/levers.py, and their store,
-- src/blizzard_mock/forge/internal/lever_store.py.
use Prim.Native.String.{◌++◌}
use blizzard_mock.Base.{
  [], ℕ, Bool, true, false, ◌&&◌, ◌||◌, String, Option, none, some, List, string_eq, nat_eq,
  option_eq, pair_eq, ◌==◌, is_none, if◌then◌else◌,
}
use blizzard_mock.Base.Dict.{Dict, insert, remove, values}
use blizzard_mock.Base.Lists.{first}
use blizzard_mock.Base.Text.{show}
use blizzard_mock.Base.Int.{ℤ, pos, ◌-ℤ◌, leb_ℤ}
use blizzard_mock.Levers.{or_star}
use blizzard_mock.Forge.Models.{MergeableState}

-- `ruled` is RULESET.
pub data LeverKind : Type 0 where
  externally_merged merge_conflict merge_rejected comment_midflight rate_limited : LeverKind
  token_rejected unreachable stale_branch checks_pending checks_failed base_checks_failed :
      LeverKind
  ref_checks branch_protected ruled merge_commits_disallowed rate_budget : LeverKind
  secondary_rate_limited mergeable_state checks_startup_failure : LeverKind

-- The text of a member. Kinds are told apart by it.
unfoldable pub kind_value : LeverKind → String
kind_value externally_merged = "externally_merged"
kind_value merge_conflict = "merge_conflict"
kind_value merge_rejected = "merge_rejected"
kind_value comment_midflight = "comment_midflight"
kind_value rate_limited = "rate_limited"
kind_value token_rejected = "token_rejected"
kind_value unreachable = "unreachable"
kind_value stale_branch = "stale_branch"
kind_value checks_pending = "checks_pending"
kind_value checks_failed = "checks_failed"
kind_value base_checks_failed = "base_checks_failed"
kind_value ref_checks = "ref_checks"
kind_value branch_protected = "branch_protected"
kind_value ruled = "ruleset"
kind_value merge_commits_disallowed = "merge_commits_disallowed"
kind_value rate_budget = "rate_budget"
kind_value secondary_rate_limited = "secondary_rate_limited"
kind_value mergeable_state = "mergeable_state"
kind_value checks_startup_failure = "checks_startup_failure"

-- `kind in ACTION_LEVERS`; every other kind is in `STATE_LEVERS`.
abbrev pub is_action : LeverKind → Bool
is_action externally_merged = true
is_action comment_midflight = true
is_action ref_checks = true
is_action rate_budget = true
is_action k = false

pub record Lever : Type 0 where
  pub kind : LeverKind
  pub repo : Option String
  pub number : Option ℕ
  pub remaining : Option ℤ
  pub message : Option String
  pub branch : Option String
  pub pattern : Option String
  pub state : Option MergeableState

abbrev number_text : Option ℕ → String
number_text none = "*"
number_text (some n) = show n

abbrev suffix : String → Option String → String
suffix sign none = ""
suffix sign (some s) = sign ++ s

-- `_scope_key`
unfoldable pub scope_key : Option String → Option ℕ → Option String → Option String → String
scope_key repo number branch pattern =
    or_star repo ++ ("#" ++ (number_text number ++ (suffix "@" branch ++ suffix "~" pattern)))

-- `Lever.matches`
unfoldable pub matches : Lever → Option String → Option ℕ → Bool
matches l repo number =
    (is_none l.repo || l.repo == repo) && (is_none l.number || l.number == number)

-- The key of `InMemoryLeverStore._levers`
abbrev pub key : Lever → String × String
key l = (kind_value l.kind, scope_key l.repo l.number l.branch l.pattern)

abbrev pub LeverStore : Type 0
LeverStore = Dict (String × String) Lever

unfoldable pub arm : Lever → LeverStore → LeverStore
arm l s = insert (key l) l s

unfoldable pub clear :
    LeverKind → Option String → Option ℕ → Option String → Option String → LeverStore → LeverStore
clear kind repo number branch pattern s =
    remove (kind_value kind, scope_key repo number branch pattern) s

pub clear_all : LeverStore → LeverStore
clear_all s = []

abbrev pub active : LeverStore → List Lever
active s = values s

abbrev pub is_hit : LeverKind → Option String → Option ℕ → Lever → Bool
is_hit kind repo number l = kind_value l.kind == kind_value kind && matches l repo number

unfoldable pub find : LeverKind → Option String → Option ℕ → LeverStore → Option Lever
find kind repo number s = first (is_hit kind repo number) (values s)

-- The lever handed in is the object that `find` returned, so its decrement is seen in the store.
unfoldable pub consume : Lever → LeverStore → LeverStore
consume l s = elim l.remaining [
  | none ↦ s
  | some n ↦
      let left = n -ℤ pos 1 in
      if leb_ℤ left (pos 0)
      then remove (key l) s
      else insert (key l) (record l { remaining = some left }) s
]
