-- ===== src/Levers.antt =====
-- The shared lever primitive, src/blizzard_mock/levers.py: `Lever`, `LeverParams` and
-- `InMemoryLeverStore`. A payload's members are texts (the code reads them through `str` or
-- compares them with texts); `remaining` is a signed Python int.
pub mod Store
pub mod Expiry
mod Tests
use Prim.Native.String.{◌++◌}
use blizzard_mock.Base.{
  Bool, ◌&&◌, ◌||◌, String, Option, none, some, List, [], string_eq, option_eq, ◌==◌, is_none,
  if◌then◌else◌,
}
use blizzard_mock.Base.Dict.{Dict, lookup, insert, remove, values}
use blizzard_mock.Base.Lists.{first}
use blizzard_mock.Base.Int.{ℤ, pos, ◌-ℤ◌, leb_ℤ}

pub record Lever : Type 0 where
  pub kind : String
  pub chunk_id : Option String
  -- Auto-clear after this many affected requests; `none` is sticky until cleared.
  pub remaining : Option ℤ
  pub payload : Dict String String

-- `chunk_id or '*'`: the empty text is falsy.
abbrev pub or_star : Option String → String
or_star none = "*"
or_star (some c) = if c == "" then "*" else c

pub scope_key : Lever → String
scope_key l = l.kind ++ ("#" ++ or_star l.chunk_id)

-- A global lever matches everything; a scoped lever matches its chunk.
pub matches : Lever → Option String → Bool
matches l chunk_id = is_none l.chunk_id || l.chunk_id == chunk_id

-- `InMemoryLeverStore._levers`
abbrev pub LeverStore : Type 0
LeverStore = Dict String Lever

pub arm : Lever → LeverStore → LeverStore
arm l s = insert (scope_key l) l s

abbrev bare : String → Option String → Lever
bare kind chunk_id = record { kind = kind; chunk_id = chunk_id; remaining = none; payload = [] }

pub clear : String → Option String → LeverStore → LeverStore
clear kind chunk_id s = remove (scope_key (bare kind chunk_id)) s

pub clear_all : LeverStore → LeverStore
clear_all s = []

pub active : LeverStore → List Lever
active s = values s

abbrev pub is_hit : String → Option String → Lever → Bool
is_hit kind chunk_id l = l.kind == kind && matches l chunk_id

unfoldable pub find : String → Option String → LeverStore → Option Lever
find kind chunk_id s = first (is_hit kind chunk_id) (values s)

-- The lever handed in is the object that `find` returned, so its decrement is seen in the store.
unfoldable pub consume : Lever → LeverStore → LeverStore
consume l s = elim l.remaining [
  | none ↦ s
  | some n ↦
      let left = n -ℤ pos 1 in
      if leb_ℤ left (pos 0)
      then remove (scope_key l) s
      else insert (scope_key l) (record l { remaining = some left }) s
]
