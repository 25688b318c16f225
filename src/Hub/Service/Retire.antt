-- ===== src/Hub/Service/Retire.antt =====
-- A host that retires one of its runners: `retire_host_runner` of
-- src/blizzard_mock/mock_hub/domain/service.py. It is modelled on the rows and the chunks; the runner's
-- token is revoked by `retire` (Hub/Registry). A lever's `interrupted` is set when its text is not empty.
use blizzard_mock.Base.{
  Bool, true, false, not, ◌&&◌, String, Option, none, some, List, [], ◌==◌, string_eq, option_eq,
  if◌then◌else◌, Result, ok, err, is_none, map,
}
use blizzard_mock.Base.Dict.{lookup, insert, values, map_values}
use blizzard_mock.Base.Lists.{keep_if}
use blizzard_mock.Levers.{Lever, find}
use blizzard_mock.Hub.Models.{ChunkState, ChunkStatus, running, ready}
use blizzard_mock.Hub.State.{Hub, RunnerRow}
use blizzard_mock.Hub.Levers.{value, host_retire_lifecycle_conflict}
use blizzard_mock.Hub.Service.Guards.{names_runner, consume_lever}

pub data RetireError : Type 0 where
  unknown_runner runner_retire_interrupted runner_lifecycle_conflict : RetireError
  runner_holds_routes : List String → RetireError

abbrev pub is_held_by : String → ChunkState → Bool
is_held_by runner_id c = c.claimed && c.route_runner_id == some runner_id

abbrev after_running : ChunkStatus → ChunkStatus
after_running running = ready
after_running s = s

-- A chunk whose route is taken from its holder.
unfoldable pub taken_back : ChunkState → ChunkState
taken_back c = record c {
  claimed = false;
  route_runner_id = none;
  route_workspace_id = none;
  route_environment_ids = [];
  status = after_running c.status;
}

unfoldable pub freed_of : String → ChunkState → ChunkState
freed_of runner_id c = if is_held_by runner_id c then taken_back c else c

-- `held`, by id
unfoldable pub held_ids : String → Hub → List String
held_ids runner_id h = map (λ c. c.chunk_id) (keep_if (is_held_by runner_id) (values h.chunks))

-- `retire`, on the row: a retired runner is left as it is.
unfoldable pub retire_row : RunnerRow → Hub → Hub
retire_row row h =
    if is_none row.retired_at
    then record h {
      runners = insert row.runner_id (record row { retired_at = some h.now }) h.runners;
    }
    else h

abbrev interrupted : Option String → Bool
interrupted none = false
interrupted (some t) = not (t == "")

abbrev is_empty : List String → Bool
is_empty [] = true
is_empty ks = false

unfoldable pub retire_and_free :
    String → RunnerRow → List String → Hub → Result RetireError (List String) × Hub
retire_and_free runner_id row held h =
    (ok held, record (retire_row row h) { chunks = map_values (freed_of runner_id) h.chunks })

-- The lever that stands between the checks and the retirement.
unfoldable pub retire_under_lever :
    String → RunnerRow → List String → Option Lever → Hub → Result RetireError (List String) × Hub
retire_under_lever runner_id row held none h = retire_and_free runner_id row held h
retire_under_lever runner_id row held (some l) h =
    if not (names_runner (lookup "runner_id" l.payload) runner_id)
    then retire_and_free runner_id row held h
    else if not (interrupted (lookup "interrupted" l.payload))
    then (err runner_lifecycle_conflict, consume_lever l h)
    else if is_empty held
    then retire_and_free runner_id row held h
    else (err runner_retire_interrupted, retire_row row (consume_lever l h))

unfoldable pub retire_host_runner :
    String → String → Bool → Hub → Result RetireError (List String) × Hub
retire_host_runner host_id runner_id force h = elim (lookup runner_id h.runners) [
  | none ↦ (err unknown_runner, h)
  | some row ↦
      let held = held_ids runner_id h in
      if not (row.host_id == some host_id)
      then (err unknown_runner, h)
      else if not (is_empty held) && (not force && is_none row.retired_at)
      then (err (runner_holds_routes held), h)
      else retire_under_lever runner_id row held
          (find (value host_retire_lifecycle_conflict) none h.levers) h
]
