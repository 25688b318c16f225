-- ===== src/Hub/Peek.antt =====
-- The queue as a runner peeks at it: `peek` and `peek_matched` of
-- src/blizzard_mock/mock_hub/domain/service.py. An entry leaves out the work references. The bindings of
-- a runner and its host's report come in as one value: the projects of the bindings that the report does
-- not withhold, where the runner declared bindings.
pub mod Matched
pub mod PassOver
pub mod Claimable
use blizzard_mock.Base.{
  ℕ, ◌+◌, Bool, true, false, not, ◌&&◌, ◌||◌, String, Option, none, some, List, [], ◌∷◌, ◌==◌,
  string_eq, if◌then◌else◌, Result, ok, err, is_some, is_none, get_or,
}
use blizzard_mock.Base.Dict.{lookup}
use blizzard_mock.Base.Lists.{keep_if, contains}
use blizzard_mock.Levers.{find}
use blizzard_mock.Hub.Models.{ChunkState}
use blizzard_mock.Hub.Chunk.{is_ready}
use blizzard_mock.Hub.State.{Hub, RunnerCapability, RunnerRow, ServedEntry, ProjectRow, list_chunks}
use blizzard_mock.Hub.Levers.{dependency_unmet}
use blizzard_mock.Hub.Matching.{QueueMatchPolicy, of_value, hold, pass_over, capability_ineligible}
use blizzard_mock.Hub.Service.Guards.{served_project_ids, find_lever}
use blizzard_mock.Hub.Service.Route.{claim_node}
use blizzard_mock.Hub.Registry.{
  Registry, RegistryError, get_runner, resolve_project, unknown_runner, unknown_projects,
}

pub record QueuePeekEntry : Type 0 where
  pub chunk_id : String
  pub graph_id : String
  pub position : ℕ
  pub blocked : Option String
  pub project_id : String
  pub project_slug : Option String
  pub project_name : Option String

-- `_blocked_marking`, the chunk that is waited for
unfoldable pub blocked_marking : String → Hub → Option String
blocked_marking chunk_id h = elim (find_lever dependency_unmet chunk_id h) [
  | none ↦ none
  | some l ↦ some (get_or (lookup "prerequisite_chunk_id" l.payload) "unknown")
]

abbrev pub slug_of : Option ProjectRow → Option String
slug_of none = none
slug_of (some p) = some p.slug

abbrev pub name_of : Option ProjectRow → Option String
name_of none = none
name_of (some p) = some p.name

abbrev pub peek_entry : ℕ → ChunkState → Hub → QueuePeekEntry
peek_entry position c h = record {
  chunk_id = c.chunk_id;
  graph_id = c.graph_id;
  position = position;
  blocked = blocked_marking c.chunk_id h;
  project_id = c.project_id;
  project_slug = slug_of (lookup c.project_id h.projects);
  project_name = name_of (lookup c.project_id h.projects);
}

abbrev pub in_queue : ChunkState → Bool
in_queue c = not c.claimed && is_ready c.status

unfoldable pub ready_chunks : Hub → List ChunkState
ready_chunks h = keep_if in_queue (list_chunks h)

unfoldable pub peek_from : ℕ → (ChunkState → Bool) → List ChunkState → Hub → List QueuePeekEntry
peek_from i wanted [] h = []
peek_from i wanted (c ∷ cs) h =
    let rest = peek_from (i + 1) wanted cs h in if wanted c then peek_entry i c h ∷ rest else rest

unfoldable pub in_project :
    Option ProjectRow → String → Hub → Result RegistryError (List QueuePeekEntry)
in_project none project h = err (unknown_projects (project ∷ []))
in_project (some p) project h =
    ok (peek_from 0 (λ c. c.project_id == p.project_id) (ready_chunks h) h)

-- `peek`
unfoldable pub peek :
    Option String → Option String → Registry → Result RegistryError (List QueuePeekEntry)
peek (some runner_id) (some project) g = elim (get_runner runner_id g) [
  | none ↦ err unknown_runner
  | some row ↦ in_project (resolve_project row.tenant_id project g) project g.hub
]
peek runner_id project g = ok (peek_from 0 (λ c. true) (ready_chunks g.hub) g.hub)

-- Whether a declared entry is one that the request names, by its text or by its project's id.
unfoldable pub names_entry : List String → ServedEntry → Bool
names_entry wanted e =
    contains e.entry wanted || elim e.project_id [ none ↦ false | some p ↦ contains p wanted ]

unfoldable pub reached : Option (List String) → List ServedEntry → List ServedEntry
reached none es = es
reached (some bound) es = keep_if (λ e. contains e.entry bound) es

-- `_offered_project_ids`
unfoldable pub offered_project_ids :
    Option (List String) → RunnerRow → Option (List String) → List String
offered_project_ids reachable row none = served_project_ids (reached reachable row.projects)
offered_project_ids reachable row (some wanted) =
    let named = served_project_ids (keep_if (names_entry wanted) row.projects) in
    keep_if (λ p. contains p named) (served_project_ids (reached reachable row.projects))

-- One round of the loop of `peek_matched`: whether the chunk is passed by, is answered (it has no
-- blocked marking then), ends the search, or stops its project.
pub data Round : Type 0 where
  passed_by answered ended stops : Round

module _ (fnmatchcase : String → String → Bool) where
  unfoldable pub unusable : List RunnerCapability → ChunkState → Hub → Bool
  unusable capabilities c h =
      is_some (blocked_marking c.chunk_id h)
      || capability_ineligible fnmatchcase c (claim_node c) capabilities

  abbrev after_unusable : QueueMatchPolicy → Option (List String) → Round
  after_unusable pass_over projects = passed_by
  after_unusable hold none = ended
  after_unusable hold (some ps) = stops

  unfoldable pub round :
      List RunnerCapability
      → QueueMatchPolicy
      → Option (List String)
      → List String
      → List String
      → ChunkState
      → Hub
      → Round
  round capabilities policy projects served stopped c h =
      if not (contains c.project_id served) || contains c.project_id stopped
      then passed_by
      else if unusable capabilities c h
      then after_unusable policy projects
      else answered

  unfoldable pub search_from :
      ℕ
      → List RunnerCapability
      → QueueMatchPolicy
      → Option (List String)
      → List String
      → List String
      → List ChunkState
      → Hub
      → Option QueuePeekEntry
  search_from i capabilities policy projects served stopped [] h = none
  search_from i capabilities policy projects served stopped (c ∷ cs) h =
      elim (round capabilities policy projects served stopped c h) [
        | passed_by ↦ search_from (i + 1) capabilities policy projects served stopped cs h
        | answered ↦ some (peek_entry i c h)
        | ended ↦ none
        | stops ↦
            search_from (i + 1) capabilities policy projects served (c.project_id ∷ stopped) cs h
      ]

  -- `peek_matched`: at most one entry
  unfoldable pub peek_matched :
      Option (List String)
      → String
      → List RunnerCapability
      → String
      → Option (List String)
      → Registry
      → Result RegistryError (Option QueuePeekEntry)
  peek_matched reachable runner_id capabilities policy projects g = elim (get_runner runner_id g) [
    | none ↦ err unknown_runner
    | some row ↦ ok (
        search_from 0 capabilities (of_value policy) projects
          (offered_project_ids reachable row projects) [] (ready_chunks g.hub) g.hub)
  ]
