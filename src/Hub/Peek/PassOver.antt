-- ===== src/Hub/Peek/PassOver.antt =====
-- The matched peek that passes over what the runner cannot take.
use blizzard_mock.Base.{
  ℕ, ◌+◌, ◌≡◌, refl, Bool, not, ◌&&◌, String, Option, none, some, List, [], ◌∷◌, string_eq, arith,
  ok,
}
use blizzard_mock.Base.Lists.{contains}
use blizzard_mock.Hub.Models.{ChunkState}
use blizzard_mock.Hub.State.{Hub, RunnerCapability, RunnerRow}
use blizzard_mock.Hub.Matching.{pass_over, of_value}
use blizzard_mock.Hub.Registry.{Registry, get_runner}
use blizzard_mock.Hub.Peek.{
  peek_matched, peek_from, offered_project_ids, unusable, ready_chunks, search_from, round,
}

abbrev head : {A : Type 0} → List A → Option A
head [] = none
head (x ∷ xs) = some x

module _ (fnmatchcase : String → String → Bool) (capabilities : List RunnerCapability)
    (served : List String) (h : Hub) where
  abbrev pub takes : ChunkState → Bool
  takes c = contains c.project_id served && not (unusable fnmatchcase capabilities c h)

  pass_over-head :
      (i : ℕ) (projects : Option (List String)) (cs : List ChunkState)
      → search_from fnmatchcase i capabilities pass_over projects served [] cs h
        ≡ head (peek_from i takes cs h)
  unfolding search_from peek_from round contains
  pass_over-head i projects [] = refl
  pass_over-head i projects (c ∷ cs) = ground (arith, pass_over-head (i + 1) projects cs)

-- Under the policy that passes over, the matched peek answers the first entry of the queue whose chunk is
-- in an offered project and usable by the capabilities, at its position in the whole queue; and nothing,
-- where there is none.
pub peek_matched-head :
    (fnmatchcase : String → String → Bool) (reachable projects : Option (List String))
    (r policy : String) (capabilities : List RunnerCapability) (g : Registry) (row : RunnerRow)
    → get_runner r g ≡ some row
    → of_value policy ≡ pass_over
    → peek_matched fnmatchcase reachable r capabilities policy projects g
      ≡ ok (
          head (
            peek_from 0
              (takes fnmatchcase capabilities (offered_project_ids reachable row projects) g.hub)
              (ready_chunks g.hub)
              g.hub))
unfolding peek_matched
peek_matched-head fnmatchcase reachable projects r policy capabilities g row held passes =
    rw (held, peek_matched, passes)
      (cc (
        pass_over-head fnmatchcase capabilities (offered_project_ids reachable row projects) g.hub 0
          projects (ready_chunks g.hub)))
