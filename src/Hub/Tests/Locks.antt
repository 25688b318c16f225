-- ===== src/Hub/Tests/Locks.antt =====
-- Instances of the theorems on locks and refusals.
use blizzard_mock.Base.{◌≡◌, ◌≢◌, refl, none, some, List, [], ◌∷◌, arith, string_eq}
use blizzard_mock.Base.Dict.{lookup}
use blizzard_mock.Hub.Models.{ChunkState}
use blizzard_mock.Hub.State.{Hub}
use blizzard_mock.Hub.Run.{
  Request, claim_route, release_route, complete, serve, run, serve-IsWellFormed,
}
use blizzard_mock.Hub.Lock.{lock_of}
use blizzard_mock.Hub.Lock.Refines.{serve-Refines}
use blizzard_mock.Hub.Lock.Writes.{Refines}
use blizzard_mock.Hub.Lock.Tenure.{held_until}
use blizzard_mock.Hub.Refusals.{claim_route_refused}
use blizzard_mock.Hub.Api as Api
use blizzard_mock.Base.{true, false, ok, err}
use blizzard_mock.Hub.Service.Retire.{
  retire_host_runner, held_ids, retire_under_lever, retire_and_free, runner_holds_routes,
}
use blizzard_mock.Hub.Tests.{
  row, program, chunk, start, same_text, start-IsWellFormed, IsWellFormed, claimed_by,
}

abbrev taking : Request
taking = claim_route "ch_1" "r_1" "ws" []

serve-Refines_example : Refines taking start.chunks (serve same_text taking start).chunks
serve-Refines_example = serve-Refines same_text taking start start-IsWellFormed

-- The hub once the chunk was claimed, and requests of others and a late release.
abbrev mine : Hub
mine = serve same_text taking start

mine-IsWellFormed : IsWellFormed mine.chunks
mine-IsWellFormed = serve-IsWellFormed same_text taking start start-IsWellFormed

abbrev others : List Request
others =
    claim_route "ch_1" "r_2" "ws" []
    ∷ release_route "ch_1" "r_1" 1 "late" none
    ∷ release_route "ch_1" "r_2" 2 "foreign" none
    ∷ complete "ch_1" 2 "build" "pass"
    ∷ []

abbrev my_chunk : ChunkState
my_chunk = claimed_by chunk "r_1" "ws" []

mine_found : lookup "ch_1" mine.chunks ≡ some my_chunk
unfolding program
mine_found = refl

-- The same hub where the runner stands under a host.
abbrev hosted : Hub
hosted = record mine { runners = ("r_1", record row { host_id = some "host" }) ∷ [] }

-- A host retires a runner that holds a chunk only by force, which frees the chunk.
unforced :
    (retire_host_runner "host" "r_1" false hosted).0 ≡ err (runner_holds_routes ("ch_1" ∷ []))
unfolding program retire_host_runner held_ids
unforced = refl

forced : (retire_host_runner "host" "r_1" true hosted).0 ≡ ok ("ch_1" ∷ [])
unfolding program retire_host_runner held_ids retire_under_lever retire_and_free
forced = refl

held_until_example :
    (c : ChunkState) × (lookup "ch_1" (run same_text others mine).chunks ≡ some c)
    × ((lock_of c).holder ≡ some "r_1")
unfolding program lock_of
held_until_example =
    held_until same_text "ch_1" "r_1" others mine my_chunk mine-IsWellFormed mine_found refl
      (refl, (refl, (refl, (refl, tt))))

not_created : (Api.claim_route same_text "r_9" "ch_1" "ws" [] start).0.status ≢ 201
unfolding program Api.claim_route Api.dispatch Api.get_principal
not_created = ground arith

claim_route_refused_example :
    (Api.claim_route same_text "r_9" "ch_1" "ws" [] start).1.chunks ≡ start.chunks
claim_route_refused_example =
    claim_route_refused same_text "ch_1" "r_9" "ws" [] start start-IsWellFormed not_created
