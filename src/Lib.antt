-- ===== src/Lib.antt =====
-- Verification library of the mock fleet: the doubles that stand in for a chunk hub, a runner
-- and a forge.
--
-- The program's parts, and the files that model them:
--  * src/blizzard_mock/levers.py, the shared lever primitive (`Lever`, `InMemoryLeverStore`): Levers.
--  * src/blizzard_mock/clock.py, the injected clock (`FixedClock`, `ControlledClock`): Clock.
--  * src/blizzard_mock/mock_hub, the hub: Hub. Its chunk rules (domain/models.py) are Hub/Models and
--    Hub/Chunk, its rows and maps (domain/state.py, internal/state_store.py) Hub/State, its lever
--    vocabulary Hub/Levers, the capability matching (domain/matching.py) Hub/Matching, and the chunk
--    service (`MockHubService` of domain/service.py) Hub/Service: the guards and `_envelope` in Guards,
--    `claim`, `rekey_route_token`, `release`, `pause_chunk`, `resume_chunk`, `stop_chunk` in Route,
--    `apply_completion`, `apply_decision`, `hub_advance`, `pop_drop_ack` in Apply, and `ingest_facts`
--    with `_apply_fact` in Facts, `retire_host_runner` in Retire (its loop over the chunks read in
--    Hub/Retiring). The transcript lane (`ingest_transcripts`, `lease_transcript_owner`,
--    `lease_transcript`) is Hub/Transcripts, the registry of tenants, projects and runners with their
--    bearer tokens Hub/Registry, the queue that runners peek at (`peek`, `peek_matched`) Hub/Peek, and
--    questions with their answers Hub/Questions. The fleet's routes that claim, complete, decide and
--    push facts, with their middleware, dependencies and refusals (api/routes.py, api/deps.py,
--    api/middleware.py) are Hub/Api. Hub/Run runs requests one after another, and Hub/Lock is the
--    abstract view of a chunk as a lock with a fence, as a relation on each request.
--  * src/blizzard_mock/mock_runner/domain, the runner that drives a hub: Runner. Its data are
--    Runner/Models, the gateway seam (domain/gateway.py) Runner/Gateway, and `MockRunnerService`
--    (domain/service.py) Runner/Service: its levers and pushes in Base, registering, claiming,
--    completing and deciding in Leases, facts and transcripts in Reports. Runner/Drive is a run of its
--    verbs.
--  * src/blizzard_mock/forge, the forge: Forge. Its entities and exceptions are Forge/Models, its
--    levers and their store Forge/Levers, the rate ledger Forge/Rate, the metadata and check-run
--    stores Forge/State, the git seam Forge/Git, and the service (domain/service.py) Forge/Service
--    with its children Issues, Pulls, Merging, Checks and Refs.
--
-- How they interact: the hub's service consults the lever store before its guards, and a lever that it
-- finds may refuse or replay a request and is consumed; it reads the clock for timestamps. The runner
-- calls a hub through its gateway, a record of operations over the hub's side, and its levers distort
-- what it sends. The forge's
-- service asks the git backend, writes the metadata store, and bends its answers by its own levers.
--
-- How state is modelled: a method is a function from the state to a result and the state after it
-- (Base/Monad), so that what was written before an exception stays written. A Python dict is an
-- association list in insertion order (Base/Dict). An object that the source mutates in place and puts
-- back is written back by one `put`; where an exception can fall between two such writes
-- (`_freeze` of the forge), each write is its own step. A key of the applied completions, the text
-- "node#epoch" in the source, is the pair. Signed Python ints that can go below zero are a type over the
-- native numbers (Base/Int); clock readings are numbers. Exceptions and details carry what the source
-- quotes, not the sentence around it; the forge's exceptions carry no text.
--
-- Fuel: the walk over a chunk's graph (`_reachable_runner_node_ids`) runs on two more than the number of
-- choices of the graph, since each node's choices are pushed at most once and each
-- round pops one id (Hub/Matching/Reach). Every other loop is structural.
--
-- Code that is not the repository's is a parameter: `fnmatch.fnmatchcase`, the size of a text that
-- `json.dumps` makes, the hashes that number check
-- runs, `str.strip` (of an issue's title as a test
-- of blankness, of a runner's name as a function), and git itself as the record `GitBackend`. An argument that
-- the source takes apart as a text is given taken apart: the branch of `refs/heads/<branch>` in
-- `create_ref`, and the owner and name of the action levers' repository.
--
-- Not modelled: the hub's other routes and wire shapes, its views (detail, summaries, garden,
-- analytics), the registry of hosts, the HTTP client behind the
-- runner's gateway, the git backend (subprocesses), and the other doubles (harnesses, identity provider,
-- data seeding), which are process and file glue around these rules. Waiting, under a delay lever, only
-- takes time and is left out.
pub mod Base
pub mod Levers
pub mod Clock
pub mod Hub
pub mod Runner
pub mod Forge
