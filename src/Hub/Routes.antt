-- ===== src/Hub/Routes.antt =====
-- The rest of a route's life: the release that gives a chunk back, and the operator's pause and resume.
use blizzard_mock.Base.{
  ◌↔◌, ◌==◌, ==_true, ==_self, ◌∙◌, ℕ, ◌≡◌, true, false, String, Option, none, some, [], ◌∷◌, ◌++◌,
  arith, string_eq, nat_eq, option_eq, ok, raise_if,
}
use blizzard_mock.Base.Dict.{lookup, lookup-insert_self}
use blizzard_mock.Base.Lists.{length}
use blizzard_mock.Base.Keyed.{key-lookup}
use blizzard_mock.Hub.Models.{ChunkState, ready, running}
use blizzard_mock.Hub.Chunk.{Refusal, refuse_release, is_paused, is_pausable, status_if_paused}
use blizzard_mock.Hub.Chunk as Chunk
use blizzard_mock.Hub.State.{Hub, put_chunk}
use blizzard_mock.Hub.Service.Guards.{require, lift}
use blizzard_mock.Hub.Service.Route.{
  release, enforce_route_token, pause_chunk, resume_chunk, paused_chunk, resumed_chunk,
}
use blizzard_mock.Hub.Evolution.{IsWellFormed, id_of}
use blizzard_mock.Hub.Passing.{
  Passes, past, past_write, Passes-require, Passes-lift, Passes-raise_if,
}

-- The chunk as a release gives it back.
abbrev pub given_back : ChunkState → String → ℕ → String → ChunkState
given_back c r epoch reason = record c {
  claimed = false;
  route_runner_id = none;
  route_workspace_id = none;
  route_environment_ids = [];
  status = ready;
  releases = c.releases ++ record { runner_id = r; epoch = epoch; reason = reason } ∷ [];
  live_route_token = none;
}

Passes-enforce_route_token :
    (k : String) (c : ChunkState) (r : String) (token : Option String)
    → Passes (enforce_route_token k c r token) (λ _ _. Unit {0})
unfolding enforce_route_token
Passes-enforce_route_token k c r token = record { passed = λ h a h' e. ground arith }

is_runner_iff :
    (c : ChunkState) (r : String)
    → ((c.route_runner_id == some r) ≡ true) ↔ (c.route_runner_id ≡ some r)
is_runner_iff c r = (==_true c.route_runner_id (some r), λ e. rw e (==_self (some r)))

pub release_held :
    (c c' : ChunkState) (r : String) (epoch n : ℕ) (reason : String)
    → Chunk.release c r epoch reason ≡ ok (c', n)
    → (c.claimed ≡ true)
      × (c.route_runner_id ≡ some r)
      × (c.status ≡ running)
      × (epoch ≡ c.latest_epoch)
      × (record c' { live_route_token = none } ≡ given_back c r epoch reason)
      × (n ≡ length (given_back c r epoch reason).releases)
unfolding Chunk.release refuse_release
release_held c c' r epoch n reason e = ground (arith, is_runner_iff c r)

paused_id : (c : ChunkState) → (paused_chunk c).chunk_id ≡ c.chunk_id
unfolding paused_chunk
paused_id c = ground arith

resumed_paused :
    (c : ChunkState)
    → is_paused c.status ≡ false
    → resumed_chunk (paused_chunk c) ≡ record c { status_before_pause = none }
unfolding resumed_chunk paused_chunk status_if_paused
resumed_paused c live = ground arith

module _ (k : String) (h h' : Hub) where
  -- A release that is accepted came from the runner that holds the chunk's running route, with exactly
  -- the fence's epoch; it leaves the hub as it was, except that the chunk is ready, unclaimed and
  -- without a live token, with the release recorded last, under the number answered.
  pub release_gives_back :
      (r reason : String) (epoch n : ℕ) (token : Option String)
      → release k r epoch reason token h ≡ (ok n, h')
      → (c : ChunkState) × (lookup k h.chunks ≡ some c)
        × (c.claimed ≡ true)
        × (c.route_runner_id ≡ some r)
        × (c.status ≡ running)
        × (epoch ≡ c.latest_epoch)
        × (h' ≡ put_chunk (given_back c r epoch reason) h)
        × (n ≡ length (given_back c r epoch reason).releases)
  unfolding release
  release_gives_back r reason epoch n token e =
      let (c, found, e1) = past (require k) _ (Passes-require k) h h' n e in
      let (_, _, e2) =
        past (enforce_route_token k c r token) _ (Passes-enforce_route_token k c r token) h h' n
          e1 in
      let ((c', m), freed, e3) =
        past (lift (Chunk.release c r epoch reason)) _
          (Passes-lift (Chunk.release c r epoch reason)) h h' n e2 in
      let (held, holder, was, fenced, back, number) = release_held c c' r epoch m reason freed in
      let e4 = past_write _ _ h h' n e3 in
      (c, found, held, holder, was, fenced, ground (arith, back), ground (arith, number))

  -- A pause that is accepted on a chunk of a well-formed hub that was not paused, and the resume after
  -- it, leave the chunk as it was, its status included, with no status recorded from before a pause.
  pub pause_resume :
      (h2 : Hub) (c : ChunkState)
      → IsWellFormed h.chunks
      → lookup k h.chunks ≡ some c
      → is_paused c.status ≡ false
      → pause_chunk k h ≡ (ok tt, h')
      → resume_chunk k h' ≡ (ok tt, h2)
      → lookup k h2.chunks ≡ some (record c { status_before_pause = none })
  unfolding pause_chunk resume_chunk
  pause_resume h2 c wf found live paused resumed =
      let (c1, found1, e1) = past (require k) _ (Passes-require k) h h' tt paused in
      let (_, pausable, e2) = past (raise_if _ _) _ (Passes-raise_if _ _) h h' tt e1 in
      let (c2, found2, e3) = past (require k) _ (Passes-require k) h' h2 tt resumed in
      let first : c1 ≡ c = ground (arith, found1, found) in
      let left : h' ≡ put_chunk (paused_chunk c) h = ground (arith, first) in
      let same : (paused_chunk c).chunk_id ≡ k =
        paused_id c ∙ key-lookup id_of k h.chunks c wf.keyed found in
      let second : c2 ≡ paused_chunk c =
        ground (arith, found2, left, same, lookup-insert_self k (paused_chunk c) h.chunks) in
      let after : h2 ≡ put_chunk (resumed_chunk c2) h' = ground arith in
      let back : resumed_chunk c2 ≡ record c { status_before_pause = none } =
        cc (second, resumed_paused c live) in
      let same2 : (resumed_chunk c2).chunk_id ≡ k = ground (arith, back, same, paused_id c) in
      ground (arith, after, back, same2, lookup-insert_self k (resumed_chunk c2) h'.chunks)
