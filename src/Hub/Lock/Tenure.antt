-- ===== src/Hub/Lock/Tenure.antt =====
-- How long a runner holds a chunk, over runs of requests.
use blizzard_mock.Base.{
  ℕ, ◌≤◌, ◌≡◌, Bool, false, ◌&&◌, String, some, List, [], ◌∷◌, arith, string_eq, ◌==◌, leb,
}
use blizzard_mock.Base.Dict.{lookup}
use blizzard_mock.Base.Lists.{All}
use blizzard_mock.Hub.Models.{ChunkState}
use blizzard_mock.Hub.State.{Hub}
use blizzard_mock.Hub.Evolution.{IsWellFormed}
use blizzard_mock.Hub.Run.{
  Request, release_route, stop, retire_runner, serve, run, serve-IsWellFormed,
}
use blizzard_mock.Hub.Lock.{Lock, lock_of, Permits, idle, taken, returned, broken, retired, minted}
use blizzard_mock.Hub.Lock.Refines.{serve-Refines}

-- Does the request end the runner's hold of the chunk, taken no later than this fence? A release
-- with a lower epoch does not.
abbrev pub ends : String → String → ℕ → Request → Bool
ends k r fence (release_route j s epoch reason token) = j == k && (s == r && leb fence epoch)
ends k r fence (stop j) = j == k
ends k r fence (retire_runner host s force) = s == r
ends k r fence rq = false

module _ (k r : String) (fence : ℕ) where
  abbrev Holds : Lock → Type 0
  Holds l = (l.holder ≡ some r) × (fence ≤ l.fence)

  Holds-step :
      {rq : Request} {l l' : Lock}
      → Permits k rq l l'
      → Holds l
      → ends k r fence rq ≡ false
      → Holds l'
  Holds-step (idle rq l) h kept = h
  Holds-step (taken s w envs n) h kept = ground arith
  Holds-step (returned s n reason token) h kept =
      ground (arith, string_eq.beq_iff k k, string_eq.beq_iff s r)
  Holds-step (broken l) h kept = ground (arith, string_eq.beq_iff k k)
  Holds-step (retired host s force n) h kept = ground (arith, string_eq.beq_iff s r)
  Holds-step (minted row facts l n le) (by, above) kept = (by, omega (arith, above, le))

module _ (fnmatchcase : String → String → Bool) (k r : String) (fence : ℕ) where
  Holds-run :
      (rs : List Request) (h : Hub) (c : ChunkState)
      → IsWellFormed h.chunks
      → lookup k h.chunks ≡ some c
      → Holds k r fence (lock_of c)
      → All (λ rq. ends k r fence rq ≡ false) rs
      → (c' : ChunkState) × (lookup k (run fnmatchcase rs h).chunks ≡ some c')
        × Holds k r fence (lock_of c')
  unfolding run
  Holds-run [] h c wf found holds kept = (c, found, holds)
  Holds-run (rq ∷ rs) h c wf found holds (kept, rest) =
      let (c', found', step) = serve-Refines fnmatchcase rq h wf k c found in
      Holds-run rs (serve fnmatchcase rq h) c' (serve-IsWellFormed fnmatchcase rq h wf) found'
        (Holds-step k r fence step holds kept) rest

-- A runner that holds a chunk of a well-formed hub holds it after any run of requests in which neither
-- a stop of the chunk, nor a retirement of the runner by a host, nor a release of the chunk by the
-- runner with an epoch no lower than the chunk's fence at the start, occurs.
pub held_until :
    (fnmatchcase : String → String → Bool) (k r : String) (rs : List Request) (h : Hub)
    (c : ChunkState)
    → IsWellFormed h.chunks
    → lookup k h.chunks ≡ some c
    → (lock_of c).holder ≡ some r
    → All (λ rq. ends k r c.latest_epoch rq ≡ false) rs
    → (c' : ChunkState) × (lookup k (run fnmatchcase rs h).chunks ≡ some c')
      × ((lock_of c').holder ≡ some r)
unfolding lock_of
held_until fnmatchcase k r rs h c wf found by kept =
    let (c', found', holds) =
      Holds-run fnmatchcase k r c.latest_epoch rs h c wf found (by, omega arith) kept in
    (c', found', holds.0)
