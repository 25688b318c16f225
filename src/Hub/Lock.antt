-- ===== src/Hub/Lock.antt =====
-- A chunk's route as a lock with a fence: what each request of Hub/Run may do to it. Nothing of the
-- chunk but its holder and its fence is seen.
pub mod Writes
pub mod Raises
pub mod Refines
pub mod Tenure
use blizzard_mock.Base.{Bool, ℕ, ◌≤◌, String, Option, none, some, List, if◌then◌else◌}
use blizzard_mock.Hub.Models.{ChunkState}
use blizzard_mock.Hub.State.{RunnerRow}
use blizzard_mock.Hub.Service.Facts.{SeqFact}
use blizzard_mock.Hub.Run.{Request, claim_route, release_route, stop, push_facts, retire_runner}

pub record Lock : Type 0 where
  pub holder : Option String
  pub fence : ℕ

unfoldable pub lock_of : ChunkState → Lock
lock_of c = record {
  holder = if c.claimed then c.route_runner_id else none;
  fence = c.latest_epoch;
}

-- The lock of the chunk `k` before and after a request: left alone, taken by the runner that claims
-- it, given back by the runner that holds it at the epoch of the fence, broken by the operator's stop,
-- taken back when a host retires the holder, or fenced higher by facts.
pub data Permits (k : String) : Request → Lock → Lock → Type 0 where
  idle : (rq : Request) (l : Lock) → Permits k rq l l
  taken :
      (r w : String) (envs : List String) (n : ℕ)
      → Permits k
          (claim_route k r w envs)
          (record { holder = none; fence = n })
          (record { holder = some r; fence = n })
  returned :
      (r : String) (n : ℕ) (reason : String) (token : Option String)
      → Permits k
          (release_route k r n reason token)
          (record { holder = some r; fence = n })
          (record { holder = none; fence = n })
  broken : (l : Lock) → Permits k (stop k) l (record l { holder = none })
  retired :
      (host r : String) (force : Bool) (n : ℕ)
      → Permits k
          (retire_runner host r force)
          (record { holder = some r; fence = n })
          (record { holder = none; fence = n })
  minted :
      (row : RunnerRow) (facts : List SeqFact) (l : Lock) (n : ℕ)
      → l.fence ≤ n
      → Permits k (push_facts row facts) l (record l { fence = n })
