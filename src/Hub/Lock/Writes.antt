-- ===== src/Hub/Lock/Writes.antt =====
-- The writes of one request, seen as what they do to the lock of a chunk.
use blizzard_mock.Hub.Lock.{Permits, idle}
use blizzard_mock.Hub.Run.{Request}
use mathlib.Core.Path.{subst}
use blizzard_mock.Base.{false, true, Bool, option_eq}
use blizzard_mock.Hub.Service.Retire.{freed_of, taken_back, is_held_by}
use blizzard_mock.Hub.Chunk.{refuse_claim, refuse_release}
use blizzard_mock.Hub.Chunk as Chunk
use blizzard_mock.Hub.Models.{ApplyResponse}
use blizzard_mock.Hub.Service.Route.{
  claimed_by, paused_chunk, rekeyed, resumed_chunk, stopped_chunk,
}
use blizzard_mock.Hub.Service.Apply.{advance, record_applied}
use blizzard_mock.Hub.Lock.{lock_of, Permits, idle, taken, returned, broken, retired}
use blizzard_mock.Hub.Run.{Request, claim_route, release_route, stop, retire_runner}
use blizzard_mock.Hub.Routes.{release_held}
use blizzard_mock.Hub.Models.{ChunkStatus}
use blizzard_mock.Base.{
  ℕ, ◌≡◌, refl, sym, ap, ◌∙◌, String, Option, none, some, List, arith, string_eq, inl, inr, ok,
  Bool-cases, ◌==◌, ==_true,
}
use blizzard_mock.Base.Dict.{Dict, lookup, insert, lookup-insert}
use blizzard_mock.Base.Keyed.{key-lookup}
use blizzard_mock.Hub.Evolution.{IsWellFormed, id_of}
use blizzard_mock.Hub.Frames.{Touches, Writes}
use blizzard_mock.Hub.Models.{ChunkState}
use blizzard_mock.Hub.State.{Hub}
use blizzard_mock.Hub.Service.Guards.{Handler}

-- A write of the chunk `j` by one request: it keeps the id, and changes the lock as the request may.
pub record Locks (j : String) (rq : Request) (c c' : ChunkState) : Type 0 where
  pub same_id : c'.chunk_id ≡ c.chunk_id
  pub permitted : Permits j rq (lock_of c) (lock_of c')

-- Every chunk is still there, and its lock has changed as the request may change it.
abbrev pub Refines : Request → Dict String ChunkState → Dict String ChunkState → Type 0
Refines rq before after =
    (k : String) (c : ChunkState)
    → lookup k before ≡ some c
    → (c' : ChunkState) × (lookup k after ≡ some c') × Permits k rq (lock_of c) (lock_of c')

module _ (rq : Request) where
  pub same-Refines :
      (before after : Dict String ChunkState) → after ≡ before → Refines rq before after
  same-Refines before after same k c found = (c, ap (lookup k) same ∙ found, idle rq (lock_of c))

  pub written-Refines :
      (j : String) (d d' : ChunkState) (chunks : Dict String ChunkState)
      → IsWellFormed chunks
      → lookup j chunks ≡ some d
      → Locks j rq d d'
      → Refines rq chunks (insert d'.chunk_id d' chunks)
  written-Refines j d d' chunks wf here locks k c found = elim (Bool-cases (d'.chunk_id == k)) [
    | inl this ↦
        let id : d.chunk_id ≡ j = key-lookup id_of j chunks d wf.keyed here in
        let own : j ≡ k = sym id ∙ (sym locks.same_id ∙ ==_true d'.chunk_id k this) in
        let same : d ≡ c = ground (arith, here, found, own) in
        (
          d',
          ground (arith, lookup-insert d'.chunk_id k d' chunks),
          subst (λ x. Permits k rq (lock_of x) (lock_of d')) same
              (subst (λ i. Permits i rq (lock_of d) (lock_of d')) own locks.permitted),
        )
    | inr other ↦ (c, ground (arith, lookup-insert d'.chunk_id k d' chunks), idle rq (lock_of c))
  ]

  Writes-Refines :
      (j : String) (d : ChunkState) (before after : Dict String ChunkState)
      → IsWellFormed before
      → lookup j before ≡ some d
      → Writes (Locks j rq) d before after
      → Refines rq before after
  Writes-Refines j d before after wf here (inl same) = same-Refines before after same
  Writes-Refines j d before after wf here (inr (d', locks, written)) =
      subst (Refines rq before) (sym written) (written-Refines j d d' before wf here locks)

  pub touched-Refines :
      {A : Type 0} (j : String) (m : Handler A) (h : Hub)
      → IsWellFormed h.chunks
      → Touches (Locks j rq) j m
      → Refines rq h.chunks (m h).1.chunks
  touched-Refines j m h wf t = elim (t.touched h) [
    | inl same ↦ same-Refines h.chunks (m h).1.chunks same
    | inr (d, here, w) ↦ Writes-Refines j d h.chunks (m h).1.chunks wf here w
  ]

-- The writes.
module _ (k : String) (c : ChunkState) where
  pub still :
      (rq : Request) (c' : ChunkState)
      → c'.chunk_id ≡ c.chunk_id
      → lock_of c' ≡ lock_of c
      → Locks k rq c c'
  still rq c' same lock = record {
    same_id = same;
    permitted = subst (Permits k rq (lock_of c)) (sym lock) (idle rq (lock_of c));
  }

  pub claimed-Locks :
      (r w : String) (envs : List String)
      → refuse_claim c ≡ ok tt
      → Locks k (claim_route k r w envs) c (claimed_by c r w envs)
  unfolding lock_of claimed_by refuse_claim
  claimed-Locks r w envs free =
      let unheld : c.claimed ≡ false = ground arith in
      record { same_id = refl; permitted = rw unheld (taken r w envs c.latest_epoch) }

  pub released-Locks :
      (r : String) (epoch : ℕ) (reason : String) (token : Option String) (given : ChunkState × ℕ)
      → Chunk.release c r epoch reason ≡ ok given
      → Locks k
          (release_route k r epoch reason token)
          c
          (record given.0 { live_route_token = none })
  unfolding lock_of
  released-Locks r epoch reason token (c', n) e =
      let (held, by, _, current, left, _) = release_held c c' r epoch n reason e in
      subst (Locks k (release_route k r epoch reason token) c) (sym left) (record {
        same_id = refl;
        permitted = rw (held, by, current) (returned r c.latest_epoch reason token);
      })

  pub recorded-Locks :
      (rq : Request) (moved : ChunkState) (target from_node_id : String) (epoch : ℕ) (h : Hub)
      (response : ApplyResponse)
      → advance c target h ≡ ok (response, moved)
      → Locks k rq c (record_applied moved from_node_id epoch response)
  unfolding lock_of advance record_applied
  recorded-Locks rq moved target from_node_id epoch h response e =
      still rq _ (ground arith) (ground arith)

  pub freed-Permits :
      (host r : String) (force : Bool)
      → Permits k (retire_runner host r force) (lock_of c) (lock_of (freed_of r c))
  unfolding lock_of freed_of taken_back
  freed-Permits host r force = elim (Bool-cases (is_held_by r c)) [
    | inl held ↦
        let claimed : c.claimed ≡ true = ground (arith, held) in
        let by : c.route_runner_id ≡ some r =
          ==_true c.route_runner_id (some r) (ground (arith, held)) in
        rw (held, claimed, by) (retired host r force c.latest_epoch)
    | inr free ↦ rw free (idle (retire_runner host r force) (lock_of c))
  ]

  pub rekeyed-Locks : (rq : Request) → Locks k rq c (rekeyed c)
  unfolding lock_of rekeyed
  rekeyed-Locks rq = still rq _ refl refl

  pub status-Locks : (rq : Request) (s : ChunkStatus) → Locks k rq c (record c { status = s })
  unfolding lock_of
  status-Locks rq s = still rq _ refl refl

  pub paused-Locks : (rq : Request) → Locks k rq c (paused_chunk c)
  unfolding paused_chunk lock_of
  paused-Locks rq = still rq _ (ground arith) (ground arith)

  pub resumed-Locks : (rq : Request) → Locks k rq c (resumed_chunk c)
  unfolding resumed_chunk lock_of
  resumed-Locks rq = still rq _ refl refl

  pub stopped-Locks : Locks k (stop k) c (stopped_chunk c)
  unfolding stopped_chunk lock_of
  stopped-Locks = record { same_id = refl; permitted = broken (lock_of c) }
