-- ===== src/Hub/Frames.antt =====
-- How the service's handlers touch the chunk map: the checks leave it alone, and a handler leaves it
-- alone or writes back one chunk that it has read, related to what it read.
use mathlib.Core.Path.{subst}
use blizzard_mock.Base.{
  ◌≡◌, refl, sym, ◌⊎◌, inl, inr, Bool, true, false, String, none, some, arith, string_eq, Result,
  ok, err, ◌>>=◌, ◌>>◌, raise_if, modify, Option-cases,
}
use blizzard_mock.Base.Dict.{Dict, lookup, insert}
use blizzard_mock.Hub.Models.{ChunkState}
use blizzard_mock.Hub.Chunk.{Refusal}
use blizzard_mock.Hub.State.{Hub, put_chunk, get_chunk}
use blizzard_mock.Hub.Levers.{HubLever}
use blizzard_mock.Hub.Service.Guards.{
  HubError, chunk_not_found, Handler, lift, require, check_pinned_graph, refuse_retired_runner,
  refuse_by_claim_lever, refuse_braked_runner, refuse_dependency,
}

-- The handler leaves the chunk map alone.
pub record Quiet {A : Type 0} (m : Handler A) : Type 0 where
  pub chunks : (h : Hub) → (m h).1.chunks ≡ h.chunks

pub Quiet-require : (chunk_id : String) → Quiet (require chunk_id)
unfolding require
Quiet-require chunk_id = record { chunks = λ h. ground arith }

pub Quiet-check_pinned_graph : (chunk_id : String) → Quiet (check_pinned_graph chunk_id)
unfolding check_pinned_graph
Quiet-check_pinned_graph chunk_id = record { chunks = λ h. ground arith }

pub Quiet-refuse_retired_runner : (runner_id : String) → Quiet (refuse_retired_runner runner_id)
unfolding refuse_retired_runner
Quiet-refuse_retired_runner runner_id = record { chunks = λ h. ground arith }

pub Quiet-refuse_by_claim_lever :
    (kind : HubLever) (chunk_id runner_id : String)
    → Quiet (refuse_by_claim_lever kind chunk_id runner_id)
unfolding refuse_by_claim_lever
Quiet-refuse_by_claim_lever kind chunk_id runner_id = record { chunks = λ h. ground arith }

pub Quiet-refuse_braked_runner : (runner_id : String) → Quiet (refuse_braked_runner runner_id)
unfolding refuse_braked_runner
Quiet-refuse_braked_runner runner_id = record { chunks = λ h. ground arith }

pub Quiet-refuse_dependency : (chunk_id : String) → Quiet (refuse_dependency chunk_id)
unfolding refuse_dependency
Quiet-refuse_dependency chunk_id = record { chunks = λ h. ground arith }

pub Quiet-lift : {A : Type 0} (r : Result Refusal A) → Quiet (lift r)
Quiet-lift (ok a) = record { chunks = λ h. refl }
Quiet-lift (err e) = record { chunks = λ h. refl }

pub Quiet-raise_if : (b : Bool) (e : HubError) → Quiet (raise_if b e)
Quiet-raise_if true e = record { chunks = λ h. refl }
Quiet-raise_if false e = record { chunks = λ h. refl }

pub require_missing :
    (chunk_id : String) (h : Hub)
    → lookup chunk_id h.chunks ≡ none
    → require chunk_id h ≡ (err chunk_not_found, h)
unfolding require get_chunk
require_missing chunk_id h e = ground arith

pub require_found :
    (chunk_id : String) (h : Hub) {c : ChunkState}
    → lookup chunk_id h.chunks ≡ some c
    → require chunk_id h ≡ (ok c, h)
unfolding require get_chunk
require_found chunk_id h e = ground arith

module _ (R : ChunkState → ChunkState → Type 0) where
  -- From a hub with these chunks, of which `c` is one, the handler leaves the chunks alone or writes
  -- back one chunk that `R` relates to `c`.
  abbrev pub Writes : ChunkState → Dict String ChunkState → Dict String ChunkState → Type 0
  Writes c before after =
      (after ≡ before) ⊎ ((c' : ChunkState) × R c c' × (after ≡ insert c'.chunk_id c' before))

  pub record Updates {A : Type 0} (c : ChunkState) (m : Handler A) : Type 0 where
    pub writes : (h : Hub) → Writes c h.chunks (m h).1.chunks

  -- A handler for a chunk id: it changes no chunk, or the chunk of that id.
  pub record Touches {A : Type 0} (chunk_id : String) (m : Handler A) : Type 0 where
    pub touched :
        (h : Hub)
        → ((m h).1.chunks ≡ h.chunks)
          ⊎ ((c : ChunkState) × (lookup chunk_id h.chunks ≡ some c)
              × Writes c h.chunks (m h).1.chunks)

  Writes-after :
      {A B : Type 0} (c : ChunkState) (r : Result HubError A) (h' : Hub) (f : A → Handler B)
      (before : Dict String ChunkState)
      → h'.chunks ≡ before
      → ((a : A) → Updates c (f a))
      → Writes c before (((λ h. (r, h)) >>= f) h').1.chunks
  unfolding ◌>>=◌
  Writes-after c (ok a) h' f before same rest =
      subst (λ b. Writes c b (f a h').1.chunks) same ((rest a).writes h')
  Writes-after c (err e) h' f before same rest = inl same

  -- A quiet step first: the rest still sees the chunks as they were.
  pub Updates->>= :
      {A B : Type 0} (c : ChunkState) (m : Handler A) (f : A → Handler B)
      → Quiet m
      → ((a : A) → Updates c (f a))
      → Updates c (m >>= f)
  unfolding ◌>>=◌
  Updates->>= c m f quiet rest = record {
    writes = λ h. Writes-after c (m h).0 (m h).1 f h.chunks (quiet.chunks h) rest;
  }

  pub Updates->> :
      {B : Type 0} (c : ChunkState) (m : Handler (Unit {0})) (k : Handler B)
      → Quiet m
      → Updates c k
      → Updates c (m >> k)
  Updates->> c m k quiet rest = Updates->>= c m (λ _. k) quiet (λ _. rest)

  -- A check of the chunk's own rules: the rest runs where it passed.
  pub Updates-lift :
      {A B : Type 0} (c : ChunkState) (r : Result Refusal A) (f : A → Handler B)
      → ((a : A) → r ≡ ok a → Updates c (f a))
      → Updates c (lift r >>= f)
  unfolding ◌>>=◌
  Updates-lift c (ok a) f rest = record { writes = λ h. (rest a refl).writes h }
  Updates-lift c (err e) f rest = record { writes = λ h. inl refl }

  pub Updates-check :
      {B : Type 0} (c : ChunkState) (r : Result Refusal (Unit {0})) (k : Handler B)
      → (r ≡ ok tt → Updates c k)
      → Updates c (lift r >> k)
  Updates-check c r k rest = Updates-lift c r (λ _. k) (λ a e. rest e)

  pub Updates-raise_if :
      {B : Type 0} (c : ChunkState) (b : Bool) (e : HubError) (k : Handler B)
      → (b ≡ false → Updates c k)
      → Updates c (raise_if b e >> k)
  unfolding ◌>>=◌
  Updates-raise_if c true e k rest = record { writes = λ h. inl refl }
  Updates-raise_if c false e k rest = record { writes = λ h. (rest refl).writes h }

  -- The write, and a quiet rest.
  pub Updates-put :
      {B : Type 0} (c c' : ChunkState) (k : Handler B)
      → R c c'
      → Quiet k
      → Updates c (modify (put_chunk c') >> k)
  unfolding ◌>>=◌
  Updates-put c c' k related quiet = record {
    writes = λ h. inr (c', related, quiet.chunks (put_chunk c' h));
  }

  -- A handler that begins by reading its chunk.
  pub Touches-require :
      {B : Type 0} (chunk_id : String) (f : ChunkState → Handler B)
      → ((c : ChunkState) → Updates c (f c))
      → Touches chunk_id (require chunk_id >>= f)
  unfolding ◌>>=◌
  Touches-require chunk_id f each = record {
    touched = λ h. elim (Option-cases (lookup chunk_id h.chunks)) [
      | inl missing ↦ inl (
          subst (λ rs. (((λ _. rs) >>= f) h).1.chunks ≡ h.chunks)
            (sym (require_missing chunk_id h missing)) refl)
      | inr (c, found) ↦ inr (
        c,
        found,
        subst (λ rs. Writes c h.chunks (((λ _. rs) >>= f) h).1.chunks)
            (sym (require_found chunk_id h found)) ((each c).writes h),
      )
    ];
  }
