-- ===== src/Hub/Coherent.antt =====
-- The invariant of a chunk's row, and that every write of the service keeps it.
use blizzard_mock.Base.{
  Bool-cases, inl, inr, ℕ, ◌≤◌, ◌≡◌, refl, Bool, true, false, ◌&&◌, ◌||◌, String, none, some, List,
  arith, string_eq, option_eq, nat_eq, pair_eq, is_some, get_or, ok,
}
use blizzard_mock.Base.Dict.{lookup}
use blizzard_mock.Hub.Models.{
  ChunkStatus, ready, done, stopped, needs_human, ChunkState, ApplyOutcome, EscalationState,
}
use blizzard_mock.Hub.Chunk.{
  is_ready, is_paused, is_pausable, refuse_claim, refuse_release, release, status_if_paused,
}
use blizzard_mock.Hub.Service.Route.{
  claimed_by, claim_node, rekeyed, paused_chunk, resumed_chunk, stopped_chunk,
}
use blizzard_mock.Hub.Service.Facts.{fenced}
use blizzard_mock.Hub.Service.Retire.{freed_of, taken_back, is_held_by}

-- Done, stopped, or waiting for a human: statuses that a claim never grants.
abbrev pub is_over : ChunkStatus → Bool
is_over done = true
is_over stopped = true
is_over needs_human = true
is_over s = false

-- Does a resume of the chunk make it ready?
abbrev pub resumes_ready : ChunkState → Bool
resumes_ready c = is_paused c.status && is_ready (get_or c.status_before_pause ready)

-- Does the chunk stand at a node of its graph, or at none yet?
abbrev pub at_known_node : ChunkState → Bool
at_known_node c = elim c.current_node_id [ none ↦ true | some n ↦ is_some (lookup n c.nodes) ]

pub record IsCoherent (c : ChunkState) : Type 0 where
  -- the entry is a node of the graph
  pub entry_known : is_some (lookup c.entry c.nodes) ≡ true
  -- a chunk that stands outside its graph is over
  pub current_known : (at_known_node c || is_over c.status) ≡ true
  -- a ready chunk has no live route, and a pause does not hide one from the resume
  pub ready_free : is_ready c.status ≡ true → c.claimed ≡ false
  pub pause_free : resumes_ready c ≡ true → c.claimed ≡ false
  pub before_live : is_paused (get_or c.status_before_pause ready) ≡ false

-- Nothing of a chunk's graph changes, its fence never goes down, and an applied completion stays
-- applied with its outcome.
pub record Advances (c c' : ChunkState) : Type 0 where
  pub same_id : c'.chunk_id ≡ c.chunk_id
  pub same_nodes : c'.nodes ≡ c.nodes
  pub same_entry : c'.entry ≡ c.entry
  pub fence : c.latest_epoch ≤ c'.latest_epoch
  pub applied :
      (k : String × ℕ) (o : ApplyOutcome)
      → lookup k c.applied ≡ some o
      → lookup k c'.applied ≡ some o

pub record Keeps (c c' : ChunkState) : Type 0 where
  pub advances : Advances c c'
  pub coherent : IsCoherent c → IsCoherent c'

Advances-of :
    (c c' : ChunkState)
    → c'.chunk_id ≡ c.chunk_id
    → c'.nodes ≡ c.nodes
    → c'.entry ≡ c.entry
    → c.latest_epoch ≤ c'.latest_epoch
    → c'.applied ≡ c.applied
    → Advances c c'
Advances-of c c' i n e l a = record {
  same_id = i;
  same_nodes = n;
  same_entry = e;
  fence = l;
  applied = λ k o found. rw a found;
}

module _ (c : ChunkState) where
  -- A chunk that a claim may be granted stands, or enters, at a node of its graph.
  pub claim_node-known :
      IsCoherent c → is_ready c.status ≡ true → is_some (lookup (claim_node c) c.nodes) ≡ true
  unfolding claim_node
  claim_node-known h e = ground arith

  pub claimed_by-Keeps :
      (r w : String) (envs : List String) → refuse_claim c ≡ ok tt → Keeps c (claimed_by c r w envs)
  unfolding claimed_by refuse_claim
  claimed_by-Keeps r w envs free = record {
    advances = Advances-of c _ refl refl refl (omega arith) refl;
    coherent = λ h. ground (arith, claim_node-known h);
  }

  pub rekeyed-Keeps : Keeps c (rekeyed c)
  unfolding rekeyed
  rekeyed-Keeps = record {
    advances = Advances-of c _ refl refl refl (omega arith) refl;
    coherent = λ h. ground arith;
  }

  pub release-Keeps :
      (r : String) (epoch : ℕ) (reason : String) {c' : ChunkState} {n : ℕ}
      → release c r epoch reason ≡ ok (c', n)
      → Keeps c (record c' { live_route_token = none })
  unfolding release refuse_release
  release-Keeps r epoch reason {c'} e = record {
    advances = ground (arith, Advances-of c);
    coherent = λ h. ground arith;
  }

  pub paused_chunk-Keeps : is_pausable c.status ≡ true → Keeps c (paused_chunk c)
  unfolding paused_chunk status_if_paused
  paused_chunk-Keeps live = record {
    advances = ground (arith, Advances-of c);
    coherent = λ h. ground arith;
  }

  pub resumed_chunk-Keeps : Keeps c (resumed_chunk c)
  unfolding resumed_chunk
  resumed_chunk-Keeps = record {
    advances = Advances-of c _ refl refl refl (omega arith) refl;
    coherent = λ h. ground arith;
  }

  pub stopped_chunk-Keeps : Keeps c (stopped_chunk c)
  unfolding stopped_chunk
  stopped_chunk-Keeps = record {
    advances = Advances-of c _ refl refl refl (omega arith) refl;
    coherent = λ h. ground arith;
  }

  taken_back-IsCoherent : IsCoherent c → IsCoherent (taken_back c)
  unfolding taken_back
  taken_back-IsCoherent h = ground arith

  pub needs_human-Keeps : Keeps c (record c { status = needs_human })
  needs_human-Keeps = record {
    advances = Advances-of c _ refl refl refl (omega arith) refl;
    coherent = λ h. ground arith;
  }

  pub done-Keeps : Keeps c (record c { status = done })
  done-Keeps = record {
    advances = Advances-of c _ refl refl refl (omega arith) refl;
    coherent = λ h. ground arith;
  }

  pub freed_of-Keeps : (r : String) → Keeps c (freed_of r c)
  unfolding freed_of taken_back
  freed_of-Keeps r = elim (Bool-cases (is_held_by r c)) [
    | inl held ↦
        rw (held, freed_of)
          (record {
            advances = Advances-of c _ refl refl refl (omega arith) refl;
            coherent = λ h. taken_back-IsCoherent h;
          })
    | inr free ↦
        rw (free, freed_of)
          (record {
            advances = Advances-of c c refl refl refl (omega arith) refl;
            coherent = λ h. h;
          })
  ]

  pub escalated-Keeps : (e : EscalationState) → Keeps c (record c { escalation = some e })
  escalated-Keeps e = record {
    advances = Advances-of c _ refl refl refl (omega arith) refl;
    coherent = λ h. ground arith;
  }

  pub fenced-Keeps : (epoch : ℕ) → Keeps c (fenced c epoch)
  unfolding fenced
  fenced-Keeps epoch = record {
    advances = Advances-of c _ refl refl refl (omega arith) refl;
    coherent = λ h. ground arith;
  }
