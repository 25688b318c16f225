-- ===== src/Hub/Evolution.antt =====
-- How the chunks of a hub evolve under a write of one chunk, and under a batch of facts.
use mathlib.Core.Path.{subst}
use blizzard_mock.Hub.FactWrites.{ingest_facts-chunks}
use blizzard_mock.Hub.Service.Guards.{Handler}
use blizzard_mock.Hub.Service.Facts.{ingest_facts, SeqFact, fenced}
use blizzard_mock.Base.{
  Option-cases, ◌≡◌, refl, inl, inr, String, some, List, arith, string_eq, Bool-cases, ◌==◌,
  ==_true,
}
use blizzard_mock.Base.Dict.{Dict, lookup, insert, lookup-insert, map_values, lookup-map_values}
use blizzard_mock.Base.Keyed.{IsKeyed, map_values-IsKeyed, insert-IsKeyed, key-lookup}
use blizzard_mock.Hub.Models.{ChunkState}
use blizzard_mock.Hub.State.{Hub, RunnerRow}
use blizzard_mock.Hub.Coherent.{IsCoherent, Advances, Keeps, fenced-Keeps, escalated-Keeps}
use blizzard_mock.Hub.Frames.{Writes, Touches}

abbrev pub id_of : ChunkState → String
id_of c = c.chunk_id

-- Every chunk is filed under its id, once, and is coherent.
pub record IsWellFormed (chunks : Dict String ChunkState) : Type 0 where
  pub keyed : IsKeyed id_of chunks
  pub coherent : (k : String) (c : ChunkState) → lookup k chunks ≡ some c → IsCoherent c

-- Every chunk is still there, on the same graph, with a fence no lower, and with every completion
-- that was applied still applied with its outcome.
abbrev pub Continues : Dict String ChunkState → Dict String ChunkState → Type 0
Continues before after =
    (k : String) (c : ChunkState)
    → lookup k before ≡ some c
    → (c' : ChunkState) × (lookup k after ≡ some c') × Advances c c'

pub record Evolves (before after : Dict String ChunkState) : Type 0 where
  pub well_formed : IsWellFormed before → IsWellFormed after
  pub continues : IsWellFormed before → Continues before after

Advances-self : (c : ChunkState) → Advances c c
Advances-self c = record {
  same_id = refl;
  same_nodes = refl;
  same_entry = refl;
  fence = omega arith;
  applied = λ k o e. e;
}

Advances-trans : {a b c : ChunkState} → Advances a b → Advances b c → Advances a c
Advances-trans p q = record {
  same_id = cc (p.same_id, q.same_id);
  same_nodes = cc (p.same_nodes, q.same_nodes);
  same_entry = cc (p.same_entry, q.same_entry);
  fence = omega (arith, p.fence, q.fence);
  applied = λ k o e. q.applied k o (p.applied k o e);
}

pub Evolves-same : (before after : Dict String ChunkState) → after ≡ before → Evolves before after
Evolves-same before after e = record {
  well_formed = λ h. rw e h;
  continues = λ h k c found. (c, rw e found, Advances-self c);
}

pub Evolves-trans : {a b c : Dict String ChunkState} → Evolves a b → Evolves b c → Evolves a c
Evolves-trans p q = record {
  well_formed = λ h. q.well_formed (p.well_formed h);
  continues = λ h k c found.
      let (c1, found1, step1) = p.continues h k c found in
      let (c2, found2, step2) = q.continues (p.well_formed h) k c1 found1 in
      (c2, found2, Advances-trans step1 step2);
}

module _ (k : String) (c c' : ChunkState) (chunks : Dict String ChunkState)
    (h : IsWellFormed chunks) (found : lookup k chunks ≡ some c) (kept : Keeps c c') where
  id_of_new : c'.chunk_id ≡ k
  id_of_new = cc (kept.advances.same_id, key-lookup id_of k chunks c h.keyed found)

  written-IsCoherent :
      (j : String) (d : ChunkState)
      → lookup j (insert c'.chunk_id c' chunks) ≡ some d
      → IsCoherent d
  written-IsCoherent j d e = elim (Bool-cases (c'.chunk_id == j)) [
    | inl this ↦
        let same : c' ≡ d = ground (arith, lookup-insert c'.chunk_id j c' chunks) in
        subst IsCoherent same (kept.coherent (h.coherent k c found))
    | inr other ↦ h.coherent j d (ground (arith, lookup-insert c'.chunk_id j c' chunks))
  ]

  written-Continues : Continues chunks (insert c'.chunk_id c' chunks)
  written-Continues j d e = elim (Bool-cases (c'.chunk_id == j)) [
    | inl this ↦
        let here : j ≡ k = cc (id_of_new, ==_true c'.chunk_id j this) in
        let same : c ≡ d = ground (arith, found) in
        (
          c',
          ground (arith, lookup-insert c'.chunk_id j c' chunks),
          subst (λ x. Advances x c') same kept.advances,
        )
    | inr other ↦ (d, ground (arith, lookup-insert c'.chunk_id j c' chunks), Advances-self d)
  ]

pub Evolves-written :
    (k : String) (c : ChunkState) (before after : Dict String ChunkState)
    → lookup k before ≡ some c
    → Writes Keeps c before after
    → Evolves before after
Evolves-written k c before after found (inl same) = Evolves-same before after same
Evolves-written k c before after found (inr (c', kept, written)) = record {
  well_formed = λ h. rw written (record {
    keyed = insert-IsKeyed id_of c' before h.keyed;
    coherent = written-IsCoherent k c c' before h found kept;
  });
  continues = λ h. rw written (written-Continues k c c' before h found kept);
}

pub Evolves-touched :
    {A : Type 0} (k : String) (m : Handler A) (h : Hub)
    → Touches Keeps k m
    → Evolves h.chunks (m h).1.chunks
Evolves-touched k m h t = elim (t.touched h) [
  | inl same ↦ Evolves-same h.chunks (m h).1.chunks same
  | inr (c, found, w) ↦ Evolves-written k c h.chunks (m h).1.chunks found w
]

-- Every chunk changed in its place, keeping its invariant and its history.
pub Evolves-mapped :
    (f : ChunkState → ChunkState) (chunks : Dict String ChunkState)
    → ((c : ChunkState) → Keeps c (f c))
    → Evolves chunks (map_values f chunks)
Evolves-mapped f chunks keeps = record {
  well_formed = λ h. record {
    keyed = map_values-IsKeyed id_of f chunks (λ c. (keeps c).advances.same_id) h.keyed;
    coherent = λ k d found. elim (Option-cases (lookup k chunks)) [
      | inl absent ↦ ground (arith, found, absent, lookup-map_values f k chunks)
      | inr (c, held) ↦
          let same : f c ≡ d = ground (arith, found, held, lookup-map_values f k chunks) in
          subst IsCoherent same ((keeps c).coherent (h.coherent k c held))
    ];
  };
  continues =
      λ h k c found. (f c, ground (arith, found, lookup-map_values f k chunks), (keeps c).advances);
}

pub ingest_facts-Evolves :
    (row : RunnerRow) (facts : List SeqFact) (h : Hub)
    → Evolves h.chunks (ingest_facts row facts h).1.chunks
unfolding fenced
ingest_facts-Evolves =
    ingest_facts-chunks Evolves Evolves-same (λ a b c p q. Evolves-trans p q)
      (λ k c epoch before found.
        Evolves-written k c before _ found (inr (fenced c epoch, fenced-Keeps c epoch, refl)))
      (λ k c e before found.
        Evolves-written k c before _ found (inr (_, escalated-Keeps c e, refl)))
