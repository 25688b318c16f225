-- ===== src/Hub/Moves.antt =====
-- What a completion does to a chunk: it keeps the invariant, and it advances along an edge of the graph.
use blizzard_mock.Base.{
  ℕ, ◌≡◌, ◌≢◌, err, String, none, arith, string_eq, nat_eq, pair_eq, option_eq, ok,
}
use blizzard_mock.Base.Dict.{lookup, lookup-insert_new}
use blizzard_mock.Hub.Models.{ChunkState, ApplyResponse}
use blizzard_mock.Hub.Chunk.{node}
use blizzard_mock.Hub.State.{Hub}
use blizzard_mock.Hub.Service.Guards.{HubError, envelope}
use blizzard_mock.Hub.Service.Apply.{advance, record_applied}
use blizzard_mock.Hub.Coherent.{Keeps}

advance-applied :
    (c moved : ChunkState) (target : String) (h : Hub) (response : ApplyResponse)
    → advance c target h ≡ ok (response, moved)
    → moved.applied ≡ c.applied
unfolding advance node
advance-applied c moved target h response e = ground arith

-- The chunk after a completion is written, on every branch of `_advance`.
pub recorded-Keeps :
    (c moved : ChunkState) (target from_node_id : String) (epoch : ℕ) (h : Hub)
    (response : ApplyResponse)
    → lookup (from_node_id, epoch) c.applied ≡ none
    → advance c target h ≡ ok (response, moved)
    → Keeps c (record_applied moved from_node_id epoch response)
unfolding advance record_applied node
recorded-Keeps c moved target from_node_id epoch h response fresh e = record {
  advances = record {
    same_id = ground arith;
    same_nodes = ground arith;
    same_entry = ground arith;
    fence = ground arith;
    applied = λ k o found.
        lookup-insert_new (from_node_id, epoch) k response.outcome o moved.applied
          (rw (advance-applied c moved target h response e) fresh)
          (rw (advance-applied c moved target h response e) found);
  };
  coherent = λ h. ground arith;
}

-- `_advance` never raises: the node whose envelope it builds is the one that it has just looked up.
pub advance_total :
    (c : ChunkState) (target : String) (h : Hub) (e : HubError) → advance c target h ≢ err e
unfolding advance node envelope
advance_total c target h e = ground arith
