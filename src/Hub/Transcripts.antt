-- ===== src/Hub/Transcripts.antt =====
-- The transcript lane of the hub service: `ingest_transcripts`. A turn is a text; the size of its JSON is the standard library's.
pub mod ReadBack
pub mod Owners
pub mod Budget
use Prim.Native.String.{compare}
use Prim.Native.Nat.{Ordering}
use blizzard_mock.Base.{
  ℕ, ◌+◌, max, Bool, true, false, not, ◌&&◌, ◌||◌, String, Option, none, some, List, [], ◌∷◌, ◌++◌,
  ◌==◌, string_eq, nat_eq, pair_eq, option_eq, leb, ltb, get_or, is_some, if◌then◌else◌, Result, ok,
  err, map,
}
use blizzard_mock.Base.Dict.{Dict, lookup, insert, remove, values}
use blizzard_mock.Base.Lists.{keep_if, any, all, contains}
use blizzard_mock.Base.Sorting.{sorted}
use blizzard_mock.Hub.Chunk.{ships_from_lease_holder}
use blizzard_mock.Hub.State.{RunnerRow}

pub record SegmentRecord : Type 0 where
  pub seq : ℕ
  pub segment_id : String
  pub chunk_id : String
  pub node_id : String
  pub epoch : ℕ
  pub spawn_generation : ℕ
  pub turn_range_start : ℕ
  pub record_truncated : Bool
  pub supersedes : Option String
  pub turns : List String

pub data KeyState : Type 0 where
  accepted rejected : KeyState

-- (tenant, segment, start of the range); (tenant, chunk, node, epoch); (tenant, chunk, epoch)
abbrev pub Key : Type 0
Key = String × (String × ℕ)

abbrev pub LeaseKey : Type 0
LeaseKey = String × (String × (String × ℕ))

abbrev pub EpochKey : Type 0
EpochKey = String × (String × ℕ)

-- The service's maps of the lane.
pub record Lane : Type 0 where
  pub high_water : Dict String ℕ
  pub owners : Dict Key (LeaseKey × String)
  pub chunk_bytes : Dict (String × String) ℕ
  pub key_state : Dict Key KeyState
  pub rejects : Dict Key SegmentRecord
  pub segments : Dict LeaseKey (Dict Key SegmentRecord)

pub record SegmentAck : Type 0 where
  pub high_water : ℕ
  pub applied : List ℕ
  pub already_applied : List ℕ
  pub capped : List ℕ
  pub refused : List ℕ

abbrev pub record_max_bytes : ℕ
record_max_bytes = 10485760

abbrev pub chunk_budget_max_bytes : ℕ
chunk_budget_max_bytes = 67108864

abbrev is_accepted : Option KeyState → Bool
is_accepted (some accepted) = true
is_accepted s = false

abbrev is_rejected : Option KeyState → Bool
is_rejected (some rejected) = true
is_rejected s = false

abbrev pub key_of : RunnerRow → SegmentRecord → Key
key_of row r = (row.tenant_id, (r.segment_id, r.turn_range_start))

abbrev pub lease_key_of : RunnerRow → SegmentRecord → LeaseKey
lease_key_of row r = (row.tenant_id, (r.chunk_id, (r.node_id, r.epoch)))

abbrev pub epoch_key_of : RunnerRow → SegmentRecord → EpochKey
epoch_key_of row r = (row.tenant_id, (r.chunk_id, r.epoch))

abbrev pub stored_bytes : String → String → Lane → ℕ
stored_bytes tenant chunk_id l = get_or (lookup (tenant, chunk_id) l.chunk_bytes) 0

abbrev pub record_le : SegmentRecord → SegmentRecord → Bool
record_le r s = leb r.seq s.seq

abbrev pub no_ack : ℕ → SegmentAck
no_ack mark = record {
  high_water = mark;
  applied = [];
  already_applied = [];
  capped = [];
  refused = [];
}

module _ (json_size : List String → ℕ) where
  unfoldable pub oversize : RunnerRow → SegmentRecord → Lane → Bool
  oversize row r l =
      let size = json_size r.turns in
      ltb record_max_bytes size
      || ltb chunk_budget_max_bytes (stored_bytes row.tenant_id r.chunk_id l + size)

  -- A record whose key was not accepted before: its owner is noted, and it is capped or retained.
  unfoldable pub file_record : RunnerRow → SegmentRecord → SegmentAck × Lane → SegmentAck × Lane
  file_record row r (a, l) =
      let key = key_of row r in
      let lease = lease_key_of row r in
      let owners = insert key (lease, row.runner_id) l.owners in
      let total = stored_bytes row.tenant_id r.chunk_id l + json_size r.turns in
      if oversize row r l
      then (
        record a { capped = a.capped ++ r.seq ∷ [] },
        record l {
          owners = owners;
          key_state = insert key rejected l.key_state;
          rejects = insert key (record r { turns = [] }) l.rejects;
        },
      )
      else (
        record a { applied = a.applied ++ r.seq ∷ [] },
        record l {
          owners = owners;
          key_state = insert key accepted l.key_state;
          rejects = remove key l.rejects;
          chunk_bytes = insert (row.tenant_id, r.chunk_id) total l.chunk_bytes;
          segments = insert lease (insert key r (get_or (lookup lease l.segments) [])) l.segments;
        },
      )

  -- One round of the loop over the sorted batch, under the runners that minted the epochs.
  unfoldable pub ingest_record :
      RunnerRow → Dict EpochKey String → SegmentRecord → SegmentAck × Lane → SegmentAck × Lane
  ingest_record row epoch_owners r (a, l) =
      let higher = record a { high_water = max a.high_water r.seq } in
      let state = lookup (key_of row r) l.key_state in
      let filed = file_record row r (higher, l) in
      if not (ships_from_lease_holder (lookup (epoch_key_of row r) epoch_owners) row.runner_id)
      then (record higher { refused = a.refused ++ r.seq ∷ [] }, l)
      else if leb r.seq a.high_water
      then (
        if is_rejected state
            then record a { capped = a.capped ++ r.seq ∷ [] }
            else record a { already_applied = a.already_applied ++ r.seq ∷ [] },
        l,
      )
      else if is_accepted state
      then (record higher { applied = a.applied ++ r.seq ∷ [] }, l)
      else filed

  unfoldable pub ingest_records :
      RunnerRow → Dict EpochKey String → List SegmentRecord → SegmentAck × Lane → SegmentAck × Lane
  ingest_records row epoch_owners [] s = s
  ingest_records row epoch_owners (r ∷ rs) s =
      ingest_records row epoch_owners rs (ingest_record row epoch_owners r s)

  unfoldable pub ingest_transcripts :
      RunnerRow → Dict EpochKey String → List SegmentRecord → Lane → SegmentAck × Lane
  ingest_transcripts row epoch_owners records l =
      let mark = get_or (lookup row.runner_id l.high_water) 0 in
      let (a, l') = ingest_records row epoch_owners (sorted record_le records) (no_ack mark, l) in
      (a, record l' { high_water = insert row.runner_id a.high_water l'.high_water })

-- The lane of a service just made or reset.
abbrev pub empty_lane : Lane
empty_lane = record {
  high_water = [];
  owners = [];
  chunk_bytes = [];
  key_state = [];
  rejects = [];
  segments = [];
}

-- A batch and the runner that pushes it.
abbrev pub Batch : Type 0
Batch = RunnerRow × List SegmentRecord

-- Batches, one after another.
unfoldable pub ship_all : (List String → ℕ) → Dict EpochKey String → List Batch → Lane → Lane
ship_all json_size epoch_owners [] l = l
ship_all json_size epoch_owners (b ∷ bs) l =
    ship_all json_size epoch_owners bs (ingest_transcripts json_size b.0 epoch_owners b.1 l).1
