-- ===== src/Hub/Transcripts/ReadBack.antt =====
-- What the hub service reads back of the transcript lane: `lease_transcript_owner` and
-- `lease_transcript`.
use Prim.Native.String.{compare}
use Prim.Native.Nat.{Ordering}
use blizzard_mock.Base.{
  ℕ, ◌+◌, Bool, true, false, not, ◌&&◌, ◌||◌, String, Option, none, some, List, [], ◌∷◌, ◌++◌, ◌==◌,
  string_eq, nat_eq, pair_eq, option_eq, leb, ltb, get_or, if◌then◌else◌, Result, ok, err,
}
use blizzard_mock.Base.Dict.{Dict, lookup, values}
use blizzard_mock.Base.Lists.{keep_if, any, all, contains}
use blizzard_mock.Base.Sorting.{sorted}
use blizzard_mock.Hub.State.{RunnerRow}
use blizzard_mock.Hub.Transcripts.{SegmentRecord, Key, LeaseKey, Lane}

-- The `RuntimeError` of a lease whose segments came from several runners.
pub data OwnerError : Type 0 where
  several_owners : LeaseKey → OwnerError

abbrev pub of_lease : LeaseKey → LeaseKey × String → Bool
of_lease lease e = e.0 == lease

-- The one member of a set of owners, given as a list of them.
unfoldable pub only_owner : LeaseKey → List (LeaseKey × String) → Result OwnerError (Option String)
only_owner lease [] = ok none
only_owner lease ((k, owner) ∷ rest) =
    if all (λ e. e.1 == owner) rest then ok (some owner) else err (several_owners lease)

unfoldable pub lease_transcript_owner :
    RunnerRow → String → String → ℕ → Lane → Result OwnerError (Option String)
lease_transcript_owner row chunk_id node_id epoch l =
    let lease : LeaseKey = (row.tenant_id, (chunk_id, (node_id, epoch))) in
    only_owner lease (keep_if (of_lease lease) (values l.owners))

pub record LeaseTranscriptView : Type 0 where
  pub truncated : Bool
  -- the turns, each with its new index
  pub turns : List (ℕ × String)

abbrev text_le : String → String → Bool → Bool
text_le s t last = elim (compare s t) [
  | Ordering.lt ↦ true
  | Ordering.eq ↦ last
  | Ordering.gt ↦ false
]

-- `_order_key`, as a test "stands at or before"
unfoldable pub order_le : SegmentRecord → SegmentRecord → Bool
order_le r s =
    ltb r.spawn_generation s.spawn_generation
    || (r.spawn_generation == s.spawn_generation
        && text_le r.segment_id s.segment_id (leb r.turn_range_start s.turn_range_start))

unfoldable pub superseded_ids : List SegmentRecord → List String
superseded_ids [] = []
superseded_ids (r ∷ rs) = elim r.supersedes [
  | none ↦ superseded_ids rs
  | some s ↦ s ∷ superseded_ids rs
]

unfoldable pub renumbered : ℕ → List String → List (ℕ × String)
renumbered i [] = []
renumbered i (t ∷ ts) = (i, t) ∷ renumbered (i + 1) ts

unfoldable pub all_turns : List SegmentRecord → List String
all_turns [] = []
all_turns (r ∷ rs) = r.turns ++ all_turns rs

-- The capped records of the lease, by their owners' note.
unfoldable pub rejects_of : LeaseKey → Lane → Dict Key SegmentRecord → List SegmentRecord
rejects_of lease l [] = []
rejects_of lease l ((key, r) ∷ d) = elim (lookup key l.owners) [
  | none ↦ rejects_of lease l d
  | some owner ↦ if owner.0 == lease then r ∷ rejects_of lease l d else rejects_of lease l d
]

unfoldable pub lease_transcript : RunnerRow → String → String → ℕ → Lane → LeaseTranscriptView
lease_transcript row chunk_id node_id epoch l =
    let lease : LeaseKey = (row.tenant_id, (chunk_id, (node_id, epoch))) in
    let records = values (get_or (lookup lease l.segments) []) in
    let rejects = rejects_of lease l l.rejects in
    let superseded = superseded_ids (records ++ rejects) in
    let visible = keep_if (λ r. not (contains r.segment_id superseded)) records in
    record {
      truncated =
          any (λ r. not (contains r.segment_id superseded)) rejects
          || any (λ r. r.record_truncated) visible;
      turns = renumbered 0 (all_turns (sorted order_le visible));
    }
