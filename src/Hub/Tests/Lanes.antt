-- ===== src/Hub/Tests/Lanes.antt =====
-- Instances of the theorems on the transcript lane.
use blizzard_mock.Base.{◌≤◌, refl, ℕ, String, none, List, [], ◌∷◌, string_eq, false}
use blizzard_mock.Base.Dict.{Dict}
use blizzard_mock.Hub.Transcripts.{
  SegmentRecord, EpochKey, Batch, ship_all, empty_lane, stored_bytes, chunk_budget_max_bytes,
}
use blizzard_mock.Hub.Transcripts.ReadBack.{lease_transcript_owner}
use blizzard_mock.Hub.Transcripts.Owners.{shipped_owner-AtMostMinter, AtMostMinter}
use blizzard_mock.Hub.Transcripts.Budget.{shipped_within_budget}
use blizzard_mock.Hub.Tests.{program, row}

abbrev segment : ℕ → String → SegmentRecord
segment seq id = record {
  seq = seq;
  segment_id = id;
  chunk_id = "ch_1";
  node_id = "build";
  epoch = 3;
  spawn_generation = 1;
  turn_range_start = 0;
  record_truncated = false;
  supersedes = none;
  turns = "hello" ∷ [];
}

abbrev minters : Dict EpochKey String
minters = (("t", ("ch_1", 3)), "r_1") ∷ []

abbrev batches : List Batch
batches = (row, segment 2 "sg_2" ∷ segment 1 "sg_1" ∷ []) ∷ (row, segment 2 "sg_2" ∷ []) ∷ []

abbrev sixty : List String → ℕ
sixty turns = 60

shipped_owner-AtMostMinter_example :
    AtMostMinter minters
      ("t", ("ch_1", ("build", 3)))
      (lease_transcript_owner row "ch_1" "build" 3 (ship_all sixty minters batches empty_lane))
unfolding program
shipped_owner-AtMostMinter_example =
    shipped_owner-AtMostMinter minters sixty batches row "ch_1" "build" 3
      ((refl, (refl, tt)), ((refl, tt), tt))

shipped_within_budget_example :
    stored_bytes "t" "ch_1" (ship_all sixty minters batches empty_lane) ≤ chunk_budget_max_bytes
shipped_within_budget_example = shipped_within_budget sixty minters batches "t" "ch_1"
