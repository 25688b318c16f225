-- ===== src/Hub/Transcripts/Budget.antt =====
-- The bytes that the transcript lane retains of a chunk.
use mathlib.Core.Path.{subst}
use blizzard_mock.Base.{
  ℕ, ◌+◌, ◌≤◌, ◌≡◌, sym, String, List, [], ◌∷◌, arith, inl, inr, Option-cases, string_eq, nat_eq,
  pair_eq, max, ◌⊎◌,
}
use blizzard_mock.Base.Dict.{Dict, lookup, insert, All-insert, All-lookup}
use blizzard_mock.Base.Lists.{All}
use blizzard_mock.Hub.State.{RunnerRow}
use blizzard_mock.Hub.Transcripts.{
  EpochKey, Lane, SegmentRecord, SegmentAck, Batch, oversize, file_record, ingest_record,
  ingest_records, ingest_transcripts, ship_all, empty_lane, stored_bytes, chunk_budget_max_bytes,
}

-- No chunk's retained bytes are over the budget.
abbrev Affordable : Dict (String × String) ℕ → Type 0
Affordable = All (λ e. e.1 ≤ chunk_budget_max_bytes)

module _ (json_size : List String → ℕ) (row : RunnerRow) (epoch_owners : Dict EpochKey String) where
  -- The chunk's bytes with the record's.
  abbrev total : SegmentRecord → Lane → ℕ
  total r l = stored_bytes row.tenant_id r.chunk_id l + json_size r.turns

  file-bytes :
      (r : SegmentRecord) (a : SegmentAck) (l : Lane)
      → let after = (file_record json_size row r (a, l)).1.chunk_bytes in
        (after ≡ l.chunk_bytes)
        ⊎ ((total r l ≤ chunk_budget_max_bytes)
            × (after ≡ insert (row.tenant_id, r.chunk_id) (total r l) l.chunk_bytes))
  unfolding file_record oversize
  file-bytes r a l = ground arith

  file-Affordable :
      (r : SegmentRecord) (a : SegmentAck) (l : Lane)
      → Affordable l.chunk_bytes
      → Affordable (file_record json_size row r (a, l)).1.chunk_bytes
  file-Affordable r a l h = elim (file-bytes r a l) [
    | inl same ↦ subst Affordable (sym same) h
    | inr (fits, filed) ↦ subst Affordable (sym filed) (
        All-insert (λ n. n ≤ chunk_budget_max_bytes) (row.tenant_id, r.chunk_id) (total r l)
          l.chunk_bytes fits h)
  ]

  record-bytes :
      (r : SegmentRecord) (a : SegmentAck) (l : Lane)
      → let after = (ingest_record json_size row epoch_owners r (a, l)).1 in
        (after ≡ l)
        ⊎ (after
            ≡ (file_record json_size row r (record a { high_water = max a.high_water r.seq }, l)).1)
  unfolding ingest_record
  record-bytes r a l = ground arith

  records-Affordable :
      (rs : List SegmentRecord) (s : SegmentAck × Lane)
      → Affordable s.1.chunk_bytes
      → Affordable (ingest_records json_size row epoch_owners rs s).1.chunk_bytes
  unfolding ingest_records
  records-Affordable [] s h = h
  records-Affordable (r ∷ rs) s h =
      records-Affordable rs (ingest_record json_size row epoch_owners r s)
        (elim (record-bytes r s.0 s.1) [
          | inl same ↦ subst (λ l. Affordable l.chunk_bytes) (sym same) h
          | inr filed ↦
              subst (λ l. Affordable l.chunk_bytes) (sym filed) (file-Affordable r _ s.1 h)
        ])

  ingest-Affordable :
      (rs : List SegmentRecord) (l : Lane)
      → Affordable l.chunk_bytes
      → Affordable (ingest_transcripts json_size row epoch_owners rs l).1.chunk_bytes
  unfolding ingest_transcripts
  ingest-Affordable rs l h = records-Affordable _ _ h

module _ (json_size : List String → ℕ) (epoch_owners : Dict EpochKey String) where
  ship_all-Affordable :
      (bs : List Batch) (l : Lane)
      → Affordable l.chunk_bytes
      → Affordable (ship_all json_size epoch_owners bs l).chunk_bytes
  unfolding ship_all
  ship_all-Affordable [] l h = h
  ship_all-Affordable (b ∷ bs) l h =
      ship_all-Affordable bs _ (ingest-Affordable json_size b.0 epoch_owners b.1 l h)

  -- After any batches on the transcript lane, from the start, the bytes counted for a chunk are at most
  -- the chunk's budget, whatever the sizes of the records' turns are.
  pub shipped_within_budget :
      (bs : List Batch) (tenant chunk_id : String)
      → stored_bytes tenant chunk_id (ship_all json_size epoch_owners bs empty_lane)
        ≤ chunk_budget_max_bytes
  shipped_within_budget bs tenant chunk_id =
      let l = ship_all json_size epoch_owners bs empty_lane in
      elim (Option-cases (lookup (tenant, chunk_id) l.chunk_bytes)) [
        | inl missing ↦ rw missing (omega arith)
        | inr (n, found) ↦ rw found (
            All-lookup (λ m. m ≤ chunk_budget_max_bytes) (tenant, chunk_id) n l.chunk_bytes
              (ship_all-Affordable bs empty_lane tt) found)
      ]
