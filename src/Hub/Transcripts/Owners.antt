-- ===== src/Hub/Transcripts/Owners.antt =====
-- The owners that the transcript lane notes for its leases.
use mathlib.Core.Path.{subst}
use blizzard_mock.Hub.Transcripts.ReadBack.{of_lease, OwnerError}
use blizzard_mock.Base.Dict.{All-insert, All-insert}
use blizzard_mock.Hub.Transcripts.{Batch, ship_all, empty_lane}
use blizzard_mock.Base.{
  ==_true, max, sym, ℕ, ◌≡◌, refl, Bool, true, String, Option, none, some, List, [], ◌∷◌, arith,
  inl, inr, Bool-cases, Option-cases, string_eq, nat_eq, pair_eq, ◌==◌, is_some, ok, Result, ◌⊎◌,
}
use blizzard_mock.Base.Dict.{Dict, lookup, insert, values}
use blizzard_mock.Base.Lists.{All, all, keep_if}
use blizzard_mock.Base.Sorting.{All-sorted}
use blizzard_mock.Hub.Chunk.{ships_from_lease_holder}
use blizzard_mock.Hub.State.{RunnerRow}
use blizzard_mock.Hub.Transcripts.{
  EpochKey, Key, LeaseKey, Lane, SegmentRecord, SegmentAck, file_record, ingest_record,
  ingest_records, ingest_transcripts, epoch_key_of, key_of, lease_key_of, record_le,
}
use blizzard_mock.Hub.Transcripts.ReadBack.{lease_transcript_owner, only_owner}

-- The epoch of a lease.
abbrev pub epoch_of : LeaseKey → EpochKey
epoch_of (tenant, (chunk_id, (node_id, epoch))) = (tenant, (chunk_id, epoch))

module _ (epoch_owners : Dict EpochKey String) where
  -- Every owner noted minted the epoch of its lease.
  abbrev pub Minted : Dict Key (LeaseKey × String) → Type 0
  Minted owners = All (λ e. lookup (epoch_of e.1.0) epoch_owners ≡ some e.1.1) owners

  -- The epoch of the record was minted by some runner.
  abbrev pub IsMinted : RunnerRow → SegmentRecord → Type 0
  IsMinted row r = is_some (lookup (epoch_key_of row r) epoch_owners) ≡ true

  module _ (json_size : List String → ℕ) (row : RunnerRow) where
    abbrev noted : SegmentRecord → Lane → Dict Key (LeaseKey × String)
    noted r l = insert (key_of row r) (lease_key_of row r, row.runner_id) l.owners

    file-owners :
        (r : SegmentRecord) (a : SegmentAck) (l : Lane)
        → (file_record json_size row r (a, l)).1.owners ≡ noted r l
    unfolding file_record
    file-owners r a l = ground arith

    abbrev ships : SegmentRecord → Bool
    ships r = ships_from_lease_holder (lookup (epoch_key_of row r) epoch_owners) row.runner_id

    record-owners :
        (r : SegmentRecord) (a : SegmentAck) (l : Lane)
        → let after = (ingest_record json_size row epoch_owners r (a, l)).1.owners in
          (after ≡ l.owners) ⊎ ((ships r ≡ true) × (after ≡ noted r l))
    unfolding ingest_record
    record-owners r a l =
        ground (arith, file-owners r (record a { high_water = max a.high_water r.seq }) l)

    ships-minted :
        (r : SegmentRecord)
        → IsMinted row r
        → ships r ≡ true
        → lookup (epoch_key_of row r) epoch_owners ≡ some row.runner_id
    unfolding ships_from_lease_holder
    ships-minted r known own = elim (Option-cases (lookup (epoch_key_of row r) epoch_owners)) [
      | inl missing ↦ ground arith
      | inr (o, found) ↦ ground (arith, string_eq.beq_iff o row.runner_id)
    ]

    record-Minted :
        (r : SegmentRecord) (s : SegmentAck × Lane)
        → IsMinted row r
        → Minted s.1.owners
        → Minted (ingest_record json_size row epoch_owners r s).1.owners
    record-Minted r s known h = elim (record-owners r s.0 s.1) [
      | inl same ↦ subst Minted (sym same) h
      | inr (own, filed) ↦ subst Minted (sym filed) (
          All-insert (λ e. lookup (epoch_of e.0) epoch_owners ≡ some e.1) (key_of row r)
            (lease_key_of row r, row.runner_id) s.1.owners (ships-minted r known own) h)
    ]

    records-Minted :
        (rs : List SegmentRecord) (s : SegmentAck × Lane)
        → All (IsMinted row) rs
        → Minted s.1.owners
        → Minted (ingest_records json_size row epoch_owners rs s).1.owners
    unfolding ingest_records
    records-Minted [] s known h = h
    records-Minted (r ∷ rs) s known h =
        records-Minted rs (ingest_record json_size row epoch_owners r s) known.1
          (record-Minted r s known.0 h)

    pub ingest-Minted :
        (rs : List SegmentRecord) (l : Lane)
        → All (IsMinted row) rs
        → Minted l.owners
        → Minted (ingest_transcripts json_size row epoch_owners rs l).1.owners
    unfolding ingest_transcripts
    ingest-Minted rs l known h = records-Minted _ _ (All-sorted record_le (IsMinted row) rs known) h

  -- The owners noted for one lease, each its epoch's minter.
  abbrev Minters : LeaseKey → List (LeaseKey × String) → Type 0
  Minters lease es = All (λ e. lookup (epoch_of lease) epoch_owners ≡ some e.1) es

  of_lease-Minters :
      (lease : LeaseKey) (owners : Dict Key (LeaseKey × String))
      → Minted owners
      → Minters lease (keep_if (of_lease lease) (values owners))
  unfolding keep_if
  of_lease-Minters lease [] h = tt
  of_lease-Minters lease ((key, e) ∷ owners) h = elim (Bool-cases (of_lease lease e)) [
    | inl this ↦ rw this (
      subst (λ k. lookup (epoch_of k) epoch_owners ≡ some e.1) (==_true e.0 lease this) h.0,
      of_lease-Minters lease owners h.1,
    )
    | inr other ↦ rw other (of_lease-Minters lease owners h.1)
  ]

  all-same :
      (lease : LeaseKey) (o : String) (es : List (LeaseKey × String))
      → lookup (epoch_of lease) epoch_owners ≡ some o
      → Minters lease es
      → all (λ e. e.1 == o) es ≡ true
  unfolding all
  all-same lease o [] minted h = refl
  all-same lease o (e ∷ es) minted h =
      ground (arith, all-same lease o es minted h.1, h.0, string_eq.beq_iff e.1 o)

  -- No owner, or the epoch's minter.
  abbrev pub AtMostMinter : LeaseKey → Result OwnerError (Option String) → Type 0
  AtMostMinter lease answer =
      (answer ≡ ok none)
      ⊎ ((o : String) × (answer ≡ ok (some o)) × (lookup (epoch_of lease) epoch_owners ≡ some o))

  only_owner-AtMostMinter :
      (lease : LeaseKey) (es : List (LeaseKey × String))
      → Minters lease es
      → AtMostMinter lease (only_owner lease es)
  unfolding only_owner
  only_owner-AtMostMinter lease [] h = inl refl
  only_owner-AtMostMinter lease ((k, o) ∷ es) h =
      inr (o, rw (all-same lease o es h.0 h.1) refl, h.0)

  lease_owner-AtMostMinter :
      (row : RunnerRow) (chunk_id node_id : String) (epoch : ℕ) (l : Lane)
      → Minted l.owners
      → AtMostMinter
          (row.tenant_id, (chunk_id, (node_id, epoch)))
          (lease_transcript_owner row chunk_id node_id epoch l)
  unfolding lease_transcript_owner
  lease_owner-AtMostMinter row chunk_id node_id epoch l h =
      only_owner-AtMostMinter _ _ (of_lease-Minters _ l.owners h)

  -- Every record of every batch has an epoch that some runner minted.
  abbrev pub AllMinted : List Batch → Type 0
  AllMinted = All (λ b. All (IsMinted b.0) b.1)

  ship_all-Minted :
      (json_size : List String → ℕ) (bs : List Batch) (l : Lane)
      → AllMinted bs
      → Minted l.owners
      → Minted (ship_all json_size epoch_owners bs l).owners
  unfolding ship_all
  ship_all-Minted json_size [] l known h = h
  ship_all-Minted json_size (b ∷ bs) l known h =
      ship_all-Minted json_size bs _ known.1 (ingest-Minted json_size b.0 b.1 l known.0 h)

  -- After any batches on the transcript lane, from the start, of records whose epochs were minted, whatever of
  -- them is refused, capped or replayed, the owner of a lease is read without the error of several
  -- owners, and is none or the runner that minted the lease's epoch.
  pub shipped_owner-AtMostMinter :
      (json_size : List String → ℕ) (bs : List Batch) (row : RunnerRow) (chunk_id node_id : String)
      (epoch : ℕ)
      → AllMinted bs
      → AtMostMinter
          (row.tenant_id, (chunk_id, (node_id, epoch)))
          (lease_transcript_owner row chunk_id node_id epoch
            (ship_all json_size epoch_owners bs empty_lane))
  shipped_owner-AtMostMinter json_size bs row chunk_id node_id epoch known =
      lease_owner-AtMostMinter row chunk_id node_id epoch _
        (ship_all-Minted json_size bs empty_lane known tt)
