-- ===== src/Hub/Levers.antt =====
-- The hub's lever vocabulary, src/blizzard_mock/mock_hub/domain/levers.py.
use blizzard_mock.Base.{String}

pub data HubLever : Type 0 where
  delay drop_ack conflicting_fact unreachable unreachable_transcripts delay_transcripts replay :
      HubLever
  stale_envelope chunk_unknown dependency_unmet host_plane_absent fleet_flags artifact_refusal :
      HubLever
  idp_offered version_refused legacy_claim_refusals legacy_identity_refusals : HubLever
  legacy_version_refusals legacy_rekey_refusals legacy_read_refusals : HubLever
  legacy_host_runner_refusals legacy_auth_refusals claim_runner_retired : HubLever
  claim_runner_version_refused pinned_graph_missing enforce_release_route_token : HubLever
  runner_read_missing host_add_runner_lifecycle_conflict host_retire_lifecycle_conflict : HubLever

-- The text of a member, which is the kind of the shared lever.
unfoldable pub value : HubLever → String
value delay = "delay"
value drop_ack = "drop_ack"
value conflicting_fact = "conflicting_fact"
value unreachable = "unreachable"
value unreachable_transcripts = "unreachable_transcripts"
value delay_transcripts = "delay_transcripts"
value replay = "replay"
value stale_envelope = "stale_envelope"
value chunk_unknown = "chunk_unknown"
value dependency_unmet = "dependency_unmet"
value host_plane_absent = "host_plane_absent"
value fleet_flags = "fleet_flags"
value artifact_refusal = "artifact_refusal"
value idp_offered = "idp_offered"
value version_refused = "version_refused"
value legacy_claim_refusals = "legacy_claim_refusals"
value legacy_identity_refusals = "legacy_identity_refusals"
value legacy_version_refusals = "legacy_version_refusals"
value legacy_rekey_refusals = "legacy_rekey_refusals"
value legacy_read_refusals = "legacy_read_refusals"
value legacy_host_runner_refusals = "legacy_host_runner_refusals"
value legacy_auth_refusals = "legacy_auth_refusals"
value claim_runner_retired = "claim_runner_retired"
value claim_runner_version_refused = "claim_runner_version_refused"
value pinned_graph_missing = "pinned_graph_missing"
value enforce_release_route_token = "enforce_release_route_token"
value runner_read_missing = "runner_read_missing"
value host_add_runner_lifecycle_conflict = "host_add_runner_lifecycle_conflict"
value host_retire_lifecycle_conflict = "host_retire_lifecycle_conflict"
