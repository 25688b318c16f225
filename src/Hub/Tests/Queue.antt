-- ===== src/Hub/Tests/Queue.antt =====
-- Instances of the theorems on the queue.
use blizzard_mock.Base.{◌≡◌, ok, refl, [], none, some, string_eq}
use blizzard_mock.Hub.Peek.{
  QueuePeekEntry, peek_matched, peek_from, offered_project_ids, unusable, ready_chunks, search_from,
  round, blocked_marking, reached,
}
use blizzard_mock.Hub.Peek.Claimable.{peek_matched-claim, IsActive, IsUnarmed}
use blizzard_mock.Hub.Peek.PassOver.{peek_matched-head}
use blizzard_mock.Hub.Service.Route.{claim, RouteClaimResponse}
use blizzard_mock.Hub.Matching.{of_value}
use blizzard_mock.Hub.Tests.{start, row, program, same_text, start-IsWellFormed}
use blizzard_mock.Hub.Tests.Registry.{registry}

abbrev entry : QueuePeekEntry
entry = record {
  chunk_id = "ch_1";
  graph_id = "g";
  position = 0;
  blocked = none;
  project_id = "proj";
  project_slug = none;
  project_name = none;
}

row-IsActive : IsActive row
row-IsActive = record { connected = refl; not_braked = refl; not_retired = refl }

chunk-IsUnarmed : IsUnarmed "ch_1" "r_1" start
unfolding program
chunk-IsUnarmed = record { graph_pinned = refl; lever_retired = refl; lever_version = refl }

peek_matched-claim_example :
    (a : RouteClaimResponse) × ((claim same_text "ch_1" "r_1" "ws" [] start).0 ≡ ok a)
unfolding program peek_matched offered_project_ids unusable ready_chunks search_from round
    blocked_marking reached of_value
peek_matched-claim_example =
    peek_matched-claim same_text none none "r_1" "ws" "hold" [] registry row entry refl refl
      start-IsWellFormed row-IsActive chunk-IsUnarmed

peek_matched-head_example :
    peek_matched same_text none "r_1" row.capabilities "pass-over" none registry ≡ ok (some entry)
unfolding program peek_matched offered_project_ids unusable ready_chunks search_from round
    blocked_marking reached peek_from of_value
peek_matched-head_example =
    peek_matched-head same_text none none "r_1" "pass-over" row.capabilities registry row refl refl
