-- ===== src/Hub/Peek/Matched.antt =====
-- What the matched peek answers.
use blizzard_mock.Base.{
  ◌⊎◌, ℕ, ◌+◌, ◌≡◌, refl, Bool, true, false, String, Option, none, some, List, [], ◌∷◌, string_eq,
  arith, inl, inr,
}
use blizzard_mock.Base.Dict.{lookup}
use blizzard_mock.Base.Lists.{keep_if, contains, contains-keep_if, All, All-keep_if}
use blizzard_mock.Base.Keyed.{keyed-All, IsKeyed}
use blizzard_mock.Hub.Models.{ChunkState}
use blizzard_mock.Hub.State.{Hub, RunnerCapability, RunnerRow, ServedEntry}
use blizzard_mock.Hub.Matching.{QueueMatchPolicy}
use blizzard_mock.Hub.Service.Guards.{served_project_ids}
use blizzard_mock.Hub.Evolution.{id_of}
use blizzard_mock.Hub.Peek.{
  in_queue, ready_chunks, offered_project_ids, reached, unusable, round, search_from, answered,
  passed_by, ended, stops, QueuePeekEntry, Round,
}

served-keep_if :
    (r : String) (q : ServedEntry → Bool) (es : List ServedEntry)
    → contains r (served_project_ids (keep_if q es)) ≡ true
    → contains r (served_project_ids es) ≡ true
unfolding contains served_project_ids keep_if
served-keep_if r q [] h = h
served-keep_if r q (e ∷ es) h = ground (arith, h, served-keep_if r q es)

reached-served :
    (r : String) (reachable : Option (List String)) (es : List ServedEntry)
    → contains r (served_project_ids (reached reachable es)) ≡ true
    → contains r (served_project_ids es) ≡ true
unfolding reached
reached-served r none es h = h
reached-served r (some bound) es h = served-keep_if r _ es h

pub offered-served :
    (r : String) (reachable projects : Option (List String)) (row : RunnerRow)
    → contains r (offered_project_ids reachable row projects) ≡ true
    → contains r (served_project_ids row.projects) ≡ true
unfolding offered_project_ids
offered-served r reachable none row h = reached-served r reachable row.projects h
offered-served r reachable (some wanted) row h =
    reached-served r reachable row.projects (contains-keep_if r _ _ h)

pub ready-All :
    (h : Hub)
    → IsKeyed id_of h.chunks
    → All (λ c. (lookup c.chunk_id h.chunks ≡ some c) × (in_queue c ≡ true)) (ready_chunks h)
unfolding ready_chunks
ready-All h keyed = All-keep_if _ _ _ (keyed-All id_of h.chunks keyed)

module _ (fnmatchcase : String → String → Bool) (capabilities : List RunnerCapability)
    (policy : QueueMatchPolicy) (projects : Option (List String)) (served : List String)
    (h : Hub) where
  round-answered :
      (stopped : List String) (c : ChunkState)
      → round fnmatchcase capabilities policy projects served stopped c h ≡ answered
      → (contains c.project_id served ≡ true) × (unusable fnmatchcase capabilities c h ≡ false)
  unfolding round
  round-answered stopped c e = ground (arith, e)

  -- The chunk that an entry is of, among chunks that all have a property.
  abbrev pub Found : (P : ChunkState → Type 0) → QueuePeekEntry → Type 0
  Found P entry =
      (c : ChunkState) × (P c)
      × (entry.chunk_id ≡ c.chunk_id)
      × (contains c.project_id served ≡ true)
      × (unusable fnmatchcase capabilities c h ≡ false)

  -- A search that finds something answers the first chunk, or goes on behind it.
  search-step :
      (i : ℕ) (stopped : List String) (c : ChunkState) (cs : List ChunkState)
      (entry : QueuePeekEntry) (r : Round)
      → round fnmatchcase capabilities policy projects served stopped c h ≡ r
      → search_from fnmatchcase i capabilities policy projects served stopped (c ∷ cs) h
        ≡ some entry
      → ((r ≡ answered) × (entry.chunk_id ≡ c.chunk_id))
        ⊎ ((now : List String) × (search_from fnmatchcase
                (i + 1)
                capabilities
                policy
                projects
                served
                now
                cs
                h
              ≡ some entry))
  unfolding search_from
  search-step i stopped c cs entry passed_by rounds e = inr (stopped, ground (arith, e, rounds))
  search-step i stopped c cs entry answered rounds e = inl (refl, ground (arith, e, rounds))
  search-step i stopped c cs entry ended rounds e = ground (arith, e, rounds)
  search-step i stopped c cs entry stops rounds e =
      inr (c.project_id ∷ stopped, ground (arith, e, rounds))

  pub search-Found :
      (P : ChunkState → Type 0) (i : ℕ) (stopped : List String) (cs : List ChunkState)
      (entry : QueuePeekEntry)
      → All P cs
      → search_from fnmatchcase i capabilities policy projects served stopped cs h ≡ some entry
      → Found P entry
  unfolding search_from
  search-Found P i stopped [] entry all e = ground (arith, e)
  search-Found P i stopped (c ∷ cs) entry all e = elim (search-step i stopped c cs entry _ refl e) [
    | inl (rounds, same) ↦
        (c, all.0, same, (round-answered stopped c rounds).0, (round-answered stopped c rounds).1)
    | inr (now, later) ↦ search-Found P (i + 1) now cs entry all.1 later
  ]
