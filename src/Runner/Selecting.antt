-- ===== src/Runner/Selecting.antt =====
-- Which entry of a peeked queue `claim_next` picks.
use blizzard_mock.Base.{
  ◌≡◌, refl, Bool, true, false, Option, none, some, List, [], ◌∷◌, ◌++◌, inl, inr, Bool-cases, ap,
}
use blizzard_mock.Base.Lists.{All, first}
use blizzard_mock.Runner.Models.{QueueEntry}
use blizzard_mock.Runner.Service.Leases.{select_next, unmarked}

-- Of the reach-ahead pick: unmarked, with only marked entries before it; of the strict pick: the
-- unmarked head. Without a pick, every entry is marked, or the head is.
abbrev pub Picked : Bool → List QueueEntry → Option QueueEntry → Type 0
Picked false entries (some e) =
    (before : List QueueEntry) × (after : List QueueEntry) × (entries ≡ before ++ e ∷ after)
    × (unmarked e ≡ true)
    × All (λ b. unmarked b ≡ false) before
Picked false entries none = All (λ b. unmarked b ≡ false) entries
Picked true entries (some e) =
    (after : List QueueEntry) × (entries ≡ e ∷ after) × (unmarked e ≡ true)
Picked true [] none = Unit
Picked true (head ∷ entries) none = unmarked head ≡ false

Picked-on :
    (m : QueueEntry) (entries : List QueueEntry) (o : Option QueueEntry)
    → unmarked m ≡ false
    → Picked false entries o
    → Picked false (m ∷ entries) o
Picked-on m entries none marked p = (marked, p)
Picked-on m entries (some e) marked (before, after, same, free, rest) =
    (m ∷ before, after, ap (λ xs. m ∷ xs) same, free, (marked, rest))

first-Picked : (entries : List QueueEntry) → Picked false entries (first unmarked entries)
unfolding first
first-Picked [] = tt
first-Picked (head ∷ entries) = elim (Bool-cases (unmarked head)) [
  | inl free ↦ rw free ([], entries, refl, free, tt)
  | inr marked ↦ rw marked (Picked-on head entries _ marked (first-Picked entries))
]

-- On any peeked queue the pick is the first unmarked entry at any depth or, when strict, the head if it
-- is unmarked; and there is no pick only if every entry is marked, or when strict, if the head is.
pub select_next-Picked :
    (entries : List QueueEntry) (strict : Bool) → Picked strict entries (select_next entries strict)
unfolding select_next
select_next-Picked [] true = tt
select_next-Picked [] false = tt
select_next-Picked (head ∷ entries) false = first-Picked (head ∷ entries)
select_next-Picked (head ∷ entries) true = elim (Bool-cases (unmarked head)) [
  | inl free ↦ rw free (entries, refl, free)
  | inr marked ↦ rw marked marked
]
