-- ===== src/Clock/Moves.antt =====
-- Runs of moves of the controlled clock.
use blizzard_mock.Base.{◌≡◌, List, [], ◌∷◌, arith, ok, err, Result}
use blizzard_mock.Base.Int.{ℤ, ◌≤ℤ◌, int_laws}
use blizzard_mock.Clock.{ClockError, Move, set_to, advance_by, set, advance, move}

-- A result says truly what happened: on success the pair of the old and the new reading, on an
-- error no move.
abbrev pub Reports : ℤ → Result ClockError (ℤ × ℤ) → ℤ → Type 0
Reports before (ok p) after = (p.0 ≡ before) × (p.1 ≡ after)
Reports before (err e) after = after ≡ before

-- A move never sets the clock back, and its result is the reading before it and after it, or an
-- error that leaves the reading alone.
pub move_monotone : (m : Move) (c : ℤ) → (c ≤ℤ (move m c).1) × Reports c (move m c).0 (move m c).1
unfolding move set advance
move_monotone (set_to to) c = ground arith
move_monotone (advance_by by) c = grind int_laws

-- The readings after each of a run of moves.
unfoldable pub readings : List Move → ℤ → List ℤ
readings [] c = []
readings (m ∷ ms) c = let c' = (move m c).1 in c' ∷ readings ms c'

abbrev pub Ascending : ℤ → List ℤ → Type 0
Ascending c [] = Unit
Ascending c (x ∷ xs) = (c ≤ℤ x) × Ascending x xs

-- Over any run of moves, failed ones included, the readings never go down.
pub readings-Ascending : (ms : List Move) (c : ℤ) → Ascending c (readings ms c)
unfolding readings
readings-Ascending [] c = tt
readings-Ascending (m ∷ ms) c = ((move_monotone m c).0, readings-Ascending ms (move m c).1)
