-- ===== src/Clock/Tests.antt =====
-- Runs of the controlled clock.
use blizzard_mock.Base.{◌≡◌, refl, true, [], ◌∷◌}
use blizzard_mock.Base.Int.{◌≤ℤ◌, pos, negsuc, ◌+ℤ◌}
use blizzard_mock.Clock.{set_to, advance_by, set, advance, move, Move, tick}
use blizzard_mock.Clock.Moves.{Reports, move_monotone, readings, Ascending, readings-Ascending}
use mathlib.Core.List.{List}

abbrev moves : List Move
moves =
    advance_by (pos 5)
    ∷ set_to (record { instant = pos 3; has_offset = true })
    ∷ set_to (record { instant = pos 9; has_offset = true })
    ∷ advance_by (negsuc 0)
    ∷ []

run_moves : readings moves (pos 1) ≡ pos 6 ∷ pos 6 ∷ pos 9 ∷ pos 9 ∷ []
unfolding readings move set advance ◌+ℤ◌
run_moves = refl

tick_back : tick (negsuc 1) (pos 5) ≡ pos 3
unfolding tick ◌+ℤ◌
tick_back = refl

readings-Ascending_example : Ascending (pos 1) (readings moves (pos 1))
readings-Ascending_example = readings-Ascending moves (pos 1)

move_monotone_example :
    (pos 1 ≤ℤ (move (advance_by (pos 5)) (pos 1)).1)
    × Reports (pos 1) (move (advance_by (pos 5)) (pos 1)).0 (move (advance_by (pos 5)) (pos 1)).1
move_monotone_example = move_monotone (advance_by (pos 5)) (pos 1)
