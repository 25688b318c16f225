-- ===== src/Clock.antt =====
-- The injected clock, src/blizzard_mock/clock.py: `FixedClock` and `ControlledClock`. An instant is a
-- number of microseconds; a `datetime` also says whether it has a UTC offset, which `set` requires.
pub mod Moves
mod Tests
use blizzard_mock.Base.{Bool, not, if◌then◌else◌, Result, ok, err, Action, raise_if, ◌>>◌}
use blizzard_mock.Base.Int.{ℤ, pos, ◌+ℤ◌, ltb_ℤ}

pub record DateTime : Type 0 where
  -- the instant in UTC
  pub instant : ℤ
  pub has_offset : Bool

pub data ClockError : Type 0 where
  naive_instant clock_backwards negative_duration : ClockError

-- `FixedClock._instant`; `tick` takes either sign.
unfoldable pub tick : ℤ → ℤ → ℤ
tick by instant = instant +ℤ by

-- `ControlledClock._instant`; the lock makes each move one step.
pub set : DateTime → Action ℤ ClockError (ℤ × ℤ)
set to previous =
    if not to.has_offset
    then (err naive_instant, previous)
    else if ltb_ℤ to.instant previous
    then (err clock_backwards, previous)
    else (ok (previous, to.instant), to.instant)

pub advance : ℤ → Action ℤ ClockError (ℤ × ℤ)
advance by previous =
    if ltb_ℤ by (pos 0)
    then (err negative_duration, previous)
    else (ok (previous, previous +ℤ by), previous +ℤ by)

-- A call of the test-control surface.
pub data Move : Type 0 where
  set_to : DateTime → Move
  advance_by : ℤ → Move

unfoldable pub move : Move → Action ℤ ClockError (ℤ × ℤ)
move (set_to to) = set to
move (advance_by by) = advance by
