-- ===== src/Forge/Rate.antt =====
-- The rate-limit ledger, src/blizzard_mock/forge/internal/rate_ledger.py, over the clock's seconds.
use blizzard_mock.Base.{
  ℕ, ◌+◌, String, Option, none, some, [], ◌∷◌, string_eq, if◌then◌else◌, get_or,
}
use blizzard_mock.Base.Dict.{Dict, lookup, insert, remove, set_default}
use blizzard_mock.Base.Int.{ℤ, pos, ◌-ℤ◌, ltb_ℤ, leb_ℤ}

pub record Window : Type 0 where
  pub remaining : ℤ
  pub reset : ℤ

pub record RateLedger : Type 0 where
  pub limit : ℤ
  pub windows : Dict String Window
  pub template : Option Window

-- `RateWindow`: the limit, and the window.
pub record RateWindow : Type 0 where
  pub limit : ℤ
  pub remaining : ℤ
  pub reset : ℤ

abbrev pub window_seconds : ℕ
window_seconds = 3600

-- `_live`: the bucket's window, unless its reset has come; then it is dropped.
unfoldable pub live : ℕ → String → RateLedger → Option Window × RateLedger
live now bucket g = elim (lookup bucket g.windows) [
  | none ↦ (none, g)
  | some w ↦
      if leb_ℤ w.reset (pos now)
      then (none, record g { windows = remove bucket g.windows })
      else (some w, g)
]

-- `_fresh`: from the template while its own reset is ahead; else it is dropped.
unfoldable pub fresh : ℕ → RateLedger → Window × RateLedger
fresh now g =
    let plain : Window = record { remaining = g.limit; reset = pos (now + window_seconds) } in
    elim g.template [
      | none ↦ (plain, g)
      | some t ↦ if ltb_ℤ (pos now) t.reset then (t, g) else (plain, record g { template = none })
    ]

-- The window that a bucket answers with, opened or restored where it has none.
unfoldable pub window_of : ℕ → String → RateLedger → Window × RateLedger
window_of now bucket g =
    let (w, g') = live now bucket g in elim w [ some w ↦ (w, g') | none ↦ fresh now g' ]

-- `max(remaining - 1, 0)`
unfoldable pub spend : ℤ → ℤ
spend n = let left = n -ℤ pos 1 in if leb_ℤ left (pos 0) then pos 0 else left

abbrev answer : RateLedger → Window → RateWindow
answer g w = record { limit = g.limit; remaining = w.remaining; reset = w.reset }

unfoldable pub count : ℕ → String → RateLedger → RateWindow × RateLedger
count now bucket g =
    let (w, g') = window_of now bucket g in
    let spent = record w { remaining = spend w.remaining } in
    (answer g' spent, record g' { windows = insert bucket spent g'.windows })

unfoldable pub peek : ℕ → String → RateLedger → RateWindow × RateLedger
peek now bucket g = let (w, g') = window_of now bucket g in (answer g' w, g')

-- `_apply`
unfoldable pub budgeted : Option ℤ → Option ℤ → Window → Window
budgeted remaining reset w = record {
  remaining = get_or remaining w.remaining;
  reset = get_or reset w.reset;
}

-- The loop over every bucket: a live window gets the budget, an elapsed one is dropped.
unfoldable pub budget_all : ℕ → Option ℤ → Option ℤ → Dict String Window → Dict String Window
budget_all now remaining reset [] = []
budget_all now remaining reset ((b, w) ∷ ws) =
    let rest = budget_all now remaining reset ws in
    if leb_ℤ w.reset (pos now) then rest else (b, budgeted remaining reset w) ∷ rest

-- `_live(token) or _windows.setdefault(token, _fresh())`, given the budget.
unfoldable pub budget_one : ℕ → String → Option ℤ → Option ℤ → RateLedger → RateLedger
budget_one now token remaining reset g =
    let (w, g') = window_of now token g in
    record g' { windows = insert token (budgeted remaining reset w) g'.windows }

unfoldable pub set_budget : ℕ → Option String → Option ℤ → Option ℤ → RateLedger → RateLedger
set_budget now (some token) remaining reset g = budget_one now token remaining reset g
set_budget now none remaining reset g =
    let (w, g') = fresh now g in
    record g' {
      windows = budget_all now remaining reset (set_default "" w g'.windows);
      template = some (record {
        remaining = get_or remaining g'.limit;
        reset = get_or reset (pos (now + window_seconds));
      });
    }

pub clear : RateLedger → RateLedger
clear g = record g { windows = []; template = none }
