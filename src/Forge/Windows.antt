-- ===== src/Forge/Windows.antt =====
-- The rate windows, counted and peeked at.
use Prim.Native.Nat.{zero, suc}
use blizzard_mock.Base.{ℕ, ◌≡◌, refl, ap, true, false, String, some, arith, string_eq}
use blizzard_mock.Base.Dict.{lookup, insert, lookup-insert_self}
use blizzard_mock.Base.Int.{ℤ, pos, negsuc, ◌-ℤ◌, ◌≤ℤ◌, ltb_ℤ, leb_ℤ}
use blizzard_mock.Forge.Rate.{Window, RateLedger, live, window_of, spend, count, peek}

spend_floor : (n : ℤ) → pos 0 ≤ℤ spend n
unfolding spend ◌-ℤ◌
spend_floor n = ground arith

window_of-live :
    (now : ℕ) (bucket : String) (w : Window) (g : RateLedger)
    → lookup bucket g.windows ≡ some w
    → leb_ℤ w.reset (pos now) ≡ false
    → window_of now bucket g ≡ (w, g)
unfolding window_of live
window_of-live now bucket w g held ahead = ground arith

-- A budget after one more request: one less, and never less than nothing.
abbrev pub one_less : ℤ → ℤ
one_less (pos (suc n)) = pos n
one_less n = pos 0

spend-one_less : (n : ℤ) → spend n ≡ one_less n
unfolding spend ◌-ℤ◌
spend-one_less (pos zero) = refl
spend-one_less (pos (suc n)) = ground arith
spend-one_less (negsuc n) = ground arith

module _ (now : ℕ) (bucket : String) (g : RateLedger) where
  -- A counted request answers with one less than the window that a peek would have shown, or with
  -- zero, and with the same limit and reset; never with less than zero.
  pub count_spends :
      let before = (peek now bucket g).0 in
      let after = (count now bucket g).0 in
      (after.remaining ≡ one_less before.remaining)
      × (after.reset ≡ before.reset)
      × (after.limit ≡ before.limit)
      × (pos 0 ≤ℤ after.remaining)
  unfolding count peek
  count_spends = (
    spend-one_less (window_of now bucket g).0.remaining,
    refl,
    refl,
    spend_floor (window_of now bucket g).0.remaining,
  )

  -- A peek at the bucket at any time before the reset that a counted request answered with shows that
  -- request's answer.
  pub peek-count :
      (later : ℕ)
      → ltb_ℤ (pos later) (count now bucket g).0.reset ≡ true
      → (peek later bucket (count now bucket g).1).0 ≡ (count now bucket g).0
  unfolding count peek
  peek-count later ahead =
      let opened = window_of now bucket g in
      let spent : Window = record {
        remaining = spend opened.0.remaining;
        reset = opened.0.reset;
      } in
      let left = record opened.1 { windows = insert bucket spent opened.1.windows } in
      ap (λ x. record { limit = x.1.limit; remaining = x.0.remaining; reset = x.0.reset })
        (window_of-live later bucket spent left (lookup-insert_self bucket spent opened.1.windows)
          (ground arith))
