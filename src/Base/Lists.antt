-- ===== src/Base/Lists.antt =====
-- Lists over the native numbers, filters by a Boolean test, and predicates by recursion.
use Prim.Native.Nat.{ℕ, zero, suc}
use mathlib.Core.Bool.{Bool, true, false, ◌||◌, ◌&&◌}
use mathlib.Core.Option.{Option, none, some}
use mathlib.Core.Path.{◌≡◌, refl}
use mathlib.Core.List.{List, [], ◌∷◌, ◌++◌}
use native.Mathlib.Omega.{arith}
use mathlib.Core.Logic.{inl, inr}
use blizzard_mock.Base.Tests.{Bool-cases, Eq, ◌==◌, if◌then◌else◌}

module _ {ℓ} {A : Type ℓ} where
  abbrev pub length : List A → ℕ
  length [] = 0
  length (x ∷ xs) = suc (length xs)

  abbrev pub take : ℕ → List A → List A
  take zero xs = []
  take (suc n) [] = []
  take (suc n) (x ∷ xs) = x ∷ take n xs

  abbrev pub drop : ℕ → List A → List A
  drop zero xs = xs
  drop (suc n) [] = []
  drop (suc n) (x ∷ xs) = drop n xs

  -- `[x for x in xs if p(x)]`
  unfoldable pub keep_if : (A → Bool) → List A → List A
  keep_if p [] = []
  keep_if p (x ∷ xs) = if p x then x ∷ keep_if p xs else keep_if p xs

  -- `next((x for x in xs if p(x)), None)`
  unfoldable pub first : (A → Bool) → List A → Option A
  first p [] = none
  first p (x ∷ xs) = if p x then some x else first p xs

  -- `any(p(x) for x in xs)`, `all(p(x) for x in xs)`
  unfoldable pub any : (A → Bool) → List A → Bool
  any p [] = false
  any p (x ∷ xs) = p x || any p xs

  unfoldable pub all : (A → Bool) → List A → Bool
  all p [] = true
  all p (x ∷ xs) = p x && all p xs

  abbrev pub All {κ} : (A → Type κ) → List A → Type κ
  All P [] = Unit
  All P (x ∷ xs) = P x × All P xs

-- `x in xs`
unfoldable pub contains {ℓ} : {A : Type ℓ} ⦃e : Eq A⦄ → A → List A → Bool
contains a [] = false
contains a (x ∷ xs) = (x == a) || contains a xs

pub contains-snoc {ℓ} :
    {A : Type ℓ} ⦃e : Eq A⦄ (y x : A) (xs : List A)
    → contains y (xs ++ x ∷ []) ≡ ((x == y) || contains y xs)
unfolding contains
contains-snoc y x [] = refl
contains-snoc y x (z ∷ xs) = ground (arith, contains-snoc y x xs)

module _ {ℓ κ μ} {A : Type ℓ} (P : A → Type κ) (Q : A → Type μ) (imp : (a : A) → P a → Q a) where
  pub All-imp : (xs : List A) → All P xs → All Q xs
  All-imp [] h = tt
  All-imp (x ∷ xs) h = (imp x h.0, All-imp xs h.1)

module _ {ℓ κ} {A : Type ℓ} (P : A → Type κ) (p : A → Bool) where
  -- What holds of a list's members holds of those that a test keeps, which pass it.
  pub All-keep_if : (xs : List A) → All P xs → All (λ x. P x × (p x ≡ true)) (keep_if p xs)
  unfolding keep_if
  All-keep_if [] h = tt
  All-keep_if (x ∷ xs) h = elim (Bool-cases (p x)) [
    | inl kept ↦ rw kept ((h.0, kept), All-keep_if xs h.1)
    | inr gone ↦ rw gone (All-keep_if xs h.1)
  ]

pub contains-keep_if {ℓ} :
    {A : Type ℓ} ⦃e : Eq A⦄ (a : A) (p : A → Bool) (xs : List A)
    → contains a (keep_if p xs) ≡ true
    → contains a xs ≡ true
unfolding contains keep_if
contains-keep_if a p [] h = h
contains-keep_if a p (x ∷ xs) h = ground (arith, h, contains-keep_if a p xs)
