-- ===== src/Base/Keyed.antt =====
-- Stores that file each value under a key computed from it, and the search for the first value that
-- passes a test.
use mathlib.Core.Path.{◌≡◌, refl}
use mathlib.Core.Logic.{◌≢◌, inl, inr}
use mathlib.Core.Bool.{Bool, true}
use mathlib.Core.Option.{none, some}
use mathlib.Core.List.{[], ◌∷◌}
use native.Mathlib.Omega.{arith}
use blizzard_mock.Base.Tests.{Eq, Bool-cases}
use blizzard_mock.Base.Dict.{
  Dict, lookup, insert, remove, values, lookup-insert, lookup-remove_ne, map_values,
  lookup-map_values,
}
use blizzard_mock.Base.Lists.{first, All, All-imp}

module _ {K L : Type 0} ⦃eq : Eq K⦄ (key : L → K) where
  -- Every value stands under its own key, and no key stands twice.
  abbrev pub IsKeyed : Dict K L → Type 0
  IsKeyed [] = Unit
  IsKeyed ((j, w) ∷ s) = (j ≡ key w) × (lookup j s ≡ none) × IsKeyed s

  pub insert-IsKeyed : (l : L) (s : Dict K L) → IsKeyed s → IsKeyed (insert (key l) l s)
  unfolding insert lookup
  insert-IsKeyed l [] h = (refl, refl, tt)
  insert-IsKeyed l ((j, w) ∷ s) h = ground (
    arith,
    eq.beq_iff j (key l),
    eq.beq_iff (key l) j,
    insert-IsKeyed l s h.2,
    lookup-insert (key l) j l s,
  )

  pub remove-IsKeyed : (k : K) (s : Dict K L) → IsKeyed s → IsKeyed (remove k s)
  unfolding remove
  remove-IsKeyed k [] h = tt
  remove-IsKeyed k ((j, w) ∷ s) h =
      ground (arith, eq.beq_iff j k, eq.beq_iff k j, remove-IsKeyed k s h.2, lookup-remove_ne k j s)

  pub lookup-remove_keyed : (k : K) (s : Dict K L) → IsKeyed s → lookup k (remove k s) ≡ none
  unfolding lookup remove
  lookup-remove_keyed k [] h = refl
  lookup-remove_keyed k ((j, w) ∷ s) h = ground (arith, eq.beq_iff j k, lookup-remove_keyed k s h.2)

  pub key-lookup : (k : K) (s : Dict K L) (l : L) → IsKeyed s → lookup k s ≡ some l → key l ≡ k
  unfolding lookup
  key-lookup k [] l h e = cc
  key-lookup k ((j, w) ∷ s) l h e = ground (arith, eq.beq_iff j k, key-lookup k s l h.2)

  -- Every value is found under its key.
  pub keyed-All : (s : Dict K L) → IsKeyed s → All (λ w. lookup (key w) s ≡ some w) (values s)
  unfolding lookup
  keyed-All [] h = tt
  keyed-All ((j, w) ∷ s) h = (
    ground (arith, h.0, eq.beq_iff j (key w)),
    All-imp (λ u. lookup (key u) s ≡ some u) _ (λ u e. ground (arith, h.1, e, eq.beq_iff j (key u)))
        (values s) (keyed-All s h.2),
  )

  pub map_values-IsKeyed :
      (f : L → L) (s : Dict K L)
      → ((l : L) → key (f l) ≡ key l)
      → IsKeyed s
      → IsKeyed (map_values f s)
  unfolding map_values
  map_values-IsKeyed f [] same h = tt
  map_values-IsKeyed f ((j, w) ∷ s) same h = (
    cc (same w, h.0),
    ground (arith, h.1, lookup-map_values f j s),
    map_values-IsKeyed f s same h.2,
  )

  -- What a search finds is filed under its key.
  pub lookup-first :
      (p : L → Bool) (s : Dict K L) (l : L)
      → IsKeyed s
      → first p (values s) ≡ some l
      → (lookup (key l) s ≡ some l) × (p l ≡ true)
  unfolding lookup first
  lookup-first p [] l h e = cc
  lookup-first p ((j, w) ∷ s) l h e = elim (Bool-cases (p w)) [
    | inl here ↦ ground (arith, eq.beq_iff j (key l))
    | inr there ↦ ground (arith, eq.beq_iff j (key l), lookup-first p s l h.2)
  ]

  -- Filing a value with the found one's key puts it in the found one's place.
  pub first-insert :
      (p : L → Bool) (l l' : L) (s : Dict K L)
      → IsKeyed s
      → first p (values s) ≡ some l
      → key l' ≡ key l
      → p l' ≡ true
      → first p (values (insert (key l) l' s)) ≡ some l'
  unfolding lookup first insert
  first-insert p l l' [] h e same passes = cc
  first-insert p l l' ((j, w) ∷ s) h e same passes = elim (Bool-cases (p w)) [
    | inl here ↦ ground (arith, eq.beq_iff j (key l))
    | inr there ↦
        ground (arith, eq.beq_iff j (key l), lookup-first p s l h.2, first-insert p l l' s h.2)
  ]

  -- A value just filed is found, if nothing before it passes the test: some value is.
  pub first-insert-ne-none :
      (p : L → Bool) (k : K) (l : L) (s : Dict K L)
      → p l ≡ true
      → first p (values (insert k l s)) ≢ none
  unfolding first insert
  first-insert-ne-none p k l [] h = ground arith
  first-insert-ne-none p k l ((j, w) ∷ s) h =
      ground (arith, eq.beq_iff j k, first-insert-ne-none p k l s)
