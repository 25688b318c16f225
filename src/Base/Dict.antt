-- ===== src/Base/Dict.antt =====
-- A Python dict in insertion order: a write to a key it holds keeps the key's place.
use mathlib.Core.Path.{◌≡◌, refl, subst}
use mathlib.Core.Logic.{◌≢◌, inl, inr}
use mathlib.Core.Option.{Option, none, some}
use mathlib.Core.List.{List, [], ◌∷◌, map}
use native.Mathlib.Omega.{arith}
use blizzard_mock.Base.Lists.{All}
use blizzard_mock.Base.Tests.{Bool-cases, Eq, ◌==◌, if◌then◌else◌}

abbrev pub Dict {ℓ} : Type 0 → Type ℓ → Type ℓ
Dict K V = List (K × V)

module _ {ℓ} {K : Type 0} {V : Type ℓ} where
  -- `d.values()`
  abbrev pub values : Dict K V → List V
  values = map (λ e. e.1)

  -- Every value changed in its place.
  unfoldable pub map_values : (V → V) → Dict K V → Dict K V
  map_values f [] = []
  map_values f ((k, v) ∷ d) = (k, f v) ∷ map_values f d

module _ {ℓ} {K : Type 0} {V : Type ℓ} ⦃eq : Eq K⦄ where
  -- `d.get(k)`
  unfoldable pub lookup : K → Dict K V → Option V
  lookup k [] = none
  lookup k ((j, v) ∷ d) = if j == k then some v else lookup k d

  -- `d[k] = v`
  unfoldable pub insert : K → V → Dict K V → Dict K V
  insert k v [] = (k, v) ∷ []
  insert k v ((j, w) ∷ d) = if j == k then (j, v) ∷ d else (j, w) ∷ insert k v d

  -- `d.pop(k, None)`
  unfoldable pub remove : K → Dict K V → Dict K V
  remove k [] = []
  remove k ((j, w) ∷ d) = if j == k then d else (j, w) ∷ remove k d

  -- `d.setdefault(k, v)`, as a write
  unfoldable pub set_default : K → V → Dict K V → Dict K V
  set_default k v d = elim (lookup k d) [ none ↦ insert k v d | some _ ↦ d ]

  -- No key stands twice.
  abbrev pub IsDict : Dict K V → Type ℓ
  IsDict [] = Unit
  IsDict ((k, v) ∷ d) = (lookup k d ≡ none) × IsDict d

  pub lookup-insert :
      (k j : K) (v : V) (d : Dict K V)
      → lookup j (insert k v d) ≡ (if k == j then some v else lookup j d)
  unfolding lookup insert
  lookup-insert k j v [] = refl
  lookup-insert k j v ((i, w) ∷ d) =
      ground (arith, eq.beq_iff k j, eq.beq_iff i k, eq.beq_iff i j, lookup-insert k j v d)

  pub lookup-insert_self : (k : K) (v : V) (d : Dict K V) → lookup k (insert k v d) ≡ some v
  lookup-insert_self k v d = ground (arith, lookup-insert k k v d, eq.beq_iff k k)

  pub lookup-insert_ne :
      (k j : K) (v : V) (d : Dict K V) → k ≢ j → lookup j (insert k v d) ≡ lookup j d
  lookup-insert_ne k j v d h = ground (arith, lookup-insert k j v d, eq.beq_iff k j)

  pub lookup-remove_ne : (k j : K) (d : Dict K V) → k ≢ j → lookup j (remove k d) ≡ lookup j d
  unfolding lookup remove
  lookup-remove_ne k j [] h = refl
  lookup-remove_ne k j ((i, w) ∷ d) h =
      ground (arith, eq.beq_iff i k, eq.beq_iff i j, lookup-remove_ne k j d h)

  pub insert-IsDict : (k : K) (v : V) (d : Dict K V) → IsDict d → IsDict (insert k v d)
  unfolding insert lookup
  insert-IsDict k v [] h = (refl, tt)
  insert-IsDict k v ((i, w) ∷ d) h =
      ground (arith, eq.beq_iff i k, insert-IsDict k v d h.1, lookup-insert k i v d, eq.beq_iff k i)

  pub lookup-remove_self : (k : K) (d : Dict K V) → IsDict d → lookup k (remove k d) ≡ none
  unfolding lookup remove
  lookup-remove_self k [] h = refl
  lookup-remove_self k ((i, w) ∷ d) h = ground (arith, eq.beq_iff i k, lookup-remove_self k d h.1)

  pub remove-IsDict : (k : K) (d : Dict K V) → IsDict d → IsDict (remove k d)
  unfolding remove
  remove-IsDict k [] h = tt
  remove-IsDict k ((i, w) ∷ d) h =
      ground (arith, eq.beq_iff i k, eq.beq_iff k i, remove-IsDict k d h.1, lookup-remove_ne k i d)

  -- A write to a new key keeps what every other key holds.
  pub lookup-insert_new :
      (k j : K) (v w : V) (d : Dict K V)
      → lookup k d ≡ none
      → lookup j d ≡ some w
      → lookup j (insert k v d) ≡ some w
  unfolding lookup insert
  lookup-insert_new k j v w [] new e = cc
  lookup-insert_new k j v w ((i, u) ∷ d) new e =
      ground (arith, eq.beq_iff i k, eq.beq_iff i j, lookup-insert_new k j v w d)

  -- Writing what is held already changes nothing.
  pub insert-held : (k : K) (v : V) (d : Dict K V) → lookup k d ≡ some v → insert k v d ≡ d
  unfolding lookup insert
  insert-held k v [] e = cc
  insert-held k v ((i, w) ∷ d) e = ground (arith, eq.beq_iff i k, insert-held k v d)

  -- What holds of every value still does after a write of a value it holds of.
  pub All-insert {κ} :
      (P : V → Type κ) (k : K) (v : V) (d : Dict K V)
      → P v
      → All (λ e. P e.1) d
      → All (λ e. P e.1) (insert k v d)
  unfolding insert
  All-insert P k v [] p h = (p, tt)
  All-insert P k v ((j, w) ∷ d) p h = elim (Bool-cases (j == k)) [
    | inl same ↦ rw same (p, h.1)
    | inr other ↦ rw other (h.0, All-insert P k v d p h.1)
  ]

  pub All-lookup {κ} :
      (P : V → Type κ) (k : K) (v : V) (d : Dict K V)
      → All (λ e. P e.1) d
      → lookup k d ≡ some v
      → P v
  unfolding lookup
  All-lookup P k v [] h e = ground arith
  All-lookup P k v ((j, w) ∷ d) h e = elim (Bool-cases (j == k)) [
    | inl same ↦ subst P (ground arith) h.0
    | inr other ↦ All-lookup P k v d h.1 (ground arith)
  ]

  pub lookup-map_values :
      (f : V → V) (k : K) (d : Dict K V)
      → lookup k (map_values f d) ≡ (elim (lookup k d) [ none ↦ none | some v ↦ some (f v) ])
  unfolding lookup map_values
  lookup-map_values f k [] = refl
  lookup-map_values f k ((j, v) ∷ d) = ground (arith, lookup-map_values f k d)
