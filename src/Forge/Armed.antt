-- ===== src/Forge/Armed.antt =====
-- The forge's lever store: searching, arming and clearing.
use blizzard_mock.Base.{
  ==_true, ◌⊎◌, inl, inr, ◌∙◌, Option-cases, ℕ, ◌≡◌, ◌≢◌, true, String, Option, none, some, arith,
  string_eq, nat_eq, option_eq, pair_eq, ==_self,
}
use blizzard_mock.Base.Dict.{lookup, lookup-insert_self, lookup-insert_ne, lookup-remove_ne}
use blizzard_mock.Base.Keyed.{
  IsKeyed, lookup-first, insert-IsKeyed, remove-IsKeyed, lookup-remove_keyed, first-insert-ne-none,
}
use blizzard_mock.Forge.Levers.{
  LeverKind, Lever, LeverStore, key, find, arm, clear, is_hit, matches, kind_value,
}

-- The lever is for every repository or this one, and for every number or this one.
abbrev pub Covers : Lever → Option String → Option ℕ → Type 0
Covers l repo number =
    ((l.repo ≡ none) ⊎ (l.repo ≡ repo)) × ((l.number ≡ none) ⊎ (l.number ≡ number))

hit-Covers :
    (kind : LeverKind) (l : Lever) (repo : Option String) (number : Option ℕ)
    → is_hit kind repo number l ≡ true
    → Covers l repo number
unfolding matches
hit-Covers kind l repo number hit =
    (ground (arith, hit, ==_true l.repo repo), ground (arith, hit, ==_true l.number number))

-- A lever that a search finds is in the store under its key, is of the kind asked for, and for every
-- repository or the one asked for, and for every number or the one asked for.
pub find_armed :
    (kind : LeverKind) (repo : Option String) (number : Option ℕ) (s : LeverStore) (l : Lever)
    → IsKeyed key s
    → find kind repo number s ≡ some l
    → (lookup (key l) s ≡ some l) × (kind_value l.kind ≡ kind_value kind) × Covers l repo number
unfolding find matches
find_armed kind repo number s l h e =
    let (held, hit) = lookup-first key (is_hit kind repo number) s l h e in
    (
      held,
      ground (arith, hit, string_eq.beq_iff (kind_value l.kind) (kind_value kind)),
      hit-Covers kind l repo number hit,
    )

-- A search finds a lever of the kind that covers what was asked for.
abbrev pub Found : LeverKind → Option String → Option ℕ → LeverStore → Type 0
Found kind repo number s =
    (l : Lever) × (find kind repo number s ≡ some l)
    × (kind_value l.kind ≡ kind_value kind)
    × Covers l repo number

find-Found :
    (kind : LeverKind) (repo : Option String) (number : Option ℕ) (s : LeverStore)
    → IsKeyed key s
    → find kind repo number s ≢ none
    → Found kind repo number s
find-Found kind repo number s h some_hit = elim (Option-cases (find kind repo number s)) [
  | inl missed ↦ ground (arith, some_hit missed)
  | inr (l, e) ↦
      let (_, of_kind, covers) = find_armed kind repo number s l h e in (l, e, of_kind, covers)
]

-- Arming a lever over a well-keyed store files it under its key, and from then on a search for its kind,
-- its repository and its number finds a lever of that kind that covers them. Clearing its kind and scope
-- takes its key away. Every other key holds what it held after both, and both keep the store well-keyed.
pub arm-clear :
    (l : Lever) (s : LeverStore)
    → IsKeyed key s
    → (lookup (key l) (arm l s) ≡ some l)
      × Found l.kind l.repo l.number (arm l s)
      × (lookup (key l) (clear l.kind l.repo l.number l.branch l.pattern (arm l s)) ≡ none)
      × ((j : String × String)
          → key l ≢ j
          → (lookup j (arm l s) ≡ lookup j s)
            × (lookup j (clear l.kind l.repo l.number l.branch l.pattern (arm l s)) ≡ lookup j s))
      × IsKeyed key (arm l s)
      × IsKeyed key (clear l.kind l.repo l.number l.branch l.pattern (arm l s))
unfolding find arm clear matches
arm-clear l s h =
    let armed = insert-IsKeyed key l s h in
    (
      lookup-insert_self (key l) l s,
      find-Found l.kind l.repo l.number (arm l s) armed (
          first-insert-ne-none key (is_hit l.kind l.repo l.number) (key l) l s
            (ground (arith, ==_self (kind_value l.kind), ==_self l.repo, ==_self l.number))),
      lookup-remove_keyed key (key l) (arm l s) armed,
      λ j other.
          let kept = lookup-insert_ne (key l) j l s other in
          (kept, lookup-remove_ne (key l) j (arm l s) other ∙ kept),
      armed,
      remove-IsKeyed key (key l) (arm l s) armed,
    )
