-- ===== src/Levers/Store.antt =====
-- The keys of the lever store, and searching it.
use blizzard_mock.Base.{
  ==_true, ==_self, ◌⊎◌, ◌≡◌, ◌≢◌, true, String, Option, none, some, arith, string_eq, option_eq,
  Option-cases, inl, inr,
}
use blizzard_mock.Base.Dict.{lookup, lookup-insert_self}
use blizzard_mock.Base.Keyed.{
  IsKeyed, insert-IsKeyed, remove-IsKeyed, lookup-first, first-insert-ne-none,
}
use blizzard_mock.Levers.{
  Lever, LeverStore, scope_key, matches, arm, clear, find, consume, is_hit, bare,
}
use blizzard_mock.Base.Int.{pos, ◌-ℤ◌}

-- Every lever stands under its own scope key, and no key stands twice.
abbrev pub IsStore : LeverStore → Type 0
IsStore = IsKeyed scope_key

pub arm-IsStore : (l : Lever) (s : LeverStore) → IsStore s → IsStore (arm l s)
unfolding arm
arm-IsStore l s h = insert-IsKeyed scope_key l s h

pub clear-IsStore :
    (kind : String) (c : Option String) (s : LeverStore) → IsStore s → IsStore (clear kind c s)
unfolding clear
clear-IsStore kind c s h = remove-IsKeyed scope_key (scope_key (bare kind c)) s h

pub consume-IsStore : (l : Lever) (s : LeverStore) → IsStore s → IsStore (consume l s)
unfolding consume scope_key
consume-IsStore l s h = elim (Option-cases l.remaining) [
  | inl sticky ↦ rw (sticky, consume) h
  | inr (n, e) ↦ ground (
    arith,
    remove-IsKeyed scope_key (scope_key l) s h,
    insert-IsKeyed scope_key (record l { remaining = some (n -ℤ pos 1) }) s h,
  )
]

-- The lever is global, or of this chunk.
abbrev pub Reaches : Lever → Option String → Type 0
Reaches l c = (l.chunk_id ≡ none) ⊎ (l.chunk_id ≡ c)

matches-Reaches : (l : Lever) (c : Option String) → matches l c ≡ true → Reaches l c
unfolding matches
matches-Reaches l c h = ground (arith, h, ==_true l.chunk_id c, ==_self c)

reaching_matches : (l : Lever) (c : Option String) → Reaches l c → matches l c ≡ true
unfolding matches
reaching_matches l c h = ground (arith, h, ==_true l.chunk_id c, ==_self c)

-- What `find` answers is filed in the store, has the kind that was asked for, and is global or of the
-- chunk that was asked for.
pub find_sound :
    (kind : String) (c : Option String) (s : LeverStore) {l : Lever}
    → IsStore s
    → find kind c s ≡ some l
    → (lookup (scope_key l) s ≡ some l) × (l.kind ≡ kind) × Reaches l c
unfolding find
find_sound kind c s {l} h e =
    let (held, hit) = lookup-first scope_key (is_hit kind c) s l h e in
    (
      held,
      ground (arith, hit, string_eq.beq_iff l.kind kind),
      matches-Reaches l c (ground (arith, hit)),
    )

found_some :
    (l : Lever) (c : Option String) (s : LeverStore) → Reaches l c → find l.kind c (arm l s) ≢ none
unfolding find arm
found_some l c s reaches =
    first-insert-ne-none scope_key (is_hit l.kind c) (scope_key l) l s
      (ground (arith, string_eq.beq_iff l.kind l.kind, reaching_matches l c reaches))

-- After `arm` over a store of scope keys, the lever stands under its key, and every request that it is
-- global for or of the chunk of finds a lever of its kind that is global or of the chunk.
pub find-arm :
    (l : Lever) (c : Option String) (s : LeverStore)
    → IsStore s
    → Reaches l c
    → (lookup (scope_key l) (arm l s) ≡ some l)
      × ((x : Lever) × (find l.kind c (arm l s) ≡ some x) × (x.kind ≡ l.kind) × Reaches x c)
unfolding arm
find-arm l c s h reaches = (
  lookup-insert_self (scope_key l) l s,
  (elim (Option-cases (find l.kind c (arm l s))) [
    | inl missed ↦ ground (arith, found_some l c s reaches missed)
    | inr (x, e) ↦
        let (_, of_kind, covers) = find_sound l.kind c (arm l s) (arm-IsStore l s h) e in
        (x, e, of_kind, covers)
  ]),
)
