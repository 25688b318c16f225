-- ===== src/Levers/Tests.antt =====
-- Runs of the lever store, and instances of its theorems.
use blizzard_mock.Base.{◌≡◌, refl, inr, none, some, [], ◌∷◌, string_eq}
use blizzard_mock.Base.Int.{pos, ◌-ℤ◌}
use blizzard_mock.Base.Dict.{lookup, insert, remove}
use blizzard_mock.Base.Lists.{first}
use blizzard_mock.Levers.{Lever, LeverStore, scope_key, matches, arm, clear, find, consume}
use blizzard_mock.Levers.Store.{IsStore, arm-IsStore, find_sound, find-arm, Reaches}
use blizzard_mock.Levers.Expiry.{hit, hits, hits_expiry}

program : Unit {0}
unfolding scope_key matches arm clear find consume hit hits lookup insert remove first ◌-ℤ◌
program = tt

-- `arm("unreachable", remaining=2)`
abbrev twice : Lever
twice = record { kind = "unreachable"; chunk_id = none; remaining = some (pos 2); payload = [] }

abbrev scoped : Lever
scoped = record { kind = "replay"; chunk_id = some "ch_1"; remaining = none; payload = [] }

abbrev armed : LeverStore
armed = arm twice (arm scoped [])

key_global : scope_key twice ≡ "unreachable#*"
unfolding program
key_global = refl

after_one : hits 1 "unreachable" (some "ch_9") armed ≡ hits 1 "unreachable" none armed
unfolding program
after_one = refl

after_two : hits 2 "unreachable" none armed ≡ ("replay#ch_1", scoped) ∷ []
unfolding program
after_two = refl

unscoped_miss : find "replay" (some "ch_2") armed ≡ none
unfolding program
unscoped_miss = refl

armed-IsStore : IsStore armed
armed-IsStore = arm-IsStore twice (arm scoped []) (arm-IsStore scoped [] tt)

find_sound_example :
    (lookup (scope_key scoped) armed ≡ some scoped)
    × (scoped.kind ≡ "replay")
    × Reaches scoped (some "ch_1")
unfolding program
find_sound_example = find_sound "replay" (some "ch_1") armed armed-IsStore refl

find-arm_example :
    (lookup (scope_key scoped) (arm scoped []) ≡ some scoped)
    × ((x : Lever) × (find "replay" (some "ch_1") (arm scoped []) ≡ some x)
        × (x.kind ≡ "replay")
        × Reaches x (some "ch_1"))
unfolding program
find-arm_example = find-arm scoped (some "ch_1") [] tt (inr refl)

hits_expiry_example :
    (find "unreachable" none (hits 1 "unreachable" none armed)
      ≡ some (record twice { remaining = some (pos 1) }))
    × (lookup (scope_key twice) (hits 2 "unreachable" none armed) ≡ none)
unfolding program
hits_expiry_example = hits_expiry 1 "unreachable" none twice armed armed-IsStore refl refl
