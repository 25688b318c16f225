-- ===== src/Levers/Expiry.antt =====
-- A self-expiring lever: `find` then `consume` for each affected request, as the mocks call them.
use Prim.Native.Nat.{ℕ, zero, suc}
use blizzard_mock.Base.{◌≡◌, refl, String, Option, none, some, arith, string_eq, option_eq}
use blizzard_mock.Base.Int.{pos, ◌-ℤ◌}
use blizzard_mock.Base.Dict.{lookup, insert}
use blizzard_mock.Base.Keyed.{lookup-remove_keyed, lookup-first, first-insert}
use blizzard_mock.Levers.{Lever, LeverStore, scope_key, matches, find, consume, is_hit}
use blizzard_mock.Levers.Store.{IsStore, consume-IsStore}

-- One affected request: the lever found, if any, is consumed.
unfoldable pub hit : String → Option String → LeverStore → LeverStore
hit kind c s = elim (find kind c s) [ none ↦ s | some l ↦ consume l s ]

unfoldable pub hits : ℕ → String → Option String → LeverStore → LeverStore
hits zero kind c s = s
hits (suc n) kind c s = hits n kind c (hit kind c s)

hit_found :
    (kind : String) (c : Option String) (s : LeverStore) {l : Lever}
    → find kind c s ≡ some l
    → hit kind c s ≡ consume l s
unfolding hit
hit_found kind c s e = ground arith

abbrev left : ℕ → Lever → Lever
left n l = record l { remaining = some (pos n) }

consume_last :
    (l : Lever) (s : LeverStore)
    → IsStore s
    → l.remaining ≡ some (pos 1)
    → lookup (scope_key l) (consume l s) ≡ none
unfolding consume ◌-ℤ◌
consume_last l s h e = ground (arith, lookup-remove_keyed scope_key (scope_key l) s h)

consume_more :
    (n : ℕ) (l : Lever) (s : LeverStore)
    → l.remaining ≡ some (pos (suc (suc n)))
    → consume l s ≡ insert (scope_key l) (left (suc n) l) s
unfolding consume ◌-ℤ◌
consume_more n l s e = ground arith

find-consume_more :
    (n : ℕ) (kind : String) (c : Option String) (l : Lever) (s : LeverStore)
    → IsStore s
    → find kind c s ≡ some l
    → l.remaining ≡ some (pos (suc (suc n)))
    → find kind c (consume l s) ≡ some (left (suc n) l)
unfolding find scope_key matches
find-consume_more n kind c l s h e r = rw (consume_more n l s r) (
    first-insert scope_key (is_hit kind c) l (left (suc n) l) s h e refl
      (lookup-first scope_key (is_hit kind c) s l h e).1)

-- A lever armed for n + 1 requests is found by each of the first n + 1 affected requests, the last of
-- which finds it with one request left and takes it out of the store: it bends no request after those.
pub hits_expiry :
    (n : ℕ) (kind : String) (c : Option String) (l : Lever) (s : LeverStore)
    → IsStore s
    → find kind c s ≡ some l
    → l.remaining ≡ some (pos (suc n))
    → (find kind c (hits n kind c s) ≡ some (left 1 l))
      × (lookup (scope_key l) (hits (suc n) kind c s) ≡ none)
unfolding hits scope_key
hits_expiry zero kind c l s h e r = (ground arith, rw (hit_found kind c s e) (consume_last l s h r))
hits_expiry (suc n) kind c l s h e r = rw (hit_found kind c s e) (
    hits_expiry n kind c (left (suc n) l) (consume l s) (consume-IsStore l s h)
      (find-consume_more n kind c l s h e r) refl)
