-- ===== src/Hub/Retiring.antt =====
-- What the retirement of a host's runner leaves of the chunks.
use blizzard_mock.Levers.{find}
use blizzard_mock.Hub.Levers.{value, host_retire_lifecycle_conflict}
use blizzard_mock.Hub.Service.Guards.{consume_lever}
use blizzard_mock.Hub.Service.Retire.{held_ids}
use blizzard_mock.Base.{
  ◌≡◌, ◌⊎◌, refl, Bool, String, none, some, List, inl, inr, arith, string_eq, option_eq, Option,
  Option-cases,
}
use blizzard_mock.Base.Dict.{lookup, map_values}
use blizzard_mock.Levers.{Lever}
use blizzard_mock.Hub.State.{Hub, RunnerRow}
use blizzard_mock.Hub.Service.Retire.{
  retire_host_runner, retire_under_lever, retire_and_free, retire_row, freed_of,
}

module _ (r : String) (h : Hub) where
  retire_row-chunks : (row : RunnerRow) (g : Hub) → (retire_row row g).chunks ≡ g.chunks
  unfolding retire_row
  retire_row-chunks row g = ground arith

  under_lever-chunks :
      (row : RunnerRow) (held : List String) (l : Option Lever)
      → ((retire_under_lever r row held l h).1.chunks ≡ h.chunks)
        ⊎ ((retire_under_lever r row held l h).1.chunks ≡ map_values (freed_of r) h.chunks)
  unfolding retire_under_lever retire_and_free
  under_lever-chunks row held none = inr refl
  under_lever-chunks row held (some l) = ground (arith, retire_row-chunks row (consume_lever l h))

  -- It changes no chunk, or frees all that the runner holds.
  pub retire_host_runner-chunks :
      (host : String) (force : Bool)
      → ((retire_host_runner host r force h).1.chunks ≡ h.chunks)
        ⊎ ((retire_host_runner host r force h).1.chunks ≡ map_values (freed_of r) h.chunks)
  unfolding retire_host_runner
  retire_host_runner-chunks host force = elim (Option-cases (lookup r h.runners)) [
    | inl unknown ↦ ground (arith, unknown)
    | inr (row, found) ↦ ground (
      arith,
      found,
      under_lever-chunks row (held_ids r h)
          (find (value host_retire_lifecycle_conflict) none h.levers),
    )
  ]
