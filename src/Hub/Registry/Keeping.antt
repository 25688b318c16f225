-- ===== src/Hub/Registry/Keeping.antt =====
-- Each operation of the registry keeps its current tokens live.
use mathlib.Core.Path.{subst}
use blizzard_mock.Base.{
  ◌==◌, [], ◌∷◌, none, some, ◌≡◌, ok, err, inl, inr, arith, Bool-cases, Option-cases, sym, refl,
  Result, ◌>>=◌, Option, String, List, string_eq, some, raise_if, is_some, true, is_none, none, ◌∷◌,
  pair_eq, option_eq, nat_eq,
}
use blizzard_mock.Base.Keyed.{key-lookup}
use blizzard_mock.Hub.State.{RunnerRow, RunnerCapability}
use blizzard_mock.Hub.Registry.{
  Registry, Call, RegistryError, put_runner, get_runner, added, refuse_version, runner_retired,
  find, value, version_refused, lookup, ServedEntry,
}
use blizzard_mock.Hub.Registry as Service
use blizzard_mock.Hub.Registry.Live.{
  IsLive, is_live, put_runner-IsLive, issued-IsLive, revoked-IsLive, retired-IsLive, stored-IsLive,
  runner_key,
}

module _ {A B : Type 0} (m : Call A) (f : A → Call B) (g : Registry) where
  then-IsLive :
      IsLive (m g).1 → ((a : A) → (m g).0 ≡ ok a → IsLive (f a (m g).1).1) → IsLive ((m >>= f) g).1
  unfolding ◌>>=◌
  then-IsLive = after (m g)
    where
      after :
          (p : Result RegistryError A × Registry)
          → IsLive p.1
          → ((a : A) → p.0 ≡ ok a → IsLive (f a p.1).1)
          → IsLive (((λ _. p) >>= f) g).1
      after (ok a, g') h rest = rest a refl
      after (err x, g') h rest = h

  -- A step that only reads.
  reads-IsLive :
      (m g).1 ≡ g
      → ((a : A) → (m g).0 ≡ ok a → IsLive (f a g).1)
      → IsLive g
      → IsLive ((m >>= f) g).1
  reads-IsLive same rest h =
      then-IsLive (subst IsLive (sym same) h)
        (λ a e. subst (λ s. IsLive (f a s).1) (sym same) (rest a e))

module _ (g : Registry) where
  added-reads : (r : String) → (added r g).1 ≡ g
  unfolding added
  added-reads r = ground arith

  added-finds : (r : String) (row : RunnerRow) → (added r g).0 ≡ ok row → get_runner r g ≡ some row
  unfolding added
  added-finds r row e = ground arith

  -- Writing back a runner's row with its id and its retirement as they were.
  rewritten-IsLive :
      (r : String) (row row' : RunnerRow)
      → get_runner r g ≡ some row
      → row'.runner_id ≡ row.runner_id
      → row'.retired_at ≡ row.retired_at
      → IsLive g
      → IsLive (put_runner row' g)
  rewritten-IsLive r row row' held same_id same_end h =
      put_runner-IsLive g row'
        (λ live. ground (arith, key-lookup runner_key r g.hub.runners row h.keyed held)) h

  named_live :
      (r : String) (row : RunnerRow)
      → (added r g).0 ≡ ok row
      → (raise_if (is_some row.retired_at) runner_retired g).0 ≡ ok tt
      → is_live (get_runner r g) ≡ true
  named_live r row e alive = ground (arith, added-finds r row e, alive)

  pub enroll-IsLive :
      (r tenant_id token : String) → IsLive g → IsLive (Service.enroll r tenant_id token g).1
  unfolding Service.enroll
  enroll-IsLive r tenant_id token h =
      reads-IsLive _ _ g (added-reads r)
        (λ row e.
          reads-IsLive _ _ g (ground arith)
            (λ _ _.
              reads-IsLive _ _ g (ground arith)
                (λ _ alive.
                  let issued = issued-IsLive g r token (named_live r row e alive) h in
                  then-IsLive _ _ g issued (λ _ _. issued))
                h)
            h)
        h

  pub revoke_token-IsLive : (r : String) → IsLive g → IsLive (Service.revoke_token r g).1
  unfolding Service.revoke_token
  revoke_token-IsLive r h = reads-IsLive _ _ g (added-reads r) (λ row e. revoked-IsLive g r h) h

  pub retire-IsLive : (r : String) → IsLive g → IsLive (Service.retire r g).1
  unfolding Service.retire
  retire-IsLive r h = elim (Option-cases (get_runner r g)) [
    | inl unknown ↦ rw (unknown, Service.retire) h
    | inr (row, held) ↦
        rw (held, Service.retire)
          (elim (Bool-cases (is_some row.retired_at)) [
            | inl already ↦ rw already h
            | inr still ↦
                let id : row.runner_id ≡ r =
                  key-lookup runner_key r g.hub.runners row h.keyed held in
                rw (still, sym id) (retired-IsLive g (record row { retired_at = some g.hub.now }) h)
          ])
  ]

  pub heartbeat-IsLive : (r : String) → IsLive g → IsLive (Service.heartbeat r g).1
  unfolding Service.heartbeat
  heartbeat-IsLive r h = elim (Option-cases (get_runner r g)) [
    | inl unknown ↦ rw (unknown, Service.heartbeat) h
    | inr (row, held) ↦
        rw (held, Service.heartbeat)
          (elim (Bool-cases (is_none row.registered_at)) [
            | inl never ↦ rw never h
            | inr seen ↦ rw seen (rewritten-IsLive r row _ held refl refl h)
          ])
  ]

  refuse_version-IsLive : (r : String) → IsLive g → IsLive (Service.refuse_version r g).1
  unfolding Service.refuse_version
  refuse_version-IsLive r h = elim (Option-cases (find (value version_refused) none g.hub.levers)) [
    | inl out ↦ rw (out, Service.refuse_version) h
    | inr (l, set) ↦
        rw (set, Service.refuse_version)
          (elim (Bool-cases (lookup "runner_id" l.payload == some r)) [
            | inl this ↦ rw this (record { live = h.live; keyed = h.keyed })
            | inr other ↦ rw other h
          ])
  ]

  refuse_version-finds :
      (r i : String) → get_runner i (Service.refuse_version r g).1 ≡ get_runner i g
  unfolding Service.refuse_version
  refuse_version-finds r i = ground arith

  tenant-reads : (tenant_id : String) → (Service.tenant tenant_id g).1 ≡ g
  unfolding Service.tenant
  tenant-reads tenant_id = elim (Option-cases (lookup tenant_id g.tenants)) [
    | inl unknown ↦ rw (unknown, Service.tenant) refl
    | inr (t, held) ↦ rw (held, Service.tenant) refl
  ]

  all_resolved-reads :
      (es : List ServedEntry) (us : List String) → (Service.all_resolved es us g).1 ≡ g
  unfolding Service.all_resolved
  all_resolved-reads es [] = refl
  all_resolved-reads es (u ∷ us) = refl

  store_runner-IsLive :
      (row : RunnerRow) (token : String)
      → is_none row.retired_at ≡ true
      → IsLive g
      → IsLive (Service.store_runner row token g).1
  unfolding Service.store_runner
  store_runner-IsLive row token fresh h = elim (Bool-cases (is_some (get_runner row.runner_id g))) [
    | inl held ↦ rw (held, Service.store_runner) h
    | inr new ↦ rw (new, Service.store_runner) (stored-IsLive g row token fresh h)
  ]

module _ (g : Registry) where
  pub set_runner_projects-IsLive :
      (r : String) (entries : List String)
      → IsLive g
      → IsLive (Service.set_runner_projects r entries g).1
  unfolding Service.set_runner_projects
  set_runner_projects-IsLive r entries h = elim (Option-cases (get_runner r g)) [
    | inl unknown ↦ rw (unknown, Service.set_runner_projects) h
    | inr (row, held) ↦
        rw (held, Service.set_runner_projects) (rewritten-IsLive g r row _ held refl refl h)
  ]

  pub register-IsLive :
      (strip : String → String) (r : String) (name : Option String)
      (capabilities : List RunnerCapability) (projects bindings : Option (List String))
      → IsLive g
      → IsLive (Service.register strip r name capabilities projects bindings g).1
  unfolding Service.register Service.registered_row
  register-IsLive strip r name capabilities projects bindings h =
      reads-IsLive _ _ g (added-reads g r)
        (λ row e. then-IsLive _ _ g (refuse_version-IsLive g r h) (λ _ _.
          let g' = (refuse_version r g).1 in
          let kept = refuse_version-IsLive g r h in
          let held : get_runner r g' ≡ some row =
            cc (refuse_version-finds g r r, added-finds g r row e) in
          reads-IsLive _ _ g' refl
            (λ s same.
              let written =
                rewritten-IsLive g' r row
                  (Service.registered_row row (Service.given_name strip name) capabilities
                    (Service.declared_or_kept row.tenant_id (Service.declaring projects bindings) s)
                    s.hub.now)
                  held refl refl kept in
              then-IsLive _ _ g' written (λ _ _. written))
            kept))
        h

  added_declaration-reads :
      (tenant_id : String) (projects : Option (List String))
      → (Service.added_declaration tenant_id projects g).1 ≡ g
  unfolding Service.added_declaration
  added_declaration-reads tenant_id none = refl
  added_declaration-reads tenant_id (some entries) = all_resolved-reads g _ _

  pub add_runner-IsLive :
      (r token name tenant_id : String) (projects : Option (List String))
      → IsLive g
      → IsLive (Service.add_runner r token name tenant_id projects g).1
  unfolding Service.add_runner
  add_runner-IsLive r token name tenant_id projects h =
      reads-IsLive _ _ g (tenant-reads g tenant_id)
        (λ t _.
          reads-IsLive _ _ g (added_declaration-reads t.tenant_id projects)
            (λ declaration _.
              let stored =
                store_runner-IsLive g (Service.new_runner r t.tenant_id name declaration) token refl
                  h in
              then-IsLive _ _ g stored (λ _ _. stored))
            h)
        h
