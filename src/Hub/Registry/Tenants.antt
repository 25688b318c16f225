-- ===== src/Hub/Registry/Tenants.antt =====
-- Tenants and projects as scenarios seed them: src/blizzard_mock/mock_hub/domain/service.py.
use text.Mathlib.Text.{starts_with}
use blizzard_mock.Base.{
  ◌&&◌, ◌≡◌, ok, err, inl, inr, arith, Bool-cases, sym, Result, ◌>>=◌, ◌>>◌, pure, modify, raise_if,
  gets, Option, String, List, string_eq, option_eq, ◌==◌, [], ◌∷◌, none, some, is_some,
  if◌then◌else◌, Bool, true, false,
}
use blizzard_mock.Base.Dict.{Dict, lookup, insert, lookup-insert, values}
use blizzard_mock.Base.Lists.{any, first, keep_if}
use blizzard_mock.Hub.State.{ProjectRow}
use blizzard_mock.Hub.Registry.{
  Registry, RegistryError, TenantRow, Call, tenant, tenant_projects, resolve_project, tenant_exists,
  project_exists, slug_taken, tenant_required, in_tenant,
}

abbrev put_tenant : TenantRow → Registry → Registry
put_tenant row g = record g { tenants = insert row.tenant_id row g.tenants }

abbrev put_project : ProjectRow → Registry → Registry
put_project row g = record g {
  hub = record g.hub { projects = insert row.project_id row g.hub.projects };
}

-- `seed_project`, under the id that is minted or pinned
unfoldable pub seed_project : String → String → String → String → Call ProjectRow
seed_project project_id slug name tenant_id = do
  t ← tenant tenant_id
  held ← gets (λ g. lookup project_id g.hub.projects)
  raise_if (is_some held) project_exists
  others ← gets (tenant_projects t.tenant_id)
  raise_if (any (λ p. p.slug == slug) others) slug_taken
  row ← pure (record { project_id = project_id; tenant_id = t.tenant_id; slug = slug; name = name })
  modify (put_project row)
  pure row

abbrev default_project_slug : String
default_project_slug = "default"

-- `seed_tenant`, under the ids that are minted or pinned
unfoldable pub seed_tenant : String → String → String → Call TenantRow
seed_tenant tenant_id name project_id = do
  held ← gets (λ g. lookup tenant_id g.tenants)
  raise_if (is_some held) tenant_exists
  row ← pure (record { tenant_id = tenant_id; name = name })
  modify (put_tenant row)
  seed_project project_id default_project_slug "Default" tenant_id
  pure row

-- `rename_tenant`
unfoldable pub rename_tenant : String → String → Call TenantRow
rename_tenant tenant_id name = do
  row ← tenant tenant_id
  modify (put_tenant (record row { name = name }))
  pure (record row { name = name })

-- `tenant_named`, of the header's text
abbrev only_tenant : List TenantRow → Result RegistryError String
only_tenant (t ∷ []) = ok t.tenant_id
only_tenant ts = err tenant_required

unfoldable pub tenant_named : Option String → Call String
tenant_named (some named) =
    if named == ""
    then (λ g. (only_tenant (values g.tenants), g))
    else (do t ← tenant named; pure t.tenant_id)
tenant_named none = λ g. (only_tenant (values g.tenants), g)

module _ (row : ProjectRow) where
  taken : Dict String ProjectRow → Bool
  taken d = any (λ p. p.slug == row.slug) (keep_if (λ p. p.tenant_id == row.tenant_id) (values d))

  named : String → String → Dict String ProjectRow → Option ProjectRow
  named tenant_id slug d =
      first (λ p. p.slug == slug) (keep_if (λ p. p.tenant_id == tenant_id) (values d))

  free-tail :
      (j : String) (p : ProjectRow) (d : Dict String ProjectRow)
      → taken ((j, p) ∷ d) ≡ false
      → taken d ≡ false
  unfolding any keep_if taken
  free-tail j p d free = ground (arith, free)

  -- A held project that goes by a name is not where the row would stand under it.
  unnamed :
      (j : String) (p : ProjectRow) (tenant_id slug : String) (d : Dict String ProjectRow)
      → taken ((j, p) ∷ d) ≡ false
      → (p.tenant_id == tenant_id) ≡ true
      → (p.slug == slug) ≡ true
      → ((row.tenant_id == tenant_id) && (row.slug == slug)) ≡ false
  unfolding any keep_if taken
  unnamed j p tenant_id slug d free own like = ground (
    arith,
    free,
    string_eq.beq_iff p.tenant_id tenant_id,
    string_eq.beq_iff p.tenant_id row.tenant_id,
    string_eq.beq_iff row.tenant_id tenant_id,
    string_eq.beq_iff p.slug slug,
    string_eq.beq_iff p.slug row.slug,
    string_eq.beq_iff row.slug slug,
  )

  by_id :
      (tenant_id value : String) (d : Dict String ProjectRow)
      → lookup row.project_id d ≡ none
      → in_tenant tenant_id (lookup value (insert row.project_id row d)) ≡ (
          if (row.tenant_id == tenant_id) && (row.project_id == value)
          then some row
          else in_tenant tenant_id (lookup value d))
  by_id tenant_id value d new =
      ground
        (arith, lookup-insert row.project_id value row d, string_eq.beq_iff row.project_id value)

  named-insert :
      (tenant_id slug : String) (d : Dict String ProjectRow)
      → lookup row.project_id d ≡ none
      → taken d ≡ false
      → named tenant_id slug (insert row.project_id row d) ≡ (
          if (row.tenant_id == tenant_id) && (row.slug == slug)
          then some row
          else named tenant_id slug d)
  unfolding lookup insert any first keep_if taken named
  named-insert tenant_id slug [] new free = ground arith
  named-insert tenant_id slug ((j, p) ∷ d) new free =
      let other : (j == row.project_id) ≡ false = ground (arith, new) in
      let rest = named-insert tenant_id slug d (ground (arith, new)) (free-tail j p d free) in
      elim (Bool-cases (p.tenant_id == tenant_id)) [
        | inr foreign ↦ ground (arith, other, foreign, rest)
        | inl own ↦ elim (Bool-cases (p.slug == slug)) [
          | inr unlike ↦ ground (arith, other, own, unlike, rest)
          | inl like ↦ ground (arith, other, own, like, unnamed j p tenant_id slug d free own like)
        ]
      ]

module _ (project_id slug name tenant_id : String) (g : Registry) (row : ProjectRow) where
  seeded :
      (seed_project project_id slug name tenant_id g).0 ≡ ok row
      → ((seed_project project_id slug name tenant_id g).1 ≡ put_project row g)
        × (row.project_id ≡ project_id)
        × (row.slug ≡ slug)
        × (lookup project_id g.hub.projects ≡ none)
        × (taken row g.hub.projects ≡ false)
  unfolding seed_project ◌>>=◌ tenant tenant_projects taken
  seeded e = ground (arith, e)

  -- Once a project is seeded, a tenant's reference resolves to it by its id, if that has an id's prefix,
  -- or by its slug, if that has none, when the project is the tenant's; and every other reference of
  -- any tenant resolves as it did.
  pub seed_project-resolves :
      (asking value : String)
      → (seed_project project_id slug name tenant_id g).0 ≡ ok row
      → resolve_project asking value (seed_project project_id slug name tenant_id g).1 ≡ (
          if (row.tenant_id == asking)
            && ((if starts_with value "proj_" then project_id else slug) == value)
          then some row
          else resolve_project asking value g)
  unfolding resolve_project tenant_projects named
  seed_project-resolves asking value e =
      let (state, id, of_slug, new, free) = seeded e in
      let absent : lookup row.project_id g.hub.projects ≡ none = cc (id, new) in
      rw (state, sym id, sym of_slug)
        (elim (Bool-cases (starts_with value "proj_")) [
          | inl is_id ↦ rw is_id (by_id row asking value g.hub.projects absent)
          | inr is_slug ↦ rw is_slug (named-insert row asking value g.hub.projects absent free)
        ])
