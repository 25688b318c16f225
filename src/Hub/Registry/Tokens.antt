-- ===== src/Hub/Registry/Tokens.antt =====
-- Whom a bearer token of the registry speaks for once a runner is enrolled, or retired.
use blizzard_mock.Base.Keyed.{key-lookup}
use blizzard_mock.Hub.Registry.Live.{IsLive, runner_key}
use blizzard_mock.Base.{
  ◌≡◌, arith, refl, String, string_eq, option_eq, ◌==◌, [], ◌∷◌, none, some, if◌then◌else◌, Option,
  Result, ok, ◌>>=◌, err, Option-cases, inl, inr,
}
use blizzard_mock.Base.Dict.{Dict, lookup, insert, lookup-insert, IsDict}
use blizzard_mock.Hub.Registry.Principal.{principal, identity, refused_token}
use blizzard_mock.Hub.Registry.{
  others_tokens, revoke_held, enroll, retire, Registry, added, replace_token, runner_for_token,
  RegistryError, RunnerRow, get_runner, token_retired, token_revoked,
}

lookup-others :
    (r t : String) (d : Dict String String)
    → IsDict d
    → lookup t (others_tokens r d) ≡ (if lookup t d == some r then none else lookup t d)
unfolding lookup others_tokens
lookup-others r t [] h = refl
lookup-others r t ((j, o) ∷ d) h =
    ground (arith, string_eq.beq_iff j t, string_eq.beq_iff o r, lookup-others r t d h.1)

lookup-revoke_held :
    (r t : String) (d revoked : Dict String String)
    → IsDict d
    → lookup t (revoke_held r d revoked)
      ≡ (if lookup t d == some r then some r else lookup t revoked)
unfolding lookup revoke_held
lookup-revoke_held r t [] revoked h = refl
lookup-revoke_held r t ((j, o) ∷ d) revoked h = ground (
  arith,
  string_eq.beq_iff j t,
  string_eq.beq_iff o r,
  lookup-revoke_held r t d revoked h.1,
  lookup-revoke_held r t d (insert j r revoked) h.1,
  lookup-insert j t r revoked,
)

-- Whom a token speaks for once the runner has lost its tokens, and once it has a new one.
abbrev pub revoked : String → String → Registry → Result RegistryError String
revoked r t g = if lookup t g.tokens == some r then err token_revoked else principal (some t) g

abbrev pub speaks : Option String → String → String → Registry → Result RegistryError String
speaks none r t g = revoked r t g
speaks (some token) r t g = if token == t then ok r else revoked r t g

replaced-principal :
    (r : String) (token : Option String) (t : String) (g : Registry) (row : RunnerRow)
    → IsDict g.tokens
    → get_runner r g ≡ some row
    → row.runner_id ≡ r
    → principal (some t) (replace_token r token g) ≡ speaks token r t g
unfolding principal runner_for_token replace_token
replaced-principal r none t g row h held id =
    ground (arith, lookup-others r t g.tokens h, lookup-revoke_held r t g.tokens g.revoked_tokens h)
replaced-principal r (some token) t g row h held id = ground (
  arith,
  lookup-others r t g.tokens h,
  lookup-revoke_held r t g.tokens g.revoked_tokens h,
  lookup-insert token t r (others_tokens r g.tokens),
  string_eq.beq_iff token t,
)

enroll-state :
    (r tenant_id token : String) (g : Registry)
    → (enroll r tenant_id token g).0 ≡ ok token
    → ((enroll r tenant_id token g).1 ≡ replace_token r (some token) g)
      × ((row : RunnerRow) × (get_runner r g ≡ some row))
unfolding enroll added ◌>>=◌
enroll-state r tenant_id token g e = elim (Option-cases (get_runner r g)) [
  | inl unknown ↦ ground (arith, e, unknown)
  | inr (row, held) ↦ (ground (arith, e, held), (row, held))
]

-- Once a runner is enrolled under a token, the api takes that token for the runner's, refuses the
-- runner's earlier ones as revoked, and takes every other token as it did, in a registry whose tokens are
-- live and stand once each.
pub enroll-principal :
    (r tenant_id token t : String) (g : Registry)
    → IsDict g.tokens
    → IsLive g
    → (enroll r tenant_id token g).0 ≡ ok token
    → principal (some t) (enroll r tenant_id token g).1 ≡ speaks (some token) r t g
enroll-principal r tenant_id token t g h live e =
    let (state, (row, held)) = enroll-state r tenant_id token g e in
    rw state (
      replaced-principal r (some token) t g row h held
        (key-lookup runner_key r g.hub.runners row live.keyed held))

-- Once a runner is retired, each of its tokens is refused as a retired runner's where the runner is
-- looked up and as revoked elsewhere.
pub retire-refuses :
    (r t : String) (g : Registry) (row : RunnerRow)
    → IsDict g.tokens
    → IsLive g
    → get_runner r g ≡ some row
    → row.retired_at ≡ none
    → lookup t g.tokens ≡ some r
    → (identity (some t) (retire r g).1 ≡ err token_retired)
      × (principal (some t) (retire r g).1 ≡ err token_revoked)
unfolding retire replace_token identity principal runner_for_token refused_token
retire-refuses r t g row h live held active own = ground (
  arith,
  held,
  active,
  own,
  key-lookup runner_key r g.hub.runners row live.keyed held,
  lookup-others r t g.tokens h,
  lookup-revoke_held r t g.tokens g.revoked_tokens h,
  lookup-insert row.runner_id r (record row { retired_at = some g.hub.now }) g.hub.runners,
  string_eq.beq_iff r r,
)
