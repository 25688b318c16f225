-- ===== src/Hub/Refusals.antt =====
-- Requests that are refused: what they leave of the hub.
use blizzard_mock.Levers.{find}
use blizzard_mock.Hub.Api.{
  claim_error, refuse_as, claim_refusal, dispatch, claim_problem, claim_response, Response,
}
use blizzard_mock.Hub.Evolution.{IsWellFormed}
use blizzard_mock.Hub.Models.{ChunkState, NodeEnvelope}
use mathlib.Core.Path.{subst}
use blizzard_mock.Hub.Api.{
  Response, dispatch, get_principal, claim_route, claim_response, claim_on_route,
  refuse_foreign_runner_chunk, plain, hub_unreachable, unresolved_token,
}
use blizzard_mock.Base.{
  ◌⊎◌, ◌≡◌, ◌≢◌, refl, sym, ◌∙◌, ap, Bool, true, String, Option, none, some, List, arith, string_eq,
  ok, err, Result, ◌>>=◌, ◌>>◌, modify, pure, is_some, inl, inr, Option-cases, ℕ,
}
use blizzard_mock.Hub.Passing.{
  Passes, Passes-require, Passes-check_pinned_graph, Passes-refuse_retired_runner,
  Passes-refuse_by_claim_lever, Passes-refuse_braked_runner, Passes-lift, Passes-refuse_dependency,
  Passes-raise_if, envelope_made, stepped, stepped,
}
use blizzard_mock.Hub.Frames.{
  Quiet, Quiet-require, Quiet-check_pinned_graph, Quiet-refuse_retired_runner,
  Quiet-refuse_by_claim_lever, Quiet-refuse_braked_runner, Quiet-refuse_dependency, Quiet-lift,
  Quiet-raise_if,
}
use blizzard_mock.Hub.Chunk.{node, refuse_claim}
use blizzard_mock.Hub.Models.{ChunkState, NodeEnvelope}
use blizzard_mock.Hub.Levers.{
  claim_runner_retired, claim_runner_version_refused, HubLever, value, unreachable, delay,
}
use blizzard_mock.Hub.Evolution.{IsWellFormed}
use blizzard_mock.Hub.Service.Guards.{
  pinned_graph_gone, check_pinned_graph, refuse_retired_runner, envelope,
}
use blizzard_mock.Hub.Service.Route.{claimed_by, claim_node, RouteClaimResponse}
use blizzard_mock.Hub.Claims.{refuse_claim_free, claimed_node-known}
use blizzard_mock.Hub.State.{Hub, RunnerRow}
use blizzard_mock.Hub.Service.Guards.{
  Handler, HubError, require, check_pinned_graph, refuse_retired_runner,
}
use blizzard_mock.Hub.Service.Route.{claim}
use blizzard_mock.Base.Dict.{lookup, Dict}

-- On this hub, a handler that raises leaves every chunk as it was.
pub record Spares {A : Type 0} (m : Handler A) (h : Hub) : Type 0 where
  pub spared : (e : HubError) (h' : Hub) → m h ≡ (err e, h') → h'.chunks ≡ h.chunks

module _ {A B : Type 0} {P : Hub → A → Type 0} (m : Handler A) (f : A → Handler B) (h : Hub)
    (quiet : Quiet m) (passes : Passes m P) (rest : (a : A) → P h a → Spares (f a) h) where
  spares_step :
      (r : Result HubError A) (s : Hub)
      → m h ≡ (r, s)
      → (e : HubError) (h' : Hub) → ((λ _. (r, s)) >>= f) h ≡ (err e, h')
      → h'.chunks ≡ h.chunks
  unfolding ◌>>=◌
  spares_step (ok a) s reached e h' raised =
      let (same, holds) = passes.passed h a s reached in
      (rest a holds).spared e h' (subst (λ x. f a x ≡ (err e, h')) same raised)
  spares_step (err x) s reached e h' raised =
      let there : s.chunks ≡ h'.chunks = ap (λ t. t.1.chunks) raised in
      sym there ∙ (sym (ap (λ t. t.1.chunks) reached) ∙ quiet.chunks h)

  Spares->>= : Spares (m >>= f) h
  unfolding ◌>>=◌
  Spares->>= = record { spared = λ e h' raised. spares_step (m h).0 (m h).1 refl e h' raised }

-- A write before an envelope that can be made never raises.
Spares-written :
    {A : Type 0} (write : Hub → Hub) (c : ChunkState) (n : String) (epoch : ℕ)
    (f : NodeEnvelope → A) (h : Hub)
    → is_some (node c n) ≡ true
    → Spares (modify write >> (envelope c n epoch >>= λ env. pure (f env))) h
unfolding ◌>>=◌
Spares-written write c n epoch f h known = record {
  spared = λ e h' raised.
      let (env, made) = envelope_made c n epoch (write h) known in
      let clash : (err e, h') ≡ (ok (f env), write h) =
        sym raised ∙ stepped (envelope c n epoch) (λ env. pure (f env)) (write h) env made refl in
      ground arith;
}

module _ (fnmatchcase : String → String → Bool) where
  claim-Spares :
      (k r w : String) (envs : List String) (h : Hub)
      → IsWellFormed h.chunks
      → Spares (claim fnmatchcase k r w envs) h
  unfolding claim
  claim-Spares k r w envs h wf =
      Spares->>= (require k) _ h (Quiet-require k) (Passes-require k) (λ c found.
        Spares->>= (check_pinned_graph k) _ h (Quiet-check_pinned_graph k)
          (Passes-check_pinned_graph k)
          (λ _ _.
            Spares->>= (refuse_retired_runner r) _ h (Quiet-refuse_retired_runner r)
              (Passes-refuse_retired_runner r)
              (λ _ _.
                Spares->>= _ _ h (Quiet-refuse_by_claim_lever claim_runner_retired k r)
                  (Passes-refuse_by_claim_lever claim_runner_retired k r)
                  (λ _ _.
                    Spares->>= _ _ h (Quiet-refuse_by_claim_lever claim_runner_version_refused k r)
                      (Passes-refuse_by_claim_lever claim_runner_version_refused k r)
                      (λ _ _.
                        Spares->>= _ _ h (Quiet-refuse_braked_runner r)
                          (Passes-refuse_braked_runner r)
                          (λ row _.
                            Spares->>= _ _ h (Quiet-lift (refuse_claim c))
                              (Passes-lift (refuse_claim c))
                              (λ _ free.
                                Spares->>= _ _ h (Quiet-refuse_dependency k)
                                  (Passes-refuse_dependency k)
                                  (λ _ _.
                                    Spares->>= _ _ h (Quiet-raise_if _ _) (Passes-raise_if _ _)
                                      (λ _ _.
                                        Spares->>= _ _ h (Quiet-raise_if _ _) (Passes-raise_if _ _)
                                          (λ _ _.
                                            Spares-written _ (claimed_by c r w envs) (claim_node c)
                                              _ _ h
                                              (claimed_node-known fnmatchcase c r w envs
                                                (wf.coherent k c found)
                                                (refuse_claim_free fnmatchcase c free).0)))))))))))

refuse_as-chunks :
    (legacy : HubLever) (o : Option String) (status : ℕ) (kind : String) (e : HubError) (h : Hub)
    → (refuse_as legacy o status kind e h).1.chunks ≡ h.chunks
unfolding refuse_as
refuse_as-chunks legacy o status kind e h = ground arith

claim_refusal-chunks :
    (k : String) (e : HubError) (p : Option (ℕ × String)) (h : Hub)
    → (claim_refusal k e p h).1.chunks ≡ h.chunks
unfolding claim_refusal
claim_refusal-chunks k e none h = refl
claim_refusal-chunks k e (some p) h = refuse_as-chunks _ _ p.0 p.1 e h

Result-cases : {E A : Type 0} (r : Result E A) → ((e : E) × (r ≡ err e)) ⊎ ((a : A) × (r ≡ ok a))
Result-cases (ok a) = inr (a, refl)
Result-cases (err e) = inl (e, refl)

claim_error-chunks : (k : String) (e : HubError) (h : Hub) → (claim_error k e h).1.chunks ≡ h.chunks
unfolding claim_error
claim_error-chunks k pinned_graph_gone h = refl
claim_error-chunks k e h = claim_refusal-chunks k e (claim_problem e) h

-- What comes before a route's handler answers itself, or passes a hub with the same chunks on.
module _ (P : Response × Hub → Type 0) (h : Hub) where
  abbrev Inert : Response → Type 0
  Inert r = (t : Hub) → t.chunks ≡ h.chunks → P (r, t)

  dispatched :
      (o : Option String) (next : Hub → Response × Hub)
      → Inert (plain 503 hub_unreachable)
      → ((t : Hub) → t.chunks ≡ h.chunks → P (next t))
      → P (dispatch o next h)
  unfolding dispatch
  dispatched o next down up = elim (Option-cases (find (value unreachable) o h.levers)) [
    | inr (l, gone) ↦ rw (gone, dispatch) (down _ refl)
    | inl reached ↦ elim (Option-cases (find (value delay) o h.levers)) [
      | inl prompt ↦ rw (reached, prompt, dispatch) (up h refl)
      | inr (l, slow) ↦ rw (reached, slow, dispatch) (up _ refl)
    ]
  ]

  principal :
      (r : String) (next : RunnerRow → Hub → Response × Hub)
      → P (plain 401 unresolved_token, h)
      → ((row : RunnerRow) → P (next row h))
      → P (get_principal r next h)
  unfolding get_principal
  principal r next unknown known = elim (Option-cases (lookup r h.runners)) [
    | inl missing ↦ rw (missing, get_principal) unknown
    | inr (row, found) ↦ rw (found, get_principal) (known row)
  ]

module _ (fnmatchcase : String → String → Bool) (k r w : String) (envs : List String) where
  -- Unless a route was created, the chunks are these.
  abbrev Unchanged : Dict String ChunkState → Response × Hub → Type 0
  Unchanged before a = a.0.status ≢ 201 → a.1.chunks ≡ before

  claim_response-chunks :
      (h : Hub) (a : Result HubError RouteClaimResponse × Hub)
      → claim fnmatchcase k r w envs h ≡ a
      → IsWellFormed h.chunks
      → Unchanged h.chunks (claim_response k a)
  unfolding claim_response
  claim_response-chunks h (ok granted, h') e wf refused = ground arith
  claim_response-chunks h (err x, h') e wf refused =
      claim_error-chunks k x h' ∙ (claim-Spares fnmatchcase k r w envs h wf).spared x h' e

  on_route-chunks :
      (row : RunnerRow) (h : Hub)
      → IsWellFormed h.chunks
      → Unchanged h.chunks (claim_on_route fnmatchcase r k w envs row h)
  unfolding claim_on_route
  on_route-chunks row h wf = elim (Result-cases (refuse_foreign_runner_chunk k row h)) [
    | inl (x, foreign) ↦ rw (foreign, claim_on_route) (λ _. claim_error-chunks k x h)
    | inr (u, own) ↦ rw (own, claim_on_route) (claim_response-chunks h _ refl wf)
  ]

  -- On a well-formed hub, a claim over the fleet's route that is not answered 201 changes no chunk,
  -- whoever calls and whatever levers are armed.
  pub claim_route_refused :
      (h : Hub)
      → IsWellFormed h.chunks
      → (claim_route fnmatchcase r k w envs h).0.status ≢ 201
      → (claim_route fnmatchcase r k w envs h).1.chunks ≡ h.chunks
  unfolding claim_route
  claim_route_refused h wf =
      dispatched (Unchanged h.chunks) h none _ (λ t same _. same)
        (λ t same.
          principal (Unchanged h.chunks) t r _ (λ _. same)
            (λ row refused.
              on_route-chunks row t (subst IsWellFormed (sym same) wf) refused ∙ same))
