-- ===== src/Hub/Passing.antt =====
-- Guards of the service that pass: what they have checked, and that they leave the hub as it was.
use blizzard_mock.Hub.Models.{ChunkState, NodeEnvelope}
use blizzard_mock.Base.Dict.{lookup}
use mathlib.Core.Path.{subst}
use blizzard_mock.Base.{
  ◌≡◌, refl, Bool, true, false, String, none, some, arith, Result, ok, err, ◌>>=◌, raise_if,
  is_none, nat_eq, pair_eq, string_eq, option_eq, modify, ◌>>◌, ℕ, is_some, sym, Option-cases, inl,
  inr,
}
use blizzard_mock.Hub.Chunk.{Refusal, node}
use blizzard_mock.Hub.State.{Hub, RunnerRow, get_chunk}
use blizzard_mock.Hub.Levers.{HubLever, pinned_graph_missing, dependency_unmet}
use blizzard_mock.Hub.Service.Guards.{
  HubError, Handler, lift, find_lever, require, check_pinned_graph, refuse_retired_runner,
  refuse_by_claim_lever, refuse_braked_runner, refuse_dependency, envelope, node_envelope,
}

-- A handler that returns has left the hub as it was, and its result satisfies `P`.
pub record Passes {A : Type 0} (m : Handler A) (P : Hub → A → Type 0) : Type 0 where
  pub passed : (h : Hub) (a : A) (h' : Hub) → m h ≡ (ok a, h') → (h' ≡ h) × P h a

-- What a retirement check lets by: a runner that is unknown, or not retired.
abbrev pub NotRetired : String → Hub → Type 0
NotRetired r h = (row : RunnerRow) → lookup r h.runners ≡ some row → is_none row.retired_at ≡ true

pub Passes-require : (k : String) → Passes (require k) (λ h c. lookup k h.chunks ≡ some c)
unfolding require get_chunk
Passes-require k = record { passed = λ h a h' e. ground arith }

pub Passes-check_pinned_graph :
    (k : String) → Passes (check_pinned_graph k) (λ h _. find_lever pinned_graph_missing k h ≡ none)
unfolding check_pinned_graph
Passes-check_pinned_graph k = record { passed = λ h a h' e. ground arith }

pub Passes-refuse_retired_runner :
    (r : String) → Passes (refuse_retired_runner r) (λ h _. NotRetired r h)
unfolding refuse_retired_runner
Passes-refuse_retired_runner r = record {
  passed = λ h a h' e. (ground arith, λ row found. ground arith);
}

pub Passes-refuse_by_claim_lever :
    (kind : HubLever) (k r : String)
    → Passes (refuse_by_claim_lever kind k r) (λ h _. (refuse_by_claim_lever kind k r h).0 ≡ ok tt)
unfolding refuse_by_claim_lever
Passes-refuse_by_claim_lever kind k r = record { passed = λ h a h' e. (ground arith, ground arith) }

pub Passes-refuse_braked_runner :
    (r : String)
    → Passes (refuse_braked_runner r) (λ h row.
      (lookup r h.runners ≡ some row) × (is_none row.registered_at ≡ false) × (row.paused ≡ false))
unfolding refuse_braked_runner
Passes-refuse_braked_runner r = record { passed = λ h a h' e. ground arith }

pub Passes-refuse_dependency :
    (k : String) → Passes (refuse_dependency k) (λ h _. find_lever dependency_unmet k h ≡ none)
unfolding refuse_dependency
Passes-refuse_dependency k = record { passed = λ h a h' e. ground arith }

pub Passes-lift : {A : Type 0} (r : Result Refusal A) → Passes (lift r) (λ _ a. r ≡ ok a)
Passes-lift (ok b) = record { passed = λ h a h' e. ground arith }
Passes-lift (err x) = record { passed = λ h a h' e. ground arith }

pub Passes-raise_if : (b : Bool) (e : HubError) → Passes (raise_if b e) (λ _ _. b ≡ false)
Passes-raise_if true x = record { passed = λ h a h' e. ground arith }
Passes-raise_if false x = record { passed = λ h a h' e. ground arith }

pub Passes-envelope :
    (c : ChunkState) (n : String) (epoch : ℕ)
    → Passes (envelope c n epoch) (λ _ _. is_some (node c n) ≡ true)
unfolding envelope
Passes-envelope c n epoch = record { passed = λ h a h' e. ground arith }

module _ {A B : Type 0} {P : Hub → A → Type 0} (m : Handler A) (f : A → Handler B)
    (passes : Passes m P) (h h' : Hub) (b : B) where
  past_step :
      (r : Result HubError A) (s : Hub)
      → m h ≡ (r, s)
      → ((λ _. (r, s)) >>= f) h ≡ (ok b, h')
      → (a : A) × P h a × (f a h ≡ (ok b, h'))
  unfolding ◌>>=◌
  past_step (ok a) s reached rest =
      let (same, holds) = passes.passed h a s reached in
      (a, holds, subst (λ x. f a x ≡ (ok b, h')) same rest)
  past_step (err x) s reached rest = ground arith

  -- A handler that returns has passed its first step, and the rest returns from the same hub.
  pub past : (m >>= f) h ≡ (ok b, h') → (a : A) × P h a × (f a h ≡ (ok b, h'))
  unfolding ◌>>=◌
  past e = past_step (m h).0 (m h).1 refl e

-- After a write, the rest returns from the hub written.
pub past_write :
    {B : Type 0} (write : Hub → Hub) (m : Handler B) (h h' : Hub) (b : B)
    → (modify write >> m) h ≡ (ok b, h')
    → m (write h) ≡ (ok b, h')
unfolding ◌>>=◌
past_write write m h h' b e = e

-- A first step that returns, and leaves the hub as it was, is followed by the rest.
pub stepped :
    {A B : Type 0} (m : Handler A) (f : A → Handler B) (h : Hub) (a : A)
    {t : Result HubError B × Hub}
    → m h ≡ (ok a, h)
    → f a h ≡ t
    → (m >>= f) h ≡ t
unfolding ◌>>=◌
stepped m f h a {t} first rest = subst (λ s. ((λ _. s) >>= f) h ≡ t) (sym first) rest

pub envelope_made :
    (c : ChunkState) (n : String) (epoch : ℕ) (h : Hub)
    → is_some (node c n) ≡ true
    → (env : NodeEnvelope) × (envelope c n epoch h ≡ (ok env, h))
unfolding envelope
envelope_made c n epoch h known = elim (Option-cases (node c n)) [
  | inl missing ↦ ground arith
  | inr (spec, found) ↦ (node_envelope c n epoch spec, ground arith)
]

module _ (k r : String) (h : Hub) where
  pub check_pinned_graph_ok :
      find_lever pinned_graph_missing k h ≡ none → check_pinned_graph k h ≡ (ok tt, h)
  unfolding check_pinned_graph
  check_pinned_graph_ok e = ground arith

  pub refuse_dependency_ok :
      find_lever dependency_unmet k h ≡ none → refuse_dependency k h ≡ (ok tt, h)
  unfolding refuse_dependency
  refuse_dependency_ok e = ground arith

  pub refuse_by_claim_lever_ok :
      (kind : HubLever)
      → (refuse_by_claim_lever kind k r h).0 ≡ ok tt
      → refuse_by_claim_lever kind k r h ≡ (ok tt, h)
  unfolding refuse_by_claim_lever
  refuse_by_claim_lever_ok kind e = ground arith

  pub refuse_retired_runner_ok :
      (row : RunnerRow)
      → lookup r h.runners ≡ some row
      → is_none row.retired_at ≡ true
      → refuse_retired_runner r h ≡ (ok tt, h)
  unfolding refuse_retired_runner
  refuse_retired_runner_ok row found e = ground arith

  pub refuse_braked_runner_ok :
      (row : RunnerRow)
      → lookup r h.runners ≡ some row
      → is_none row.registered_at ≡ false
      → row.paused ≡ false
      → refuse_braked_runner r h ≡ (ok row, h)
  unfolding refuse_braked_runner
  refuse_braked_runner_ok row found connected free = ground arith

pub lift_ok :
    {A : Type 0} (r : Result Refusal A) (a : A) (h : Hub) → r ≡ ok a → lift r h ≡ (ok a, h)
lift_ok r a h e = rw e refl

pub raise_if_ok : (b : Bool) (x : HubError) (h : Hub) → b ≡ false → raise_if b x h ≡ (ok tt, h)
raise_if_ok b x h e = rw e refl

pub written :
    {B : Type 0} (write : Hub → Hub) (m : Handler B) (h : Hub) {t : Result HubError B × Hub}
    → m (write h) ≡ t
    → (modify write >> m) h ≡ t
unfolding ◌>>=◌
written write m h e = e
