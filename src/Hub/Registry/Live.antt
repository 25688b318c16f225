-- ===== src/Hub/Registry/Live.antt =====
-- The runners that the current tokens of the registry resolve to, over runs of its operations.
use mathlib.Core.Path.{subst}
use blizzard_mock.Base.{
  ==_true, ◌≡◌, ◌≢◌, sym, Bool, true, false, String, Option, none, some, [], ◌∷◌, arith, string_eq,
  option_eq, ◌==◌, inl, inr, Bool-cases, is_none,
}
use blizzard_mock.Base.Dict.{Dict, insert, All-insert, lookup-insert}
use blizzard_mock.Base.Keyed.{IsKeyed, insert-IsKeyed}
use blizzard_mock.Base.Lists.{All, All-imp}
use blizzard_mock.Hub.State.{RunnerRow}
use blizzard_mock.Hub.Registry.{Registry, put_runner, get_runner, others_tokens, replace_token}

abbrev pub runner_key : RunnerRow → String
runner_key row = row.runner_id

-- Is the runner added, and not retired?
abbrev pub is_live : Option RunnerRow → Bool
is_live none = false
is_live (some row) = is_none row.retired_at

-- Every current token names a runner that is added and not retired, and every runner is filed under
-- its id, once.
pub record IsLive (g : Registry) : Type 0 where
  pub live : All (λ e. is_live (get_runner e.1 g) ≡ true) g.tokens
  pub keyed : IsKeyed runner_key g.hub.runners

module _ (g : Registry) where
  abbrev Names : String × String → Type 0
  Names e = is_live (get_runner e.1 g) ≡ true

  -- A row written back over one that it keeps unretired.
  kept_live :
      (row : RunnerRow) (r : String)
      → (is_live (get_runner row.runner_id g) ≡ true → is_none row.retired_at ≡ true)
      → is_live (get_runner r g) ≡ true
      → is_live (get_runner r (put_runner row g)) ≡ true
  kept_live row r kept h = elim (Bool-cases (row.runner_id == r)) [
    | inl this ↦
        let same : row.runner_id ≡ r = ==_true row.runner_id r this in
        let unretired : is_none row.retired_at ≡ true =
          kept (subst (λ i. is_live (get_runner i g) ≡ true) (sym same) h) in
        ground (arith, lookup-insert row.runner_id r row g.hub.runners)
    | inr other ↦ ground (arith, lookup-insert row.runner_id r row g.hub.runners)
  ]

  -- Writing back a row that stays unretired, if it was.
  pub put_runner-IsLive :
      (row : RunnerRow)
      → (is_live (get_runner row.runner_id g) ≡ true → is_none row.retired_at ≡ true)
      → IsLive g
      → IsLive (put_runner row g)
  put_runner-IsLive row kept h = record {
    live = All-imp Names _ (λ e. kept_live row e.1 kept) g.tokens h.live;
    keyed = insert-IsKeyed runner_key row g.hub.runners h.keyed;
  }

  others-All :
      (P : String × String → Type 0) (r : String) (d : Dict String String)
      → All P d
      → All (λ e. (e.1 ≢ r) × P e) (others_tokens r d)
  unfolding others_tokens
  others-All P r [] h = tt
  others-All P r ((t, owner) ∷ d) h = elim (Bool-cases (owner == r)) [
    | inl own ↦ rw own (others-All P r d h.1)
    | inr other ↦ rw other ((ground (arith, string_eq.beq_iff owner r), h.0), others-All P r d h.1)
  ]

  pub issued-IsLive :
      (r token : String)
      → is_live (get_runner r g) ≡ true
      → IsLive g
      → IsLive (replace_token r (some token) g)
  unfolding replace_token
  issued-IsLive r token named h = record {
    live =
        All-insert (λ o. is_live (get_runner o g) ≡ true) token r (others_tokens r g.tokens) named
          (All-imp (λ e. (e.1 ≢ r) × Names e) Names (λ e p. p.1) _
            (others-All Names r g.tokens h.live));
    keyed = h.keyed;
  }

  pub revoked-IsLive : (r : String) → IsLive g → IsLive (replace_token r none g)
  unfolding replace_token
  revoked-IsLive r h = record {
    live =
        All-imp (λ e. (e.1 ≢ r) × Names e) Names (λ e p. p.1) _
          (others-All Names r g.tokens h.live);
    keyed = h.keyed;
  }

  pub retired-IsLive :
      (row : RunnerRow) → IsLive g → IsLive (replace_token row.runner_id none (put_runner row g))
  unfolding replace_token
  retired-IsLive row h = record {
    live =
        All-imp (λ e. (e.1 ≢ row.runner_id) × Names e)
          (λ e. is_live (get_runner e.1 (put_runner row g)) ≡ true)
          (λ e p. ground (
            arith,
            p.0,
            p.1,
            lookup-insert row.runner_id e.1 row g.hub.runners,
            string_eq.beq_iff row.runner_id e.1,
          ))
          _ (others-All Names row.runner_id g.tokens h.live);
    keyed = insert-IsKeyed runner_key row g.hub.runners h.keyed;
  }

  pub stored-IsLive :
      (row : RunnerRow) (token : String)
      → is_none row.retired_at ≡ true
      → IsLive g
      → IsLive (put_runner row (record g { tokens = insert token row.runner_id g.tokens }))
  stored-IsLive row token fresh h = record {
    live =
        All-insert (λ o. is_live (get_runner o (put_runner row g)) ≡ true) token row.runner_id
          g.tokens
          (ground (
            arith,
            fresh,
            lookup-insert row.runner_id row.runner_id row g.hub.runners,
            string_eq.beq_iff row.runner_id row.runner_id,
          ))
          (All-imp Names _ (λ e. kept_live row e.1 (λ _. fresh)) g.tokens h.live);
    keyed = insert-IsKeyed runner_key row g.hub.runners h.keyed;
  }
