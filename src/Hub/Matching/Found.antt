-- ===== src/Hub/Matching/Found.antt =====
-- What every round of the walk over a chunk's graph keeps, against the ids that choices reach.
use mathlib.Core.Path.{subst}
use blizzard_mock.Hub.Chunk.{node}
use blizzard_mock.Base.{
  if◌then◌else◌, ap, ◌≡◌, refl, Bool, true, false, not, ◌&&◌, ◌||◌, String, none, some, List, [],
  ◌∷◌, ◌++◌, arith, string_eq, ◌==◌, Bool-cases, inl, ==_self, inr, ◌⊎◌, ==_true, Option-cases,
}
use blizzard_mock.Base.Dict.{lookup}
use blizzard_mock.Base.Lists.{contains-snoc, contains, any}
use blizzard_mock.Hub.Models.{ChoiceSpec, NodeSpec, ChunkState, terminal}
use blizzard_mock.Hub.Matching.{push_choices, Walk, is_runner, visit, node}

-- Does a choice among these lead to the node id, which is not the terminal's?
pub leads : String → List ChoiceSpec → Bool
leads y chs = any (λ ch. ch.to == y) chs && not (y == terminal)

-- Is the id a node that a runner executes?
pub runs_here : ChunkState → String → Bool
runs_here c y = elim (lookup y c.nodes) [ none ↦ false | some n ↦ is_runner n.executor ]

-- The ids that choices reach from a start, whether or not they are nodes.
pub data Reaches (c : ChunkState) (start : String) : String → Type 0 where
  here : Reaches c start start
  onward :
      {x : String} (n : NodeSpec) (y : String)
      → Reaches c start x
      → lookup x c.nodes ≡ some n
      → leads y n.choices ≡ true
      → Reaches c start y

contains-push_choices :
    (y : String) (chs : List ChoiceSpec) (stack : List String)
    → contains y (push_choices chs stack) ≡ (leads y chs || contains y stack)
unfolding push_choices contains leads any
contains-push_choices y [] stack = refl
contains-push_choices y (ch ∷ chs) stack = ground (
  arith,
  string_eq.beq_iff ch.to y,
  string_eq.beq_iff ch.to terminal,
  string_eq.beq_iff y terminal,
  contains-push_choices y chs stack,
  contains-push_choices y chs (ch.to ∷ stack),
)

module _ (c : ChunkState) (start : String) where
  -- What every round of the walk keeps.
  pub record Sound (w : Walk) : Type 0 where
    pub stacked : (y : String) → contains y w.stack ≡ true → Reaches c start y
    pub found :
        (y : String) → contains y w.runner_ids ≡ true → Reaches c start y × (runs_here c y ≡ true)

  pub record Complete (w : Walk) : Type 0 where
    pub started : (contains start w.seen || contains start w.stack) ≡ true
    pub closed :
        (x y : String) (n : NodeSpec)
        → contains x w.seen ≡ true
        → lookup x c.nodes ≡ some n
        → leads y n.choices ≡ true
        → (contains y w.seen || contains y w.stack) ≡ true
    pub kept :
        (y : String)
        → contains y w.seen ≡ true
        → runs_here c y ≡ true
        → contains y w.runner_ids ≡ true

  -- A walk whose stack is empty has seen all that is reachable.
  pub seen_all :
      (w : Walk)
      → Complete w
      → w.stack ≡ []
      → {y : String} → Reaches c start y
      → contains y w.seen ≡ true
  unfolding contains
  seen_all w h e here = ground (arith, h.started)
  seen_all w h e (onward {x} n y r found choice) =
      ground (arith, h.closed x y n (seen_all w h e r) found choice)

  module _ (x : String) (seen ids rest : List String) where
    abbrev pub before : Walk
    before = record { seen = seen; runner_ids = ids; stack = x ∷ rest }

    abbrev dropped : Walk
    dropped = record { seen = seen; runner_ids = ids; stack = rest }

    abbrev missed : Walk
    missed = record { seen = x ∷ seen; runner_ids = ids; stack = rest }

    abbrev taken : NodeSpec → Walk
    taken n = record {
      seen = x ∷ seen;
      runner_ids = if is_runner n.executor then ids ++ (x ∷ []) else ids;
      stack = push_choices n.choices rest;
    }

    visit_cases :
        ((contains x seen ≡ true) × (visit c x rest before ≡ dropped))
        ⊎ (((lookup x c.nodes ≡ none) × (visit c x rest before ≡ missed))
            ⊎ ((n : NodeSpec) × (lookup x c.nodes ≡ some n) × (visit c x rest before ≡ taken n)))
    unfolding visit node
    visit_cases = elim (Bool-cases (contains x seen)) [
      | inl old ↦ inl (old, ground arith)
      | inr new ↦ elim (Option-cases (lookup x c.nodes)) [
        | inl missing ↦ inr (inl (missing, ground arith))
        | inr (n, known) ↦ inr (inr (n, known, ground arith))
      ]
    ]

    Sound-dropped : Sound before → Sound dropped
    unfolding contains
    Sound-dropped h = record { stacked = λ y e. h.stacked y (ground arith); found = h.found }

    Sound-missed : Sound before → Sound missed
    unfolding contains
    Sound-missed h = record { stacked = λ y e. h.stacked y (ground arith); found = h.found }

    taken_stacked :
        (n : NodeSpec)
        → lookup x c.nodes ≡ some n
        → Sound before
        → (y : String) → contains y (push_choices n.choices rest) ≡ true
        → Reaches c start y
    unfolding contains
    taken_stacked n known h y e = elim (Bool-cases (leads y n.choices)) [
      | inl led ↦ onward n y (h.stacked x (ground (arith, ==_self x))) known led
      | inr other ↦ h.stacked y (ground (arith, contains-push_choices y n.choices rest))
    ]

    here_runs :
        (n : NodeSpec)
        → lookup x c.nodes ≡ some n
        → is_runner n.executor ≡ true
        → runs_here c x ≡ true
    unfolding runs_here
    here_runs n known r = ground arith

    -- A runner id that is new in a round is the node visited, which a runner executes.
    new_id :
        (n : NodeSpec) (y : String)
        → contains y (taken n).runner_ids ≡ true
        → contains y ids ≡ false
        → ((x == y) ≡ true) × (is_runner n.executor ≡ true)
    new_id n y e new = elim (Bool-cases (is_runner n.executor)) [
      | inl r ↦ ground (arith, contains-snoc y x ids)
      | inr h ↦ ground arith
    ]

    taken_found :
        (n : NodeSpec)
        → lookup x c.nodes ≡ some n
        → Sound before
        → (y : String) → contains y (taken n).runner_ids ≡ true
        → Reaches c start y × (runs_here c y ≡ true)
    unfolding contains
    taken_found n known h y e = elim (Bool-cases (contains y ids)) [
      | inl old ↦ h.found y old
      | inr new ↦
          let (this, r) = new_id n y e new in
          subst (λ z. Reaches c start z × (runs_here c z ≡ true)) (==_true x y this)
            (h.stacked x (ground (arith, ==_self x)), here_runs n known r)
    ]

    Sound-taken : (n : NodeSpec) → lookup x c.nodes ≡ some n → Sound before → Sound (taken n)
    Sound-taken n known h = record {
      stacked = taken_stacked n known h;
      found = taken_found n known h;
    }

    pub Sound-visit : Sound before → Sound (visit c x rest before)
    Sound-visit h = elim visit_cases [
      | inl (_, e) ↦ rw e (Sound-dropped h)
      | inr (inl (_, e)) ↦ rw e (Sound-missed h)
      | inr (inr (n, known, e)) ↦ rw e (Sound-taken n known h)
    ]

    Complete-dropped : contains x seen ≡ true → Complete before → Complete dropped
    unfolding contains
    Complete-dropped old h = record {
      started = ground (arith, h.started, string_eq.beq_iff x start);
      closed = λ z y n s k l. ground (arith, h.closed z y n s k l, string_eq.beq_iff x y);
      kept = h.kept;
    }

    Complete-missed : lookup x c.nodes ≡ none → Complete before → Complete missed
    unfolding contains runs_here
    Complete-missed missing h = record {
      started = ground (arith, h.started);
      closed = λ z y n s k l. elim (Bool-cases (x == z)) [
        | inl this ↦
            let same = ap (λ i. lookup i c.nodes) (==_true x z this) in ground (arith, same)
        | inr other ↦ ground (arith, h.closed z y n (ground arith) k l)
      ];
      kept = λ y s r. elim (Bool-cases (x == y)) [
        | inl this ↦
            let same = ap (λ i. lookup i c.nodes) (==_true x y this) in ground (arith, same)
        | inr other ↦ h.kept y (ground arith) r
      ];
    }

    Complete-taken :
        (n : NodeSpec) → lookup x c.nodes ≡ some n → Complete before → Complete (taken n)
    unfolding contains runs_here
    Complete-taken n known h = record {
      started = ground (arith, h.started, contains-push_choices start n.choices rest);
      closed = λ z y m s k l. elim (Bool-cases (x == z)) [
        | inl this ↦
            let same = ap (λ i. lookup i c.nodes) (==_true x z this) in
            let spec : n.choices ≡ m.choices = ground (arith, same) in
            let led = ap (leads y) spec in
            ground (arith, led, contains-push_choices y n.choices rest)
        | inr other ↦
            ground
              (arith, h.closed z y m (ground arith) k l, contains-push_choices y n.choices rest)
      ];
      kept = λ y s r. elim (Bool-cases (x == y)) [
        | inl this ↦
            let same = ap (λ i. lookup i c.nodes) (==_true x y this) in
            let executed : is_runner n.executor ≡ true = ground (arith, same) in
            ground (arith, executed, contains-snoc y x ids)
        | inr other ↦ ground (arith, h.kept y (ground arith) r, contains-snoc y x ids)
      ];
    }

    pub Complete-visit : Complete before → Complete (visit c x rest before)
    Complete-visit h = elim visit_cases [
      | inl (old, e) ↦ rw e (Complete-dropped old h)
      | inr (inl (missing, e)) ↦ rw e (Complete-missed missing h)
      | inr (inr (n, known, e)) ↦ rw e (Complete-taken n known h)
    ]
