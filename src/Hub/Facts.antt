-- ===== src/Hub/Facts.antt =====
-- The answer of a fact batch, and the mark of its runner.
pub mod Again
use mathlib.Core.Path.{subst}
use blizzard_mock.Base.{
  ap, ◌∙◌, ◌≢◌, ◌⊎◌, ℕ, ◌+◌, ◌≤◌, ◌<◌, ◌≡◌, refl, List, [], ◌∷◌, ◌++◌, map, arith, string_eq, leb,
  get_or, inl, inr, Bool-cases, nat_beq, if◌then◌else◌, ◌⊎◌, sym, some,
}
use blizzard_mock.Base.Dict.{lookup, lookup-insert_self, insert-held, insert}
use blizzard_mock.Base.Lists.{All}
use blizzard_mock.Base.Sorting.{sorted, place}
use blizzard_mock.Hub.State.{Hub, RunnerRow}
use blizzard_mock.Hub.Service.Facts.{
  SeqFact, FactAck, apply_fact, ingest_one, ingest_loop, ingest_facts, seq_le, start_ack,
}

-- How often a number stands in a list.
pub occurs : ℕ → List ℕ → ℕ
occurs s [] = 0
occurs s (x ∷ xs) = (if nat_beq x s then 1 else 0) + occurs s xs

abbrev seq_of : SeqFact → ℕ
seq_of f = f.seq

-- How often a number stands in the three lists of an answer.
abbrev pub answered : ℕ → FactAck → ℕ
answered s a = occurs s a.applied + (occurs s a.already_applied + occurs s a.rejected)

occurs-snoc : (s x : ℕ) (xs : List ℕ) → occurs s (xs ++ x ∷ []) ≡ occurs s xs + occurs s (x ∷ [])
unfolding occurs
occurs-snoc s x [] = omega arith
occurs-snoc s x (y ∷ ys) = omega (arith, occurs-snoc s x ys)

occurs-place :
    (s : ℕ) (f : SeqFact) (fs : List SeqFact)
    → occurs s (map seq_of (place seq_le f fs)) ≡ occurs s (map seq_of (f ∷ fs))
unfolding occurs place
occurs-place s f [] = refl
occurs-place s f (g ∷ gs) = ground (arith, occurs-place s f gs)

occurs-sorted :
    (s : ℕ) (fs : List SeqFact)
    → occurs s (map seq_of (sorted seq_le fs)) ≡ occurs s (map seq_of fs)
unfolding sorted occurs
occurs-sorted s [] = refl
occurs-sorted s (f ∷ fs) = omega (arith, occurs-place s f (sorted seq_le fs), occurs-sorted s fs)

module _ (row : RunnerRow) where
  answered-one :
      (s : ℕ) (f : SeqFact) (a : FactAck) (h : Hub)
      → answered s (ingest_one row f (a, h)).0 ≡ answered s a + occurs s (f.seq ∷ [])
  unfolding ingest_one
  answered-one s f a h = ground (
    arith,
    occurs-snoc s f.seq a.applied,
    occurs-snoc s f.seq a.already_applied,
    occurs-snoc s f.seq a.rejected,
  )

  answered-loop :
      (s : ℕ) (fs : List SeqFact) (t : FactAck × Hub)
      → answered s (ingest_loop row fs t).0 ≡ answered s t.0 + occurs s (map seq_of fs)
  unfolding ingest_loop occurs
  answered-loop s [] t = omega arith
  answered-loop s (f ∷ fs) t =
      omega (arith, answered-loop s fs (ingest_one row f t), answered-one s f t.0 t.1)

  mark_one : (f : SeqFact) (t : FactAck × Hub) → t.0.high_water ≤ (ingest_one row f t).0.high_water
  unfolding ingest_one
  mark_one f t = ground arith

  pub mark_loop :
      (fs : List SeqFact) (t : FactAck × Hub) → t.0.high_water ≤ (ingest_loop row fs t).0.high_water
  unfolding ingest_loop
  mark_loop [] t = omega arith
  mark_loop (f ∷ fs) t = omega (arith, mark_one f t, mark_loop fs (ingest_one row f t))

  -- What an ingest has applied lies above the mark it started from, and up to its own mark.
  abbrev Within : ℕ → FactAck → Type 0
  Within mark a = All (λ s. (mark < s) × (s ≤ a.high_water)) a.applied

  All-weaken :
      (m n n' : ℕ) (xs : List ℕ)
      → n ≤ n'
      → All (λ s. (m < s) × (s ≤ n)) xs
      → All (λ s. (m < s) × (s ≤ n')) xs
  All-weaken m n n' [] le h = tt
  All-weaken m n n' (x ∷ xs) le h = ((h.0.0, omega (arith, h.0.1, le)), All-weaken m n n' xs le h.1)

  All-snoc :
      (m n x : ℕ) (xs : List ℕ)
      → All (λ s. (m < s) × (s ≤ n)) xs
      → m < x
      → x ≤ n
      → All (λ s. (m < s) × (s ≤ n)) (xs ++ x ∷ [])
  All-snoc m n x [] h lo hi = ((lo, hi), tt)
  All-snoc m n x (y ∷ ys) h lo hi = (h.0, All-snoc m n x ys h.1 lo hi)

  one_applied :
      (f : SeqFact) (a : FactAck) (h : Hub)
      → let b = (ingest_one row f (a, h)).0 in
        ((b.applied ≡ a.applied) × (b.high_water ≡ a.high_water))
        ⊎ ((b.applied ≡ a.applied ++ f.seq ∷ []) × (b.high_water ≡ f.seq) × (a.high_water < f.seq))
  unfolding ingest_one
  one_applied f a h = elim (Bool-cases (leb f.seq a.high_water)) [
    | inl seen ↦ inl (ground arith)
    | inr fresh ↦ elim (Bool-cases (apply_fact row f.fact h).0) [
      | inl done ↦ inr (ground arith)
      | inr refused ↦ inl (ground arith)
    ]
  ]

  Within-one :
      (mark : ℕ) (f : SeqFact) (a : FactAck) (h : Hub)
      → mark ≤ a.high_water
      → Within mark a
      → Within mark (ingest_one row f (a, h)).0
  Within-one mark f a h le w = elim (one_applied f a h) [
    | inl (same, level) ↦ rw (same, level) w
    | inr (more, level, above) ↦
        rw (more, level)
          (All-snoc mark f.seq f.seq a.applied
            (All-weaken mark a.high_water f.seq a.applied (omega (arith, above)) w)
            (omega (arith, le, above)) (omega arith))
  ]

  Within-loop :
      (mark : ℕ) (fs : List SeqFact) (t : FactAck × Hub)
      → mark ≤ t.0.high_water
      → Within mark t.0
      → Within mark (ingest_loop row fs t).0
  unfolding ingest_loop
  Within-loop mark [] t le w = w
  Within-loop mark (f ∷ fs) t le w =
      Within-loop mark fs (ingest_one row f t) (omega (arith, le, mark_one f t))
        (Within-one mark f t.0 t.1 le w)

  -- The mark a runner's facts start from.
  abbrev pub mark_of : Hub → ℕ
  mark_of h = get_or (lookup row.runner_id h.fact_high_water) 0

  -- A batch answers each of its sequence numbers as often as the batch holds it, in one of the three
  -- lists of the answer, and no other number; what it applies lies above the runner's mark and at or
  -- below the new mark, which is the answer's and is no lower.
  pub ingest_answers :
      (fs : List SeqFact) (h : Hub)
      → let (a, h') = ingest_facts row fs h in
        ((s : ℕ) → answered s a ≡ occurs s (map seq_of fs))
        × All (λ s. (mark_of h < s) × (s ≤ mark_of h')) a.applied
        × (mark_of h' ≡ a.high_water)
        × (mark_of h ≤ mark_of h')
  unfolding ingest_facts occurs
  ingest_answers fs h =
      let t : FactAck × Hub = (start_ack (mark_of h), h) in
      let a = (ingest_loop row (sorted seq_le fs) t).0 in
      let h1 = (ingest_loop row (sorted seq_le fs) t).1 in
      let kept = lookup-insert_self row.runner_id a.high_water h1.fact_high_water in
      (
        λ s. omega (arith, answered-loop s (sorted seq_le fs) t, occurs-sorted s fs),
        rw kept (Within-loop (mark_of h) (sorted seq_le fs) t (omega arith) tt),
        rw kept refl,
        rw kept (mark_loop (sorted seq_le fs) t),
      )
