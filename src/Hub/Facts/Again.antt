-- ===== src/Hub/Facts/Again.antt =====
-- A batch of facts that is pushed again.
use mathlib.Core.Path.{subst}
use blizzard_mock.Base.{
  ap, ◌∙◌, ◌≢◌, ℕ, ◌≤◌, ◌≡◌, refl, List, [], ◌∷◌, ◌++◌, arith, string_eq, sym, some,
}
use blizzard_mock.Base.Dict.{lookup, lookup-insert_self, insert-held, insert}
use blizzard_mock.Base.Lists.{All}
use blizzard_mock.Base.Sorting.{sorted}
use blizzard_mock.Hub.State.{Hub, RunnerRow}
use blizzard_mock.Hub.Service.Facts.{
  SeqFact, FactAck, ingest_one, ingest_loop, ingest_facts, seq_le, start_ack,
}
use blizzard_mock.Hub.Facts.{mark_loop, mark_of}

module _ (row : RunnerRow) where
  snoc-nil : (x : ℕ) (xs : List ℕ) → (xs ++ x ∷ []) ≢ []
  snoc-nil x [] = ground arith
  snoc-nil x (y ∷ ys) = ground arith

  one_settled :
      (f : SeqFact) (a : FactAck) (h : Hub)
      → (ingest_one row f (a, h)).0.rejected ≡ []
      → (a.rejected ≡ []) × (f.seq ≤ (ingest_one row f (a, h)).0.high_water)
  unfolding ingest_one
  one_settled f a h e = ground (arith, snoc-nil f.seq a.rejected)

  loop_settled :
      (fs : List SeqFact) (t : FactAck × Hub)
      → (ingest_loop row fs t).0.rejected ≡ []
      → (t.0.rejected ≡ []) × All (λ f. f.seq ≤ (ingest_loop row fs t).0.high_water) fs
  unfolding ingest_loop
  loop_settled [] t e = (e, tt)
  loop_settled (f ∷ fs) t e =
      let (r1, rest) = loop_settled fs (ingest_one row f t) e in
      let (r0, le) = one_settled f t.0 t.1 r1 in
      (r0, (omega (arith, le, mark_loop row fs (ingest_one row f t)), rest))

  one_seen :
      (f : SeqFact) (a : FactAck) (h : Hub)
      → f.seq ≤ a.high_water
      → ingest_one row f (a, h)
        ≡ (record a { already_applied = a.already_applied ++ f.seq ∷ [] }, h)
  unfolding ingest_one
  one_seen f a h le = ground arith

  -- The same hub, mark and applied numbers.
  abbrev Same : FactAck × Hub → FactAck × Hub → Type 0
  Same t u = (u.1 ≡ t.1) × (u.0.high_water ≡ t.0.high_water) × (u.0.applied ≡ t.0.applied)

  loop_seen :
      (fs : List SeqFact) (a : FactAck) (h : Hub)
      → All (λ f. f.seq ≤ a.high_water) fs
      → Same (a, h) (ingest_loop row fs (a, h))
  unfolding ingest_loop
  loop_seen [] a h seen = (refl, refl, refl)
  loop_seen (f ∷ fs) a h seen =
      subst (λ t. Same (a, h) (ingest_loop row fs t)) (sym (one_seen f a h seen.0))
        (loop_seen fs (record a { already_applied = a.already_applied ++ f.seq ∷ [] }) h seen.1)

  abbrev marked : Hub → ℕ → Hub
  marked g n = record g { fact_high_water = insert row.runner_id n g.fact_high_water }

  -- A batch of which nothing was rejected, pushed again, applies nothing and leaves the hub as it was.
  pub ingest_again :
      (fs : List SeqFact) (h : Hub)
      → (ingest_facts row fs h).0.rejected ≡ []
      → let h' = (ingest_facts row fs h).1 in
        ((ingest_facts row fs h').1 ≡ h') × ((ingest_facts row fs h').0.applied ≡ [])
  unfolding ingest_facts
  ingest_again fs h settled =
      let t : FactAck × Hub = (start_ack (mark_of row h), h) in
      let a = (ingest_loop row (sorted seq_le fs) t).0 in
      let h' = (ingest_facts row fs h).1 in
      let kept : lookup row.runner_id h'.fact_high_water ≡ some a.high_water =
        lookup-insert_self row.runner_id a.high_water
          (ingest_loop row (sorted seq_le fs) t).1.fact_high_water in
      let mark : mark_of row h' ≡ a.high_water = rw kept refl in
      let (same, level, none_new) =
        loop_seen (sorted seq_le fs) (start_ack (mark_of row h')) h'
          (rw mark (loop_settled (sorted seq_le fs) t settled).1) in
      let again =
        (ingest_loop row (sorted seq_le fs) (start_ack (mark_of row h'), h')).0.high_water in
      (
        ap (λ g. marked g again) same
            ∙ (ap (marked h') (level ∙ mark)
                ∙ ap (λ d. record h' { fact_high_water = d }) (insert-held _ _ _ kept)),
        none_new,
      )
