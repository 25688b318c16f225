-- ===== src/Runner/Numbering/Leases.antt =====
-- The numbering of the lanes under the verbs that take a chunk through its graph.
use blizzard_mock.Base.{
  Bool, String, Option, none, some, List, ℕ, arith, inl, inr, Bool-cases, ◌==◌, nat_eq,
}
use blizzard_mock.Runner.Service.Leases.{
  claim, take_lease, settle, distorted, replay_submission, held_or, with_held, claim_selected,
  claim_next, complete, complete_held, submit_held, select_next, submitted_token,
}
use blizzard_mock.Runner.Service.Base.{put_held, advance_lease, pull, Answer}
use blizzard_mock.Runner.Models.{
  Driver, QueueEntry, Submission, Held, unreachable, Headers, Body, drop_ack,
}
use blizzard_mock.Runner.Numbering.{
  Log, recorded, Numbered, IHubGateway, Reply, Numbered-by, report_lease-Numbered, delayed,
  advance_lease, pulled, Still, advance_to-Numbered,
}

module _ {W : Type 0} (gw : IHubGateway W) where
  take_lease-Numbered :
      (k : String) (r : Reply) (s : Driver × (W × Log))
      → Numbered gw s
      → Numbered gw (take_lease (recorded gw) k r s).1
  unfolding take_lease
  take_lease-Numbered k r s h = elim (Bool-cases (r.0 == 201)) [
    | inl granted ↦
        rw granted (report_lease-Numbered gw _ _ (record { facts = h.facts; records = h.records }))
    | inr refused ↦ rw refused h
  ]

  pub claim-Numbered :
      (k : String) (envs : List String) (s : Driver × (W × Log))
      → Numbered gw s
      → Numbered gw (claim (recorded gw) k envs s).1
  unfolding claim
  claim-Numbered k envs s h =
      take_lease-Numbered k _ _ (Numbered-by gw s _ (delayed gw (some k) s) h)

  selected-Numbered :
      (o : Option QueueEntry) (envs : List String) (s : Driver × (W × Log))
      → Numbered gw s
      → Numbered gw (claim_selected (recorded gw) o envs s).1
  unfolding claim_selected
  selected-Numbered none envs s h = h
  selected-Numbered (some e) envs s h = claim-Numbered e.chunk_id envs s h

  pub claim_next-Numbered :
      (envs : List String) (strict : Bool) (s : Driver × (W × Log))
      → Numbered gw s
      → Numbered gw (claim_next (recorded gw) envs strict s).1
  unfolding claim_next
  claim_next-Numbered envs strict s h =
      let reply = (gw.peek s.1.0).0 in
      let after : Driver × (W × Log) = (s.0, ((gw.peek s.1.0).1, s.1.1)) in
      let h' : Numbered gw after = record { facts = h.facts; records = h.records } in
      elim (Bool-cases (reply.0 == 200)) [
        | inl seen ↦ rw seen (selected-Numbered (select_next reply.1.entries strict) envs after h')
        | inr failed ↦ rw failed h'
      ]

  distorted-Still :
      (l : Held) (choice : String) (arts checks : List String) (s : Driver × (W × Log))
      → Still gw s ((distorted l choice arts checks s.0).1, s.1)
  unfolding distorted submitted_token pull
  distorted-Still l choice arts checks s = ground arith

  replayed-Still :
      (k : String) (sub : Submission) (s : Driver × (W × Log))
      → Still gw s (replay_submission (recorded gw) k sub s).1
  unfolding replay_submission pull
  replayed-Still k sub s = ground arith

  settle-Numbered :
      (l : Held) (r : Reply) (hs : Headers) (o : Option (ℕ × (Body × Headers)))
      (s : Driver × (W × Log))
      → Numbered gw s
      → Numbered gw (settle (recorded gw) l r hs (o, s)).1
  unfolding settle advance_lease
  settle-Numbered l r hs o s h =
      let h' = Numbered-by gw s _ (pulled gw drop_ack l.chunk_id s) h in
      elim (Bool-cases (pull drop_ack l.chunk_id s.0).0) [
        | inl dropped ↦ rw dropped h'
        | inr kept ↦ elim (Bool-cases (r.0 == 200)) [
          | inl done ↦ rw (kept, done) (advance_to-Numbered gw l _ _ h')
          | inr refused ↦ rw (kept, refused) h'
        ]
      ]

  submit_held-Numbered :
      (l : Held) (choice : String) (arts checks : List String) (s : Driver × (W × Log))
      → Numbered gw s
      → Numbered gw (submit_held (recorded gw) l choice arts checks s).1
  unfolding submit_held
  submit_held-Numbered l choice arts checks s h =
      let (sub, d1) = distorted l choice arts checks s.0 in
      let sent : Driver × (W × Log) = (
        put_held (record l { last_submission = some sub }) d1,
        ((gw.submit_completion l.chunk_id sub s.1.0).1, s.1.1),
      ) in
      settle-Numbered _ _ _ _ _ (
        Numbered-by gw sent _ (replayed-Still l.chunk_id sub sent)
          (Numbered-by gw s sent (distorted-Still l choice arts checks s) h))

  complete_held-Numbered :
      (l : Held) (choice : String) (arts checks : List String) (s : Driver × (W × Log))
      → Numbered gw s
      → Numbered gw (complete_held (recorded gw) l choice arts checks s).1
  unfolding complete_held
  complete_held-Numbered l choice arts checks s h =
      let h' = Numbered-by gw s _ (pulled gw unreachable l.chunk_id s) h in
      elim (Bool-cases (pull unreachable l.chunk_id s.0).0) [
        | inl gone ↦ rw gone h'
        | inr here ↦ rw here (submit_held-Numbered l choice arts checks _ h')
      ]

  held_or-Numbered :
      (k : String) (verb : Held → Driver × (W × Log) → Answer × (Driver × (W × Log)))
      (o : Option Held) (s : Driver × (W × Log))
      → ((l : Held) (t : Driver × (W × Log)) → Numbered gw t → Numbered gw (verb l t).1)
      → Numbered gw s
      → Numbered gw (held_or (recorded gw) k verb o s).1
  unfolding held_or
  held_or-Numbered k verb none s p h = h
  held_or-Numbered k verb (some l) s p h = p l s h

  pub with_held-Numbered :
      (k : String) (verb : Held → Driver × (W × Log) → Answer × (Driver × (W × Log)))
      (s : Driver × (W × Log))
      → ((l : Held) (t : Driver × (W × Log)) → Numbered gw t → Numbered gw (verb l t).1)
      → Numbered gw s
      → Numbered gw (with_held (recorded gw) k verb s).1
  unfolding with_held
  with_held-Numbered k verb s p h =
      held_or-Numbered k verb _ _ p (Numbered-by gw s _ (delayed gw (some k) s) h)

  pub complete-Numbered :
      (k choice : String) (arts checks : List String) (s : Driver × (W × Log))
      → Numbered gw s
      → Numbered gw (complete (recorded gw) k choice arts checks s).1
  unfolding complete
  complete-Numbered k choice arts checks s =
      with_held-Numbered k _ s (λ l t. complete_held-Numbered l choice arts checks t)
