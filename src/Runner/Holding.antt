-- ===== src/Runner/Holding.antt =====
-- What a completion leaves of the leases that a driver holds.
use mathlib.Core.Path.{subst}
use Prim.Native.Nat.{suc}
use blizzard_mock.Base.{
  ℕ, ◌≡◌, ◌≢◌, refl, not, ◌||◌, ◌==◌, nat_eq, String, Option, none, some, List, inl, inr, arith,
  Bool-cases, if◌then◌else◌, string_eq, ap, ◌∙◌, sym,
}
use blizzard_mock.Base.Dict.{
  Dict, lookup, insert, remove, lookup-remove_ne, lookup-insert_self, lookup-insert_ne,
}
use blizzard_mock.Base.Keyed.{IsKeyed, key-lookup, lookup-remove_keyed, insert-IsKeyed}
use blizzard_mock.Runner.Models.{
  Held, Driver, Body, WireEnvelope, RunnerLever, Headers, drop_ack, Submission, unreachable,
}
use blizzard_mock.Runner.Gateway.{IHubGateway, Reply}
use blizzard_mock.Runner.Service.Base.{
  Answer, completed, observed, unheld, vanished, no_unmarked_entry, claimed, claim_refused,
  peek_failed, drove, asked, recorded, next_in, next_lease, advance_to, advance_lease, report_lease,
  push_fact, pull, apply_delay, put_held,
}
use blizzard_mock.Runner.Service.Leases.{
  complete, complete_held, submit_held, settle, replay_submission, distorted, submitted_token,
  with_held, held_or,
}

abbrev pub lease_id : Held → String
lease_id l = l.chunk_id

-- Where a lease stands: its fence, its node and its token.
abbrev pub Standing : Type 0
Standing = ℕ × (String × Option String)

abbrev standing : Held → Standing
standing l = (l.epoch, (l.from_node_id, l.route_token))

abbrev pub standing_of : Option Held → Option Standing
standing_of none = none
standing_of (some l) = some (standing l)

-- The lease with another submission noted.
abbrev noted : Submission → Held → Held
noted sub l = record l { last_submission = some sub }

-- Where the code's own steps leave a lease.
abbrev advanced : Held → Option WireEnvelope → Option Standing
advanced l none = none
advanced l (some env) = some (standing (next_lease l env))

abbrev stood_at : Held → Answer → Option Standing
stood_at l (completed dropped status body replayed headers) =
    if dropped || not (status == 200)
    then some (standing l)
    else advanced l (next_in body.outcome body.next_envelope)
stood_at l answer = some (standing l)

-- Where a NEXT reply's envelope leaves a lease: at the envelope's node, or where it stood if that names
-- none, with the epoch after the envelope's, or the first if that names none, and its token. Every other
-- reply ends it.
abbrev moved_on : Held → Option String → Option WireEnvelope → Option Standing
moved_on l none env = none
moved_on l (some outcome) none = none
moved_on l (some outcome) (some env) =
    if outcome == "next"
    then some (
      elim env.epoch [ none ↦ 1 | some n ↦ suc n ],
      (elim env.node_id [ none ↦ l.from_node_id | some n ↦ n ], l.route_token),
    )
    else none

-- Where a lease stands after `complete` gave this answer: a reply that was seen, with status 200,
-- moves it on or ends it; else it stands where it stood.
abbrev pub lease_left : Held → Answer → Option Standing
lease_left l (completed dropped status body replayed headers) =
    if dropped || not (status == 200)
    then some (standing l)
    else moved_on l body.outcome body.next_envelope
lease_left l answer = some (standing l)

advanced-moved_on :
    (l : Held) (outcome : Option String) (env : Option WireEnvelope)
    → advanced l (next_in outcome env) ≡ moved_on l outcome env
unfolding next_in next_lease
advanced-moved_on l none env = refl
advanced-moved_on l (some outcome) none = ground arith
advanced-moved_on l (some outcome) (some env) = ground arith

stood_at-lease_left : (l : Held) (answer : Answer) → stood_at l answer ≡ lease_left l answer
stood_at-lease_left l (completed dropped status body replayed headers) =
    ap (λ moved. if dropped || not (status == 200) then some (standing l) else moved)
      (advanced-moved_on l body.outcome body.next_envelope)
stood_at-lease_left l (observed s b hs r) = refl
stood_at-lease_left l (unheld k) = refl
stood_at-lease_left l vanished = refl
stood_at-lease_left l no_unmarked_entry = refl
stood_at-lease_left l (claimed s k n b) = refl
stood_at-lease_left l (claim_refused s b hs k) = refl
stood_at-lease_left l (peek_failed a) = refl
stood_at-lease_left l (drove s b hs) = refl
stood_at-lease_left l (asked q s b hs) = refl
stood_at-lease_left l (recorded k t) = refl

noted_left :
    (sub : Submission) (l : Held) (answer : Answer)
    → stood_at (noted sub l) answer ≡ stood_at l answer
unfolding next_lease next_in
noted_left sub l answer = ground arith

next_lease_id : (l : Held) (env : WireEnvelope) → (next_lease l env).chunk_id ≡ l.chunk_id
unfolding next_lease
next_lease_id l env = refl

module _ {W : Type 0} (gw : IHubGateway W) (k j : String) (other : k ≢ j) where
  -- From these leases to those, the one of `k` is left so, and the one of `j` is untouched.
  abbrev Left : Dict String Held → Dict String Held → Option Standing → Type 0
  Left before after out = (standing_of (lookup k after) ≡ out) × (lookup j after ≡ lookup j before)

  rebased :
      {before before' : Dict String Held} {at out : Option Standing} {aside : Option Held}
      → before' ≡ before
      → (at ≡ out) × (aside ≡ lookup j before')
      → (at ≡ out) × (aside ≡ lookup j before)
  rebased same (here, there) = (here, there ∙ ap (lookup j) same)

  pull-held : (kind : RunnerLever) (c : String) (d : Driver) → (pull kind c d).1.held ≡ d.held
  unfolding pull
  pull-held kind c d = ground arith

  distorted-held :
      (l : Held) (choice : String) (arts checks : List String) (d : Driver)
      → (distorted l choice arts checks d).1.held ≡ d.held
  unfolding distorted submitted_token pull
  distorted-held l choice arts checks d = ground arith

  inserted-Left :
      (i : String) (l : Held) (held : Dict String Held)
      → i ≡ k
      → Left held (insert i l held) (some (standing l))
  inserted-Left i l held this =
      rw this (ap standing_of (lookup-insert_self k l held), lookup-insert_ne k j l held other)

  removed-Left :
      (i : String) (held : Dict String Held)
      → IsKeyed lease_id held
      → i ≡ k
      → Left held (remove i held) none
  removed-Left i held keyed this =
      rw this (
        ap standing_of (lookup-remove_keyed lease_id k held keyed),
        lookup-remove_ne k j held other,
      )

  advance_to-Left :
      (l : Held) (o : Option WireEnvelope) (d : Driver) (w : W)
      → IsKeyed lease_id d.held
      → l.chunk_id ≡ k
      → Left d.held (advance_to gw l o (d, w)).0.held (advanced l o)
  unfolding advance_to report_lease push_fact
  advance_to-Left l none d w keyed this = removed-Left l.chunk_id d.held keyed this
  advance_to-Left l (some env) d w keyed this =
      inserted-Left _ (next_lease l env) d.held (next_lease_id l env ∙ this)

  -- The end of a completion, for the lease as it was put back after the submission.
  settle-Left :
      (l : Held) (r : Reply) (hs : Headers) (again : Option (ℕ × (Body × Headers))) (d : Driver)
      (w : W)
      → IsKeyed lease_id d.held
      → lookup k d.held ≡ some l
      → let (answer, s) = settle gw l r hs (again, (d, w)) in
        Left d.held s.0.held (stood_at l answer)
  unfolding settle advance_lease
  settle-Left l (status, body) hs again d w keyed found =
      let (dropped, d1) = pull drop_ack l.chunk_id d in
      let same : d1.held ≡ d.held = pull-held drop_ack l.chunk_id d in
      let stays : Left d.held d1.held (some (standing l)) = rw same (ap standing_of found, refl) in
      elim (Bool-cases dropped) [
        | inl lost ↦ rw lost stays
        | inr seen ↦ elim (Bool-cases (status == 200)) [
          | inl fine ↦
              rw (seen, fine)
                (rebased same (
                  advance_to-Left l (next_in body.outcome body.next_envelope) d1 w
                    (subst (IsKeyed lease_id) (sym same) keyed)
                    (key-lookup lease_id k d.held l keyed found)))
          | inr refused ↦ rw (seen, refused) stays
        ]
      ]

  replayed-held :
      (c : String) (sub : Submission) (d : Driver) (w : W)
      → (replay_submission gw c sub (d, w)).1.0.held ≡ d.held
  unfolding replay_submission pull
  replayed-held c sub d w = ground arith

  submit_held-Left :
      (l : Held) (choice : String) (arts checks : List String) (d : Driver) (w : W)
      → IsKeyed lease_id d.held
      → lookup k d.held ≡ some l
      → let (answer, s) = submit_held gw l choice arts checks (d, w) in
        Left d.held s.0.held (stood_at l answer)
  unfolding submit_held
  submit_held-Left l choice arts checks d w keyed found =
      let (sub, d1) = distorted l choice arts checks d in
      let (reply, w1) = gw.submit_completion l.chunk_id sub w in
      let l' = noted sub l in
      let (again, (d2, w2)) = replay_submission gw l.chunk_id sub (put_held l' d1, w1) in
      let this : l.chunk_id ≡ k = key-lookup lease_id k d.held l keyed found in
      let put : d2.held ≡ insert l.chunk_id l' d.held =
        replayed-held l.chunk_id sub (put_held l' d1) w1
        ∙ ap (insert l.chunk_id l') (distorted-held l choice arts checks d) in
      let (here, there) =
        settle-Left l' reply (gw.last_response_headers w1) again d2 w2
          (subst (IsKeyed lease_id) (sym put) (insert-IsKeyed lease_id l' d.held keyed))
          (ap (lookup k) put
            ∙ (ap (λ i. lookup k (insert i l' d.held)) this ∙ lookup-insert_self k l' d.held)) in
      (
        here
            ∙ noted_left sub l
                (settle gw l' reply (gw.last_response_headers w1) (again, (d2, w2))).0,
        there
            ∙ (ap (lookup j) put
                ∙ (ap (λ i. lookup j (insert i l' d.held)) this
                    ∙ lookup-insert_ne k j l' d.held other)),
      )

  complete_held-Left :
      (l : Held) (choice : String) (arts checks : List String) (d : Driver) (w : W)
      → IsKeyed lease_id d.held
      → lookup k d.held ≡ some l
      → let (answer, s) = complete_held gw l choice arts checks (d, w) in
        Left d.held s.0.held (stood_at l answer)
  unfolding complete_held
  complete_held-Left l choice arts checks d w keyed found =
      let d1 = (pull unreachable l.chunk_id d).1 in
      let same : d1.held ≡ d.held = pull-held unreachable l.chunk_id d in
      elim (Bool-cases (pull unreachable l.chunk_id d).0) [
        | inl gone ↦ rw (gone, same) (ap standing_of found, refl)
        | inr here ↦ rw here (
            rebased same (
              submit_held-Left l choice arts checks d1 w (subst (IsKeyed lease_id) (sym same) keyed)
                (ap (lookup k) same ∙ found)))
      ]

  delay-held : (c : Option String) (d : Driver) → (apply_delay c d).held ≡ d.held
  unfolding apply_delay
  delay-held c d = ground arith

  -- Whatever the hub answers and whatever levers are armed, a completion of a chunk that the driver
  -- holds leaves the chunk's lease as its answer says: moved to the node of the envelope with the
  -- epoch after the envelope's on a NEXT reply that was seen with status 200, ended on any other such reply, and
  -- where it stood when the runner vanished, the ack was dropped or the status was another. The lease of
  -- any other chunk is untouched.
  pub complete_leaves :
      (l : Held) (choice : String) (arts checks : List String) (d : Driver) (w : W)
      → IsKeyed lease_id d.held
      → lookup k d.held ≡ some l
      → let (answer, s) = complete gw k choice arts checks (d, w) in
        Left d.held s.0.held (lease_left l answer)
  unfolding complete with_held held_or
  complete_leaves l choice arts checks d w keyed found =
      let d1 = apply_delay (some k) d in
      let same : d1.held ≡ d.held = delay-held (some k) d in
      let found1 : lookup k d1.held ≡ some l = ap (lookup k) same ∙ found in
      let (here, there) =
        complete_held-Left l choice arts checks d1 w (subst (IsKeyed lease_id) (sym same) keyed)
          found1 in
      rw found1 (
        rebased same
          (here ∙ stood_at-lease_left l (complete_held gw l choice arts checks (d1, w)).0, there))
