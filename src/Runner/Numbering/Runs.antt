-- ===== src/Runner/Numbering/Runs.antt =====
-- The numbering of the lanes over runs of verbs.
use blizzard_mock.Runner.Service.Leases.{decide_held, registered}
use blizzard_mock.Runner.Service.Reports.{ask_held, push_segment}
use blizzard_mock.Runner.Numbering.{
  Log, Numbered, recorded, push_fact-Numbered, apply_delay, Numbered-by, countdown, delayed,
  countdown_succ,
}
use blizzard_mock.Runner.Models.{Payload, Driver, Turn, Held}
use blizzard_mock.Runner.Service.Base.{report, report_observed}
use blizzard_mock.Runner.Gateway.{IHubGateway}
use blizzard_mock.Base.{
  ◌+◌, Bool, sym, ap, ◌∙◌, ◌≡◌, refl, ℕ, List, [], ◌∷◌, String, Option, none, some, Bool, arith,
}
use blizzard_mock.Runner.Numbering.Leases.{
  claim-Numbered, claim_next-Numbered, with_held-Numbered, complete-Numbered,
}
use blizzard_mock.Runner.Service.Base.{apply_delay, report, report_observed, push_fact}
use blizzard_mock.Runner.Numbering.{push_fact-Numbered}
use blizzard_mock.Runner.Service.Base as ServiceBase
use blizzard_mock.Runner.Service.Leases as Leases
use blizzard_mock.Runner.Service.Reports as Reports
use blizzard_mock.Runner.Drive.{
  register, peek, peek_matched, claim, claim_next, complete, decide, get_chunk, poll_answer, resume,
  chunk_statuses, escalate, ask, push_transcript, pause, report_event, report_external_usage,
  report_external_usage_miss, declare_git_commit, arm_lever, clear_lever, tick_clock, Verb, drive,
  drive_all, claim, claim_next, complete,
}

abbrev pub no_log : Log
no_log = record { facts = []; records = [] }

module _ {W : Type 0} (gw : IHubGateway W) where
  report-Numbered :
      (p : Payload) (s : Driver × (W × Log))
      → Numbered gw s
      → Numbered gw (report (recorded gw) p s).1
  unfolding report
  report-Numbered p s h = push_fact-Numbered gw p s h

  report_observed-Numbered :
      (p : Payload) (k : Option String) (s : Driver × (W × Log))
      → Numbered gw s
      → Numbered gw (report_observed (recorded gw) p (apply_delay k s.0, s.1)).1
  unfolding report_observed
  report_observed-Numbered p k s h =
      push_fact-Numbered gw p _ (Numbered-by gw s _ (delayed gw k s) h)

  delayed_report-Numbered :
      (p : Payload) (k : Option String) (s : Driver × (W × Log))
      → Numbered gw s
      → Numbered gw (report (recorded gw) p (apply_delay k s.0, s.1)).1
  delayed_report-Numbered p k s h = report-Numbered p _ (Numbered-by gw s _ (delayed gw k s) h)

  ask_held-Numbered :
      (hex q : String) (options : List String) (harness : Option String) (l : Held)
      (s : Driver × (W × Log))
      → Numbered gw s
      → Numbered gw (ask_held (recorded gw) hex q options harness l s).1
  unfolding ask_held
  ask_held-Numbered hex q options harness l s h = push_fact-Numbered gw _ s h

  countdown_on : (n : ℕ) (xs : List ℕ) → xs ≡ countdown gw n → (n + 1) ∷ xs ≡ countdown gw (n + 1)
  countdown_on n xs e = ap (λ ys. (n + 1) ∷ ys) e ∙ sym (countdown_succ gw n)

  segment-Numbered :
      (segment : String) (turns : List Turn) (final truncated : Bool) (harness : Option String)
      (l : Held) (s : Driver × (W × Log))
      → Numbered gw s
      → Numbered gw (push_segment (recorded gw) segment turns final truncated harness l s).1
  unfolding push_segment
  segment-Numbered segment turns final truncated harness l s h = record {
    facts = h.facts;
    records = countdown_on s.0.transcript_seq _ h.records;
  }

  decide_held-Numbered :
      (l : Held) (s : Driver × (W × Log))
      → Numbered gw s
      → Numbered gw (decide_held (recorded gw) l s).1
  unfolding decide_held
  decide_held-Numbered l s h = record { facts = h.facts; records = h.records }

  register-Numbered :
      (caps subs declining : Option (List String)) (s : Driver × (W × Log))
      → Numbered gw s
      → Numbered gw (Leases.register (recorded gw) caps subs declining s).1
  unfolding Leases.register registered apply_delay
  register-Numbered caps subs declining s h =
      Numbered-by gw s (Leases.register (recorded gw) caps subs declining s).1 (ground arith) h

  drive-Numbered :
      (v : Verb) (s : Driver × (W × Log)) → Numbered gw s → Numbered gw (drive (recorded gw) v s)
  unfolding drive Leases.register Leases.peek Leases.peek_matched Leases.decide Leases.get_chunk
      Leases.poll_answer Leases.chunk_statuses Reports.escalate Reports.ask Reports.push_transcript
      Reports.pause Reports.resume Reports.report_event Reports.report_external_usage
      Reports.report_external_usage_miss ServiceBase.declare_git_commit
  drive-Numbered (claim k envs) s h = claim-Numbered gw k envs s h
  drive-Numbered (claim_next envs strict) s h = claim_next-Numbered gw envs strict s h
  drive-Numbered (complete k choice arts checks) s h = complete-Numbered gw k choice arts checks s h
  drive-Numbered (register caps subs declining) s h = register-Numbered caps subs declining s h
  drive-Numbered peek s h = Numbered-by gw s _ (delayed gw none s) h
  drive-Numbered (peek_matched caps policy enrolled) s h = Numbered-by gw s _ (delayed gw none s) h
  drive-Numbered (decide k) s h = with_held-Numbered gw k _ s decide_held-Numbered h
  drive-Numbered (get_chunk k) s h = Numbered-by gw s _ (delayed gw (some k) s) h
  drive-Numbered (poll_answer q) s h = Numbered-by gw s _ (delayed gw none s) h
  drive-Numbered (resume by) s h = report_observed-Numbered _ none s h
  drive-Numbered (chunk_statuses ks) s h = Numbered-by gw s _ (delayed gw none s) h
  drive-Numbered (escalate k cmd wrapped cause detail) s h =
      with_held-Numbered gw k _ s (λ l t. report-Numbered _ t) h
  drive-Numbered (ask hex k q options harness) s h =
      with_held-Numbered gw k _ s (λ l t. ask_held-Numbered hex q options harness l t) h
  drive-Numbered (push_transcript k segment turns final truncated harness) s h =
      with_held-Numbered gw k _ s (segment-Numbered segment turns final truncated harness) h
  drive-Numbered (pause by reason) s h = report_observed-Numbered _ none s h
  drive-Numbered (report_event severity kind message k lease name detail) s h =
      delayed_report-Numbered _ k s h
  drive-Numbered (report_external_usage slug at windows name) s h =
      delayed_report-Numbered _ none s h
  drive-Numbered (report_external_usage_miss slug at reason name) s h =
      delayed_report-Numbered _ none s h
  drive-Numbered (declare_git_commit lease c) s h = record { facts = h.facts; records = h.records }
  drive-Numbered (arm_lever l) s h = record { facts = h.facts; records = h.records }
  drive-Numbered (clear_lever kind k) s h = record { facts = h.facts; records = h.records }
  drive-Numbered (tick_clock n) s h = record { facts = h.facts; records = h.records }

  drive_all-Numbered :
      (vs : List Verb) (s : Driver × (W × Log))
      → Numbered gw s
      → Numbered gw (drive_all (recorded gw) vs s)
  unfolding drive_all
  drive_all-Numbered [] s h = h
  drive_all-Numbered (v ∷ vs) s h =
      drive_all-Numbered vs (drive (recorded gw) v s) (drive-Numbered v s h)

  -- Whatever a hub answers, and whatever levers are armed, a driver that is driven from the start, by any verbs
  -- but a reset, has sent the facts numbered 1, 2, … up to its fact counter, each number once and in
  -- order, and the transcript records likewise.
  pub lanes-Numbered :
      (vs : List Verb) (d : Driver) (w : W)
      → d.runner_seq ≡ 0
      → d.transcript_seq ≡ 0
      → Numbered gw (drive_all (recorded gw) vs (d, (w, no_log)))
  lanes-Numbered vs d w e e' =
      drive_all-Numbered vs _ (record { facts = rw e refl; records = rw e' refl })
