-- ===== src/Runner/Numbering.antt =====
-- The sequence numbers that a driver puts on its two lanes, as a hub receives them.
pub mod Leases
pub mod Runs
use blizzard_mock.Runner.Service.Leases.{take_lease}
use native.Mathlib.Numerals.{unary_clauses}
use blizzard_mock.Base.{
  ℕ, ◌+◌, ◌≡◌, refl, sym, ap, ◌∙◌, zero, suc, List, [], ◌∷◌, ◌++◌, map, arith, Bool, String, Option,
  none, some, inl, inr, Bool-cases, Option-cases, ◌==◌, option_eq, string_eq, pair_eq, nat_eq,
}
use blizzard_mock.Base.Dict.{lookup}
use blizzard_mock.Runner.Models.{
  RunnerLever, Driver, PushedFact, TranscriptRecord, Body, Held, Payload, WireEnvelope,
}
use blizzard_mock.Runner.Gateway.{IHubGateway, Reply}
use blizzard_mock.Runner.Service.Base.{
  Answer, push_fact, report, report_observed, report_lease, advance_lease, apply_delay, pull,
  put_held, advance_to,
}
use blizzard_mock.Runner.Drive.{Verb, drive, drive_all, claim}

-- The numbers received on the fact lane and on the transcript lane, the newest first.
pub record Log : Type 0 where
  pub facts : List ℕ
  pub records : List ℕ

module _ {W : Type 0} (gw : IHubGateway W) where
  -- A call that passes the log by.
  abbrev beside : (W → Reply × W) → W × Log → Reply × (W × Log)
  beside call (w, log) = let r = call w in (r.0, (r.1, log))

  -- The gateway, with a log of the numbers it was sent.
  abbrev pub recorded : IHubGateway (W × Log)
  recorded = record {
    register = λ r. beside (gw.register r);
    peek = beside gw.peek;
    peek_matched = λ enrolled caps policy. beside (gw.peek_matched enrolled caps policy);
    claim = λ body. beside (gw.claim body);
    submit_completion = λ k sub. beside (gw.submit_completion k sub);
    get_chunk = λ k. beside (gw.get_chunk k);
    chunk_statuses = λ ks. beside (gw.chunk_statuses ks);
    submit_decision = λ k body. beside (gw.submit_decision k body);
    get_question = λ q. beside (gw.get_question q);
    push_facts = λ fs s.
        let r = gw.push_facts fs s.0 in
        (r.0, (r.1, record s.1 { facts = map (λ f. f.seq) fs ++ s.1.facts }));
    push_transcripts = λ rs s.
        let r = gw.push_transcripts rs s.0 in
        (r.0, (r.1, record s.1 { records = map (λ f. f.seq) rs ++ s.1.records }));
    last_response_headers = λ s. gw.last_response_headers s.0;
    last_claim_refusal = λ s. gw.last_claim_refusal s.0;
    last_nonclaim_refusal = λ s. gw.last_nonclaim_refusal s.0;
  }

  -- n, n - 1, …, 1
  abbrev pub countdown : ℕ → List ℕ
  countdown zero = []
  countdown (suc n) = suc n ∷ countdown n

  -- Each lane has received the numbers from 1 to its counter, each once and in order.
  pub record Numbered (s : Driver × (W × Log)) : Type 0 where
    pub facts : s.1.1.facts ≡ countdown s.0.runner_seq
    pub records : s.1.1.records ≡ countdown s.0.transcript_seq

  countdown_succ : (n : ℕ) → countdown (n + 1) ≡ (n + 1) ∷ countdown n
  countdown_succ n = simp unary_clauses refl

  pub push_fact-Numbered :
      (p : Payload) (s : Driver × (W × Log)) → Numbered s → Numbered (push_fact recorded p s).1
  unfolding push_fact
  push_fact-Numbered p s h = record {
    facts = ap (λ xs. (s.0.runner_seq + 1) ∷ xs) h.facts ∙ sym (countdown_succ s.0.runner_seq);
    records = h.records;
  }

  pub report_lease-Numbered :
      (l : Held) (s : Driver × (W × Log)) → Numbered s → Numbered (report_lease recorded l s)
  unfolding report_lease
  report_lease-Numbered l s h = push_fact-Numbered _ s h

  -- Neither the counters nor the log moved.
  abbrev pub Still : Driver × (W × Log) → Driver × (W × Log) → Type 0
  Still s s' =
      (s'.0.runner_seq ≡ s.0.runner_seq)
      × (s'.0.transcript_seq ≡ s.0.transcript_seq)
      × (s'.1.1 ≡ s.1.1)

  pub Numbered-by : (s s' : Driver × (W × Log)) → Still s s' → Numbered s → Numbered s'
  Numbered-by s s' (same, same', log) h = record {
    facts = rw (log, same) h.facts;
    records = rw (log, same') h.records;
  }

  pub delayed : (k : Option String) (s : Driver × (W × Log)) → Still s (apply_delay k s.0, s.1)
  unfolding apply_delay
  delayed k s = ground arith

  pub pulled :
      (kind : RunnerLever) (k : String) (s : Driver × (W × Log))
      → Still s ((pull kind k s.0).1, s.1)
  unfolding pull
  pulled kind k s = ground arith

  pub advance_to-Numbered :
      (l : Held) (o : Option WireEnvelope) (s : Driver × (W × Log))
      → Numbered s
      → Numbered (advance_to recorded l o s)
  unfolding advance_to
  advance_to-Numbered l none s h = record { facts = h.facts; records = h.records }
  advance_to-Numbered l (some env) s h =
      report_lease-Numbered _ _ (record { facts = h.facts; records = h.records })
