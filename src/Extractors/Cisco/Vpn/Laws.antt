-- ===== src/Extractors/Cisco/Vpn/Laws.antt =====
-- extractors/cisco/asa/vpn_sessions.py: what the report says, with the secrets and without.
use vantacore_engine.Prelude.{
  Bool-cases, List, [], ap, false, inl, inr, length, map, refl, true, ℕ, ◌+◌, ◌∙◌, ◌∷◌, ◌≡◌,
}
use vantacore_engine.Bytes.{Bytes}
use vantacore_engine.Extractors.Keyed.{bytes_key, pair_key, seen}
use vantacore_engine.Extractors.Patterns.Commutes.{scan_pattern-commutes, scan_chunks-commutes}
use vantacore_engine.Extractors.Cisco.Secrets.{visit_prefix}
use vantacore_engine.Extractors.Cisco.Secrets.Redaction.{
  redact, redact_findings, visit_prefix-redacted,
}
use vantacore_engine.Extractors.Cisco.Vpn.{
  Report, Search, Session, add_session, is_capped, nothing, psk_prefix, run, scan_sessions,
  session_patterns, visit_chunk, visit_session,
}

redact_search : Search → Search
redact_search s = record s { psks = redact_findings s.psks }

abbrev pub redact_report : Report → Report
redact_report r = record r { vpn_psks = map redact r.vpn_psks }

add_session-redacted :
    (x : Session) (s : Search) → add_session x (redact_search s) ≡ redact_search (add_session x s)
unfolding add_session redact_search
add_session-redacted x s =
    elim (Bool-cases (seen (x.session_type, x.peer_ip) s.seen_session_keys)) [
      | inl e ↦ simp e refl
      | inr e ↦ simp e refl
    ]

scan_sessions-redacted :
    (offset : ℕ) (chunk : Bytes) (patterns : List Bytes) (s : Search)
    → scan_sessions offset chunk patterns (redact_search s)
      ≡ redact_search (scan_sessions offset chunk patterns s)
unfolding scan_sessions visit_session
scan_sessions-redacted offset chunk [] s = refl
scan_sessions-redacted offset chunk (pattern ∷ patterns) s =
    ap (scan_sessions offset chunk patterns) (
      scan_pattern-commutes redact_search pattern (visit_session offset chunk pattern)
        (visit_session offset chunk pattern) chunk (λ idx t. add_session-redacted _ t)
        (length chunk + 1) 0 s)
    ∙ scan_sessions-redacted offset chunk patterns _

visit_chunk-redacted :
    (offset : ℕ) (chunk : Bytes) (s : Search)
    → visit_chunk false offset chunk (redact_search s)
      ≡ redact_search (visit_chunk true offset chunk s)
unfolding visit_chunk redact_search
visit_chunk-redacted offset chunk s =
    ap (λ f. scan_sessions offset chunk session_patterns (record s { hops = s.hops + 1; psks = f }))
      (scan_pattern-commutes redact_findings psk_prefix (visit_prefix true psk_prefix offset chunk)
        (visit_prefix false psk_prefix offset chunk) chunk
        (λ idx t. visit_prefix-redacted psk_prefix offset chunk idx t) (length chunk + 1) 0 s.psks)
    ∙ scan_sessions-redacted offset chunk session_patterns _

pub run-redacted : (dump : Bytes) → run false dump ≡ redact_report (run true dump)
unfolding run redact_search
run-redacted dump =
    ap (λ (s : Search). record { vpn_sessions = s.sessions; vpn_psks = s.psks.findings })
      (scan_chunks-commutes redact_search dump 65536 is_capped (visit_chunk true)
        (visit_chunk false) (λ s. refl) visit_chunk-redacted (length dump + 1) 0 nothing)
