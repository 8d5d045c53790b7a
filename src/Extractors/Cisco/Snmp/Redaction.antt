-- ===== src/Extractors/Cisco/Snmp/Redaction.antt =====
-- extractors/cisco/common/snmp_config.py: what the report says without the secrets.
use vantacore_engine.Prelude.{[], ap, false, length, map, refl, true, ℕ, ◌++◌, ◌+◌, ◌∙◌, ◌∷◌, ◌≡◌}
use vantacore_engine.Bytes.{Bytes}
use vantacore_engine.Extractors.Patterns.Commutes.{scan_pattern-commutes, scan_chunks-commutes}
use vantacore_engine.Extractors.Cisco.Secrets.{Findings, visit_prefix, add_secret}
use vantacore_engine.Extractors.Cisco.Secrets.Redaction.{
  redact, redact_findings, add_secret-redacted, visit_prefix-redacted,
}
use vantacore_engine.Extractors.Cisco.Snmp.{
  Search, run, visit_chunk, scan_chunk, scan_standalone, snmp_prefix, public, private, nothing,
  is_capped,
}

redact_search : Search → Search
redact_search s = record s { found = redact_findings s.found }

scan_standalone-redacted :
    (offset : ℕ) (chunk name : Bytes) (s : Findings)
    → scan_standalone false offset chunk name (redact_findings s)
      ≡ redact_findings (scan_standalone true offset chunk name s)
unfolding scan_standalone
scan_standalone-redacted offset chunk name s =
    scan_pattern-commutes redact_findings (name ++ (0 ∷ []))
      (λ idx. add_secret true (offset + idx) name) (λ idx. add_secret false (offset + idx) name)
      chunk (λ idx t. add_secret-redacted (offset + idx) name t) (length chunk + 1) 0 s

scan_chunk-redacted :
    (offset : ℕ) (chunk : Bytes) (s : Findings)
    → scan_chunk false offset chunk (redact_findings s)
      ≡ redact_findings (scan_chunk true offset chunk s)
unfolding scan_chunk
scan_chunk-redacted offset chunk s =
    let prefixed =
      scan_pattern-commutes redact_findings snmp_prefix (visit_prefix true snmp_prefix offset chunk)
        (visit_prefix false snmp_prefix offset chunk) chunk
        (λ idx t. visit_prefix-redacted snmp_prefix offset chunk idx t) (length chunk + 1) 0 s in
    ap
      (λ t.
        scan_standalone false offset chunk private (scan_standalone false offset chunk public t))
      prefixed
    ∙ ap (scan_standalone false offset chunk private)
        (scan_standalone-redacted offset chunk public _)
    ∙ scan_standalone-redacted offset chunk private _

pub run-redacted : (dump : Bytes) → run false dump ≡ map redact (run true dump)
unfolding run visit_chunk redact_search
run-redacted dump =
    ap (λ s. s.found.findings)
      (scan_chunks-commutes redact_search dump 65536 is_capped (visit_chunk true)
        (visit_chunk false) (λ s. refl)
        (λ offset chunk s.
          ap (λ t. record { hops = s.hops + 1; found = t })
            (scan_chunk-redacted offset chunk s.found))
        (length dump + 1) 0 nothing)
