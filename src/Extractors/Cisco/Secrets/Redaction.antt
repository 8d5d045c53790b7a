-- ===== src/Extractors/Cisco/Secrets/Redaction.antt =====
-- extractors/cisco/: a secret written down without its value.
use mathlib.Core.List.{map-append}
use vantacore_engine.Prelude.{
  Bool-cases, Option, false, inl, inr, length, map, mem, none, refl, some, true, ℕ, ◌+◌, ◌/◌, ◌≡◌,
}
use vantacore_engine.Bytes.{Bytes}
use vantacore_engine.Extractors.Cisco.Secrets.{
  Findings, Secret, add_secret, add_token, extract_token, visit_prefix,
}

abbrev pub redact : Secret → Secret
redact f = record f { value = none; redacted = true }

abbrev pub redact_findings : Findings → Findings
redact_findings s = record s { findings = map redact s.findings }

pub add_secret-redacted :
    (phys_off : ℕ) (token : Bytes) (s : Findings)
    → add_secret false phys_off token (redact_findings s)
      ≡ redact_findings (add_secret true phys_off token s)
unfolding add_secret
add_secret-redacted phys_off token s = elim (Bool-cases (mem (phys_off / 64) s.seen_buckets)) [
  | inl e ↦ simp e refl
  | inr e ↦ simp (e, map-append) refl
]

add_token-redacted :
    (phys_off : ℕ) (token : Option Bytes) (s : Findings)
    → add_token false phys_off token (redact_findings s)
      ≡ redact_findings (add_token true phys_off token s)
unfolding add_token
add_token-redacted phys_off none s = refl
add_token-redacted phys_off (some token) s = add_secret-redacted phys_off token s

pub visit_prefix-redacted :
    (prefix : Bytes) (offset : ℕ) (chunk : Bytes) (idx : ℕ) (s : Findings)
    → visit_prefix false prefix offset chunk idx (redact_findings s)
      ≡ redact_findings (visit_prefix true prefix offset chunk idx s)
unfolding visit_prefix
visit_prefix-redacted prefix offset chunk idx s =
    add_token-redacted (offset + (idx + length prefix))
      (extract_token chunk (idx + length prefix) 64) s
