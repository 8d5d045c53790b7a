-- ===== src/Extractors/Cisco/Snmp/Tests.antt =====
-- extractors/cisco/common/snmp_config.py on a short dump.
use vantacore_engine.Prelude.{
  [], false, map, occurrences, refl, replicate, some, true, ℕ, ◌++◌, ◌∷◌, ◌≡◌, ◌≤◌,
}
use vantacore_engine.Bytes.{Bytes, find, find_from, starts_with}
use vantacore_engine.Extractors.Chunked.{scan_chunks}
use vantacore_engine.Extractors.Text.{take_while, strip, lstrip, rstrip}
use vantacore_engine.Extractors.Patterns.{scan_pattern}
use vantacore_engine.Extractors.Cisco.Secrets.{
  Secret, add_secret, add_token, extract_token, visit_prefix,
}
use vantacore_engine.Extractors.Cisco.Secrets.Redaction.{redact}
use vantacore_engine.Extractors.Cisco.Secrets.Sound.{AllSecretsOf, buckets}
use vantacore_engine.Extractors.Cisco.Snmp.{
  run, visit_chunk, scan_chunk, scan_standalone, snmp_prefix, public,
}
use vantacore_engine.Extractors.Cisco.Snmp.Sound.{communities_gated}

-- A community string, and 64 bytes further a standard one.
abbrev sample : Bytes
sample = snmp_prefix ++ (b'k' ∷ b'e' ∷ b'y' ∷ 10 ∷ []) ++ replicate 64 1 ++ public ++ (0 ∷ [])

abbrev key : Secret
key = record { value = some (b'k' ∷ b'e' ∷ b'y' ∷ []); redacted = false; physical_offset = 22 }

sample-secrets :
    run true sample
    ≡ key ∷ record { value = some public; redacted = false; physical_offset = 90 } ∷ []
unfolding run visit_chunk scan_chunk scan_standalone scan_chunks scan_pattern find_from find
    starts_with visit_prefix extract_token take_while add_token add_secret strip lstrip rstrip
sample-secrets = refl

communities_gated_example :
    (run false sample ≡ map redact (run true sample))
    × (AllSecretsOf sample (run true sample)
        × ((n : ℕ) → occurrences n (buckets (run true sample)) ≤ 1))
communities_gated_example = communities_gated sample
