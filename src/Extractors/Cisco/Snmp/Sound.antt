-- ===== src/Extractors/Cisco/Snmp/Sound.antt =====
-- extractors/cisco/common/snmp_config.py: what the report says with the secrets.
use vantacore_engine.Prelude.{
  [], arith, false, length, map, occurrences, refl, subst, true, ℕ, ◌++◌, ◌+◌, ◌<◌, ◌∷◌, ◌≡◌, ◌≤◌,
}
use vantacore_engine.Bytes.{Bytes}
use vantacore_engine.Paging.{read_at}
use vantacore_engine.Extractors.Patterns.{never}
use vantacore_engine.Extractors.Patterns.Keeps.{scan_pattern-keeps, scan_chunks-keeps, IsMatch-part}
use vantacore_engine.Extractors.Patterns.Places.{IsMatch-StandsAt, StandsAt-chunk}
use vantacore_engine.Extractors.Cisco.Secrets.{Findings, visit_prefix, add_secret}
use vantacore_engine.Extractors.Cisco.Secrets.Redaction.{redact}
use vantacore_engine.Extractors.Cisco.Snmp.Redaction.{run-redacted}
use vantacore_engine.Extractors.Cisco.Secrets.Sound.{
  AllSecretsOf, IsSound, add_secret-IsSound, buckets, visit_prefix-IsSound,
}
use vantacore_engine.Extractors.Cisco.Snmp.{
  run, visit_chunk, scan_chunk, scan_standalone, snmp_prefix, public, private, nothing, is_capped,
}

module _ (dump : Bytes) where
  scan_standalone-IsSound :
      (offset : ℕ) (name : Bytes) (s : Findings)
      → 0 < length name
      → IsSound dump s
      → IsSound dump (scan_standalone true offset (read_at dump offset 65536) name s)
  unfolding scan_standalone
  scan_standalone-IsSound offset name s h i =
      let chunk = read_at dump offset 65536 in
      scan_pattern-keeps (IsSound dump) (name ++ (0 ∷ [])) never
        (λ idx. add_secret true (offset + idx) name) chunk
        (λ idx t m _ k.
          add_secret-IsSound dump (offset + idx) name t
            (StandsAt-chunk dump name offset 65536 idx
              (IsMatch-StandsAt name chunk idx (IsMatch-part name (0 ∷ []) chunk idx m)))
            h k)
        (length chunk + 1) 0 s i

  scan_chunk-IsSound :
      (offset : ℕ) (s : Findings)
      → IsSound dump s
      → IsSound dump (scan_chunk true offset (read_at dump offset 65536) s)
  unfolding scan_chunk
  scan_chunk-IsSound offset s i =
      let chunk = read_at dump offset 65536 in
      scan_standalone-IsSound offset private _ (omega arith) (
        scan_standalone-IsSound offset public _ (omega arith) (
          scan_pattern-keeps (IsSound dump) snmp_prefix never
            (visit_prefix true snmp_prefix offset chunk) chunk
            (λ idx t _ _ k. visit_prefix-IsSound dump snmp_prefix offset 65536 idx t k)
            (length chunk + 1) 0 s i))

  run-AllSecretsOf :
      AllSecretsOf dump (run true dump) × ((n : ℕ) → occurrences n (buckets (run true dump)) ≤ 1)
  unfolding run visit_chunk
  run-AllSecretsOf =
      let i =
        scan_chunks-keeps (λ s. IsSound dump s.found) dump 65536 is_capped (visit_chunk true)
          (λ offset s _ k. scan_chunk-IsSound offset s.found k) (length dump + 1) 0 nothing
          (record { all_secrets = tt; same_buckets = refl; distinct = λ n. omega arith }) in
      (i.all_secrets, λ n. subst (λ bs. occurrences n bs ≤ 1) i.same_buckets (i.distinct n))

  -- Without `include_secrets` the report is that of a run with it, entry by entry, with each value
  -- taken out and marked as redacted. With it each entry has a value that is not empty, is not
  -- marked as redacted, and stands in the dump at its offset; no two entries begin in the same 64
  -- bytes.
  pub communities_gated :
      (run false dump ≡ map redact (run true dump))
      × (AllSecretsOf dump (run true dump)
          × ((n : ℕ) → occurrences n (buckets (run true dump)) ≤ 1))
  communities_gated = (run-redacted dump, run-AllSecretsOf)
