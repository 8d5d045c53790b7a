-- ===== src/Extractors/Cisco/Acl/Tests.antt =====
-- extractors/cisco/asa/acl_rules.py on a short dump.
use vantacore_engine.Prelude.{List, [], refl, ◌++◌, ◌∷◌, ◌≡◌}
use vantacore_engine.Bytes.{Bytes, bytes_eq, find, find_from, starts_with}
use vantacore_engine.Extractors.Chunked.{scan_chunks}
use vantacore_engine.Extractors.Keyed.{Distinct, bytes_key}
use vantacore_engine.Extractors.Text.{line_at, lstrip, rstrip, strip, until, words_from}
use vantacore_engine.Extractors.Patterns.{scan_pattern}
use vantacore_engine.Extractors.Cisco.Acl.{
  acl_prefix, any, find_action, host, is_action, join, parse_rule, permit, run, search, split_rest,
  visit_chunk, visit_line,
}
use vantacore_engine.Extractors.Cisco.Acl.Sound.{AllLines, AreRulesOf, acl_rules_lem}

-- "access-list o permit tcp any host w", twice.
abbrev lines : Bytes
lines =
    let line : Bytes =
      acl_prefix
      ++ (b'o' ∷ 32 ∷ permit)
      ++ (32 ∷ b't' ∷ b'c' ∷ b'p' ∷ 32 ∷ any)
      ++ (32 ∷ host)
      ++ (32 ∷ b'w' ∷ 10 ∷ []) in
    line ++ line

lines-rules :
    (run lines).acl_rules
    ≡ (record {
      acl_name = b'o' ∷ [];
      action = permit;
      protocol = b't' ∷ b'c' ∷ b'p' ∷ [];
      source = any;
      destination = host ++ (32 ∷ b'w' ∷ []);
    })
      ∷ []
unfolding run search visit_chunk visit_line parse_rule find_action is_action split_rest join
    scan_chunks scan_pattern find_from find starts_with bytes_eq line_at until strip lstrip rstrip
    words_from
lines-rules = refl

acl_rules_lem_example :
    (found : List Bytes) × (AllLines lines found
      × (Distinct found × AreRulesOf found (run lines).acl_rules))
acl_rules_lem_example = acl_rules_lem lines
