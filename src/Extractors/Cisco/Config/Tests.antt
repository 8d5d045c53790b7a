-- ===== src/Extractors/Cisco/Config/Tests.antt =====
-- extractors/cisco/ios/running_config.py on a short dump.
use vantacore_engine.Prelude.{List, [], length, none, refl, ◌↔◌, ◌∷◌, ◌≡◌, ◌≤◌}
use vantacore_engine.Bytes.{Bytes, bytes_eq, find, find_from, starts_with}
use vantacore_engine.Extractors.Chunked.{scan_chunks}
use vantacore_engine.Extractors.Text.{take_while, strip, lstrip, rstrip}
use vantacore_engine.Extractors.Patterns.{scan_pattern}
use vantacore_engine.Extractors.Keyed.{Distinct, bytes_key}
use vantacore_engine.Extractors.Cisco.Config.{
  extract_printable_block, high, level_of, low, medium, not_found, run, scan_anchors, search,
  visit_anchor, visit_chunk, join_sections, detect_firmware_version,
}
use vantacore_engine.Extractors.Cisco.Config.Sections.{AllCounted, AllSections}
use vantacore_engine.Extractors.Cisco.Config.Confidence.{config_lem}

-- "hostname r1" and "router x", between other bytes.
abbrev config : Bytes
config =
    1
    ∷ (b'h' ∷ b'o' ∷ b's' ∷ b't' ∷ b'n' ∷ b'a' ∷ b'm' ∷ b'e' ∷ 32 ∷ b'r' ∷ b'1' ∷ 0 ∷ b'r' ∷ b'o'
        ∷ b'u' ∷ b't' ∷ b'e' ∷ b'r' ∷ 32 ∷ b'x' ∷ 10 ∷ [])

config-report : run config ≡ record {
  text =
      b'h' ∷ b'o' ∷ b's' ∷ b't' ∷ b'n' ∷ b'a' ∷ b'm' ∷ b'e' ∷ 32 ∷ b'r' ∷ b'1' ∷ 10 ∷ 10 ∷ b'r'
      ∷ b'o' ∷ b'u' ∷ b't' ∷ b'e' ∷ b'r' ∷ 32 ∷ b'x' ∷ [];
  confidence = low;
  sections_found = 2;
  firmware_version = none;
}
unfolding run search visit_chunk scan_anchors visit_anchor extract_printable_block level_of
    join_sections detect_firmware_version scan_chunks scan_pattern find_from find starts_with
    take_while strip lstrip rstrip bytes_eq
config-report = refl

config_lem_example :
    (counted : List Bytes) × (sections : List Bytes) × ((run config).text ≡ join_sections sections)
    × ((run config).sections_found ≡ length counted)
    × AllSections config counted sections
    × AllCounted config sections counted
    × Distinct counted
    × ((run config).sections_found ≤ 7)
    × (((run config).confidence ≡ high) ↔ (6 ≤ (run config).sections_found))
    × (((run config).confidence ≡ medium)
        ↔ (3 ≤ (run config).sections_found) × ((run config).sections_found ≤ 5))
    × (((run config).confidence ≡ low)
        ↔ (1 ≤ (run config).sections_found) × ((run config).sections_found ≤ 2))
    × (((run config).confidence ≡ not_found) ↔ (length sections ≡ 0))
config_lem_example = config_lem config
