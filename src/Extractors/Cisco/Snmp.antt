-- ===== src/Extractors/Cisco/Snmp.antt =====
-- extractors/cisco/common/snmp_config.py: `SNMPConfigExtractor`.
pub mod Redaction
pub mod Sound
mod Tests
use vantacore_engine.Prelude.{Bool, List, [], leb, length, ℕ, ◌++◌, ◌+◌, ◌∷◌}
use vantacore_engine.Bytes.{Bytes}
use vantacore_engine.Extractors.Chunked.{scan_chunks}
use vantacore_engine.Extractors.Patterns.{never, scan_all, scan_pattern}
use vantacore_engine.Extractors.Cisco.Secrets.{Findings, Secret, add_secret, visit_prefix}

-- "snmp-server community "
abbrev pub snmp_prefix : Bytes
snmp_prefix =
    b's' ∷ b'n' ∷ b'm' ∷ b'p' ∷ b'-' ∷ b's' ∷ b'e' ∷ b'r' ∷ b'v' ∷ b'e' ∷ b'r' ∷ 32 ∷ b'c' ∷ b'o'
    ∷ b'm' ∷ b'm' ∷ b'u' ∷ b'n' ∷ b'i' ∷ b't' ∷ b'y' ∷ 32 ∷ []

abbrev pub public : Bytes
public = b'p' ∷ b'u' ∷ b'b' ∷ b'l' ∷ b'i' ∷ b'c' ∷ []

abbrev pub private : Bytes
private = b'p' ∷ b'r' ∷ b'i' ∷ b'v' ∷ b'a' ∷ b't' ∷ b'e' ∷ []

pub record Search : Type 0 where
  pub hops : ℕ
  pub found : Findings

-- `name\x00` in a chunk.
unfoldable pub scan_standalone : Bool → ℕ → Bytes → Bytes → Findings → Findings
unfolding scan_pattern add_secret
scan_standalone include_secrets offset chunk name s =
    scan_all (name ++ (0 ∷ [])) never (λ idx. add_secret include_secrets (offset + idx) name) chunk
      s

unfoldable pub scan_chunk : Bool → ℕ → Bytes → Findings → Findings
unfolding scan_pattern visit_prefix scan_standalone
scan_chunk include_secrets offset chunk s = scan_standalone include_secrets offset chunk private (
    scan_standalone include_secrets offset chunk public
      (scan_all snmp_prefix never (visit_prefix include_secrets snmp_prefix offset chunk) chunk s))

unfoldable pub visit_chunk : Bool → ℕ → Bytes → Search → Search
unfolding scan_chunk
visit_chunk include_secrets offset chunk s = record {
  hops = s.hops + 1;
  found = scan_chunk include_secrets offset chunk s.found;
}

abbrev pub is_capped : Search → Bool
is_capped s = leb 500000 s.hops

abbrev pub nothing : Search
nothing = record { hops = 0; found = record { seen_buckets = []; findings = [] } }

unfoldable pub run : Bool → Bytes → List Secret
unfolding scan_chunks visit_chunk
run include_secrets dump =
    (scan_chunks dump 65536 is_capped (visit_chunk include_secrets) (length dump + 1) 0
      nothing).found.findings
