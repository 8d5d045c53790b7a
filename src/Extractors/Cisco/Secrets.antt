-- ===== src/Extractors/Cisco/Secrets.antt =====
-- extractors/cisco/common/snmp_config.py and cisco/asa/vpn_sessions.py: how both take a secret from
-- a chunk and write it down, once for 64 bytes of the dump.
pub mod Redaction
pub mod Sound
use vantacore_engine.Prelude.{
  Bool, List, Option, [], drop, if◌then◌else◌, leb, length, ltb, mem, min, none, not, some, take, ℕ,
  ◌&&◌, ◌++◌, ◌+◌, ◌-◌, ◌/◌, ◌∷◌,
}
use vantacore_engine.Bytes.{Bytes}
use vantacore_engine.Extractors.Text.{if_any, is_space, strip, take_while}

pub record Secret : Type 0 where
  pub value : Option Bytes
  pub redacted : Bool
  pub physical_offset : ℕ

pub record Findings : Type 0 where
  pub seen_buckets : List ℕ
  pub findings : List Secret

-- Neither white space nor NUL, and printable ASCII.
abbrev pub in_token : ℕ → Bool
in_token b = ltb 32 b && leb b 126

-- `_extract_token`
unfoldable pub extract_token : Bytes → ℕ → ℕ → Option Bytes
unfolding take_while strip
extract_token chunk offset max_len = if_any (
    strip is_space (
      take_while in_token
        (take (min (length chunk) (offset + max_len) - offset) (drop offset chunk))))

unfoldable pub add_secret : Bool → ℕ → Bytes → Findings → Findings
add_secret include_secrets phys_off token s =
    let bucket = phys_off / 64 in
    if mem bucket s.seen_buckets then s else record {
      seen_buckets = s.seen_buckets ++ (bucket ∷ []);
      findings =
          s.findings
          ++ (record {
            value = if include_secrets then some token else none;
            redacted = not include_secrets;
            physical_offset = phys_off;
          }
              ∷ []);
    }

unfoldable pub add_token : Bool → ℕ → Option Bytes → Findings → Findings
unfolding add_secret
add_token include_secrets phys_off none s = s
add_token include_secrets phys_off (some token) s = add_secret include_secrets phys_off token s

-- The visit of a prefix at an index: the token behind it is the secret.
unfoldable pub visit_prefix : Bool → Bytes → ℕ → Bytes → ℕ → Findings → Findings
unfolding extract_token add_token
visit_prefix include_secrets prefix offset chunk idx s =
    let val_start = idx + length prefix in
    add_token include_secrets (offset + val_start) (extract_token chunk val_start 64) s
