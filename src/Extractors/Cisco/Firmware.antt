-- ===== src/Extractors/Cisco/Firmware.antt =====
-- extractors/cisco/asa/: `_extract_firmware_version` of acl_rules.py and conn_table.py, the version
-- behind a banner in the first 64 KB. None stands for "unknown".
use vantacore_engine.Prelude.{
  Option, [], drop, if◌then◌else◌, length, ltb, none, some, take, ℕ, ◌+◌, ◌∷◌,
}
use vantacore_engine.Bytes.{Bytes, find}
use vantacore_engine.Extractors.Text.{if_any, is_space, strip, until}

-- "Cisco Adaptive Security Appliance Software Version "
abbrev pub version_prefix : Bytes
version_prefix =
    b'C' ∷ b'i' ∷ b's' ∷ b'c' ∷ b'o' ∷ 32 ∷ b'A' ∷ b'd' ∷ b'a' ∷ b'p' ∷ b't' ∷ b'i' ∷ b'v' ∷ b'e'
    ∷ 32 ∷ b'S' ∷ b'e' ∷ b'c' ∷ b'u' ∷ b'r' ∷ b'i' ∷ b't' ∷ b'y' ∷ 32 ∷ b'A' ∷ b'p' ∷ b'p' ∷ b'l'
    ∷ b'i' ∷ b'a' ∷ b'n' ∷ b'c' ∷ b'e' ∷ 32 ∷ b'S' ∷ b'o' ∷ b'f' ∷ b't' ∷ b'w' ∷ b'a' ∷ b'r' ∷ b'e'
    ∷ 32 ∷ b'V' ∷ b'e' ∷ b'r' ∷ b's' ∷ b'i' ∷ b'o' ∷ b'n' ∷ 32 ∷ []

-- `raw.decode("ascii", errors="ignore")`
unfoldable pub ascii_only : Bytes → Bytes
ascii_only [] = []
ascii_only (b ∷ bs) = let rest = ascii_only bs in if ltb b 128 then b ∷ rest else rest

abbrev pub version_at : Bytes → Option ℕ → Option Bytes
version_at chunk none = none
version_at chunk (some idx) =
    if_any
      (strip is_space (ascii_only (until 0 (take 16 (drop (idx + length version_prefix) chunk)))))

unfoldable pub extract_firmware_version : Bytes → Option Bytes
unfolding find ascii_only until strip
extract_firmware_version chunk = version_at chunk (find chunk version_prefix)
