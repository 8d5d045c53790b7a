-- ===== src/Appliances/Scan.antt =====
-- core/backends/appliances/: what the detectors of this folder share. A confidence of 0.65 is
-- 65 hundredths.
use vantacore_engine.Prelude.{Bool, if◌then◌else◌, ℕ}
use vantacore_engine.Bytes.{Bytes}
use vantacore_engine.Appliances.Pattern.{scan_bytes, default_chunk_size}

-- `_scan_bytes` with the size of a chunk it has by default.
unfoldable pub scan : Bytes → Bytes → ℕ → Bool
scan dump pattern max_bytes = scan_bytes dump pattern max_bytes default_chunk_size

abbrev pub points : Bool → ℕ → ℕ
points found score = if found then score else 0
