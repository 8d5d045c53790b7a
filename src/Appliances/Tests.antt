-- ===== src/Appliances/Tests.antt =====
-- core/backends/appliances/ at small dumps.
use vantacore_engine.Prelude.{
  List, [], arith, false, ok, raise, refl, some, struct_error, take, true, ℕ, ◌∷◌, ◌≡◌,
}
use vantacore_engine.Bytes.{Bytes, bytes_eq, starts_with, find, unpack_from}
use vantacore_engine.Bytes.Find.{contains}
use vantacore_engine.Appliances.Pattern.{scan_loop, scan_bytes}
use vantacore_engine.Appliances.Chunks.{scan_bytes-eq-contains}
use vantacore_engine.Appliances.CiscoAsa
use vantacore_engine.Appliances.CiscoAsa.{Segment}
use vantacore_engine.Appliances.Registry.{
  Detector, cisco_asa, cisco_ios, detect, run_all, qualified, max_by_score,
}

-- The pattern lies across the end of the first chunk of three bytes.
scan_bytes-eq-contains_example :
    scan_bytes (1 ∷ 2 ∷ 3 ∷ 4 ∷ 5 ∷ []) (3 ∷ 4 ∷ []) 5 3
    ≡ contains (take 5 (1 ∷ 2 ∷ 3 ∷ 4 ∷ 5 ∷ [])) (3 ∷ 4 ∷ [])
scan_bytes-eq-contains_example =
    scan_bytes-eq-contains (1 ∷ 2 ∷ 3 ∷ 4 ∷ 5 ∷ []) (3 ∷ 4 ∷ []) 5 3 (omega arith) (omega arith)

scans :
    (scan_bytes (1 ∷ 2 ∷ 3 ∷ 4 ∷ 5 ∷ []) (3 ∷ 4 ∷ []) 5 3 ≡ true)
    × (scan_bytes (1 ∷ 2 ∷ 3 ∷ 4 ∷ 5 ∷ []) (3 ∷ 4 ∷ []) 3 3 ≡ false)
unfolding scan_bytes scan_loop find starts_with
scans = (refl, refl)

abbrev no_segments : Bytes → List Segment
no_segments dump = []

abbrev broken : Detector
broken = record { platform_name = cisco_asa; score_of = λ dump file_size. raise struct_error }

abbrev strong : ℕ → Detector
strong score = record { platform_name = cisco_ios; score_of = λ dump file_size. ok score }

detects_first :
    detect (broken ∷ strong 59 ∷ strong 70 ∷ strong 80 ∷ strong 80 ∷ []) [] 0 ≡ some (strong 80)
unfolding detect run_all qualified max_by_score
detects_first = refl

-- A header that ends before its `e_type`.
short_core : CiscoAsa.detect no_segments (0x7f ∷ b'E' ∷ b'L' ∷ b'F' ∷ 2 ∷ []) 5 ≡ raise struct_error
unfolding CiscoAsa.detect bytes_eq unpack_from
short_core = refl
