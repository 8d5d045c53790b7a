-- ===== src/Appliances/Registry.antt =====
-- core/backends/appliances/registry.py: `PlatformDetectorRegistry`, with the detector of
-- generic_flat.py, which it falls back to in no case: its confidence is below the threshold.
use vantacore_engine.Prelude.{
  List, Option, Result, [], if◌then◌else◌, leb, ltb, none, ok, raise, some, ℕ, ◌∷◌,
}
use vantacore_engine.Bytes.{Bytes}
use vantacore_engine.Appliances.CiscoIos
use vantacore_engine.Appliances.CiscoIosXe
use vantacore_engine.Appliances.CiscoAsa
use vantacore_engine.Appliances.CiscoAsa.{Segment}

-- The values of `platform_name`.
pub data PlatformName : Type 0 where
  cisco_asa : PlatformName
  cisco_ios : PlatformName
  cisco_iosxe : PlatformName
  generic_flat : PlatformName

-- `BaseApplianceDetector`.
pub record Detector : Type 0 where
  pub platform_name : PlatformName
  pub score_of : Bytes → ℕ → Result ℕ

abbrev pub generic_flat_detect : Bytes → ℕ → Result ℕ
generic_flat_detect dump file_size = ok 10

-- The modules of the package come in the order of their names.
abbrev pub auto_discover : (Bytes → List Segment) → List Detector
auto_discover parse =
    record { platform_name = cisco_asa; score_of = CiscoAsa.detect parse }
    ∷ record { platform_name = cisco_ios; score_of = CiscoIos.detect }
    ∷ record { platform_name = cisco_iosxe; score_of = CiscoIosXe.detect }
    ∷ record { platform_name = generic_flat; score_of = generic_flat_detect }
    ∷ []

unfoldable pub list_registered : List Detector → List PlatformName
list_registered [] = []
list_registered (d ∷ ds) = d.platform_name ∷ list_registered ds

abbrev pub Scored : Type 0
Scored = ℕ × Detector

-- A detector that raises is skipped.
abbrev pub add_result : Result ℕ → Detector → List Scored → List Scored
add_result (ok score) d results = (score, d) ∷ results
add_result (raise e) d results = results

unfoldable pub run_all : List Detector → Bytes → ℕ → List Scored
run_all [] dump file_size = []
run_all (d ∷ ds) dump file_size =
    add_result (d.score_of dump file_size) d (run_all ds dump file_size)

unfoldable pub qualified : List Scored → List Scored
qualified [] = []
qualified (r ∷ rs) = let rest = qualified rs in if leb 60 (r.0) then r ∷ rest else rest

-- Python's `max` keeps the first of the greatest elements.
unfoldable pub max_by_score : Scored → List Scored → Scored
max_by_score best [] = best
max_by_score best (r ∷ rs) = max_by_score (if ltb best.0 (r.0) then r else best) rs

abbrev pub best_of : List Scored → Option Detector
best_of [] = none
best_of (r ∷ rs) = some ((max_by_score r rs).1)

unfoldable pub detect : List Detector → Bytes → ℕ → Option Detector
detect ds dump file_size = best_of (qualified (run_all ds dump file_size))
