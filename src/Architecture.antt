-- ===== src/Architecture.antt =====
-- core/backends/detector.py: `ArchitectureDetector`, and the interface of
-- core/translation_base.py that its result has.
pub mod Laws
mod Tests
use vantacore_engine.Bytes.{Bytes}
use vantacore_engine.Paging
use vantacore_engine.FlatImage
use vantacore_engine.FlatImage.{FlatImage}
use vantacore_engine.Prelude.{Bool, Result, false, ok, raise, translation_error, true, ℕ}

-- The subclasses of `TranslationBackend`.
pub data TranslationBackend : Type 0 where
  x86_64 : Paging.Backend → TranslationBackend
  flat : FlatImage → TranslationBackend

-- The second class of the list, if the first one does not match.
abbrev pub detect_flat : Bytes → Bool → Result TranslationBackend
detect_flat dump true = ok (flat (FlatImage.initialize FlatImage.fresh dump))
detect_flat dump false = raise translation_error

abbrev pub detect_x86_64 : Bytes → Result Bool → Result TranslationBackend
detect_x86_64 dump (raise e) = raise e
detect_x86_64 dump (ok true) = ok (x86_64 (Paging.initialize Paging.fresh dump))
detect_x86_64 dump (ok false) = detect_flat dump (FlatImage.detect dump)

-- The classes are tried in this order; what `detect` of one raises ends the detection.
unfoldable pub detect : Bytes → Result TranslationBackend
detect dump = detect_x86_64 dump (Paging.detect dump)

unfoldable pub read_virtual : TranslationBackend → Bytes → ℕ → ℕ → Result Bytes
unfolding Paging.read_virtual FlatImage.read_virtual
read_virtual (x86_64 b) namespace_id vaddr count = Paging.read_virtual b namespace_id vaddr count
read_virtual (flat b) namespace_id vaddr count = FlatImage.read_virtual b namespace_id vaddr count

unfoldable pub get_kernel_base : TranslationBackend → ℕ
get_kernel_base (x86_64 b) = b.kernel_base
get_kernel_base (flat b) = 0
