-- ===== src/FlatImage/Tests.antt =====
-- core/backends/flat_image.py at an image of three bytes.
use vantacore_engine.Bytes.{Bytes, elf_magic}
use vantacore_engine.FlatImage.{fresh, detect, initialize, read_virtual}
use vantacore_engine.FlatImage.Laws.{flat_bytes, read_virtual-eq-flat_bytes}
use vantacore_engine.Prelude.{
  [], false, if◌then◌else◌, length, ltb, ok, page_fault_error, raise, refl, true, ◌∷◌, ◌≡◌,
}

abbrev image : Bytes
image = 1 ∷ 2 ∷ 3 ∷ []

reads :
    (read_virtual (initialize fresh image) [] 1 4 ≡ ok (2 ∷ 3 ∷ 0 ∷ 0 ∷ []))
    × (read_virtual (initialize fresh image) [] 3 1 ≡ raise page_fault_error)
    × (read_virtual fresh [] 0 1 ≡ raise page_fault_error)
    × (read_virtual (initialize fresh image) [] 2 0 ≡ ok [])
unfolding read_virtual initialize
reads = (refl, refl, refl, refl)

detects : (detect image ≡ true) × (detect elf_magic ≡ false)
unfolding detect
detects = (refl, refl)

read_virtual-eq-flat_bytes_example :
    read_virtual (initialize fresh image) [] 1 4
    ≡ (if ltb 1 (length image) then ok (flat_bytes image 1 4) else raise page_fault_error)
read_virtual-eq-flat_bytes_example = read_virtual-eq-flat_bytes fresh image [] 1 4
