-- ===== src/FlatImage/Laws.antt =====
-- core/backends/flat_image.py: a flat read is the bytes of the image, then zeros.
use vantacore_engine.Bytes.{Bytes}
use vantacore_engine.FlatImage.{FlatImage, initialize, read_virtual}
use vantacore_engine.Prelude.{
  Bool-cases, [], ap, ap₂, arith, drop, false, get_or, get_or_beyond, if◌then◌else◌, inl, inr, leb,
  length, ltb, ok, page_fault_error, raise, refl, replicate, suc, sym, take, take-drop-suc, true,
  zero, ℕ, ◌++◌, ◌+◌, ◌-◌, ◌∙◌, ◌∷◌, ◌≡◌, ◌≤◌,
}

-- The bytes of the image from an offset on, zero after its end.
unfoldable pub flat_bytes : Bytes → ℕ → ℕ → Bytes
flat_bytes dump offset zero = []
flat_bytes dump offset (suc n) = get_or dump offset 0 ∷ flat_bytes dump (suc offset) n

flat_bytes_past :
    (dump : Bytes) (offset n : ℕ) → length dump ≤ offset → flat_bytes dump offset n ≡ replicate n 0
unfolding flat_bytes
flat_bytes_past dump offset zero h = refl
flat_bytes_past dump offset (suc n) h =
    ap₂ ◌∷◌ (get_or_beyond dump offset h) (flat_bytes_past dump (suc offset) n (omega arith))

flat_bytes_inside :
    (dump : Bytes) (offset n : ℕ)
    → offset + n ≤ length dump
    → flat_bytes dump offset n ≡ take n (drop offset dump)
unfolding flat_bytes
flat_bytes_inside dump offset zero h = refl
flat_bytes_inside dump offset (suc n) h = sym (
    take-drop-suc dump offset n 0 (omega arith)
    ∙ ap (λ t. get_or dump offset 0 ∷ t)
        (sym (flat_bytes_inside dump (suc offset) n (omega arith))))

flat_bytes-add :
    (dump : Bytes) (offset m n : ℕ)
    → flat_bytes dump offset (m + n) ≡ flat_bytes dump offset m ++ flat_bytes dump (offset + m) n
unfolding flat_bytes
flat_bytes-add dump offset zero n =
    let e : zero + n ≡ n = omega arith in
    let e' : offset + zero ≡ offset = omega arith in rw e (rw e' refl)
flat_bytes-add dump offset (suc m) n =
    let e : suc m + n ≡ suc (m + n) = omega arith in
    let e' : offset + suc m ≡ suc offset + m = omega arith in
    rw e (rw e' (ap (λ t. get_or dump offset 0 ∷ t) (flat_bytes-add dump (suc offset) m n)))

-- On an initialised backend `read_virtual` gives `n` bytes, those of the image from the address on
-- and zeros after its end, and raises `PageFaultError` exactly for an address outside the image.
pub read_virtual-eq-flat_bytes :
    (b : FlatImage) (dump namespace_id : Bytes) (vaddr n : ℕ)
    → let b' = initialize b dump in
      read_virtual b' namespace_id vaddr n
      ≡ (if ltb vaddr (length dump) then ok (flat_bytes dump vaddr n) else raise page_fault_error)
unfolding read_virtual initialize
read_virtual-eq-flat_bytes b dump namespace_id vaddr n =
    elim (Bool-cases (leb (length dump) vaddr)) [
      | inl beyond ↦
          let outside : ltb vaddr (length dump) ≡ false = ground arith in
          rw beyond (rw outside refl)
      | inr inside ↦
          let inside' : ltb vaddr (length dump) ≡ true = ground arith in
          elim (Bool-cases (leb (vaddr + n) (length dump))) [
            | inl fits ↦
                rw inside (
                  rw inside'
                    (rw fits (ap ok (sym (flat_bytes_inside dump vaddr n (ground arith))))))
            | inr short ↦
                let available = length dump - vaddr in
                let whole : available + (n - available) ≡ n = ground arith in
                rw inside (
                  rw inside' (
                    rw short (
                      ap ok (
                        sym (
                          ap (flat_bytes dump vaddr) (sym whole)
                          ∙ flat_bytes-add dump vaddr available (n - available)
                          ∙ ap₂ (λ (xs ys : Bytes). xs ++ ys)
                              (flat_bytes_inside dump vaddr available (ground arith))
                              (flat_bytes_past dump (vaddr + available) (n - available)
                                (ground arith)))))))
          ]
    ]
