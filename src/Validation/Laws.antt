-- ===== src/Validation/Laws.antt =====
-- utils/validation.py: what is accepted.
use vantacore_engine.Prelude.{
  Bool, Bool-cases, Result, arith, false, if◌then◌else◌, inl, inr, length, ltb, not, ok, raise,
  refl, true, value_error, ℕ, ◌+◌, ◌==◌, ◌↔◌, ◌≡◌, ◌≤◌, ◌⊎◌,
}
use vantacore_engine.Bytes.{Bytes, slice, bytes_eq, little_endian, unpack_from, elf_magic}
use vantacore_engine.Validation.{core_type, validate_elf_header}

unpack_inside :
    (width : ℕ) (bs : Bytes) (offset : ℕ)
    → offset + width ≤ length bs
    → unpack_from width bs offset ≡ ok (little_endian (slice bs offset (offset + width)))
unfolding unpack_from
unpack_inside width bs offset h = ground arith

raised : ¬ (◌≡◌ {A = Result (Unit {0})} (raise value_error) (ok tt))
raised h = cc

too_short : (n : ℕ) → ltb n 20 ≡ true → ¬ (20 ≤ n)
too_short n h k = ground arith

not_four : (n : ℕ) → (n == 4) ≡ false → ¬ (n ≡ 4)
not_four n h k = ground arith

verdict :
    (n : ℕ) (is_elf : Bool) (e_type : ℕ)
    → 20 ≤ n
    → let r = if not is_elf then raise value_error else core_type (ok e_type) in
      ((r ≡ ok tt) ↔ (20 ≤ n) × (is_elf ≡ true) × (e_type ≡ 4))
      × ((r ≡ ok tt) ⊎ (r ≡ raise value_error))
verdict n false e_type enough = (((λ h. absurd (raised h)), λ h. cc (h.1)), inr refl)
verdict n true e_type enough = elim (Bool-cases (e_type == 4)) [
  | inl core ↦ rw core (((λ h. (enough, refl, ground arith)), λ h. refl), inl refl)
  | inr other ↦
      rw other (((λ h. absurd (raised h)), λ h. absurd (not_four e_type other h.2)), inr refl)
]

-- A header is accepted exactly if it has 20 bytes or more, begins with the ELF magic and names the
-- type of a core file; in all other cases it is refused with ValueError, and never with another
-- error, whatever its length.
pub validate_elf_header_lem :
    (header : Bytes)
    → ((validate_elf_header header ≡ ok tt)
        ↔ (20 ≤ length header)
          × (bytes_eq (slice header 0 4) elf_magic ≡ true)
          × (little_endian (slice header 16 18) ≡ 4))
      × ((validate_elf_header header ≡ ok tt) ⊎ (validate_elf_header header ≡ raise value_error))
unfolding validate_elf_header
validate_elf_header_lem header = elim (Bool-cases (ltb (length header) 20)) [
  | inl short ↦
      rw short
        (((λ h. absurd (raised h)), (λ h. absurd (too_short (length header) short h.0))), inr refl)
  | inr long ↦
      let e_type : unpack_from 2 header 16 ≡ ok (little_endian (slice header 16 18)) =
        unpack_inside 2 header 16 (ground arith) in
      let enough : 20 ≤ length header = ground arith in
      rw (long, e_type)
        (verdict (length header) (bytes_eq (slice header 0 4) elf_magic)
          (little_endian (slice header 16 18)) enough)
]
