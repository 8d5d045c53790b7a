-- ===== src/Paging/Reference.antt =====
-- Virtual memory byte by byte: what `read_virtual` of core/backends/x86_64.py is to give, with no
-- pages in sight.
use vantacore_engine.Prelude.{
  Bool, Option, [], ap, arith, false, get_or, length, none, refl, some, suc, true, zero, ℕ, ◌++◌,
  ◌+◌, ◌||◌, ◌∷◌, ◌≡◌,
}
use vantacore_engine.Bytes.{Bytes}
use vantacore_engine.Paging.{Backend, walk_pml4}

abbrev pub is_some : Option ℕ → Bool
is_some none = false
is_some (some n) = true

-- The byte of the dump at a physical address; zero for an unmapped one.
abbrev pub physical_byte : Bytes → Option ℕ → ℕ
physical_byte dump none = 0
physical_byte dump (some phys) = get_or dump phys 0

module _ (b : Backend) (dump : Bytes) (cr3 : ℕ) where
  unfoldable pub virtual_bytes : ℕ → ℕ → Bytes
  virtual_bytes vaddr zero = []
  virtual_bytes vaddr (suc n) =
      physical_byte dump (walk_pml4 b cr3 vaddr) ∷ virtual_bytes (suc vaddr) n

  pub virtual_bytes-add :
      (vaddr m n : ℕ)
      → virtual_bytes vaddr (m + n) ≡ virtual_bytes vaddr m ++ virtual_bytes (vaddr + m) n
  unfolding virtual_bytes
  virtual_bytes-add vaddr zero n =
      let e : zero + n ≡ n = omega arith in
      let e' : vaddr + zero ≡ vaddr = omega arith in rw e (rw e' refl)
  virtual_bytes-add vaddr (suc m) n =
      let e : suc m + n ≡ suc (m + n) = omega arith in
      let e' : vaddr + suc m ≡ suc vaddr + m = omega arith in
      rw e (
        rw e' (
          ap (λ t. physical_byte dump (walk_pml4 b cr3 vaddr) ∷ t)
            (virtual_bytes-add (suc vaddr) m n)))

  pub length-virtual_bytes : (vaddr n : ℕ) → length (virtual_bytes vaddr n) ≡ n
  unfolding virtual_bytes
  length-virtual_bytes vaddr zero = refl
  length-virtual_bytes vaddr (suc n) = ap suc (length-virtual_bytes (suc vaddr) n)

module _ (b : Backend) (cr3 : ℕ) where
  -- Whether an address of the range is mapped.
  unfoldable pub any_mapped : ℕ → ℕ → Bool
  any_mapped vaddr zero = false
  any_mapped vaddr (suc n) = is_some (walk_pml4 b cr3 vaddr) || any_mapped (suc vaddr) n

  pub any_mapped-add :
      (vaddr m n : ℕ) → any_mapped vaddr (m + n) ≡ (any_mapped vaddr m || any_mapped (vaddr + m) n)
  unfolding any_mapped
  any_mapped-add vaddr zero n =
      let e : zero + n ≡ n = omega arith in
      let e' : vaddr + zero ≡ vaddr = omega arith in rw e (rw e' refl)
  any_mapped-add vaddr (suc m) n =
      let e : suc m + n ≡ suc (m + n) = omega arith in
      let e' : vaddr + suc m ≡ suc vaddr + m = omega arith in
      rw e (rw e' (ground (arith, any_mapped-add (suc vaddr) m n)))
