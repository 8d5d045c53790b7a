-- ===== src/Paging/Read.antt =====
-- core/backends/x86_64.py: `read_virtual`, page by page, is the byte-by-byte reading.
use vantacore_engine.Prelude.{
  Bool, Bool-cases, Option, Option-cases, [], ap, ap₂, arith, false, get_or, get_or_beyond,
  if◌then◌else◌, inl, inr, leb, length, none, not, ok, page_fault_error, raise, refl, replicate,
  some, suc, sym, take, take_all, zero, ℕ, ◌%◌, ◌++◌, ◌+◌, ◌-◌, ◌==◌, ◌^◌, ◌||◌, ◌∙◌, ◌∷◌, ◌≡◌, ◌≤◌,
}
use vantacore_engine.Bytes.{Bytes}
use vantacore_engine.Paging.{
  Backend, Pages, cr3_of, within_file, walk_pml4, chunk_length, read_chunk, add_page, read_pages,
  read_handle, read_virtual,
}
use vantacore_engine.Paging.Page.{walk-add}
use vantacore_engine.Paging.Reference.{
  is_some, physical_byte, virtual_bytes, virtual_bytes-add, any_mapped, any_mapped-add,
}

-- A read, filled up with zeros.
abbrev padded : Bytes → ℕ → ℕ → Bytes
padded dump phys n = read_chunk dump (some phys) n

padded_beyond :
    (n : ℕ)
    → replicate {A = ℕ} (suc n - 0) 0
      ≡ 0 ∷ (take {A = ℕ} n [] ++ replicate (n - length (take {A = ℕ} n [])) 0)
padded_beyond n =
    let nothing : take {A = ℕ} n [] ≡ [] = take_all n [] (omega arith) in
    let e : suc n - 0 ≡ suc n = omega arith in
    let e' : n - 0 ≡ n = omega arith in rw nothing (rw e (rw e' refl))

padded-suc :
    (dump : Bytes) (phys n : ℕ)
    → padded dump phys (suc n) ≡ get_or dump phys 0 ∷ padded dump (suc phys) n
unfolding read_chunk
padded-suc [] zero n = padded_beyond n
padded-suc [] (suc phys) n = padded_beyond n
padded-suc (x ∷ dump) zero n = ap (λ k. x ∷ (take n dump ++ replicate k 0)) (omega arith)
padded-suc (x ∷ dump) (suc phys) n = padded-suc dump phys n

module _ (b : Backend) (dump : Bytes) (cr3 : ℕ) (whole : b.file_size ≡ length dump) where
  -- The addresses from `j` on in the page of `vaddr`.
  unmapped_bytes :
      (vaddr j n : ℕ)
      → vaddr % 2 ^ 12 + j + n ≤ 2 ^ 12
      → walk_pml4 b cr3 vaddr ≡ none
      → virtual_bytes b dump cr3 (vaddr + j) n ≡ replicate n 0
  unfolding virtual_bytes
  unmapped_bytes vaddr j zero h e = refl
  unmapped_bytes vaddr j (suc n) h e =
      let here : walk_pml4 b cr3 (vaddr + j) ≡ none =
        walk-add b vaddr j (omega arith) cr3 ∙ rw e refl in
      let shift : suc (vaddr + j) ≡ vaddr + suc j = omega arith in
      rw here (rw shift (ap (λ t. 0 ∷ t) (unmapped_bytes vaddr (suc j) n (omega arith) e)))

  get_or-within : (phys : ℕ) → physical_byte dump (within_file b phys) ≡ get_or dump phys 0
  get_or-within phys = elim (Bool-cases (leb b.file_size phys)) [
    | inl beyond ↦ rw beyond (sym (get_or_beyond dump phys (ground arith)))
    | inr inside ↦ rw inside refl
  ]

  mapped_bytes :
      (vaddr phys j n : ℕ)
      → vaddr % 2 ^ 12 + j + n ≤ 2 ^ 12
      → walk_pml4 b cr3 vaddr ≡ some phys
      → virtual_bytes b dump cr3 (vaddr + j) n ≡ padded dump (phys + j) n
  unfolding virtual_bytes
  mapped_bytes vaddr phys j zero h e = unfold read_chunk in refl
  mapped_bytes vaddr phys j (suc n) h e =
      let here : walk_pml4 b cr3 (vaddr + j) ≡ within_file b (phys + j) =
        walk-add b vaddr j (omega arith) cr3 ∙ rw e refl in
      let shift : suc (vaddr + j) ≡ vaddr + suc j = omega arith in
      let shift' : suc (phys + j) ≡ phys + suc j = omega arith in
      rw (padded-suc dump (phys + j) n) (
        rw here (
          rw shift (
            rw shift' (
              ap₂ ◌∷◌ (get_or-within (phys + j))
                (mapped_bytes vaddr phys (suc j) n (omega arith) e)))))

  -- One round of the loop.
  chunk_bytes :
      (vaddr n : ℕ)
      → vaddr % 2 ^ 12 + n ≤ 2 ^ 12
      → read_chunk dump (walk_pml4 b cr3 vaddr) n ≡ virtual_bytes b dump cr3 vaddr n
  chunk_bytes vaddr n h =
      let start : vaddr + 0 ≡ vaddr = omega arith in
      elim (Option-cases (walk_pml4 b cr3 vaddr)) [
        | inl e ↦
            rw e
              (unfold read_chunk in sym (unmapped_bytes vaddr 0 n (omega arith) e) ∙ rw start refl)
        | inr (phys, e) ↦
            let start' : phys + 0 ≡ phys = omega arith in
            rw e (
              ap (λ p. padded dump p n) (sym start')
              ∙ sym (mapped_bytes vaddr phys 0 n (omega arith) e)
              ∙ rw start refl)
      ]

module _ (b : Backend) (cr3 : ℕ) where
  unmapped_range :
      (vaddr j n : ℕ)
      → vaddr % 2 ^ 12 + j + n ≤ 2 ^ 12
      → walk_pml4 b cr3 vaddr ≡ none
      → any_mapped b cr3 (vaddr + j) n ≡ false
  unfolding any_mapped
  unmapped_range vaddr j zero h e = refl
  unmapped_range vaddr j (suc n) h e =
      let here : walk_pml4 b cr3 (vaddr + j) ≡ none =
        walk-add b vaddr j (omega arith) cr3 ∙ rw e refl in
      let shift : suc (vaddr + j) ≡ vaddr + suc j = omega arith in
      rw here (rw shift (unmapped_range vaddr (suc j) n (omega arith) e))

  -- In a page either each address is unmapped or the first one is mapped.
  chunk_mapped :
      (vaddr n : ℕ)
      → vaddr % 2 ^ 12 + suc n ≤ 2 ^ 12
      → any_mapped b cr3 vaddr (suc n) ≡ is_some (walk_pml4 b cr3 vaddr)
  unfolding any_mapped
  chunk_mapped vaddr n h =
      let start : vaddr + 0 ≡ vaddr = omega arith in
      elim (Option-cases (walk_pml4 b cr3 vaddr)) [
        | inl e ↦ rw e (
            ap (λ v. any_mapped b cr3 v n) (omega arith) ∙ unmapped_range vaddr 1 n (omega arith) e)
        | inr (phys, e) ↦ rw e refl
      ]

-- A round of the loop while bytes are left.
read_pages-suc :
    (fuel : ℕ) (b : Backend) (dump : Bytes) (cr3 n vaddr : ℕ)
    → let c = chunk_length (suc n) vaddr in
      read_pages (suc fuel) b dump cr3 (suc n) vaddr
      ≡ add_page
          (read_chunk dump (walk_pml4 b cr3 vaddr) c)
          (walk_pml4 b cr3 vaddr)
          (read_pages fuel b dump cr3 (suc n - c) (vaddr + c))
unfolding read_pages
read_pages-suc fuel b dump cr3 n vaddr =
    let more : (suc n == 0) ≡ false = ground arith in rw more refl

resolved-add_page :
    (chunk : Bytes) (phys : Option ℕ) (p : Pages) (m : Bool)
    → (p.resolved == 0) ≡ not m
    → ((add_page chunk phys p).resolved == 0) ≡ not (is_some phys || m)
resolved-add_page chunk none p m h = h
resolved-add_page chunk (some phys) p m h = ground arith

-- The rounds of the loop, all of them with enough fuel.
read_pages_lem :
    (fuel : ℕ) (b : Backend) (dump : Bytes) (cr3 n vaddr : ℕ)
    → b.file_size ≡ length dump
    → n ≤ fuel
    → let p = read_pages fuel b dump cr3 n vaddr in
      (p.bytes ≡ virtual_bytes b dump cr3 vaddr n)
      × ((p.resolved == 0) ≡ not (any_mapped b cr3 vaddr n))
read_pages_lem zero b dump cr3 zero vaddr w h =
    unfold read_pages virtual_bytes any_mapped in (refl, refl)
read_pages_lem zero b dump cr3 (suc n) vaddr w h = absurd (omega arith)
read_pages_lem (suc fuel) b dump cr3 zero vaddr w h =
    unfold read_pages virtual_bytes any_mapped in (refl, refl)
read_pages_lem (suc fuel) b dump cr3 (suc n) vaddr w h =
    let c = chunk_length (suc n) vaddr in
    let (bytes, resolved) =
      read_pages_lem fuel b dump cr3 (suc n - c) (vaddr + c) w (omega arith) in
    let whole : c + (suc n - c) ≡ suc n = omega arith in
    let first : suc (c - 1) ≡ c = omega arith in
    rw read_pages-suc (
      ap₂ (λ (xs ys : Bytes). xs ++ ys) (chunk_bytes b dump cr3 w vaddr c (omega arith)) bytes
          ∙ sym (virtual_bytes-add b dump cr3 vaddr c (suc n - c))
          ∙ ap (virtual_bytes b dump cr3 vaddr) whole,
      resolved-add_page (read_chunk dump (walk_pml4 b cr3 vaddr) c) (walk_pml4 b cr3 vaddr)
            (read_pages fuel b dump cr3 (suc n - c) (vaddr + c)) _ resolved
          ∙ ap (λ m. not (m || any_mapped b cr3 (vaddr + c) (suc n - c)))
              (sym (
                ap (any_mapped b cr3 vaddr) (sym first)
                ∙ chunk_mapped b cr3 vaddr (c - 1) (omega arith)))
          ∙ ap not
              (sym (any_mapped-add b cr3 vaddr c (suc n - c)) ∙ ap (any_mapped b cr3 vaddr) whole),
    )

-- On an initialised backend `read_virtual` gives the `n` bytes that the addresses from `vaddr` on
-- are translated to, one by one, with a zero for each that is unmapped; and it raises
-- `PageFaultError` exactly when none of them is mapped, so for every read of no byte.
pub read_virtual-eq-virtual_bytes :
    (b : Backend) (dump namespace_id : Bytes) (vaddr n : ℕ)
    → b.dump_handle ≡ some dump
    → b.file_size ≡ length dump
    → read_virtual b namespace_id vaddr n ≡ (
        if any_mapped b (cr3_of namespace_id) vaddr n
        then ok (virtual_bytes b dump (cr3_of namespace_id) vaddr n)
        else raise page_fault_error)
read_virtual-eq-virtual_bytes b dump namespace_id vaddr n open_handle whole =
    let cr3 = cr3_of namespace_id in
    let (bytes, resolved) = read_pages_lem n b dump cr3 n vaddr whole (omega arith) in
    unfold read_virtual in
    (ap (λ h. read_handle h b cr3 vaddr n) open_handle
      ∙ (rw bytes (
          rw resolved (elim (Bool-cases (any_mapped b cr3 vaddr n)) [
            | inl mapped ↦ rw mapped refl
            | inr unmapped ↦ rw unmapped refl
          ]))))
