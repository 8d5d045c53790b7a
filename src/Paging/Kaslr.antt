-- ===== src/Paging/Kaslr.antt =====
-- core/backends/x86_64.py: what `initialize` finds by its scan for an IDT descriptor.
use mathlib.Core.Option.{some-injective}
use native.Mathlib.Decide.{dec_lt}
use vantacore_engine.Prelude.{
  Bool-cases, Option, Option-cases, ap, arith, drop, inl, inr, length, ltb, min, none, refl, some,
  subst, suc, sym, zero, ℕ, ◌%◌, ◌*◌, ◌+◌, ◌/◌, ◌<◌, ◌^◌, ◌∙◌, ◌≡◌, ◌≤◌, ◌⊎◌,
}
use vantacore_engine.Bytes.{Bytes, IsBytes}
use vantacore_engine.Bytes.Laws.{IsBytes-take, IsBytes-drop, unpack_from-lt}
use vantacore_engine.Paging.{Backend, canonical_high, read_at, idt_base, scan_pages, initialize}

-- The first page below the limit with a descriptor, and the base that it names.
pub record FirstDescriptor (dump : Bytes) (scan_limit page base : ℕ) : Type 0 where
  pub below : 0x1000 * page < scan_limit
  pub found : idt_base dump (0x1000 * page) ≡ some base
  pub first : (p : ℕ) → p < page → idt_base dump (0x1000 * p) ≡ none

abbrev pub NoDescriptor : Bytes → ℕ → Type 0
NoDescriptor dump scan_limit = (p : ℕ) → 0x1000 * p < scan_limit → idt_base dump (0x1000 * p) ≡ none

-- What the scan of the pages from `page` on gives.
record ScanFrom (dump : Bytes) (scan_limit page : ℕ) (r : Option ℕ) : Type 0 where
  some_base :
      (base : ℕ)
      → r ≡ some base
      → (k : ℕ) × (raw : ℕ) × (page ≤ k)
        × (0x1000 * k < scan_limit)
        × (idt_base dump (0x1000 * k) ≡ some raw)
        × (base ≡ raw / 2 ^ 12 * 2 ^ 12)
        × ((p : ℕ) → page ≤ p → p < k → idt_base dump (0x1000 * p) ≡ none)
  no_base :
      r ≡ none → (p : ℕ) → page ≤ p → 0x1000 * p < scan_limit → idt_base dump (0x1000 * p) ≡ none

module _ (dump : Bytes) (scan_limit page : ℕ) where
  ScanFrom-past : scan_limit ≤ 0x1000 * page → ScanFrom dump scan_limit page none
  ScanFrom-past h = record {
    some_base = λ base e. absurd (cc);
    no_base = λ e p from lt. absurd (omega arith);
  }

  ScanFrom-here :
      (raw : ℕ)
      → 0x1000 * page < scan_limit
      → idt_base dump (0x1000 * page) ≡ some raw
      → ScanFrom dump scan_limit page (some (raw / 2 ^ 12 * 2 ^ 12))
  ScanFrom-here raw h e = record {
    some_base = λ base e'. (
      page,
      raw,
      omega arith,
      h,
      e,
      sym (some-injective _ base e'),
      λ p from lt. absurd (omega arith),
    );
    no_base = λ e'. absurd (cc);
  }

  not_later :
      idt_base dump (0x1000 * page) ≡ none
      → (p : ℕ) → page ≤ p
      → (page + 1 ≤ p → idt_base dump (0x1000 * p) ≡ none)
      → idt_base dump (0x1000 * p) ≡ none
  not_later e p from later = elim (dec_lt page p) [
    | yes h ↦ later (omega arith)
    | no h ↦
        let same : page ≡ p = omega arith in ap (λ k. idt_base dump (0x1000 * k)) (sym same) ∙ e
  ]

  ScanFrom-next :
      (r : Option ℕ)
      → idt_base dump (0x1000 * page) ≡ none
      → ScanFrom dump scan_limit (page + 1) r
      → ScanFrom dump scan_limit page r
  ScanFrom-next r e s = record {
    some_base = λ base e'.
        let (k, raw, from, lt, found, base_of, before) = s.some_base base e' in
        (
          k,
          raw,
          omega arith,
          lt,
          found,
          base_of,
          λ p from' lt'. not_later e p from' (λ from''. before p from'' lt'),
        );
    no_base = λ e' p from lt. not_later e p from (λ from'. s.no_base e' p from' lt);
  }

scan_pages_lem :
    (fuel : ℕ) (dump : Bytes) (scan_limit page : ℕ)
    → scan_limit ≤ 0x1000 * (page + fuel)
    → ScanFrom dump scan_limit page (scan_pages fuel dump scan_limit (0x1000 * page))
unfolding scan_pages
scan_pages_lem zero dump scan_limit page h = ScanFrom-past dump scan_limit page (omega arith)
scan_pages_lem (suc fuel) dump scan_limit page h =
    let next : 0x1000 * page + 0x1000 ≡ 0x1000 * (page + 1) = omega arith in
    let rest = scan_pages_lem fuel dump scan_limit (page + 1) (omega arith) in
    elim (Bool-cases (ltb (0x1000 * page) scan_limit)) [
      | inr past ↦ rw past (ScanFrom-past dump scan_limit page (ground arith))
      | inl below ↦ rw below (elim (Option-cases (idt_base dump (0x1000 * page))) [
        | inr (raw, e) ↦ rw e (ScanFrom-here dump scan_limit page raw (ground arith) e)
        | inl e ↦ rw e (ScanFrom-next dump scan_limit page _ e (rw next rest))
      ])
    ]

-- A base that passed the test is a 64-bit number in the upper half.
idt_base_bounds :
    (dump : Bytes) (offset raw : ℕ)
    → IsBytes dump
    → idt_base dump offset ≡ some raw
    → (canonical_high ≤ raw) × (raw < 2 ^ 64)
unfolding idt_base
idt_base_bounds dump offset raw h e = ground (
  arith,
  unpack_from-lt (read_at dump offset 10) 2 {n = raw}
      (IsBytes-take 10 (drop offset dump) (IsBytes-drop offset dump h)),
)

-- `initialize` takes over the dump and its size. It sets the kernel base to the base, rounded down to
-- a page, that the first descriptor at a page start in the first 2 GB names, and leaves the base as
-- it was if there is none.
pub initialize_lem :
    (b : Backend) (dump : Bytes)
    → let b' = initialize b dump in
      let scan_limit = min (2 ^ 31) (length dump) in
      (b'.dump_handle ≡ some dump)
      × (b'.file_size ≡ length dump)
      × ((NoDescriptor dump scan_limit × (b'.kernel_base ≡ b.kernel_base))
          ⊎ ((page : ℕ) × (base : ℕ) × FirstDescriptor dump scan_limit page base
              × (b'.kernel_base ≡ base / 2 ^ 12 * 2 ^ 12)))
unfolding initialize
initialize_lem b dump =
    let scan_limit = min (2 ^ 31) (length dump) in
    let s = scan_pages_lem (scan_limit / 0x1000 + 1) dump scan_limit 0 (omega arith) in
    elim (Option-cases (scan_pages (scan_limit / 0x1000 + 1) dump scan_limit 0)) [
      | inl e ↦ rw e (refl, refl, inl (λ p lt. s.no_base e p (omega arith) lt, refl))
      | inr (base, e) ↦
          let (k, raw, _, lt, found, base_of, before) = s.some_base base e in
          rw e (
            refl,
            refl,
            inr (
              k,
              raw,
              record { below = lt; found = found; first = λ p lt'. before p (omega arith) lt' },
              base_of,
            ),
          )
    ]

-- A page-aligned 64-bit address in the upper half of the address space.
pub record IsKernelBase (base : ℕ) : Type 0 where
  pub aligned : base % 2 ^ 12 ≡ 0
  pub high : canonical_high ≤ base
  pub fits : base < 2 ^ 64

IsKernelBase-round :
    (raw : ℕ) → canonical_high ≤ raw → raw < 2 ^ 64 → IsKernelBase (raw / 2 ^ 12 * 2 ^ 12)
IsKernelBase-round raw h k = omega arith

-- The kernel base is a page-aligned 64-bit address in the upper half after `initialize`, if it was
-- before, whatever the bytes of the dump.
pub initialize-IsKernelBase :
    (b : Backend) (dump : Bytes)
    → IsBytes dump
    → IsKernelBase b.kernel_base
    → IsKernelBase (initialize b dump).kernel_base
initialize-IsKernelBase b dump bytes h = elim (initialize_lem b dump).2 [
  | inl (_, kept) ↦ subst IsKernelBase (sym kept) h
  | inr (page, base, first, found) ↦
      let (high, fits) = idt_base_bounds dump (0x1000 * page) base bytes first.found in
      subst IsKernelBase (sym found) (IsKernelBase-round base high fits)
]
