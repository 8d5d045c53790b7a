-- ===== src/Entropy/Sampling.antt =====
-- core/entropy.py: the pages that are sampled.
use vantacore_engine.Prelude.{
  Bool, List, Option, Option-cases, [], ap, arith, drop, false, if◌then◌else◌, inl, inr, leb,
  length, length-take, ltb, max, none, refl, some, suc, sym, true, zero, ℕ, ◌*◌, ◌+◌, ◌/◌, ◌<◌,
  ◌==◌, ◌↔◌, ◌∙◌, ◌∷◌, ◌≡◌, ◌≤◌,
}
use vantacore_engine.Bytes.{Bytes}
use vantacore_engine.Paging.{read_at}
use vantacore_engine.Entropy.{
  Sample, page_offset_of, sampled_page, counted, sample_pages, detect, MsrNote,
}

-- The pages themselves, in the order in which they are read.
abbrev pub append_page : Option Bytes → List Bytes → List Bytes
append_page none pages = pages
append_page (some page) pages = page ∷ pages

unfoldable pub pages_from : Bytes → ℕ → ℕ → ℕ → List Bytes
pages_from dump step zero i = []
pages_from dump step (suc left) i =
    append_page (sampled_page dump (length dump) (page_offset_of step i))
      (pages_from dump step left (i + 1))

abbrev pub high_pages : (Bytes → Bool) → List Bytes → ℕ
high_pages is_high [] = 0
high_pages is_high (page ∷ pages) = (if is_high page then 1 else 0) + high_pages is_high pages

sample_pages_lem :
    (is_high : Bytes → Bool) (dump : Bytes) (step left i : ℕ) (s : Sample)
    → let pages = pages_from dump step left i in
      let s' = sample_pages is_high dump (length dump) step left i s in
      (s'.high_entropy_count ≡ s.high_entropy_count + high_pages is_high pages)
      × (s'.total_sampled_pages ≡ s.total_sampled_pages + length pages)
unfolding sample_pages pages_from
sample_pages_lem is_high dump step zero i s = omega arith
sample_pages_lem is_high dump step (suc left) i s =
    elim (Option-cases (sampled_page dump (length dump) (page_offset_of step i))) [
      | inl e ↦ rw (sample_pages, e) (sample_pages_lem is_high dump step left (i + 1) s)
      | inr (page, e) ↦
          let rest =
            sample_pages_lem is_high dump step left (i + 1) (counted is_high (some page) s) in
          rw (sample_pages, e) (omega (arith, rest))
    ]

-- Each sampled page is a whole page of the dump.
abbrev pub AreWhole : List Bytes → Type 0
AreWhole [] = Unit {0}
AreWhole (page ∷ pages) = (length page ≡ 4096) × AreWhole pages

taken_branch :
    (a b : Bool) (p q : Bytes)
    → (if a then none else if b then none else some p) ≡ some q
    → (b ≡ false) × (p ≡ q)
taken_branch true b p q e = cc
taken_branch false true p q e = cc
taken_branch false false p q e = (refl, cc)

ltb-false→le : (a b : ℕ) → ltb a b ≡ false → b ≤ a
ltb-false→le a b h = ground arith

sampled_page-whole :
    (dump : Bytes) (page_offset : ℕ) (page : Bytes)
    → sampled_page dump (length dump) page_offset ≡ some page
    → length page ≡ 4096
unfolding sampled_page
sampled_page-whole dump page_offset page e =
    let (long, same) =
      taken_branch (ltb (length dump) (page_offset + 4096))
        (ltb (length (read_at dump page_offset 4096)) 4096) (read_at dump page_offset 4096) page
        e in
    let size = length-take 4096 (drop page_offset dump) in
    let enough : 4096 ≤ length (read_at dump page_offset 4096) =
      ltb-false→le (length (read_at dump page_offset 4096)) 4096 long in
    sym (ap length same) ∙ omega arith

pages_from-AreWhole : (dump : Bytes) (step left i : ℕ) → AreWhole (pages_from dump step left i)
unfolding pages_from
pages_from-AreWhole dump step zero i = tt
pages_from-AreWhole dump step (suc left) i =
    elim (Option-cases (sampled_page dump (length dump) (page_offset_of step i))) [
      | inl e ↦ rw e (pages_from-AreWhole dump step left (i + 1))
      | inr (page, e) ↦ rw e (
        sampled_page-whole dump (page_offset_of step i) page e,
        pages_from-AreWhole dump step left (i + 1),
      )
    ]

length-pages_from : (dump : Bytes) (step left i : ℕ) → length (pages_from dump step left i) ≤ left
unfolding pages_from
length-pages_from dump step zero i = omega arith
length-pages_from dump step (suc left) i =
    elim (Option-cases (sampled_page dump (length dump) (page_offset_of step i))) [
      | inl e ↦ rw e (omega (arith, length-pages_from dump step left (i + 1)))
      | inr (page, e) ↦ rw e (omega (arith, length-pages_from dump step left (i + 1)))
    ]

le→ltb-false : (a b : ℕ) → b ≤ a → ltb a b ≡ false
le→ltb-false a b h = ground arith

-- The first page of the dump is always read.
first_page :
    (dump : Bytes) (step left : ℕ)
    → 4096 ≤ length dump
    → 0 < length (pages_from dump step (suc left) 0)
unfolding pages_from sampled_page
first_page dump step left h =
    let start : page_offset_of step 0 ≡ 0 = omega arith in
    let inside : ltb (length dump) 4096 ≡ false = le→ltb-false (length dump) 4096 h in
    let size : length (read_at dump 0 4096) ≡ 4096 = length-take 4096 dump ∙ omega arith in
    rw (start, inside, size) (omega arith)

verdict_iff :
    (s : Sample) (high total : ℕ)
    → s.high_entropy_count ≡ 0 + high
    → s.total_sampled_pages ≡ 0 + total
    → 0 < total
    → ((if s.total_sampled_pages == 0
          then false
          else leb (3 * s.total_sampled_pages) (4 * s.high_entropy_count))
        ≡ true)
      ↔ (3 * total ≤ 4 * high)
verdict_iff s high total e f h = (λ k. ground arith, λ k. ground arith)

-- The verdict on a dump of a page or more: the pages that are sampled are whole pages of the dump, 64 at most and the first one of the dump among them, and the
-- dump is called encrypted exactly if three quarters of them or more have a high entropy.
pub detect-likely_iff :
    (is_high : Bytes → Bool) (parse : Bytes → List MsrNote) (dump : Bytes)
    → 4096 ≤ length dump
    → let pages = pages_from dump (max (length dump / 64) 4096) 64 0 in
      AreWhole pages
      × (length pages ≤ 64)
      × (0 < length pages)
      × (((detect is_high parse dump (length dump)).likely_encrypted ≡ true)
          ↔ (3 * length pages ≤ 4 * high_pages is_high pages))
unfolding detect
detect-likely_iff is_high parse dump h =
    let step = max (length dump / 64) 4096 in
    let none_yet : Sample = record { high_entropy_count = 0; total_sampled_pages = 0 } in
    let sampled = sample_pages_lem is_high dump step 64 0 none_yet in
    let some_page = first_page dump step 63 h in
    let big : ltb (length dump) 4096 ≡ false = le→ltb-false (length dump) 4096 h in
    (
      pages_from-AreWhole dump step 64 0,
      length-pages_from dump step 64 0,
      some_page,
      rw big (
          verdict_iff (sample_pages is_high dump (length dump) step 64 0 none_yet)
            (high_pages is_high (pages_from dump step 64 0)) (length (pages_from dump step 64 0))
            sampled.0 sampled.1 some_page),
    )
