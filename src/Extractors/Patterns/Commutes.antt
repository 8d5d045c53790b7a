-- ===== src/Extractors/Patterns/Commutes.antt =====
-- extractors/cisco/: a change of the state that the visits commute with, the search commutes with.
use vantacore_engine.Prelude.{
  Bool, Bool-cases, Option-cases, ap, inl, inr, leb, length, refl, suc, zero, ℕ, ◌+◌, ◌==◌, ◌∙◌,
  ◌≡◌,
}
use vantacore_engine.Bytes.{Bytes, find_from}
use vantacore_engine.Paging.{read_at}
use vantacore_engine.Extractors.Chunked.{scan_chunks}
use vantacore_engine.Extractors.Patterns.{never, scan_pattern}

module _ {State : Type 0} (f : State → State) (pattern : Bytes) (visit visit' : ℕ → State → State)
    (chunk : Bytes) (commutes : (idx : ℕ) (s : State) → visit' idx (f s) ≡ f (visit idx s)) where
  pub scan_pattern-commutes :
      (fuel pos : ℕ) (s : State)
      → scan_pattern pattern never visit' fuel chunk pos (f s)
        ≡ f (scan_pattern pattern never visit fuel chunk pos s)
  unfolding scan_pattern
  scan_pattern-commutes zero pos s = refl
  scan_pattern-commutes (suc fuel) pos s = elim (Bool-cases (leb (length chunk) pos)) [
    | inl e ↦ rw e refl
    | inr e ↦ elim (Option-cases (find_from chunk pattern pos)) [
      | inl e2 ↦ rw (e, e2) refl
      | inr (idx, e2) ↦
          rw (e, e2)
            (ap (scan_pattern pattern never visit' fuel chunk (idx + length pattern))
                (commutes idx s)
              ∙ scan_pattern-commutes fuel (idx + length pattern) (visit idx s))
    ]
  ]

module _ {State : Type 0} (f : State → State) (dump : Bytes) (chunk_size : ℕ)
    (is_capped : State → Bool) (visit visit' : ℕ → Bytes → State → State)
    (same_cap : (s : State) → is_capped (f s) ≡ is_capped s)
    (commutes : (offset : ℕ) (chunk : Bytes) (s : State)
      → visit' offset chunk (f s) ≡ f (visit offset chunk s)) where
  pub scan_chunks-commutes :
      (fuel offset : ℕ) (s : State)
      → scan_chunks dump chunk_size is_capped visit' fuel offset (f s)
        ≡ f (scan_chunks dump chunk_size is_capped visit fuel offset s)
  unfolding scan_chunks
  scan_chunks-commutes zero offset s = refl
  scan_chunks-commutes (suc fuel) offset s = elim (Bool-cases (leb (length dump) offset)) [
    | inl e ↦ rw e refl
    | inr e ↦ elim (Bool-cases (is_capped s)) [
      | inl e2 ↦ rw (e, same_cap s, e2) refl
      | inr e2 ↦ elim (Bool-cases (length (read_at dump offset chunk_size) == 0)) [
        | inl e3 ↦ rw (e, same_cap s, e2, e3) refl
        | inr e3 ↦
            rw (e, same_cap s, e2, e3)
              (ap (scan_chunks dump chunk_size is_capped visit' fuel _) (commutes offset _ s)
                ∙ scan_chunks-commutes fuel _ _)
      ]
    ]
  ]
