-- ===== src/Extractors/Patterns/Keeps.antt =====
-- extractors/cisco/: what the visits of a search keep, the search keeps.
use vantacore_engine.Prelude.{
  Bool, Bool-cases, Option-cases, [], arith, drop, false, inl, inr, leb, length, refl, some, subst,
  suc, true, zero, ℕ, ◌++◌, ◌+◌, ◌==◌, ◌∷◌, ◌≡◌,
}
use vantacore_engine.Bytes.{Bytes, find, find_from, starts_with}
use vantacore_engine.Bytes.Laws.{drop-drop}
use vantacore_engine.Paging.{read_at}
use vantacore_engine.Extractors.Chunked.{scan_chunks}
use vantacore_engine.Extractors.Patterns.{scan_pattern}

-- The pattern stands at this index.
abbrev pub IsMatch : Bytes → Bytes → ℕ → Type 0
IsMatch pattern chunk idx = starts_with (drop idx chunk) pattern ≡ true

starts_with-part :
    (bs pattern more : Bytes)
    → starts_with bs (pattern ++ more) ≡ true
    → starts_with bs pattern ≡ true
unfolding starts_with
starts_with-part bs [] more h = refl
starts_with-part [] (c ∷ cs) more h = ground arith
starts_with-part (b ∷ bs) (c ∷ cs) more h = ground (arith, starts_with-part bs cs more)

pub IsMatch-part :
    (pattern more chunk : Bytes) (idx : ℕ)
    → IsMatch (pattern ++ more) chunk idx
    → IsMatch pattern chunk idx
IsMatch-part pattern more chunk idx h = starts_with-part (drop idx chunk) pattern more h

find-IsMatch : (bs pattern : Bytes) (i : ℕ) → find bs pattern ≡ some i → IsMatch pattern bs i
unfolding find
find-IsMatch [] [] i h =
    let same : 0 ≡ i = ground (arith, h) in subst (λ k. IsMatch [] [] k) same refl
find-IsMatch [] (c ∷ cs) i h = ground arith
find-IsMatch (b ∷ bs) pattern i h = elim (Bool-cases (starts_with (b ∷ bs) pattern)) [
  | inl e ↦ let same : 0 ≡ i = ground (arith, h) in subst (IsMatch pattern (b ∷ bs)) same e
  | inr e ↦ elim (Option-cases (find bs pattern)) [
    | inl e2 ↦ ground (arith, h)
    | inr (j, e2) ↦
        let same : suc j ≡ i = ground (arith, h) in
        subst (IsMatch pattern (b ∷ bs)) same (find-IsMatch bs pattern j e2)
  ]
]

pub find_from-IsMatch :
    (bs pattern : Bytes) (start i : ℕ) → find_from bs pattern start ≡ some i → IsMatch pattern bs i
unfolding find_from
find_from-IsMatch bs pattern start i h = elim (Option-cases (find (drop start bs) pattern)) [
  | inl e ↦ ground (arith, h)
  | inr (j, e) ↦
      let same : start + j ≡ i = ground (arith, h) in
      subst (IsMatch pattern bs) same (
        subst (λ cs. starts_with cs pattern ≡ true) (drop-drop j start bs)
          (find-IsMatch (drop start bs) pattern j e))
]

module _ {State : Type 0} (P : State → Type 0) (pattern : Bytes) (is_full : State → Bool)
    (visit : ℕ → State → State) (chunk : Bytes)
    (keeps : (idx : ℕ) (s : State)
      → IsMatch pattern chunk idx
      → is_full s ≡ false
      → P s
      → P (visit idx s)) where
  pub scan_pattern-keeps :
      (fuel pos : ℕ) (s : State) → P s → P (scan_pattern pattern is_full visit fuel chunk pos s)
  unfolding scan_pattern
  scan_pattern-keeps zero pos s h = h
  scan_pattern-keeps (suc fuel) pos s h = elim (Bool-cases (leb (length chunk) pos)) [
    | inl e ↦ rw e h
    | inr e ↦ elim (Bool-cases (is_full s)) [
      | inl e2 ↦ rw (e, e2) h
      | inr e2 ↦ elim (Option-cases (find_from chunk pattern pos)) [
        | inl e3 ↦ rw (e, e2, e3) h
        | inr (idx, e3) ↦
            rw (e, e2, e3)
              (scan_pattern-keeps fuel (idx + length pattern) (visit idx s)
                (keeps idx s (find_from-IsMatch chunk pattern pos idx e3) e2 h))
      ]
    ]
  ]

module _ {State : Type 0} (P : State → Type 0) (dump : Bytes) (chunk_size : ℕ)
    (is_capped : State → Bool) (visit : ℕ → Bytes → State → State)
    (keeps : (offset : ℕ) (s : State)
      → is_capped s ≡ false
      → P s
      → P (visit offset (read_at dump offset chunk_size) s)) where
  pub scan_chunks-keeps :
      (fuel offset : ℕ) (s : State)
      → P s
      → P (scan_chunks dump chunk_size is_capped visit fuel offset s)
  unfolding scan_chunks
  scan_chunks-keeps zero offset s h = h
  scan_chunks-keeps (suc fuel) offset s h = elim (Bool-cases (leb (length dump) offset)) [
    | inl e ↦ rw e h
    | inr e ↦ elim (Bool-cases (is_capped s)) [
      | inl e2 ↦ rw (e, e2) h
      | inr e2 ↦ elim (Bool-cases (length (read_at dump offset chunk_size) == 0)) [
        | inl e3 ↦ rw (e, e2, e3) h
        | inr e3 ↦ rw (e, e2, e3) (scan_chunks-keeps fuel _ _ (keeps offset s e2 h))
      ]
    ]
  ]
