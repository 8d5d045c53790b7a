-- ===== src/Appliances/Chunks.antt =====
-- core/backends/appliances/cisco_ios.py: `_scan_bytes` finds what one search of the whole prefix
-- would find, whatever the size of the chunks.
use vantacore_engine.Prelude.{
  Bool-cases, [], ap, arith, drop, drop_all, false, inl, inr, length, length-drop, length-take, min,
  refl, subst, suc, sym, take, take-append-drop, take_all, true, zero, ℕ, ◌++◌, ◌+◌, ◌-◌, ◌<◌, ◌==◌,
  ◌∙◌, ◌∷◌, ◌≡◌, ◌≤◌,
}
use vantacore_engine.Bytes.{Bytes, starts_with}
use vantacore_engine.Bytes.Laws.{drop-take, take-take, drop-drop, length-zero}
use vantacore_engine.Bytes.Find.{contains, is_found-find, contains-extend, contains-skip}
use vantacore_engine.Paging.{read_at}
use vantacore_engine.Appliances.Pattern.{step_back, scan_loop, scan_bytes}

-- The bytes left to search, from a position of the prefix on.
abbrev remaining : Bytes → ℕ → ℕ → Bytes
remaining dump max_bytes p = drop p (take max_bytes dump)

chunk-eq :
    (dump : Bytes) (max_bytes chunk_size p : ℕ)
    → read_at dump p (min chunk_size (max_bytes - p)) ≡ take chunk_size (remaining dump max_bytes p)
chunk-eq dump max_bytes chunk_size p = sym (
    ap (take chunk_size) (drop-take p max_bytes dump)
    ∙ take-take chunk_size (max_bytes - p) (drop p dump))

contains-nil : (pattern : Bytes) → 0 < length pattern → contains [] pattern ≡ false
unfolding contains starts_with
contains-nil [] h = absurd (omega arith)
contains-nil (c ∷ cs) h = refl

skip-chunk :
    (chunk_size : ℕ) (whole pattern : Bytes)
    → 0 < length pattern
    → length pattern ≤ chunk_size
    → contains (take chunk_size whole) pattern ≡ false
    → contains
        (drop
          (length (take chunk_size whole)
            - step_back chunk_size (length pattern - 1) (length (take chunk_size whole)))
          whole)
        pattern
      ≡ contains whole pattern
skip-chunk chunk_size whole pattern some_bytes fits h =
    let split : take chunk_size whole ++ drop chunk_size whole ≡ whole =
      take-append-drop chunk_size whole in
    let size : length (take chunk_size whole) ≡ min chunk_size (length whole) =
      length-take chunk_size whole in
    elim (Bool-cases (length (take chunk_size whole) == chunk_size)) [
      | inl full ↦
          let k =
            length (take chunk_size whole)
            - step_back chunk_size (length pattern - 1) (length (take chunk_size whole)) in
          let bound : k + length pattern ≤ length (take chunk_size whole) + 1 = ground arith in
          let skip =
            contains-skip k (take chunk_size whole) (drop chunk_size whole) pattern h bound
              some_bytes in
          sym (subst (λ w. contains w pattern ≡ contains (drop k w) pattern) split skip)
      | inr short ↦
          let all : take chunk_size whole ≡ whole = take_all chunk_size whole (ground arith) in
          let none_left : contains whole pattern ≡ false =
            subst (λ w. contains w pattern ≡ false) all h in
          let nothing : drop
                (length (take chunk_size whole)
                  - step_back chunk_size (length pattern - 1) (length (take chunk_size whole)))
                whole
              ≡ [] =
            drop_all _ whole (ground arith) in
          rw nothing (contains-nil pattern some_bytes ∙ sym none_left)
    ]

hit_whole :
    (chunk_size : ℕ) (whole pattern : Bytes)
    → contains (take chunk_size whole) pattern ≡ true
    → contains whole pattern ≡ true
hit_whole chunk_size whole pattern h =
    subst (λ w. contains w pattern ≡ true) (take-append-drop chunk_size whole)
      (contains-extend (take chunk_size whole) (drop chunk_size whole) pattern h)

scan_loop_lem :
    (fuel : ℕ) (dump pattern : Bytes) (max_bytes chunk_size p : ℕ)
    → 0 < length pattern
    → length pattern ≤ chunk_size
    → max_bytes < p + fuel
    → scan_loop fuel dump pattern max_bytes chunk_size p p
      ≡ contains (remaining dump max_bytes p) pattern
unfolding scan_loop
scan_loop_lem zero dump pattern max_bytes chunk_size p some_bytes fits enough =
    let nothing : drop p (take max_bytes dump) ≡ [] =
      drop_all p (take max_bytes dump) (ground (arith, length-take max_bytes dump)) in
    rw nothing (sym (contains-nil pattern some_bytes))
scan_loop_lem (suc fuel) dump pattern max_bytes chunk_size p some_bytes fits enough =
    let whole = remaining dump max_bytes p in
    let chunk = take chunk_size whole in
    let next = length chunk - step_back chunk_size (length pattern - 1) (length chunk) in
    let same : read_at dump p (min chunk_size (max_bytes - p)) ≡ chunk =
      chunk-eq dump max_bytes chunk_size p in
    let size : length chunk ≡ min chunk_size (length whole) = length-take chunk_size whole in
    let left : length whole ≡ min max_bytes (length dump) - p =
      length-drop p (take max_bytes dump) ∙ ap (λ n. n - p) (length-take max_bytes dump) in
    let skip = skip-chunk chunk_size whole pattern some_bytes fits in
    let found = is_found-find chunk pattern in
    let back : step_back chunk_size (length pattern - 1) (length chunk) ≤ length chunk =
      ground arith in
    let ahead : p + length chunk - step_back chunk_size (length pattern - 1) (length chunk)
        ≡ p + next =
      omega arith in
    let moves : 0 < length chunk → 0 < next = ground arith in
    let on : remaining dump max_bytes (p + next) ≡ drop next whole =
      sym (drop-drop next p (take max_bytes dump)) in
    let rest : 0 < length chunk
        → scan_loop fuel dump pattern max_bytes chunk_size (p + next) (p + next)
          ≡ contains (drop next whole) pattern =
      λ h.
        scan_loop_lem fuel dump pattern max_bytes chunk_size (p + next) some_bytes fits
          (omega (arith, moves h))
        ∙ ap (λ w. contains w pattern) on in
    let none_left : length whole ≡ 0 → contains whole pattern ≡ false =
      λ h. ap (λ w. contains w pattern) (length-zero whole h) ∙ contains-nil pattern some_bytes in
    rw (same, ahead)
      (elim (Bool-cases (contains chunk pattern)) [
        | inl hit ↦ let all = hit_whole chunk_size whole pattern hit in ground (arith, none_left)
        | inr miss ↦ ground (arith, none_left, skip miss, rest)
      ])

-- The search in overlapping chunks answers what one search of the first `max_bytes` bytes answers,
-- for every pattern that is not empty and no longer than a chunk: no occurrence is lost between
-- two chunks, and the loop comes to its end.
pub scan_bytes-eq-contains :
    (dump pattern : Bytes) (max_bytes chunk_size : ℕ)
    → 0 < length pattern
    → length pattern ≤ chunk_size
    → scan_bytes dump pattern max_bytes chunk_size ≡ contains (take max_bytes dump) pattern
unfolding scan_bytes
scan_bytes-eq-contains dump pattern max_bytes chunk_size some_bytes fits =
    scan_loop_lem (max_bytes + 1) dump pattern max_bytes chunk_size 0 some_bytes fits (omega arith)
