-- ===== src/Extractors/Cisco/History/Matches.antt =====
-- extractors/cisco/common/cli_history.py: the commands that are found, and the report.
use mathlib.Core.List.{Perm}
use vantacore_engine.Prelude.{
  List, Option-cases, [], drop, inl, inr, length, min, refl, some, take, true, ℕ, ◌++◌, ◌+◌, ◌-◌,
  ◌<◌, ◌∷◌, ◌≡◌,
}
use vantacore_engine.Bytes.{Bytes, bytes_eq}
use vantacore_engine.Paging.{read_at}
use vantacore_engine.Extractors.Keyed.{bytes_key, seen}
use vantacore_engine.Extractors.Text.{is_space, strip, take_while}
use vantacore_engine.Extractors.Text.Laws.{begins, if_any-some, lstrip-begins, strip-StandsAt}
use vantacore_engine.Extractors.Patterns.{never}
use vantacore_engine.Extractors.Patterns.Keeps.{IsMatch, scan_pattern-keeps, scan_chunks-keeps}
use vantacore_engine.Extractors.Patterns.Places.{StandsAt, IsMatch-StandsAt, StandsAt-chunk}
use vantacore_engine.Extractors.Cisco.History.{
  Match, Search, run, collect, sort, cli_sentinels, in_command, extract_command_string,
  scan_sentinels, visit_sentinel, visit_chunk, is_capped,
}
use vantacore_engine.Extractors.Cisco.History.Sorting.{IsOrdered, sort-perm, sort-IsOrdered}
use vantacore_engine.Extractors.Cisco.History.Clusters.{IsClustered, cluster-IsClustered}

extract_command_string-StandsAt :
    (chunk pattern : Bytes) (idx : ℕ) (cmd : Bytes)
    → IsMatch pattern chunk idx
    → begins pattern ≡ true
    → extract_command_string chunk idx ≡ some cmd
    → StandsAt chunk idx cmd × (0 < length cmd)
unfolding extract_command_string
extract_command_string-StandsAt chunk pattern idx cmd m b h =
    let size = min (length chunk) (idx + 256) - idx in
    let (same, some_bytes) =
      if_any-some (strip is_space (take_while in_command (take size (drop idx chunk)))) cmd h in
    (
      strip-StandsAt in_command chunk idx size cmd
          (lstrip-begins in_command (drop idx chunk) pattern size m b) same,
      some_bytes,
    )

module _ (dump : Bytes) where
  -- A sentinel stands at the offset, and so does the command, which is not empty.
  abbrev pub IsCommand : Match → Type 0
  IsCommand m =
      ((sentinel : Bytes) × ((seen sentinel cli_sentinels ≡ true) × StandsAt dump m.0 sentinel))
      × ((0 < length m.1) × StandsAt dump m.0 (m.1))

  abbrev pub AllCommands : List Match → Type 0
  AllCommands [] = Unit {0}
  AllCommands (m ∷ ms) = IsCommand m × AllCommands ms

  AllCommands-append :
      (ms : List Match) (m : Match) → AllCommands ms → IsCommand m → AllCommands (ms ++ (m ∷ []))
  AllCommands-append [] m h k = (k, tt)
  AllCommands-append (n ∷ ms) m h k = (h.0, AllCommands-append ms m h.1 k)

  abbrev AllSentinels : List Bytes → Type 0
  AllSentinels [] = Unit {0}
  AllSentinels (p ∷ ps) = ((seen p cli_sentinels ≡ true) × (begins p ≡ true)) × AllSentinels ps

  visit_sentinel-AllCommands :
      (offset : ℕ) (pattern : Bytes) (idx : ℕ) (s : Search)
      → (seen pattern cli_sentinels ≡ true) × (begins pattern ≡ true)
      → IsMatch pattern (read_at dump offset 65536) idx
      → AllCommands s.raw_matches
      → AllCommands (visit_sentinel offset (read_at dump offset 65536) idx s).raw_matches
  unfolding visit_sentinel
  visit_sentinel-AllCommands offset pattern idx s p m h =
      let chunk = read_at dump offset 65536 in
      elim (Option-cases (extract_command_string chunk idx)) [
        | inl e ↦ rw e h
        | inr (cmd, e) ↦
            let (place, some_bytes) =
              extract_command_string-StandsAt chunk pattern idx cmd m p.1 e in
            rw e (
              AllCommands-append s.raw_matches (offset + idx, cmd) h
                (
                  (
                    pattern,
                    (
                      p.0,
                      StandsAt-chunk dump pattern offset 65536 idx
                          (IsMatch-StandsAt pattern chunk idx m),
                    ),
                  ),
                  (some_bytes, StandsAt-chunk dump cmd offset 65536 idx place),
                ))
      ]

  scan_sentinels-AllCommands :
      (offset : ℕ) (patterns : List Bytes) (s : Search)
      → AllSentinels patterns
      → AllCommands s.raw_matches
      → AllCommands (scan_sentinels offset (read_at dump offset 65536) patterns s).raw_matches
  unfolding scan_sentinels
  scan_sentinels-AllCommands offset [] s p h = h
  scan_sentinels-AllCommands offset (pattern ∷ patterns) s p h =
      let chunk = read_at dump offset 65536 in
      scan_sentinels-AllCommands offset patterns _ p.1 (
        scan_pattern-keeps (λ t. AllCommands t.raw_matches) pattern never
          (visit_sentinel offset chunk) chunk
          (λ idx t m _ k. visit_sentinel-AllCommands offset pattern idx t p.0 m k)
          (length chunk + 1) 0 s h)

  cli_sentinels-AllSentinels : AllSentinels cli_sentinels
  unfolding bytes_eq
  cli_sentinels-AllSentinels =
      ((refl, refl), ((refl, refl), ((refl, refl), ((refl, refl), ((refl, refl), tt)))))

  collect-AllCommands : AllCommands (collect dump)
  unfolding collect visit_chunk
  collect-AllCommands =
      scan_chunks-keeps (λ s. AllCommands s.raw_matches) dump 65536 is_capped visit_chunk
        (λ offset s _ k.
          scan_sentinels-AllCommands offset cli_sentinels _ cli_sentinels-AllSentinels k)
        (length dump + 1) 0 _ tt

  -- Every command that was collected stands in the dump at its offset, behind a sentinel. The
  -- clusters of the report are those commands in the order of their offsets, none lost and none
  -- added: groups whose members follow each other within 512 bytes, of 256 at most, of which one
  -- ends only where the gap is greater or it is full.
  pub history_lem :
      AllCommands (collect dump)
      × ((ms : List Match) × (Perm ms (collect dump)
            × (IsOrdered ms × IsClustered ms (run dump).cli_history)))
  unfolding run
  history_lem = (
    collect-AllCommands,
    (
      sort (collect dump),
      (
        sort-perm (collect dump),
        (sort-IsOrdered (collect dump), cluster-IsClustered (sort (collect dump))),
      ),
    ),
  )
