-- ===== src/Extractors/Cisco/Processes/Sound.antt =====
-- extractors/cisco/ios/ios_processes.py: what is reported.
use vantacore_engine.Prelude.{
  Bool-cases, List, Option, [], ap, arith, false, inl, inr, length, length-append, mem, none,
  occurrences, occurrences-append_new, refl, some, sym, true, ℕ, ◌++◌, ◌+◌, ◌<◌, ◌==◌, ◌∙◌, ◌∷◌,
  ◌≡◌, ◌≤◌,
}
use vantacore_engine.Bytes.{Bytes, bytes_eq}
use vantacore_engine.Paging.{read_at}
use vantacore_engine.Extractors.Keyed.{bytes_key, seen}
use vantacore_engine.Extractors.Text.{is_bracket, line_at, split_words, strip}
use vantacore_engine.Extractors.Patterns.{never, scan_all}
use vantacore_engine.Extractors.Patterns.Keeps.{scan_pattern-keeps, scan_chunks-keeps}
use vantacore_engine.Extractors.Patterns.Places.{StandsAt, IsMatch-StandsAt, StandsAt-chunk}
use vantacore_engine.Extractors.Cisco.Processes.{
  Process, Search, add_line, add_numbered, add_process, add_region, is_capped, is_full,
  mempool_magic, nothing, number, pid_patterns, run, scan_pids, visit_chunk, visit_pid,
}

abbrev pub pids : List Process → List ℕ
pids [] = []
pids (p ∷ ps) = p.pid ∷ pids ps

pids-append : (ps : List Process) (p : Process) → pids (ps ++ (p ∷ [])) ≡ pids ps ++ (p.pid ∷ [])
pids-append [] p = refl
pids-append (q ∷ ps) p = ap (λ t. q.pid ∷ t) (pids-append ps p)

module _ (dump : Bytes) where
  -- One of the two patterns stands at an offset.
  abbrev pub IsLabelled : ℕ → Type 0
  IsLabelled offset =
      (pattern : Bytes) × ((seen pattern pid_patterns ≡ true) × StandsAt dump offset pattern)

  abbrev pub AllProcesses : List Process → Type 0
  AllProcesses [] = Unit {0}
  AllProcesses (p ∷ ps) = (IsLabelled p.physical_offset × (0 < length p.name)) × AllProcesses ps

  abbrev pub AllRegions : List ℕ → Type 0
  AllRegions [] = Unit {0}
  AllRegions (r ∷ rs) = StandsAt dump r mempool_magic × AllRegions rs

  AllProcesses-append :
      (ps : List Process) (p : Process)
      → AllProcesses ps
      → IsLabelled p.physical_offset × (0 < length p.name)
      → AllProcesses (ps ++ (p ∷ []))
  AllProcesses-append [] p h k = (k, tt)
  AllProcesses-append (q ∷ ps) p h k = (h.0, AllProcesses-append ps p h.1 k)

  AllRegions-append :
      (rs : List ℕ) (r : ℕ)
      → AllRegions rs
      → StandsAt dump r mempool_magic
      → AllRegions (rs ++ (r ∷ []))
  AllRegions-append [] r h k = (k, tt)
  AllRegions-append (q ∷ rs) r h k = (h.0, AllRegions-append rs r h.1 k)

  -- What the search keeps.
  pub record IsFound (s : Search) : Type 0 where
    pub all_processes : AllProcesses s.processes
    pub same_pids : s.seen_pids ≡ pids s.processes
    pub distinct_pids : (n : ℕ) → occurrences n s.seen_pids ≤ 1
    pub all_regions : AllRegions s.mempool_regions
    pub same_offsets : s.seen_mempool_offsets ≡ s.mempool_regions
    pub distinct_regions : (n : ℕ) → occurrences n s.seen_mempool_offsets ≤ 1
    pub few_regions : length s.mempool_regions ≤ 500

  add_process-IsFound :
      (p : Process) (s : Search)
      → IsLabelled p.physical_offset
      → IsFound s
      → IsFound (add_process p s)
  add_process-IsFound p s h i = elim (Bool-cases (mem p.pid s.seen_pids)) [
    | inl e ↦ simp e i
    | inr e ↦ elim (Bool-cases (length p.name == 0)) [
      | inl e2 ↦ simp (e, e2) i
      | inr e2 ↦
          simp (e, e2)
            (record {
              all_processes =
                  AllProcesses-append s.processes p i.all_processes (h, ground (arith, e2));
              same_pids = ap (λ t. t ++ (p.pid ∷ [])) i.same_pids ∙ sym (pids-append s.processes p);
              distinct_pids = λ n. occurrences-append_new s.seen_pids p.pid n e (i.distinct_pids n);
              all_regions = i.all_regions;
              same_offsets = i.same_offsets;
              distinct_regions = i.distinct_regions;
              few_regions = i.few_regions;
            })
    ]
  ]

  add_numbered-IsFound :
      (phys_off : ℕ) (name : Bytes) (found : Option ℕ) (s : Search)
      → IsLabelled phys_off
      → IsFound s
      → IsFound (add_numbered phys_off name found s)
  add_numbered-IsFound phys_off name none s h i = i
  add_numbered-IsFound phys_off name (some pid) s h i = add_process-IsFound _ s h i

  add_line-IsFound :
      (phys_off : ℕ) (words : List Bytes) (s : Search)
      → IsLabelled phys_off
      → IsFound s
      → IsFound (add_line phys_off words s)
  unfolding add_line
  add_line-IsFound phys_off [] s h i = i
  add_line-IsFound phys_off (label ∷ []) s h i = i
  add_line-IsFound phys_off (label ∷ pid ∷ []) s h i = i
  add_line-IsFound phys_off (label ∷ pid ∷ name ∷ more) s h i =
      add_numbered-IsFound phys_off (strip is_bracket name) (number (strip is_bracket pid)) s h i

  abbrev AllPatterns : List Bytes → Type 0
  AllPatterns [] = Unit {0}
  AllPatterns (p ∷ ps) = (seen p pid_patterns ≡ true) × AllPatterns ps

  pid_patterns-AllPatterns : AllPatterns pid_patterns
  unfolding bytes_eq
  pid_patterns-AllPatterns = (refl, (refl, tt))

  scan_pids-IsFound :
      (offset : ℕ) (patterns : List Bytes) (s : Search)
      → AllPatterns patterns
      → IsFound s
      → IsFound (scan_pids offset (read_at dump offset 65536) patterns s)
  unfolding scan_pids visit_pid
  scan_pids-IsFound offset [] s p i = i
  scan_pids-IsFound offset (pattern ∷ patterns) s p i =
      let chunk = read_at dump offset 65536 in
      scan_pids-IsFound offset patterns _ p.1 (
        scan_pattern-keeps IsFound pattern never (visit_pid offset chunk) chunk
          (λ idx t m _ k.
            add_line-IsFound (offset + idx) (split_words (line_at chunk idx 64)) t
              (
                pattern,
                (
                  p.0,
                  StandsAt-chunk dump pattern offset 65536 idx
                      (IsMatch-StandsAt pattern chunk idx m),
                ),
              )
              k)
          (length chunk + 1) 0 s i)

  add_region-IsFound :
      (phys_off : ℕ) (s : Search)
      → is_full s ≡ false
      → StandsAt dump phys_off mempool_magic
      → IsFound s
      → IsFound (add_region phys_off s)
  unfolding add_region
  add_region-IsFound phys_off s room h i = elim (Bool-cases (mem phys_off s.seen_mempool_offsets)) [
    | inl e ↦ simp e i
    | inr e ↦ simp e (record {
      all_processes = i.all_processes;
      same_pids = i.same_pids;
      distinct_pids = i.distinct_pids;
      all_regions = AllRegions-append s.mempool_regions phys_off i.all_regions h;
      same_offsets = ap (λ t. t ++ (phys_off ∷ [])) i.same_offsets;
      distinct_regions =
          λ n. occurrences-append_new s.seen_mempool_offsets phys_off n e (i.distinct_regions n);
      few_regions = ground (arith, room, length-append s.mempool_regions (phys_off ∷ []));
    })
  ]

  scan_regions-IsFound :
      (offset : ℕ) (s : Search)
      → IsFound s
      → IsFound (
          scan_all mempool_magic is_full
            (λ idx. add_region (offset + idx))
            (read_at dump offset 65536)
            s)
  scan_regions-IsFound offset s i =
      let chunk = read_at dump offset 65536 in
      scan_pattern-keeps IsFound mempool_magic is_full (λ idx. add_region (offset + idx)) chunk
        (λ idx t m room k.
          add_region-IsFound (offset + idx) t room
            (StandsAt-chunk dump mempool_magic offset 65536 idx
              (IsMatch-StandsAt mempool_magic chunk idx m))
            k)
        (length chunk + 1) 0 s i

  hop-IsFound : (s : Search) → IsFound s → IsFound (record s { hops = s.hops + 1 })
  hop-IsFound s i = record {
    all_processes = i.all_processes;
    same_pids = i.same_pids;
    distinct_pids = i.distinct_pids;
    all_regions = i.all_regions;
    same_offsets = i.same_offsets;
    distinct_regions = i.distinct_regions;
    few_regions = i.few_regions;
  }

  -- Each reported process has a name and stands at one of the two patterns in the dump, and each
  -- process id comes once; each region is at the magic number, at a place of its own, and there are
  -- 500 of them at most.
  pub run-IsFound : IsFound (run dump)
  unfolding run visit_chunk
  run-IsFound =
      scan_chunks-keeps IsFound dump 65536 is_capped visit_chunk
        (λ offset s _ k.
          scan_regions-IsFound offset _
            (scan_pids-IsFound offset pid_patterns _ pid_patterns-AllPatterns (hop-IsFound s k)))
        (length dump + 1) 0 nothing
        (record {
          all_processes = tt;
          same_pids = refl;
          distinct_pids = λ n. omega arith;
          all_regions = tt;
          same_offsets = refl;
          distinct_regions = λ n. omega arith;
          few_regions = omega arith;
        })
