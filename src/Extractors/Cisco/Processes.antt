-- ===== src/Extractors/Cisco/Processes.antt =====
-- extractors/cisco/ios/ios_processes.py: `IOSProcessesExtractor`. A text of digits alone is a number;
-- one with a superscript digit raises, which like any other text gives no process.
pub mod Sound
mod Tests
use vantacore_engine.Prelude.{
  Bool, List, Option, [], false, if◌then◌else◌, leb, length, ltb, mem, none, some, true, ℕ, ◌&&◌,
  ◌++◌, ◌+◌, ◌==◌, ◌||◌, ◌∷◌,
}
use vantacore_engine.Bytes.{Bytes}
use vantacore_engine.Extractors.Chunked.{scan_chunks}
use vantacore_engine.Extractors.Text.{
  int_digits, is_bracket, is_digit, line_at, split_words, strip, words_from,
}
use vantacore_engine.Extractors.Patterns.{never, scan_all, scan_pattern}

abbrev pub mempool_magic : Bytes
mempool_magic = 0xab ∷ 0x12 ∷ 0x34 ∷ 0xcd ∷ []

-- "PID " and "Pid:"
abbrev pub pid_patterns : List Bytes
pid_patterns = (b'P' ∷ b'I' ∷ b'D' ∷ 32 ∷ []) ∷ (b'P' ∷ b'i' ∷ b'd' ∷ b':' ∷ []) ∷ []

abbrev pub all_digits : Bytes → Bool
all_digits [] = true
all_digits (c ∷ s) = is_digit c && all_digits s

-- `s.isdigit()` and `int(s)`
unfoldable pub number : Bytes → Option ℕ
unfolding int_digits
number s = if (ltb 0 (length s)) && all_digits s then int_digits 0 false s else none

pub record Process : Type 0 where
  pub pid : ℕ
  pub name : Bytes
  pub physical_offset : ℕ

pub record Search : Type 0 where
  pub hops : ℕ
  pub seen_pids : List ℕ
  pub processes : List Process
  pub seen_mempool_offsets : List ℕ
  pub mempool_regions : List ℕ

abbrev pub add_process : Process → Search → Search
add_process p s =
    if mem p.pid s.seen_pids || (length p.name == 0)
    then s
    else record s { seen_pids = s.seen_pids ++ (p.pid ∷ []); processes = s.processes ++ (p ∷ []) }

abbrev pub add_numbered : ℕ → Bytes → Option ℕ → Search → Search
add_numbered phys_off name none s = s
add_numbered phys_off name (some pid) s =
    add_process (record { pid = pid; name = name; physical_offset = phys_off }) s

-- The words of a line: the pattern, the number, the name.
unfoldable pub add_line : ℕ → List Bytes → Search → Search
unfolding number strip
add_line phys_off (label ∷ pid ∷ name ∷ more) s =
    add_numbered phys_off (strip is_bracket name) (number (strip is_bracket pid)) s
add_line phys_off _ s = s

unfoldable pub visit_pid : ℕ → Bytes → ℕ → Search → Search
unfolding line_at words_from add_line
visit_pid offset chunk idx s = add_line (offset + idx) (split_words (line_at chunk idx 64)) s

unfoldable pub scan_pids : ℕ → Bytes → List Bytes → Search → Search
unfolding scan_pattern visit_pid
scan_pids offset chunk [] s = s
scan_pids offset chunk (pattern ∷ patterns) s =
    scan_pids offset chunk patterns (scan_all pattern never (visit_pid offset chunk) chunk s)

unfoldable pub add_region : ℕ → Search → Search
add_region phys_off s = if mem phys_off s.seen_mempool_offsets then s else record s {
  seen_mempool_offsets = s.seen_mempool_offsets ++ (phys_off ∷ []);
  mempool_regions = s.mempool_regions ++ (phys_off ∷ []);
}

-- The search is not begun where this holds, and ends when it does.
abbrev pub is_full : Search → Bool
is_full s = leb 500 (length s.mempool_regions)

unfoldable pub visit_chunk : ℕ → Bytes → Search → Search
unfolding scan_pattern scan_pids add_region
visit_chunk offset chunk s =
    scan_all mempool_magic is_full (λ idx. add_region (offset + idx)) chunk
      (scan_pids offset chunk pid_patterns (record s { hops = s.hops + 1 }))

abbrev pub is_capped : Search → Bool
is_capped s = leb 500000 s.hops

abbrev pub nothing : Search
nothing = record {
  hops = 0;
  seen_pids = [];
  processes = [];
  seen_mempool_offsets = [];
  mempool_regions = [];
}

-- What `run` reports are the two lists of the last state.
unfoldable pub run : Bytes → Search
unfolding scan_chunks visit_chunk
run dump = scan_chunks dump 65536 is_capped visit_chunk (length dump + 1) 0 nothing
