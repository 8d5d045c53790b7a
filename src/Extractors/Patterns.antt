-- ===== src/Extractors/Patterns.antt =====
-- extractors/cisco/: the loop over the places of a pattern in a chunk that all of them have,
-- `while pos < len(chunk): idx = chunk.find(pat, pos) ... pos = idx + len(pat)`.
pub mod Keeps
pub mod Places
pub mod Commutes
use vantacore_engine.Prelude.{
  Bool, false, if◌then◌else◌, leb, length, none, some, suc, zero, ℕ, ◌+◌, ◌||◌,
}
use vantacore_engine.Bytes.{Bytes, find_from}

abbrev pub never {ℓ} : {A : Type ℓ} → A → Bool
never a = false

module _ {State : Type 0} (pattern : Bytes) (is_full : State → Bool)
    (visit : ℕ → State → State) where
  -- From a position on. A round goes ahead by the length of the pattern.
  unfoldable pub scan_pattern : ℕ → Bytes → ℕ → State → State
  unfolding find_from
  scan_pattern zero chunk pos s = s
  scan_pattern (suc fuel) chunk pos s =
      if leb (length chunk) pos || is_full s then s else elim (find_from chunk pattern pos) [
        | none ↦ s
        | some idx ↦ scan_pattern fuel chunk (idx + length pattern) (visit idx s)
      ]

  abbrev pub scan_all : Bytes → State → State
  scan_all chunk s = scan_pattern (length chunk + 1) chunk 0 s
