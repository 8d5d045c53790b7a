-- ===== src/Appliances/CiscoAsa.antt =====
-- core/backends/appliances/cisco_asa.py: `CiscoASADetector`. The ELF parser, elftools, is a
-- parameter: it gives the segments and notes that it yields before it ends or raises.
use vantacore_engine.Prelude.{
  Bool, List, Result, [], false, get_or, if◌then◌else◌, leb, length, min, ok, raise, take, ℕ, ◌&&◌,
  ◌*◌, ◌+◌, ◌==◌, ◌||◌, ◌∷◌,
}
use vantacore_engine.Bytes.{Bytes, slice, bytes_eq, starts_with, unpack_from, elf_magic}
use vantacore_engine.Appliances.Scan.{scan, points}

abbrev pub cisco_adaptive_security_appliance : Bytes
cisco_adaptive_security_appliance =
    b'C' ∷ b'i' ∷ b's' ∷ b'c' ∷ b'o' ∷ 32 ∷ b'A' ∷ b'd' ∷ b'a' ∷ b'p' ∷ b't' ∷ b'i' ∷ b'v' ∷ b'e'
    ∷ 32 ∷ b'S' ∷ b'e' ∷ b'c' ∷ b'u' ∷ b'r' ∷ b'i' ∷ b't' ∷ b'y' ∷ 32 ∷ b'A' ∷ b'p' ∷ b'p' ∷ b'l'
    ∷ b'i' ∷ b'a' ∷ b'n' ∷ b'c' ∷ b'e' ∷ []

abbrev pub cisco_asa : Bytes
cisco_asa = b'C' ∷ b'i' ∷ b's' ∷ b'c' ∷ b'o' ∷ 32 ∷ b'A' ∷ b'S' ∷ b'A' ∷ []

abbrev pub lina : Bytes
lina = b'l' ∷ b'i' ∷ b'n' ∷ b'a' ∷ []

-- The description of a note is bytes, or holds a field `pr_fname` that is bytes, or neither.
pub data Desc : Type 0 where
  raw : Bytes → Desc
  with_pr_fname : Bytes → Desc
  other : Desc

-- `is_prpsinfo` is the test of `n_type`: 3 or "NT_PRPSINFO".
pub record Note : Type 0 where
  pub is_prpsinfo : Bool
  pub n_desc : Desc

pub record Segment : Type 0 where
  pub is_note : Bool
  pub notes : List Note

unfoldable pub pr_fname : Desc → Bytes
pr_fname (raw desc) = if leb 44 (length desc) then slice desc 40 56 else []
pr_fname (with_pr_fname name) = name
pr_fname other = []

unfoldable pub is_lina : Note → Bool
unfolding pr_fname
is_lina n = n.is_prpsinfo && starts_with (pr_fname n.n_desc) lina

-- The `break` leaves the notes of one segment.
unfoldable pub has_lina : List Note → Bool
unfolding is_lina
has_lina [] = false
has_lina (n ∷ ns) = is_lina n || has_lina ns

unfoldable pub note_score : List Segment → ℕ
unfolding has_lina
note_score [] = 0
note_score (s ∷ ss) = points (s.is_note && has_lina s.notes) 65 + note_score ss

abbrev pub scan_limit : ℕ → ℕ
scan_limit file_size = min file_size (64 * 1024 * 1024)

-- The text found in the dump.
unfoldable pub text_score : Bytes → ℕ → ℕ
text_score dump limit =
    if scan dump cisco_adaptive_security_appliance limit
    then 50
    else points (scan dump cisco_asa limit) 30

abbrev pub total : Result ℕ → ℕ → ℕ → Result ℕ
total (raise e) noted texts = raise e
total (ok e_type) noted texts = ok (min (points (e_type == 4) 30 + noted + texts) 100)

unfoldable pub detect : (Bytes → List Segment) → Bytes → ℕ → Result ℕ
detect parse dump file_size =
    let header = take 18 dump in
    let is_elf64 =
      leb 5 (length header)
      && (bytes_eq (slice header 0 4) elf_magic && (get_or header 4 0 == 2)) in
    if is_elf64
    then total (unpack_from 2 header 16) (note_score (parse dump))
        (text_score dump (scan_limit file_size))
    else ok 0
