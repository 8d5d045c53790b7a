-- ===== src/Appliances/CiscoIos.antt =====
-- core/backends/appliances/cisco_ios.py: `CiscoIOSDetector`.
use vantacore_engine.Prelude.{Result, [], ltb, min, not, ok, ℕ, ◌&&◌, ◌*◌, ◌+◌, ◌∷◌}
use vantacore_engine.Bytes.{Bytes, slice, bytes_eq, elf_magic}
use vantacore_engine.Appliances.Scan.{scan, points}

abbrev pub cisco_ios_software : Bytes
cisco_ios_software =
    b'C' ∷ b'i' ∷ b's' ∷ b'c' ∷ b'o' ∷ 32 ∷ b'I' ∷ b'O' ∷ b'S' ∷ 32 ∷ b'S' ∷ b'o' ∷ b'f' ∷ b't'
    ∷ b'w' ∷ b'a' ∷ b'r' ∷ b'e' ∷ []

abbrev pub ios_tm : Bytes
ios_tm = b'I' ∷ b'O' ∷ b'S' ∷ 32 ∷ 40 ∷ b't' ∷ b'm' ∷ 41 ∷ []

abbrev pub scan_limit : ℕ → ℕ
scan_limit file_size = min file_size (32 * 1024 * 1024)

unfoldable pub detect : Bytes → ℕ → Result ℕ
detect dump file_size =
    let magic = slice dump 0 4 in
    let limit = scan_limit file_size in
    let score =
      points (scan dump cisco_ios_software limit) 80 + points (scan dump ios_tm limit) 60 in
    let raw = points (not (bytes_eq magic elf_magic) && ltb 0 score) 10 in
    ok (min (score + raw) 100)
