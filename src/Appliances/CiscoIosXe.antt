-- ===== src/Appliances/CiscoIosXe.antt =====
-- core/backends/appliances/cisco_iosxe.py: `CiscoIOSXEDetector`.
use vantacore_engine.Prelude.{Result, [], if◌then◌else◌, min, not, ok, ℕ, ◌*◌, ◌+◌, ◌∷◌}
use vantacore_engine.Bytes.{Bytes, slice, bytes_eq, elf_magic}
use vantacore_engine.Appliances.Scan.{scan, points}

abbrev pub cisco_ios_xe_software : Bytes
cisco_ios_xe_software =
    b'C' ∷ b'i' ∷ b's' ∷ b'c' ∷ b'o' ∷ 32 ∷ b'I' ∷ b'O' ∷ b'S' ∷ 32 ∷ b'X' ∷ b'E' ∷ 32 ∷ b'S' ∷ b'o'
    ∷ b'f' ∷ b't' ∷ b'w' ∷ b'a' ∷ b'r' ∷ b'e' ∷ []

abbrev pub iosd : Bytes
iosd = b'I' ∷ b'O' ∷ b'S' ∷ b'd' ∷ []

abbrev pub linux_version : Bytes
linux_version =
    b'L' ∷ b'i' ∷ b'n' ∷ b'u' ∷ b'x' ∷ 32 ∷ b'v' ∷ b'e' ∷ b'r' ∷ b's' ∷ b'i' ∷ b'o' ∷ b'n' ∷ []

abbrev pub scan_limit : ℕ → ℕ
scan_limit file_size = min file_size (64 * 1024 * 1024)

unfoldable pub detect : Bytes → ℕ → Result ℕ
detect dump file_size =
    let magic = slice dump 0 4 in
    let limit = scan_limit file_size in
    let score =
      points (scan dump cisco_ios_xe_software limit) 80
      + points (scan dump iosd limit) 50
      + points (scan dump linux_version limit) 20 in
    if not (bytes_eq magic elf_magic) then ok 0 else ok (min score 100)
