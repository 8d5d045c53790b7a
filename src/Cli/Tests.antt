-- ===== src/Cli/Tests.antt =====
-- cli.py on dumps of a few bytes.
use vantacore_engine.Prelude.{Bool, List, [], false, ok, raise, refl, translation_error, ◌≡◌}
use vantacore_engine.Bytes.{Bytes, bytes_eq, starts_with, find, unpack_from, elf_magic}
use vantacore_engine.Paging
use vantacore_engine.FlatImage
use vantacore_engine.Architecture
use vantacore_engine.Architecture.{TranslationBackend, flat}
use vantacore_engine.Appliances.Pattern.{scan_loop, scan_bytes}
use vantacore_engine.Appliances.Scan.{scan}
use vantacore_engine.Appliances.CiscoIos
use vantacore_engine.Appliances.CiscoIosXe
use vantacore_engine.Appliances.CiscoAsa
use vantacore_engine.Appliances.CiscoAsa.{Segment}
use vantacore_engine.Appliances.Registry
use vantacore_engine.Appliances.Registry.{PlatformName, generic_flat, run_all, qualified}
use vantacore_engine.Entropy
use vantacore_engine.Entropy.{MsrNote}
use vantacore_engine.Cli.{cmd_detect, detect_dump, failed, missing, opened, unreadable}
use vantacore_engine.Cli.Commands.{IsDetected, cmd_detect_lem}

abbrev is_high : Bytes → Bool
is_high page = false

abbrev notes : Bytes → List MsrNote
notes dump = []

abbrev segments : Bytes → List Segment
segments dump = []

cmd_detect_lem_example : IsDetected is_high notes segments elf_magic (Architecture.detect elf_magic)
cmd_detect_lem_example = cmd_detect_lem is_high notes segments elf_magic

no_dump :
    (cmd_detect is_high notes segments missing ≡ ok failed)
    × (cmd_detect is_high notes segments unreadable ≡ ok failed)
unfolding cmd_detect
no_dump = (refl, refl)

-- The magic with nothing behind it: the detection of the architecture raises, and nothing catches.
magic_only : cmd_detect is_high notes segments (opened elf_magic) ≡ raise translation_error
unfolding cmd_detect detect_dump Entropy.detect Registry.detect run_all qualified
    Architecture.detect Paging.detect unpack_from starts_with FlatImage.detect CiscoIos.detect
    CiscoIosXe.detect CiscoAsa.detect scan_bytes scan_loop find bytes_eq scan
magic_only = refl
