-- ===== src/Cli.antt =====
-- cli.py: `_cmd_detect`, up to what it prints. Each of the detectors seeks in the file by itself, so
-- that the file is its bytes. The entropy of a page and elftools are parameters.
pub mod Commands
mod Tests
use vantacore_engine.Prelude.{Bool, List, Option, Result, length, none, ok, raise, some, ℕ}
use vantacore_engine.Bytes.{Bytes, bytes_eq, elf_magic}
use vantacore_engine.Paging.{read_at}
use vantacore_engine.Architecture
use vantacore_engine.Architecture.{TranslationBackend}
use vantacore_engine.Appliances.CiscoAsa.{Segment}
use vantacore_engine.Appliances.Registry
use vantacore_engine.Appliances.Registry.{Detector, PlatformName, generic_flat, auto_discover}
use vantacore_engine.Entropy
use vantacore_engine.Entropy.{MsrNote}

-- The path of the dump: not given, not to be opened, or a file with these bytes.
pub data Argument : Type 0 where
  missing : Argument
  unreadable : Argument
  opened : Bytes → Argument

-- The exit status: 1 after an error message, 0 with the result that is printed.
pub data Exit (A : Type 0) : Type 0 where
  failed : Exit A
  succeeded : A → Exit A

pub record Detection : Type 0 where
  pub platform_name : PlatformName
  pub confidence : ℕ
  pub backend : TranslationBackend
  pub likely_encrypted : Bool

abbrev pub with_confidence : PlatformName → Result ℕ → Result (PlatformName × ℕ)
with_confidence name (raise e) = raise e
with_confidence name (ok confidence) = ok (name, confidence)

-- The detector of the registry is asked once more, outside of its `try`.
abbrev pub choose : Option Detector → Bytes → Result (PlatformName × ℕ)
choose none dump = ok (generic_flat, 10)
choose (some d) dump = with_confidence d.platform_name (d.score_of dump (length dump))

abbrev pub detection :
    Bool → Result (PlatformName × ℕ) → Result TranslationBackend → Result Detection
detection enc (raise e) backend = raise e
detection enc (ok p) (raise e) = raise e
detection enc (ok p) (ok backend) =
    ok (record { platform_name = p.0; confidence = p.1; backend = backend; likely_encrypted = enc })

module _ (is_high : Bytes → Bool) (notes : Bytes → List MsrNote)
    (segments : Bytes → List Segment) where
  unfoldable pub detect_dump : Bytes → Result Detection
  detect_dump dump =
      detection (Entropy.detect is_high notes dump (length dump)).likely_encrypted
        (choose (Registry.detect (auto_discover segments) dump (length dump)) dump)
        (Architecture.detect dump)

  abbrev detected_exit : {A : Type 0} → (Detection → A) → Result Detection → Result (Exit A)
  detected_exit f (raise e) = raise e
  detected_exit f (ok d) = ok (succeeded (f d))

  unfoldable pub cmd_detect : Argument → Result (Exit Detection)
  unfolding detect_dump
  cmd_detect missing = ok failed
  cmd_detect unreadable = ok failed
  cmd_detect (opened dump) = detected_exit (λ d. d) (detect_dump dump)
