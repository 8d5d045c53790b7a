-- ===== src/Appliances/Threshold.antt =====
-- core/backends/appliances/cisco_ios.py and cisco_iosxe.py: which dumps a detector claims.
use vantacore_engine.Prelude.{
  Bool, Bool-cases, Result, arith, false, if◌then◌else◌, inl, inr, leb, length, ltb, min, not, ok,
  raise, refl, take, true, ℕ, ◌&&◌, ◌+◌, ◌<◌, ◌||◌, ◌∙◌, ◌≡◌, ◌≤◌,
}
use vantacore_engine.Bytes.{Bytes, slice, bytes_eq, elf_magic}
use vantacore_engine.Bytes.Find.{contains}
use vantacore_engine.Appliances.Scan.{scan, points}
use vantacore_engine.Appliances.Pattern.{default_chunk_size}
use vantacore_engine.Appliances.Chunks.{scan_bytes-eq-contains}
use vantacore_engine.Appliances.CiscoIos
use vantacore_engine.Appliances.CiscoIosXe

-- The confidence reaches the 0.6 of the registry.
abbrev pub is_claimed : Result ℕ → Bool
is_claimed (ok score) = leb 60 score
is_claimed (raise e) = false

scan-eq-contains :
    (dump pattern : Bytes) (limit : ℕ)
    → 0 < length pattern
    → length pattern ≤ default_chunk_size
    → scan dump pattern limit ≡ contains (take limit dump) pattern
unfolding scan
scan-eq-contains dump pattern limit some_bytes fits =
    scan_bytes-eq-contains dump pattern limit default_chunk_size some_bytes fits

ios_points :
    (a b raw : Bool)
    → leb 60
        (min (points a 80 + points b 60 + points (raw && ltb 0 (points a 80 + points b 60)) 10) 100)
      ≡ (a || b)
ios_points true true true = refl
ios_points true true false = refl
ios_points true false true = refl
ios_points true false false = refl
ios_points false true true = refl
ios_points false true false = refl
ios_points false false true = refl
ios_points false false false = refl

iosxe_points :
    (a b c : Bool) → leb 60 (min (points a 80 + points b 50 + points c 20) 100) ≡ (a || (b && c))
iosxe_points true true true = refl
iosxe_points true true false = refl
iosxe_points true false true = refl
iosxe_points true false false = refl
iosxe_points false true true = refl
iosxe_points false true false = refl
iosxe_points false false true = refl
iosxe_points false false false = refl

ios_claimed :
    (dump : Bytes) (limit : ℕ)
    → let a = scan dump CiscoIos.cisco_ios_software limit in
      let b = scan dump CiscoIos.ios_tm limit in
      leb 60 (
        min
          (points a 80
            + points b 60
            + points
                (not (bytes_eq (slice dump 0 4) elf_magic) && ltb 0 (points a 80 + points b 60))
                10)
          100)
      ≡ (contains (take limit dump) CiscoIos.cisco_ios_software
          || contains (take limit dump) CiscoIos.ios_tm)
ios_claimed dump limit =
    ios_points (scan dump CiscoIos.cisco_ios_software limit) (scan dump CiscoIos.ios_tm limit)
      (not (bytes_eq (slice dump 0 4) elf_magic))
    ∙ rw
        (
          scan-eq-contains dump CiscoIos.cisco_ios_software limit (omega arith) (omega arith),
          scan-eq-contains dump CiscoIos.ios_tm limit (omega arith) (omega arith),
        )
        refl

iosxe_claimed :
    (dump : Bytes) (limit : ℕ)
    → let a = scan dump CiscoIosXe.cisco_ios_xe_software limit in
      let b = scan dump CiscoIosXe.iosd limit in
      let c = scan dump CiscoIosXe.linux_version limit in
      is_claimed (
        if not (bytes_eq (slice dump 0 4) elf_magic)
        then ok 0
        else ok (min (points a 80 + points b 50 + points c 20) 100))
      ≡ (bytes_eq (slice dump 0 4) elf_magic
          && (contains (take limit dump) CiscoIosXe.cisco_ios_xe_software
              || (contains (take limit dump) CiscoIosXe.iosd
                  && contains (take limit dump) CiscoIosXe.linux_version)))
iosxe_claimed dump limit =
    let a =
      scan-eq-contains dump CiscoIosXe.cisco_ios_xe_software limit (omega arith) (omega arith) in
    let b = scan-eq-contains dump CiscoIosXe.iosd limit (omega arith) (omega arith) in
    let c = scan-eq-contains dump CiscoIosXe.linux_version limit (omega arith) (omega arith) in
    elim (Bool-cases (bytes_eq (slice dump 0 4) elf_magic)) [
      | inl elf ↦ rw elf (
          iosxe_points (scan dump CiscoIosXe.cisco_ios_xe_software limit)
            (scan dump CiscoIosXe.iosd limit) (scan dump CiscoIosXe.linux_version limit)
          ∙ rw (a, b, c) refl)
      | inr other ↦ rw other refl
    ]

-- The IOS detector claims a dump exactly if its first 32 MB hold "Cisco IOS Software" or
-- "IOS (tm)"; the IOS XE detector exactly if the dump is an ELF file and its first 64 MB hold
-- "Cisco IOS XE Software", or both "IOSd" and "Linux version". Neither raises.
pub claimed_iff :
    (dump : Bytes) (file_size : ℕ)
    → let ios_part = take (CiscoIos.scan_limit file_size) dump in
      let iosxe_part = take (CiscoIosXe.scan_limit file_size) dump in
      (is_claimed (CiscoIos.detect dump file_size)
        ≡ (contains ios_part CiscoIos.cisco_ios_software || contains ios_part CiscoIos.ios_tm))
      × (is_claimed (CiscoIosXe.detect dump file_size) ≡ (
          bytes_eq (slice dump 0 4) elf_magic
          && (contains iosxe_part CiscoIosXe.cisco_ios_xe_software
              || (contains iosxe_part CiscoIosXe.iosd
                  && contains iosxe_part CiscoIosXe.linux_version))))
unfolding CiscoIos.detect CiscoIosXe.detect
claimed_iff dump file_size = (
  ios_claimed dump (CiscoIos.scan_limit file_size),
  iosxe_claimed dump (CiscoIosXe.scan_limit file_size),
)
