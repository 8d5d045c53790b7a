-- ===== src/Appliances/Pattern.antt =====
-- core/backends/appliances/cisco_ios.py: `_scan_bytes`, which cisco_asa.py and cisco_iosxe.py hold
-- word for word too. It works in chunks that overlap by one byte less than the pattern has.
use vantacore_engine.Prelude.{
  Bool, false, if◌then◌else◌, leb, length, ltb, min, suc, true, zero, ℕ, ◌&&◌, ◌*◌, ◌+◌, ◌-◌, ◌==◌,
}
use vantacore_engine.Bytes.{Bytes, find}
use vantacore_engine.Bytes.Find.{is_found}
use vantacore_engine.Paging.{read_at}

-- The default of `chunk_size`.
abbrev pub default_chunk_size : ℕ
default_chunk_size = 4 * 1024 * 1024

-- How far the handle goes back behind a chunk of `size` bytes: a full one may end inside a match.
abbrev pub step_back : ℕ → ℕ → ℕ → ℕ
step_back chunk_size overlap size = if (size == chunk_size) && ltb 0 overlap then overlap else 0

-- The loop, from the position of the handle and the count of bytes read.
unfoldable pub scan_loop : ℕ → Bytes → Bytes → ℕ → ℕ → ℕ → ℕ → Bool
scan_loop zero dump pattern max_bytes chunk_size position read_total = false
scan_loop (suc fuel) dump pattern max_bytes chunk_size position read_total =
    let overlap = length pattern - 1 in
    let chunk = read_at dump position (min chunk_size (max_bytes - read_total)) in
    let back = step_back chunk_size overlap (length chunk) in
    let rest =
      scan_loop fuel dump pattern max_bytes chunk_size (position + length chunk - back)
        (read_total + length chunk - back) in
    if leb max_bytes read_total
    then false
    else if length chunk == 0
    then false
    else if is_found (find chunk pattern)
    then true
    else rest

-- The handle is put back to the start in the end. A round moves on by one byte at least.
unfoldable pub scan_bytes : Bytes → Bytes → ℕ → ℕ → Bool
unfolding scan_loop
scan_bytes dump pattern max_bytes chunk_size =
    scan_loop (max_bytes + 1) dump pattern max_bytes chunk_size 0 0
