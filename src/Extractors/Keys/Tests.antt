-- ===== src/Extractors/Keys/Tests.antt =====
-- extractors/generic/keys.py on a few windows.
use vantacore_engine.Prelude.{
  Option, [], arith, if◌then◌else◌, length, none, refl, replicate, some, ℕ, ◌/◌, ◌==◌, ◌∷◌, ◌≡◌,
}
use vantacore_engine.Bytes.{Bytes}
use vantacore_engine.Extractors.Keys.{run}
use vantacore_engine.Extractors.Keys.Flat.{regions, run-eq-regions}

-- A window that begins with a 9 has the entropy 7.5.
abbrev nines : Bytes → Option ℕ
nines [] = none
nines (b ∷ bs) = if b == 9 then some 75000 else none

abbrev one_window : Bytes
one_window = 9 ∷ replicate 260 1

finds : run nines one_window ≡ (record { offset = 0; size = 256; entropy = 75000 }) ∷ []
unfolding run
finds = refl

run-eq-regions_example : run nines one_window ≡ regions nines one_window (length one_window / 256) 0
run-eq-regions_example = run-eq-regions nines one_window (omega arith)
