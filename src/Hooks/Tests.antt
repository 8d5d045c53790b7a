-- ===== src/Hooks/Tests.antt =====
-- core/hooks.py with callbacks that write a number.
use Prim.Native.String.{String}
use vantacore_engine.Prelude.{List, [], ok, raise, refl, value_error, ℕ, ◌++◌, ◌+◌, ◌∷◌, ◌≡◌}
use vantacore_engine.Prelude.Equality.{string_eq}
use vantacore_engine.Table.{select}
use vantacore_engine.Hooks.{Callback, register, emit}
use vantacore_engine.Hooks.Laws.{register_all}

abbrev writing : ℕ → Callback (List ℕ) ℕ
writing n = λ kwargs w. (ok tt, w ++ ((n + kwargs) ∷ []))

abbrev failing : ℕ → Callback (List ℕ) ℕ
failing n = λ kwargs w. (raise value_error, w ++ ((n + kwargs) ∷ []))

abbrev registrations : List (String × Callback (List ℕ) ℕ)
registrations =
    ("on_node_discovered", failing 10)
    ∷ ("on_scan_complete", writing 20)
    ∷ ("on_node_discovered", writing 30)
    ∷ []

emits : emit (register_all registrations []) "on_node_discovered" 1 [] ≡ 11 ∷ 31 ∷ []
unfolding emit register register_all select
emits = refl
