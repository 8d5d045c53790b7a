-- ===== src/Hooks.antt =====
-- core/hooks.py: `HookFramework`. A callback is what it does to the world outside, and it may
-- raise after that.
pub mod Laws
mod Tests
use Prim.Native.String.{String}
use vantacore_engine.Prelude.{List, Option, Result, [], none, some, ◌++◌, ◌∷◌}
use vantacore_engine.Prelude.Equality.{Eq, string_eq}
use vantacore_engine.Table.{select, insert_or_replace}

abbrev pub Callback : Type 0 → Type 0 → Type 0
Callback World Args = Args → World → Result (Unit {0}) × World

-- The dictionary of callbacks; an event without an entry has none.
abbrev pub Registry : Type 0 → Type 0 → Type 0
Registry World Args = List (String × List (Callback World Args))

abbrev pub or_empty : {A : Type 0} → Option (List A) → List A
or_empty none = []
or_empty (some xs) = xs

module _ {World Args : Type 0} where
  unfoldable pub callbacks_of : Registry World Args → String → List (Callback World Args)
  unfolding select
  callbacks_of r event_name = or_empty (select event_name r)

  unfoldable pub register : Registry World Args → String → Callback World Args → Registry World Args
  unfolding callbacks_of insert_or_replace
  register r event_name callback =
      insert_or_replace event_name (callbacks_of r event_name ++ (callback ∷ [])) r

  -- What a callback raises is logged, and the next one runs.
  unfoldable pub run_callbacks : List (Callback World Args) → Args → World → World
  run_callbacks [] kwargs w = w
  run_callbacks (cb ∷ cbs) kwargs w = run_callbacks cbs kwargs (cb kwargs w).1

  unfoldable pub emit : Registry World Args → String → Args → World → World
  unfolding callbacks_of run_callbacks
  emit r event_name kwargs w = run_callbacks (callbacks_of r event_name) kwargs w
