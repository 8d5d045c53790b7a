-- ===== src/Progress.antt =====
-- core/progress.py: `ProgressEventBus`. Times are in microseconds. A listener may raise: that ends
-- `emit`, since nothing catches it.
pub mod Rate
mod Tests
use vantacore_engine.Prelude.{List, Result, [], if◌then◌else◌, ltb, ok, raise, ℕ, ◌++◌, ◌-◌, ◌∷◌}
use vantacore_engine.Hooks.{Callback}

pub record Bus (World Payload : Type 0) : Type 0 where
  pub listeners : List (Callback World Payload)
  pub last_emit : ℕ
  pub min_interval : ℕ

abbrev pub after_listener :
    {World : Type 0}
    → Result (Unit {0}) × World
    → (World → Result (Unit {0}) × World)
    → Result (Unit {0}) × World
after_listener (raise e, w) rest = (raise e, w)
after_listener (ok u, w) rest = rest w

module _ {World Payload : Type 0} where
  abbrev pub fresh : Bus World Payload
  fresh = record { listeners = []; last_emit = 0; min_interval = 100000 }

  abbrev pub add_listener : Bus World Payload → Callback World Payload → Bus World Payload
  add_listener b callback = record b { listeners = b.listeners ++ (callback ∷ []) }

  unfoldable pub notify :
      List (Callback World Payload) → Payload → World → Result (Unit {0}) × World
  notify [] payload w = (ok tt, w)
  notify (listener ∷ listeners) payload w =
      after_listener (listener payload w) (notify listeners payload)

  -- The bus after `emit`, and what is raised.
  unfoldable pub emit :
      Bus World Payload → ℕ → Payload → World → Result (Unit {0}) × World × Bus World Payload
  unfolding notify
  emit b now payload w =
      if ltb (now - b.last_emit) b.min_interval
      then (ok tt, w, b)
      else let (r, w') = notify b.listeners payload w in (r, w', record b { last_emit = now })
