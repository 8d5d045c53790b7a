-- ===== src/Progress/Rate.antt =====
-- core/progress.py: the limit of ten events a second.
use vantacore_engine.Prelude.{
  Bool-cases, List, Result, [], arith, false, inl, inr, ltb, ok, raise, refl, true, ℕ, ◌++◌, ◌+◌,
  ◌-◌, ◌<◌, ◌∷◌, ◌≡◌, ◌≤◌,
}
use vantacore_engine.Hooks.{Callback}
use vantacore_engine.Progress.{Bus, after_listener, notify, emit}

abbrev keep_log :
    {World : Type 0} → List ℕ → Result (Unit {0}) × World → Result (Unit {0}) × (List ℕ × World)
keep_log log (r, w) = (r, (log, w))

module _ {World Payload : Type 0} where
  -- A listener that writes down the time it is called with, and leaves the rest.
  abbrev pub recorder : Callback (List ℕ × World) (ℕ × Payload)
  recorder (now, payload) (log, w) = (ok tt, (log ++ (now ∷ []), w))

  -- Any listener beside the recorder: it cannot see the log.
  abbrev pub beside : Callback World Payload → Callback (List ℕ × World) (ℕ × Payload)
  beside listener (now, payload) (log, w) = keep_log log (listener payload w)

  abbrev pub all_beside :
      List (Callback World Payload) → List (Callback (List ℕ × World) (ℕ × Payload))
  all_beside [] = []
  all_beside (listener ∷ listeners) = beside listener ∷ all_beside listeners

  -- The bus with the recorder as its first listener.
  abbrev pub recorded : Bus World Payload → Bus (List ℕ × World) (ℕ × Payload)
  recorded b = record {
    listeners = recorder ∷ all_beside b.listeners;
    last_emit = b.last_emit;
    min_interval = b.min_interval;
  }

-- The times that the listeners of a bus hear of in a sequence of calls of `emit`.
unfoldable pub heard :
    {World Payload : Type 0}
    → List (ℕ × Payload)
    → Bus (List ℕ × World) (ℕ × Payload)
    → World
    → List ℕ
heard [] b w = []
heard ((now, payload) ∷ calls) b w =
    let (r, logged, b') = emit b now (now, payload) ([], w) in logged.0 ++ heard calls b' logged.1

-- Each time is at least `interval` after the one before it.
abbrev pub IsSpaced : ℕ → ℕ → List ℕ → Type 0
IsSpaced interval last [] = Unit {0}
IsSpaced interval last (now ∷ times) = (last + interval ≤ now) × IsSpaced interval now times

module _ {World Payload : Type 0} where
  -- The other listeners leave the log as it is, whatever they do and raise.
  notify-log :
      (listeners : List (Callback World Payload)) (now : ℕ) (payload : Payload) (log : List ℕ)
      (w : World)
      → (notify (all_beside listeners) (now, payload) (log, w)).1.0 ≡ log
  unfolding notify
  notify-log [] now payload log w = refl
  notify-log (listener ∷ listeners) now payload log w =
      after (notify-log listeners now payload log) (listener payload w)
    where
      after :
          ((v : World) → (notify (all_beside listeners) (now, payload) (log, v)).1.0 ≡ log)
          → (out : Result (Unit {0}) × World)
          → (after_listener (keep_log log out) (notify (all_beside listeners) (now, payload))).1.0
            ≡ log
      after ih (raise e, v) = refl
      after ih (ok u, v) = ih v

  notify-recorded :
      (b : Bus World Payload) (now : ℕ) (payload : Payload) (w : World)
      → (notify (recorded b).listeners (now, payload) ([], w)).1.0 ≡ now ∷ []
  unfolding notify
  notify-recorded b now payload w = notify-log b.listeners now payload (now ∷ []) w

  emit_soon :
      (b : Bus World Payload) (now : ℕ) (payload : Payload) (w : World)
      → ltb (now - b.last_emit) b.min_interval ≡ true
      → emit b now payload w ≡ (ok tt, w, b)
  unfolding emit
  emit_soon b now payload w e = rw e refl

  emit_late :
      (b : Bus World Payload) (now : ℕ) (payload : Payload) (w : World)
      → ltb (now - b.last_emit) b.min_interval ≡ false
      → let (r, w') = notify b.listeners payload w in
        emit b now payload w ≡ (r, w', record b { last_emit = now })
  unfolding emit
  emit_late b now payload w e = rw e refl

-- However often `emit` is called on a bus with any listeners, and whatever these do and raise, two
-- times that its first listener hears of are apart by the interval of the bus at least, and so is
-- the first one from the last before.
pub heard-IsSpaced :
    {World Payload : Type 0} (calls : List (ℕ × Payload)) (b : Bus World Payload) (w : World)
    → 0 < b.min_interval
    → IsSpaced b.min_interval b.last_emit (heard calls (recorded b) w)
unfolding heard
heard-IsSpaced [] b w h = tt
heard-IsSpaced ((now, payload) ∷ calls) b w h =
    elim (Bool-cases (ltb (now - b.last_emit) b.min_interval)) [
      | inl soon ↦
          rw (emit_soon (recorded b) now (now, payload) ([], w) soon) (heard-IsSpaced calls b w h)
      | inr late ↦
          let out = notify (recorded b).listeners (now, payload) ([], w) in
          rw
            (
              emit_late (recorded b) now (now, payload) ([], w) late,
              notify-recorded b now payload w,
            )
            (ground arith, heard-IsSpaced calls (record b { last_emit = now }) (out.1).1 h)
    ]
