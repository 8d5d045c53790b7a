-- ===== src/Progress/Tests.antt =====
-- core/progress.py with one listener that writes down what it gets.
use vantacore_engine.Prelude.{List, [], arith, ok, raise, refl, value_error, ℕ, ◌++◌, ◌∷◌, ◌≡◌}
use vantacore_engine.Progress.{Bus, fresh, add_listener, emit, notify}
use vantacore_engine.Progress.Rate.{IsSpaced, heard, heard-IsSpaced, recorded}

abbrev listening : Bus (List ℕ) ℕ
listening = add_listener fresh (λ payload w. (ok tt, w ++ (payload ∷ [])))

abbrev failing : Bus (List ℕ) ℕ
failing =
    add_listener (add_listener fresh (λ payload w. (raise value_error, w)))
      (λ payload w. (ok tt, w ++ (payload ∷ [])))

abbrev calls : List (ℕ × ℕ)
calls = (200000, 1) ∷ (250000, 2) ∷ (300000, 3) ∷ (390000, 4) ∷ (900000, 5) ∷ []

drops_fast : heard calls (recorded listening) [] ≡ 200000 ∷ 300000 ∷ 900000 ∷ []
unfolding heard emit notify
drops_fast = refl

-- The second listener hears nothing.
raises : (emit failing 200000 7 []).0 ≡ raise value_error
unfolding emit
raises = refl

heard-IsSpaced_example : IsSpaced 100000 0 (heard calls (recorded listening) [])
heard-IsSpaced_example = heard-IsSpaced calls listening [] (omega arith)
