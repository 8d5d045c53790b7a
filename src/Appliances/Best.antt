-- ===== src/Appliances/Best.antt =====
-- core/backends/appliances/registry.py: what `detect` chooses.
use vantacore_engine.Prelude.{
  Bool-cases, Exception, List, Option, Result, [], ap, arith, inl, inr, leb, ltb, none, ok, raise,
  refl, some, sym, ℕ, ◌<◌, ◌∷◌, ◌≡◌, ◌≤◌, ◌⊎◌,
}
use vantacore_engine.Bytes.{Bytes}
use vantacore_engine.Appliances.Registry.{
  Detector, Scored, run_all, qualified, max_by_score, best_of, detect,
}

-- A detector that raises has no score.
abbrev IsAtMost : Result ℕ → ℕ → Type 0
IsAtMost (ok x) s = x ≤ s
IsAtMost (raise e) s = Unit {0}

abbrev IsBelow : Result ℕ → ℕ → Type 0
IsBelow (ok x) s = x < s
IsBelow (raise e) s = Unit {0}

IsBelow-trans : (r : Result ℕ) {s t : ℕ} → IsBelow r s → s ≤ t → IsBelow r t
IsBelow-trans (ok x) h le = omega arith
IsBelow-trans (raise e) h le = tt

Result-cases : (r : Result ℕ) → ((x : ℕ) × (r ≡ ok x)) ⊎ ((e : Exception) × (r ≡ raise e))
Result-cases (ok x) = inl (x, refl)
Result-cases (raise e) = inr (e, refl)

module _ (dump : Bytes) (file_size : ℕ) where
  abbrev pub AllAtMost : List Detector → ℕ → Type 0
  AllAtMost [] s = Unit {0}
  AllAtMost (d ∷ ds) s = IsAtMost (d.score_of dump file_size) s × AllAtMost ds s

  abbrev pub AllBelow : List Detector → ℕ → Type 0
  AllBelow [] s = Unit {0}
  AllBelow (d ∷ ds) s = IsBelow (d.score_of dump file_size) s × AllBelow ds s

  -- `d` stands in the list with score `s`, the ones before it score less, the ones behind it no
  -- more.
  abbrev pub IsFirstBest : List Detector → Detector → ℕ → Type 0
  IsFirstBest [] d s = ⊥
  IsFirstBest (e ∷ ds) d s =
      ((e ≡ d) × ((e.score_of dump file_size ≡ ok s) × AllAtMost ds s))
      ⊎ (IsBelow (e.score_of dump file_size) s × IsFirstBest ds d s)

  abbrev pub IsVerdict : List Detector → Option Detector → Type 0
  IsVerdict ds none = AllBelow ds 60
  IsVerdict ds (some d) = (s : ℕ) × ((60 ≤ s) × IsFirstBest ds d s)

  IsOutcome : List Detector → Scored → Scored → Type 0
  IsOutcome ds best found =
      ((found ≡ best) × AllAtMost ds best.0)
      ⊎ ((best.0 < found.0) × IsFirstBest ds (found.1) (found.0))

  step_raised :
      (d : Detector) (ds : List Detector) (best found : Scored) (e : Exception)
      → d.score_of dump file_size ≡ raise e
      → IsOutcome ds best found
      → IsOutcome (d ∷ ds) best found
  unfolding IsOutcome
  step_raised d ds best found e h (inl (same, rest)) = inl (same, rw h (tt, rest))
  step_raised d ds best found e h (inr (more, first)) = inr (more, inr (rw h tt, first))

  step_less :
      (d : Detector) (ds : List Detector) (best found : Scored) (x : ℕ)
      → d.score_of dump file_size ≡ ok x
      → x ≤ best.0
      → IsOutcome ds best found
      → IsOutcome (d ∷ ds) best found
  unfolding IsOutcome
  step_less d ds best found x h le (inl (same, rest)) = inl (same, rw h (le, rest))
  step_less d ds best found x h le (inr (more, first)) = inr (more, inr (rw h (omega arith), first))

  step_more :
      (d : Detector) (ds : List Detector) (best found : Scored) (x : ℕ)
      → d.score_of dump file_size ≡ ok x
      → best.0 < x
      → IsOutcome ds (x, d) found
      → IsOutcome (d ∷ ds) best found
  unfolding IsOutcome
  step_more d ds best found x h lt (inl (same, rest)) =
      inr (rw same lt, inl (rw same refl, (rw same h, rw same rest)))
  step_more d ds best found x h lt (inr (more, first)) = inr (omega arith, inr (rw h more, first))

  best_behind :
      (ds : List Detector) (best : Scored)
      → 60 ≤ best.0
      → IsOutcome ds best (max_by_score best (qualified (run_all ds dump file_size)))
  unfolding run_all qualified max_by_score
  best_behind [] best h = unfold IsOutcome in inl (refl, tt)
  best_behind (d ∷ ds) best h = elim (Result-cases (d.score_of dump file_size)) [
    | inl (x, e) ↦ elim (Bool-cases (leb 60 x)) [
      | inl much ↦ elim (Bool-cases (ltb best.0 x)) [
        | inl more ↦
            step_more d ds best _ x e (ground arith)
              (rw (e, much, max_by_score, more) (best_behind ds (x, d) (ground arith)))
        | inr less ↦
            step_less d ds best _ x e (ground arith)
              (rw (e, much, max_by_score, less) (best_behind ds best h))
      ]
      | inr little ↦
          step_less d ds best _ x e (ground arith) (rw (e, little) (best_behind ds best h))
    ]
    | inr (x, e) ↦ step_raised d ds best _ x e (rw e (best_behind ds best h))
  ]

  IsVerdict-skip :
      (d : Detector) (ds : List Detector) (found : Option Detector)
      → IsBelow (d.score_of dump file_size) 60
      → IsVerdict ds found
      → IsVerdict (d ∷ ds) found
  IsVerdict-skip d ds none h rest = (h, rest)
  IsVerdict-skip d ds (some f) h (s, (enough, first)) =
      (s, (enough, inr (IsBelow-trans (d.score_of dump file_size) h enough, first)))

  IsVerdict-first :
      (d : Detector) (ds : List Detector) (found : Scored) (x : ℕ)
      → d.score_of dump file_size ≡ ok x
      → 60 ≤ x
      → IsOutcome ds (x, d) found
      → IsVerdict (d ∷ ds) (some (found.1))
  unfolding IsOutcome
  IsVerdict-first d ds found x h enough (inl (same, rest)) =
      (x, (enough, inl (sym (ap (λ p. p.1) same), (h, rest))))
  IsVerdict-first d ds found x h enough (inr (more, first)) =
      (found.0, (omega arith, inr (rw h more, first)))

  verdict : (ds : List Detector) → IsVerdict ds (best_of (qualified (run_all ds dump file_size)))
  unfolding run_all qualified
  verdict [] = tt
  verdict (d ∷ ds) = elim (Result-cases (d.score_of dump file_size)) [
    | inl (x, e) ↦ elim (Bool-cases (leb 60 x)) [
      | inl much ↦
          rw (e, much)
            (IsVerdict-first d ds _ x e (ground arith) (best_behind ds (x, d) (ground arith)))
      | inr little ↦ IsVerdict-skip d ds _ (rw e (ground arith)) (rw (e, little) (verdict ds))
    ]
    | inr (x, e) ↦ IsVerdict-skip d ds _ (rw e tt) (rw e (verdict ds))
  ]

-- `detect` answers the first of the registered detectors whose confidence is greatest among those
-- that do not raise, and that one reaches 0.6; it answers none exactly if every detector raises or
-- stays below 0.6.
pub detect-IsVerdict :
    (dump : Bytes) (file_size : ℕ) (ds : List Detector)
    → IsVerdict dump file_size ds (detect ds dump file_size)
unfolding detect
detect-IsVerdict dump file_size ds = verdict dump file_size ds
