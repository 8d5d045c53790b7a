-- ===== src/Cli/Commands.antt =====
-- cli.py: what `_cmd_detect` says of a dump.
use vantacore_engine.Prelude.{
  Bool, Exception, List, Option, Result, [], ap, inl, inr, length, none, ok, raise, refl, some,
  subst, ℕ, ◌∷◌, ◌≡◌, ◌≤◌, ◌⊎◌,
}
use vantacore_engine.Bytes.{Bytes}
use vantacore_engine.Architecture
use vantacore_engine.Architecture.{TranslationBackend}
use vantacore_engine.Appliances.CiscoAsa.{Segment}
use vantacore_engine.Appliances.Registry
use vantacore_engine.Appliances.Registry.{Detector, PlatformName, generic_flat, auto_discover}
use vantacore_engine.Appliances.Best.{AllBelow, IsFirstBest, IsVerdict, detect-IsVerdict}
use vantacore_engine.Entropy
use vantacore_engine.Entropy.{MsrNote}
use vantacore_engine.Cli.{
  Detection, Exit, choose, cmd_detect, detect_dump, opened, succeeded, with_confidence,
}

module _ (dump : Bytes) (file_size : ℕ) where
  first_best-score :
      (ds : List Detector) (d : Detector) (s : ℕ)
      → IsFirstBest dump file_size ds d s
      → d.score_of dump file_size ≡ ok s
  first_best-score [] d s h = absurd h
  first_best-score (e ∷ ds) d s (inl (same, (score, rest))) =
      subst (λ x. x.score_of dump file_size ≡ ok s) same score
  first_best-score (e ∷ ds) d s (inr (below, first)) = first_best-score ds d s first

module _ (segments : Bytes → List Segment) (dump : Bytes) where
  abbrev pub detectors : List Detector
  detectors = auto_discover segments

  -- The platform and the confidence that are printed: those of the first best detector, of 0.6 at
  -- least, or the fallback where none reaches 0.6.
  abbrev pub IsChosen : PlatformName → ℕ → Type 0
  IsChosen name s =
      ((d : Detector) × ((d.platform_name ≡ name)
          × ((60 ≤ s) × IsFirstBest dump (length dump) detectors d s)))
      ⊎ ((name ≡ generic_flat) × ((s ≡ 10) × AllBelow dump (length dump) detectors 60))

  chosen :
      (found : Option Detector)
      → IsVerdict dump (length dump) detectors found
      → (p : PlatformName × ℕ) × ((choose found dump ≡ ok p) × IsChosen p.0 (p.1))
  chosen none h = ((generic_flat, 10), (refl, inr (refl, (refl, h))))
  chosen (some d) (s, (enough, first)) = (
    (d.platform_name, s),
    (
      ap (with_confidence d.platform_name)
          (first_best-score dump (length dump) detectors d s first),
      inl (d, (refl, (enough, first))),
    ),
  )

  choose-IsChosen :
      (p : PlatformName × ℕ) × ((choose (Registry.detect detectors dump (length dump)) dump ≡ ok p)
        × IsChosen p.0 (p.1))
  choose-IsChosen = chosen _ (detect-IsVerdict dump (length dump) detectors)

  module _ (is_high : Bytes → Bool) (notes : Bytes → List MsrNote) where
    -- A detection that has this backend and the chosen platform.
    abbrev pub IsDetection : TranslationBackend → Detection → Type 0
    IsDetection b d =
        (d.backend ≡ b)
        × ((d.likely_encrypted ≡ (Entropy.detect is_high notes dump (length dump)).likely_encrypted)
            × IsChosen d.platform_name d.confidence)

    detect_dump_raised :
        (e : Exception)
        → Architecture.detect dump ≡ raise e
        → detect_dump is_high notes segments dump ≡ raise e
    unfolding detect_dump
    detect_dump_raised e h = rw ((choose-IsChosen).1.0, h) refl

    detect_dump_found :
        (b : TranslationBackend)
        → Architecture.detect dump ≡ ok b
        → (d : Detection) × ((detect_dump is_high notes segments dump ≡ ok d) × IsDetection b d)
    unfolding detect_dump
    detect_dump_found b h = (
      record {
        platform_name = (choose-IsChosen).0.0;
        confidence = ((choose-IsChosen).0).1;
        backend = b;
        likely_encrypted = (Entropy.detect is_high notes dump (length dump)).likely_encrypted;
      },
      (rw ((choose-IsChosen).1.0, h) refl, (refl, (refl, (choose-IsChosen).1.1))),
    )

module _ (is_high : Bytes → Bool) (notes : Bytes → List MsrNote) (segments : Bytes → List Segment)
    (dump : Bytes) where
  abbrev pub detected : Result (Exit Detection)
  detected = cmd_detect is_high notes segments (opened dump)

  abbrev pub IsDetected : Result TranslationBackend → Type 0
  IsDetected (raise e) = detected ≡ raise e
  IsDetected (ok b) =
      (d : Detection) × (IsDetection segments dump is_high notes b d
        × (detected ≡ ok (succeeded d)))

  verdict_of : (a : Result TranslationBackend) → Architecture.detect dump ≡ a → IsDetected a
  unfolding cmd_detect
  verdict_of (raise e) h = rw (detect_dump_raised segments dump is_high notes e h) refl
  verdict_of (ok b) h =
      let found = detect_dump_found segments dump is_high notes b h in
      (found.0, (found.1.1, rw (found.1.0) refl))

  -- On a file that opens, `detect` raises just what the detection of the architecture raises, or it
  -- ends with status 0 and prints the backend that this gives, whether the dump may be encrypted,
  -- and the first of the best detectors with its confidence, if this is 0.6 at least, or the
  -- fallback with 0.1 if no detector reaches that.
  pub cmd_detect_lem : IsDetected (Architecture.detect dump)
  cmd_detect_lem = verdict_of (Architecture.detect dump) refl
