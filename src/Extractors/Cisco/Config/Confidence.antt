-- ===== src/Extractors/Cisco/Config/Confidence.antt =====
-- extractors/cisco/ios/running_config.py: the sections that are found, and what is said of them.
use vantacore_engine.Prelude.{
  Bool-cases, List, [], drop, inl, inr, length, min, refl, true, ℕ, ◌+◌, ◌-◌, ◌/◌, ◌↔◌, ◌∷◌, ◌≡◌,
  ◌≤◌,
}
use vantacore_engine.Bytes.{Bytes, bytes_eq}
use vantacore_engine.Paging.{read_at}
use vantacore_engine.Extractors.Keyed.{
  Distinct, Distinct-append_new, bytes_key, length-Distinct, number_key, pair_key, seen,
}
use vantacore_engine.Extractors.Text.Laws.{begins, lstrip-begins, strip-StandsAt}
use vantacore_engine.Extractors.Patterns.{never}
use vantacore_engine.Extractors.Patterns.Keeps.{IsMatch, scan_pattern-keeps, scan_chunks-keeps}
use vantacore_engine.Extractors.Patterns.Places.{IsMatch-StandsAt, StandsAt-chunk}
use vantacore_engine.Extractors.Cisco.Config.{
  Search, anchor_sentinels, extract_printable_block, high, in_block, is_capped, join_sections, low,
  medium, not_found, nothing, run, scan_anchors, search, visit_anchor, visit_chunk,
}
use vantacore_engine.Extractors.Cisco.Config.Sections.{
  AllCounted, AllSections, IsFound, add_section-IsFound, level_of-high, level_of-low,
  level_of-medium, level_of-not_found, names,
}

module _ (dump : Bytes) where
  abbrev AllAnchors : List Bytes → Type 0
  AllAnchors [] = Unit {0}
  AllAnchors (a ∷ as_) = ((seen a anchor_sentinels ≡ true) × (begins a ≡ true)) × AllAnchors as_

  anchor_sentinels-AllAnchors : AllAnchors anchor_sentinels
  unfolding bytes_eq
  anchor_sentinels-AllAnchors = (
    (refl, refl),
    (
      (refl, refl),
      ((refl, refl), ((refl, refl), ((refl, refl), ((refl, refl), ((refl, refl), tt))))),
    ),
  )

  visit_anchor-IsFound :
      (offset : ℕ) (anchor : Bytes) (idx : ℕ) (s : Search)
      → (seen anchor anchor_sentinels ≡ true) × (begins anchor ≡ true)
      → IsMatch anchor (read_at dump offset 65536) idx
      → IsFound dump s
      → IsFound dump (visit_anchor offset (read_at dump offset 65536) anchor idx s)
  unfolding visit_anchor extract_printable_block
  visit_anchor-IsFound offset anchor idx s p m i =
      let chunk = read_at dump offset 65536 in
      let bucket : Bytes × ℕ = (anchor, (offset + idx) / 64) in
      let size = min (length chunk) (idx + 4096) - idx in
      elim (Bool-cases (seen bucket s.seen_offsets)) [
        | inl e ↦ simp e i
        | inr e ↦ rw e (
            add_section-IsFound dump anchor (extract_printable_block chunk idx) _ p.0
              (λ some_bytes. (
                offset + idx,
                StandsAt-chunk dump anchor offset 65536 idx (IsMatch-StandsAt anchor chunk idx m),
                some_bytes,
                StandsAt-chunk dump (extract_printable_block chunk idx) offset 65536 idx (
                    strip-StandsAt in_block chunk idx size (extract_printable_block chunk idx)
                      (lstrip-begins in_block (drop idx chunk) anchor size m p.1) refl),
              ))
              (record {
                all_sections = i.all_sections;
                all_counted = i.all_counted;
                anchors = i.anchors;
                distinct_anchors = i.distinct_anchors;
                distinct_buckets = Distinct-append_new s.seen_offsets bucket e i.distinct_buckets;
                none_or_some = i.none_or_some;
              }))
      ]

  scan_anchors-IsFound :
      (offset : ℕ) (anchors : List Bytes) (s : Search)
      → AllAnchors anchors
      → IsFound dump s
      → IsFound dump (scan_anchors offset (read_at dump offset 65536) anchors s)
  unfolding scan_anchors
  scan_anchors-IsFound offset [] s p i = i
  scan_anchors-IsFound offset (anchor ∷ anchors) s p i =
      let chunk = read_at dump offset 65536 in
      scan_anchors-IsFound offset anchors _ p.1 (
        scan_pattern-keeps (IsFound dump) anchor never (visit_anchor offset chunk anchor) chunk
          (λ idx t m _ k. visit_anchor-IsFound offset anchor idx t p.0 m k) (length chunk + 1) 0 s
          i)

  search-IsFound : IsFound dump (search dump)
  unfolding search visit_chunk
  search-IsFound =
      scan_chunks-keeps (IsFound dump) dump 65536 is_capped visit_chunk
        (λ offset s _ k.
          scan_anchors-IsFound offset anchor_sentinels _ anchor_sentinels-AllAnchors (record {
            all_sections = k.all_sections;
            all_counted = k.all_counted;
            anchors = k.anchors;
            distinct_anchors = k.distinct_anchors;
            distinct_buckets = k.distinct_buckets;
            none_or_some = k.none_or_some;
          }))
        (length dump + 1) 0 nothing
        (record {
          all_sections = tt;
          all_counted = tt;
          anchors = tt;
          distinct_anchors = tt;
          distinct_buckets = tt;
          none_or_some = (λ e. e, λ e. e);
        })

  -- The text is that of the sections. Each section is not
  -- empty and stands in the dump at a place of an anchor whose name is counted; each name that is
  -- counted is that of such an anchor, and none is counted twice. There are 7 at most; the
  -- confidence is HIGH exactly from 6 on, MEDIUM exactly for 3 to 5, LOW exactly for 1 and 2, and
  -- NOT_FOUND exactly if there is no section.
  pub config_lem :
      (counted : List Bytes) × (sections : List Bytes) × ((run dump).text ≡ join_sections sections)
      × ((run dump).sections_found ≡ length counted)
      × AllSections dump counted sections
      × AllCounted dump sections counted
      × Distinct counted
      × ((run dump).sections_found ≤ 7)
      × (((run dump).confidence ≡ high) ↔ (6 ≤ (run dump).sections_found))
      × (((run dump).confidence ≡ medium)
          ↔ (3 ≤ (run dump).sections_found) × ((run dump).sections_found ≤ 5))
      × (((run dump).confidence ≡ low)
          ↔ (1 ≤ (run dump).sections_found) × ((run dump).sections_found ≤ 2))
      × (((run dump).confidence ≡ not_found) ↔ (length sections ≡ 0))
  unfolding run
  config_lem =
      let i = search-IsFound in
      let found = (search dump).found_anchors in
      let n = length found in
      let none_found = level_of-not_found n in
      (
        found,
        (search dump).found_sections,
        refl,
        refl,
        i.all_sections,
        i.all_counted,
        i.distinct_anchors,
        length-Distinct found (names anchor_sentinels) i.distinct_anchors i.anchors,
        level_of-high n,
        level_of-medium n,
        level_of-low n,
        (λ e. i.none_or_some.0 (none_found.0 e), λ e. none_found.1 (i.none_or_some.1 e)),
      )
