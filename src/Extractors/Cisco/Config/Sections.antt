-- ===== src/Extractors/Cisco/Config/Sections.antt =====
-- extractors/cisco/ios/running_config.py: the sections and the anchors of the search.
use vantacore_engine.Prelude.{
  Bool-cases, List, [], ap, arith, inl, inr, length, length-append, refl, true, ℕ, ◌++◌, ◌<◌, ◌↔◌,
  ◌∷◌, ◌≡◌, ◌≤◌,
}
use vantacore_engine.Bytes.{Bytes, bytes_eq}
use vantacore_engine.Bytes.Laws.{bytes_eq_iff}
use vantacore_engine.Extractors.Keyed.{
  AllIn, AllIn-append, Distinct, Distinct-append_new, bytes_key, number_key, pair_key, seen,
  seen-append,
}
use vantacore_engine.Extractors.Text.{is_space, strip}
use vantacore_engine.Extractors.Patterns.Places.{StandsAt}
use vantacore_engine.Extractors.Cisco.Config.{
  Search, add_section, anchor_sentinels, high, level_of, low, medium, not_found,
}

-- The names of the anchors: without the blank behind them.
abbrev pub names : List Bytes → List Bytes
names [] = []
names (anchor ∷ anchors) = strip is_space anchor ∷ names anchors

seen-names :
    (anchor : Bytes) (anchors : List Bytes)
    → seen anchor anchors ≡ true
    → seen (strip is_space anchor) (names anchors) ≡ true
seen-names anchor [] h = h
seen-names anchor (a ∷ anchors) h = elim (Bool-cases (bytes_eq a anchor)) [
  | inl e ↦ ground (
    arith,
    (bytes_eq_iff (strip is_space a) (strip is_space anchor)).1
        (ap (strip is_space) ((bytes_eq_iff a anchor).0 e)),
  )
  | inr e ↦ ground (arith, seen-names anchor anchors (rw e at h))
]

seen-last : (x : Bytes) (xs : List Bytes) → seen x (xs ++ (x ∷ [])) ≡ true
seen-last x xs = ground (arith, seen-append x x xs, (bytes_eq_iff x x).1 refl)

some_anchor : (name : Bytes) (found : List Bytes) → seen name found ≡ true → 0 < length found
some_anchor name [] h = ground (arith, h)
some_anchor name (x ∷ found) h = omega arith

pub level_of-high : (n : ℕ) → (level_of n ≡ high) ↔ (6 ≤ n)
unfolding level_of
level_of-high n = ground arith

pub level_of-medium : (n : ℕ) → (level_of n ≡ medium) ↔ (3 ≤ n) × (n ≤ 5)
unfolding level_of
level_of-medium n = ground arith

pub level_of-low : (n : ℕ) → (level_of n ≡ low) ↔ (1 ≤ n) × (n ≤ 2)
unfolding level_of
level_of-low n = ground arith

pub level_of-not_found : (n : ℕ) → (level_of n ≡ not_found) ↔ (n ≡ 0)
unfolding level_of
level_of-not_found n = ground arith

module _ (dump : Bytes) where
  -- A section is not empty and stands in the dump where one of the anchors does, whose name is
  -- among those that are counted.
  abbrev pub IsSection : List Bytes → Bytes → Type 0
  IsSection counted text =
      (offset : ℕ) × (anchor : Bytes) × (seen anchor anchor_sentinels ≡ true)
      × (seen (strip is_space anchor) counted ≡ true)
      × StandsAt dump offset anchor
      × (0 < length text)
      × StandsAt dump offset text

  abbrev pub AllSections : List Bytes → List Bytes → Type 0
  AllSections counted [] = Unit {0}
  AllSections counted (text ∷ texts) = IsSection counted text × AllSections counted texts

  -- A name that is counted is that of an anchor in the dump, where one of the sections stands.
  abbrev pub IsCounted : List Bytes → Bytes → Type 0
  IsCounted sections name =
      (offset : ℕ) × (anchor : Bytes) × (text : Bytes) × (seen anchor anchor_sentinels ≡ true)
      × (strip is_space anchor ≡ name)
      × StandsAt dump offset anchor
      × StandsAt dump offset text
      × (seen text sections ≡ true)

  abbrev pub AllCounted : List Bytes → List Bytes → Type 0
  AllCounted sections [] = Unit {0}
  AllCounted sections (name ∷ rest) = IsCounted sections name × AllCounted sections rest

  AllSections-append :
      (counted texts : List Bytes) (text : Bytes)
      → AllSections counted texts
      → IsSection counted text
      → AllSections counted (texts ++ (text ∷ []))
  AllSections-append counted [] text h k = (k, tt)
  AllSections-append counted (t ∷ texts) text h k =
      (h.0, AllSections-append counted texts text h.1 k)

  AllSections-count :
      (counted texts : List Bytes) (name : Bytes)
      → AllSections counted texts
      → AllSections (counted ++ (name ∷ [])) texts
  AllSections-count counted [] name h = tt
  AllSections-count counted (t ∷ texts) name
        ((offset, anchor, known, held, here, filled, there), more) =
      (
        (
          offset,
          anchor,
          known,
          ground (arith, held, seen-append (strip is_space anchor) name counted),
          here,
          filled,
          there,
        ),
        AllSections-count counted texts name more,
      )

  AllCounted-append :
      (sections counted : List Bytes) (name : Bytes)
      → AllCounted sections counted
      → IsCounted sections name
      → AllCounted sections (counted ++ (name ∷ []))
  AllCounted-append sections [] name h k = (k, tt)
  AllCounted-append sections (n ∷ counted) name h k =
      (h.0, AllCounted-append sections counted name h.1 k)

  AllCounted-section :
      (sections counted : List Bytes) (text : Bytes)
      → AllCounted sections counted
      → AllCounted (sections ++ (text ∷ [])) counted
  AllCounted-section sections [] text h = tt
  AllCounted-section sections (n ∷ counted) text
        ((offset, anchor, t, known, name, here, there, held), more) =
      (
        (
          offset,
          anchor,
          t,
          known,
          name,
          here,
          there,
          ground (arith, held, seen-append t text sections),
        ),
        AllCounted-section sections counted text more,
      )

  pub record IsFound (s : Search) : Type 0 where
    pub all_sections : AllSections s.found_anchors s.found_sections
    pub all_counted : AllCounted s.found_sections s.found_anchors
    pub anchors : AllIn s.found_anchors (names anchor_sentinels)
    pub distinct_anchors : Distinct s.found_anchors
    pub distinct_buckets : Distinct s.seen_offsets
    pub none_or_some : (length s.found_anchors ≡ 0) ↔ (length s.found_sections ≡ 0)

  -- Where the text of a section and its anchor stand.
  abbrev pub IsPlaced : Bytes → Bytes → Type 0
  IsPlaced anchor text =
      (offset : ℕ) × StandsAt dump offset anchor × (0 < length text) × StandsAt dump offset text

  pub add_section-IsFound :
      (anchor text : Bytes) (s : Search)
      → seen anchor anchor_sentinels ≡ true
      → (0 < length text → IsPlaced anchor text)
      → IsFound s
      → IsFound (add_section anchor text s)
  add_section-IsFound anchor [] s p h i = i
  add_section-IsFound anchor (c ∷ text) s p h i =
      let name = strip is_space anchor in
      let (offset, here, filled, there) = h (omega arith) in
      let more = AllCounted-section s.found_sections s.found_anchors (c ∷ text) i.all_counted in
      elim (Bool-cases (seen name s.found_anchors)) [
        | inl e ↦ simp e (record {
          all_sections =
              AllSections-append s.found_anchors s.found_sections (c ∷ text) i.all_sections
                (offset, anchor, p, e, here, filled, there);
          all_counted = more;
          anchors = i.anchors;
          distinct_anchors = i.distinct_anchors;
          distinct_buckets = i.distinct_buckets;
          none_or_some = ground (
            arith,
            length-append s.found_sections ((c ∷ text) ∷ []),
            some_anchor name s.found_anchors e,
          );
        })
        | inr e ↦ simp e (record {
          all_sections =
              AllSections-append (s.found_anchors ++ (name ∷ [])) s.found_sections (c ∷ text)
                (AllSections-count s.found_anchors s.found_sections name i.all_sections)
                (offset, anchor, p, seen-last name s.found_anchors, here, filled, there);
          all_counted =
              AllCounted-append (s.found_sections ++ ((c ∷ text) ∷ [])) s.found_anchors name more (
                offset,
                anchor,
                c ∷ text,
                p,
                refl,
                here,
                there,
                seen-last (c ∷ text) s.found_sections,
              );
          anchors =
              AllIn-append s.found_anchors (names anchor_sentinels) name i.anchors
                (seen-names anchor anchor_sentinels p);
          distinct_anchors = Distinct-append_new s.found_anchors name e i.distinct_anchors;
          distinct_buckets = i.distinct_buckets;
          none_or_some = ground (
            arith,
            length-append s.found_sections ((c ∷ text) ∷ []),
            length-append s.found_anchors (name ∷ []),
          );
        })
      ]
