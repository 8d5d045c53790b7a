-- ===== src/Extractors/Cisco/Acl/Sound.antt =====
-- extractors/cisco/asa/acl_rules.py: the rules that are reported, and the lines they are of.
use vantacore_engine.Prelude.{
  Bool-cases, List, Option-cases, [], inl, inr, length, refl, ℕ, ◌++◌, ◌+◌, ◌∷◌,
}
use vantacore_engine.Bytes.{Bytes}
use vantacore_engine.Paging.{read_at}
use vantacore_engine.Extractors.Keyed.{Distinct, Distinct-append_new, bytes_key, seen}
use vantacore_engine.Extractors.Text.{line_at, split_words}
use vantacore_engine.Extractors.Text.Laws.{line_at-StandsAt}
use vantacore_engine.Extractors.Patterns.{never}
use vantacore_engine.Extractors.Patterns.Keeps.{IsMatch, scan_pattern-keeps, scan_chunks-keeps}
use vantacore_engine.Extractors.Patterns.Places.{StandsAt, IsMatch-StandsAt, StandsAt-chunk}
use vantacore_engine.Extractors.Cisco.Acl.{
  Rule, Search, acl_prefix, is_capped, nothing, parse_rule, run, search, visit_chunk, visit_line,
}
use vantacore_engine.Extractors.Cisco.Acl.Rules.{IsRuleOf, parse_rule-IsRuleOf}

-- The rules are those of the lines, one for each.
abbrev pub AreRulesOf : List Bytes → List Rule → Type 0
AreRulesOf [] [] = Unit {0}
AreRulesOf (line ∷ lines) (rule ∷ rules) = IsRuleOf (split_words line) rule × AreRulesOf lines rules
AreRulesOf [] (rule ∷ rules) = ⊥
AreRulesOf (line ∷ lines) [] = ⊥

AreRulesOf-append :
    (lines : List Bytes) (rules : List Rule) (line : Bytes) (rule : Rule)
    → AreRulesOf lines rules
    → IsRuleOf (split_words line) rule
    → AreRulesOf (lines ++ (line ∷ [])) (rules ++ (rule ∷ []))
AreRulesOf-append [] [] line rule h k = (k, tt)
AreRulesOf-append (l ∷ lines) (r ∷ rules) line rule h k =
    (h.0, AreRulesOf-append lines rules line rule h.1 k)
AreRulesOf-append [] (r ∷ rules) line rule h k = absurd h
AreRulesOf-append (l ∷ lines) [] line rule h k = absurd h

module _ (dump : Bytes) where
  -- A line of the dump, where an access list begins.
  abbrev pub IsLine : Bytes → Type 0
  IsLine line = (offset : ℕ) × (StandsAt dump offset acl_prefix × StandsAt dump offset line)

  abbrev pub AllLines : List Bytes → Type 0
  AllLines [] = Unit {0}
  AllLines (line ∷ lines) = IsLine line × AllLines lines

  AllLines-append :
      (lines : List Bytes) (line : Bytes)
      → AllLines lines
      → IsLine line
      → AllLines (lines ++ (line ∷ []))
  AllLines-append [] line h k = (k, tt)
  AllLines-append (l ∷ lines) line h k = (h.0, AllLines-append lines line h.1 k)

  record IsFound (s : Search) : Type 0 where
    all_lines : AllLines s.seen_rules
    rules : AreRulesOf s.seen_rules s.acl_rules
    distinct : Distinct s.seen_rules

  visit_line-IsFound :
      (line : Bytes) (s : Search) → IsLine line → IsFound s → IsFound (visit_line line s)
  unfolding visit_line
  visit_line-IsFound line s h i = elim (Bool-cases (seen line s.seen_rules)) [
    | inl e ↦ simp e i
    | inr e ↦ elim (Option-cases (parse_rule (split_words line))) [
      | inl e2 ↦ simp (e, e2) i
      | inr (rule, e2) ↦
          simp (e, e2)
            (record {
              all_lines = AllLines-append s.seen_rules line i.all_lines h;
              rules =
                  AreRulesOf-append s.seen_rules s.acl_rules line rule i.rules
                    (parse_rule-IsRuleOf (split_words line) rule e2);
              distinct = Distinct-append_new s.seen_rules line e i.distinct;
            })
    ]
  ]

  line_at-IsLine :
      (offset idx : ℕ)
      → IsMatch acl_prefix (read_at dump offset 65536) idx
      → IsLine (line_at (read_at dump offset 65536) idx 256)
  line_at-IsLine offset idx m =
      let chunk = read_at dump offset 65536 in
      (
        offset + idx,
        (
          StandsAt-chunk dump acl_prefix offset 65536 idx (IsMatch-StandsAt acl_prefix chunk idx m),
          StandsAt-chunk dump (line_at chunk idx 256) offset 65536 idx
              (line_at-StandsAt chunk acl_prefix idx 256 m refl),
        ),
      )

  search-IsFound : IsFound (search dump)
  unfolding search visit_chunk
  search-IsFound =
      scan_chunks-keeps IsFound dump 65536 is_capped visit_chunk
        (λ offset s _ k.
          scan_pattern-keeps IsFound acl_prefix never
            (λ idx. visit_line (line_at (read_at dump offset 65536) idx 256))
            (read_at dump offset 65536)
            (λ idx t m _ j.
              visit_line-IsFound (line_at (read_at dump offset 65536) idx 256) t
                (line_at-IsLine offset idx m) j)
            (length (read_at dump offset 65536) + 1) 0 (record s { hops = s.hops + 1 })
            (record { all_lines = k.all_lines; rules = k.rules; distinct = k.distinct }))
        (length dump + 1) 0 nothing (record { all_lines = tt; rules = tt; distinct = tt })

  -- The rules are those of distinct lines of the dump that begin with "access-list", one for each:
  -- the action is the first word of the line that is permit or deny in any case, the protocol the
  -- word behind it, and of the words behind that none is lost, since source and destination
  -- together are all of them where there are two or more.
  pub acl_rules_lem :
      (lines : List Bytes) × (AllLines lines
        × (Distinct lines × AreRulesOf lines (run dump).acl_rules))
  unfolding run
  acl_rules_lem =
      let i = search-IsFound in ((search dump).seen_rules, (i.all_lines, (i.distinct, i.rules)))
