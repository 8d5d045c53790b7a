-- ===== src/Extractors/Cisco/Acl/Rules.antt =====
-- extractors/cisco/asa/acl_rules.py: what a rule keeps of its line.
use mathlib.Core.List.{append_assoc}
use vantacore_engine.Prelude.{
  Bool-cases, List, Option-cases, [], ap, arith, drop, false, inl, inr, length, length-drop,
  length-take, ltb, refl, some, subst, sym, take, take-append-drop, true, ◌++◌, ◌/◌, ◌<◌, ◌∙◌, ◌∷◌,
  ◌≡◌,
}
use vantacore_engine.Bytes.{Bytes, bytes_eq}
use vantacore_engine.Bytes.Laws.{bytes_eq_iff}
use vantacore_engine.Extractors.Cisco.Acl.{
  Rule, any, find_action, host, is_action, join, lower, name_of, parse_rule, protocol_of, rule_with,
  split_rest,
}

join-append :
    (xs ys : List Bytes)
    → 0 < length xs
    → 0 < length ys
    → join (xs ++ ys) ≡ join xs ++ (32 ∷ join ys)
unfolding join
join-append [] ys h k = absurd (omega arith)
join-append (x ∷ []) [] h k = absurd (omega arith)
join-append (x ∷ []) (y ∷ ys) h k = refl
join-append (x ∷ z ∷ xs) ys h k =
    ap (λ t. x ++ (32 ∷ t)) (join-append (z ∷ xs) ys (omega arith) k)
    ∙ sym (append_assoc x (32 ∷ join (z ∷ xs)) (32 ∷ join ys))

-- Where there are two words at least, source and destination together are all of them.
split_rest-join :
    (a b : Bytes) (rest : List Bytes)
    → (split_rest (a ∷ b ∷ rest)).0 ++ (32 ∷ (split_rest (a ∷ b ∷ rest)).1) ≡ join (a ∷ b ∷ rest)
unfolding split_rest
split_rest-join a b [] = unfold join in refl
split_rest-join a b (c ∷ rest) = elim (Bool-cases (bytes_eq a any)) [
  | inl e ↦
      let same = (bytes_eq_iff a any).0 e in
      rw e (unfold join in ap (λ t. t ++ (32 ∷ join (b ∷ c ∷ rest))) (sym same))
  | inr e ↦ elim (Bool-cases (bytes_eq a host)) [
    | inl e2 ↦
        let same = (bytes_eq_iff a host).0 e2 in
        rw (e, e2)
          (append_assoc host (32 ∷ b) (32 ∷ join (c ∷ rest))
            ∙ (unfold join in ap (λ t. t ++ (32 ∷ b ++ (32 ∷ join (c ∷ rest)))) (sym same)))
    | inr e2 ↦
        let half = length (a ∷ b ∷ c ∷ rest) / 2 in
        let words : List Bytes = a ∷ b ∷ c ∷ rest in
        rw (e, e2)
          (sym (
              join-append (take half words) (drop half words)
                (omega (arith, length-take half words)) (omega (arith, length-drop half words)))
            ∙ ap join (take-append-drop half words))
  ]
]

abbrev pub NoActions : List Bytes → Type 0
NoActions [] = Unit {0}
NoActions (word ∷ words) = (is_action word ≡ false) × NoActions words

find_action-split :
    (tokens : List Bytes) (action : Bytes) (behind : List Bytes)
    → find_action tokens ≡ some (action, behind)
    → (before : List Bytes) × (token : Bytes) × (tokens ≡ before ++ (token ∷ behind))
      × NoActions before
      × (is_action token ≡ true)
      × (lower token ≡ action)
unfolding find_action
find_action-split [] action behind h = ground (arith, h)
find_action-split (t ∷ tokens) action behind h = elim (Bool-cases (is_action t)) [
  | inl e ↦
      let mine : Bytes × List Bytes = (lower t, tokens) in
      let same : mine ≡ (action, behind) = ground (arith, rw e at h) in
      ([], t, ap (λ p. t ∷ p.1) same, tt, e, ap (λ p. p.0) same)
  | inr e ↦
      let (before, token, parts, none_before, hit, low) =
        find_action-split tokens action behind (rw e at h) in
      (t ∷ before, token, ap (λ ts. t ∷ ts) parts, (e, none_before), hit, low)
]

-- What is behind the protocol, written as source and destination.
abbrev pub IsRest : List Bytes → Bytes → Bytes → Type 0
IsRest [] source destination = (source ≡ any) × (destination ≡ any)
IsRest (a ∷ []) source destination = (source ≡ a) × (destination ≡ any)
IsRest (a ∷ b ∷ rest) source destination = source ++ (32 ∷ destination) ≡ join (a ∷ b ∷ rest)

split_rest-IsRest : (rest : List Bytes) → IsRest rest (split_rest rest).0 ((split_rest rest).1)
split_rest-IsRest [] = unfold split_rest in (refl, refl)
split_rest-IsRest (a ∷ []) = unfold split_rest in (refl, refl)
split_rest-IsRest (a ∷ b ∷ rest) = split_rest-join a b rest

-- The words of a line around its first action.
abbrev pub IsRuleOf : List Bytes → Rule → Type 0
IsRuleOf tokens r =
    (before : List Bytes) × (token : Bytes) × (behind : List Bytes) × (tokens
      ≡ before ++ (token ∷ behind))
    × NoActions before
    × (is_action token ≡ true)
    × (lower token ≡ r.action)
    × (r.acl_name ≡ name_of tokens)
    × (r.protocol ≡ protocol_of behind)
    × IsRest (drop 1 behind) r.source r.destination

pub parse_rule-IsRuleOf :
    (tokens : List Bytes) (r : Rule) → parse_rule tokens ≡ some r → IsRuleOf tokens r
unfolding parse_rule
parse_rule-IsRuleOf tokens r h = elim (Bool-cases (ltb (length tokens) 4)) [
  | inl e ↦ let g = rw e at h in ground (arith, g)
  | inr e ↦ elim (Option-cases (find_action tokens)) [
    | inl e2 ↦ let g = rw (e, e2) at h in ground (arith, g)
    | inr (p, e2) ↦
        let made : rule_with (name_of tokens) (some p) ≡ some r = rw (e, e2) at h in
        of_parts (p.0) (p.1) e2 made
  ]
]
  where
    of_parts :
        (action : Bytes) (behind : List Bytes)
        → find_action tokens ≡ some (action, behind)
        → rule_with (name_of tokens) (some (action, behind)) ≡ some r
        → IsRuleOf tokens r
    of_parts action behind found made =
        let (before, token, parts, none_before, hit, low) =
          find_action-split tokens action behind found in
        let made_rule : Rule = record {
          acl_name = name_of tokens;
          action = action;
          protocol = protocol_of behind;
          source = (split_rest (drop 1 behind)).0;
          destination = (split_rest (drop 1 behind)).1;
        } in
        let same : made_rule ≡ r = ground (arith, made) in
        subst (IsRuleOf tokens) same (
          before,
          token,
          behind,
          parts,
          none_before,
          hit,
          low,
          refl,
          refl,
          split_rest-IsRest (drop 1 behind),
        )
