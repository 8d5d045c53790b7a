-- ===== src/Extractors/Modules/Names.antt =====
-- extractors/linux/modules.py: the names of the modules, and what the walk of the list keeps.
use vantacore_engine.Prelude.{
  Bool-cases, List, Option, Result, [], ap, if◌then◌else◌, inl, inr, leb, none, refl, some, subst,
  suc, sym, zero, ℕ, ◌++◌, ◌+◌, ◌∙◌, ◌∷◌, ◌≡◌,
}
use vantacore_engine.Bytes.{Bytes}
use vantacore_engine.Extractors.Keyed.{Distinct, Distinct-append_new, bytes_key, seen}
use vantacore_engine.Extractors.Modules.Fields.{Info, Module, Source, carve, list_walk}
use vantacore_engine.Extractors.Modules.{
  Walk, add_listed, is_skipped, max_hops, read_module_struct, start_at, visit, walk_list,
}

abbrev pub names : List Module → List Bytes
names [] = []
names (m ∷ ms) = m.info.name ∷ names ms

abbrev pub if_carved : Source → Bytes → List Bytes → List Bytes
if_carved list_walk name rest = rest
if_carved carve name rest = name ∷ rest

-- The names of those that were not in the list.
abbrev pub carve_names : List Module → List Bytes
carve_names [] = []
carve_names (m ∷ ms) = if_carved m.source m.info.name (carve_names ms)

pub names-append :
    (ms : List Module) (m : Module) → names (ms ++ (m ∷ [])) ≡ names ms ++ (m.info.name ∷ [])
names-append [] m = refl
names-append (n ∷ ms) m = ap (λ t. n.info.name ∷ t) (names-append ms m)

if_carved-append :
    (source : Source) (name : Bytes) (xs ys : List Bytes)
    → if_carved source name (xs ++ ys) ≡ if_carved source name xs ++ ys
if_carved-append list_walk name xs ys = refl
if_carved-append carve name xs ys = refl

pub carve_names-append :
    (ms : List Module) (m : Module)
    → carve_names (ms ++ (m ∷ [])) ≡ carve_names ms ++ if_carved m.source m.info.name []
carve_names-append [] m = refl
carve_names-append (n ∷ ms) m =
    ap (if_carved n.source n.info.name) (carve_names-append ms m)
    ∙ if_carved-append n.source n.info.name (carve_names ms) (if_carved m.source m.info.name [])

pub record IsWalked (w : Walk) : Type 0 where
  pub seen_all : w.seen_names ≡ names w.modules
  pub listed_all : w.list_walk_names ≡ names w.modules
  pub none_carved : carve_names w.modules ≡ []
  pub distinct : Distinct w.seen_names

add_listed-IsWalked : (found : Option Info) (w : Walk) → IsWalked w → IsWalked (add_listed found w)
unfolding add_listed
add_listed-IsWalked none w i = i
add_listed-IsWalked (some x) w i = elim (Bool-cases (seen x.name w.seen_names)) [
  | inl e ↦ simp e i
  | inr e ↦
      let m : Module = record { info = x; source = list_walk } in
      simp e (record {
        seen_all = ap (λ t. t ++ (x.name ∷ [])) i.seen_all ∙ sym (names-append w.modules m);
        listed_all = ap (λ t. t ++ (x.name ∷ [])) i.listed_all ∙ sym (names-append w.modules m);
        none_carved = carve_names-append w.modules m ∙ ap (λ t. t ++ []) i.none_carved;
        distinct = Distinct-append_new w.seen_names x.name e i.distinct;
      })
]

module _ (read : ℕ → ℕ → Result Bytes) where
  visit-IsWalked :
      (va : ℕ) (rest : List ℕ) (w : Walk) → IsWalked w → IsWalked (visit read va rest w)
  unfolding visit
  visit-IsWalked va rest w i =
      let j =
        add_listed-IsWalked (read_module_struct read va)
          (record w { visited = w.visited ++ (va ∷ []); hops = w.hops + 1 })
          (record {
            seen_all = i.seen_all;
            listed_all = i.listed_all;
            none_carved = i.none_carved;
            distinct = i.distinct;
          }) in
      record {
        seen_all = j.seen_all;
        listed_all = j.listed_all;
        none_carved = j.none_carved;
        distinct = j.distinct;
      }

  -- A round by the addresses that wait.
  round : ℕ → Walk → List ℕ → Walk
  round fuel w [] = w
  round fuel w (va ∷ rest) =
      if leb max_hops w.hops
      then w
      else if is_skipped read va w
      then walk_list read fuel (record w { queue = rest })
      else walk_list read fuel (visit read va rest w)

  walk_list-round : (fuel : ℕ) (w : Walk) → walk_list read (suc fuel) w ≡ round fuel w w.queue
  unfolding walk_list round
  walk_list-round fuel w = by_queue w.queue
    where
      by_queue :
          (q : List ℕ)
          → (elim q as (λ x. Walk) [
            | [] ↦ w
            | va ∷ rest ↦
                if leb max_hops w.hops
                then w
                else if is_skipped read va w
                then walk_list read fuel (record w { queue = rest })
                else walk_list read fuel (visit read va rest w)
          ])
            ≡ round fuel w q
      by_queue [] = refl
      by_queue (va ∷ rest) = refl

  round-IsWalked :
      (fuel : ℕ) (w : Walk) (q : List ℕ)
      → ((v : Walk) → IsWalked v → IsWalked (walk_list read fuel v))
      → IsWalked w
      → IsWalked (round fuel w q)
  unfolding round
  round-IsWalked fuel w [] ih i = i
  round-IsWalked fuel w (va ∷ rest) ih i = elim (Bool-cases (leb max_hops w.hops)) [
    | inl e ↦ simp e i
    | inr e ↦ elim (Bool-cases (is_skipped read va w)) [
      | inl e2 ↦
          simp (e, e2)
            (ih (record w { queue = rest })
              (record {
                seen_all = i.seen_all;
                listed_all = i.listed_all;
                none_carved = i.none_carved;
                distinct = i.distinct;
              }))
      | inr e2 ↦ simp (e, e2) (ih (visit read va rest w) (visit-IsWalked va rest w i))
    ]
  ]

  walk_list-IsWalked : (fuel : ℕ) (w : Walk) → IsWalked w → IsWalked (walk_list read fuel w)
  walk_list-IsWalked zero w i = unfold walk_list in i
  walk_list-IsWalked (suc fuel) w i =
      subst IsWalked (sym (walk_list-round fuel w))
        (round-IsWalked fuel w w.queue (walk_list-IsWalked fuel) i)

  start_at-IsWalked : (head : Option ℕ) → IsWalked (start_at head)
  start_at-IsWalked none = record {
    seen_all = refl;
    listed_all = refl;
    none_carved = refl;
    distinct = tt;
  }
  start_at-IsWalked (some va) = record {
    seen_all = refl;
    listed_all = refl;
    none_carved = refl;
    distinct = tt;
  }

  pub walked : (head : Option ℕ) → IsWalked (walk_list read max_hops (start_at head))
  walked head = walk_list-IsWalked max_hops (start_at head) (start_at-IsWalked head)
