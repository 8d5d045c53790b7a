-- ===== src/Extractors/Modules/Hidden.antt =====
-- extractors/linux/modules.py: the modules that are carved from the dump and stand in no list.
use vantacore_engine.Prelude.{
  Bool-cases, List, [], ap, arith, false, inl, inr, length, not, refl, sym, true, ◌&&◌, ◌++◌, ◌+◌,
  ◌||◌, ◌∙◌, ◌∷◌, ◌≡◌, ◌≤◌,
}
use vantacore_engine.Bytes.{Bytes, bytes_eq}
use vantacore_engine.Bytes.Laws.{bytes_eq_iff}
use vantacore_engine.Extractors.Keyed.{Distinct, Distinct-append_new, bytes_key, seen}
use vantacore_engine.Extractors.Keyed.{seen-append}
use vantacore_engine.Extractors.Patterns.Places.{StandsAt}
use vantacore_engine.Extractors.Modules.Fields.{Module, carve, is_identifier, is_loaded}
use vantacore_engine.Extractors.Modules.{Carved, Carver, add_carved, unlisted}
use vantacore_engine.Extractors.Modules.Names.{carve_names, carve_names-append, names, names-append}

abbrev pub item_names : List Carved → List Bytes
item_names [] = []
item_names (x ∷ xs) = x.info.name ∷ item_names xs

item_names-append :
    (xs : List Carved) (x : Carved)
    → item_names (xs ++ (x ∷ [])) ≡ item_names xs ++ (x.info.name ∷ [])
item_names-append [] x = refl
item_names-append (y ∷ xs) x = ap (λ t. y.info.name ∷ t) (item_names-append xs x)

seen_same : (a b : Bytes) (xs : List Bytes) → bytes_eq a b ≡ true → seen a xs ≡ seen b xs
seen_same a b xs same = ap (λ t. seen t xs) ((bytes_eq_iff a b).0 same)

pub seen-unlisted :
    (n : Bytes) (listed : List Bytes) (items : List Carved)
    → seen n (item_names (unlisted listed items))
      ≡ (seen n (item_names items) && not (seen n listed))
unfolding unlisted
seen-unlisted n listed [] = refl
seen-unlisted n listed (x ∷ items) = elim (Bool-cases (bytes_eq x.info.name n)) [
  | inl same ↦ elim (Bool-cases (seen n listed)) [
    | inl e ↦
        simp (seen_same x.info.name n listed same, e)
          (ground (arith, seen-unlisted n listed items, e))
    | inr e ↦ simp (seen_same x.info.name n listed same, e) (ground (arith, same, e))
  ]
  | inr other ↦ elim (Bool-cases (seen x.info.name listed)) [
    | inl e ↦ simp (e, other) (seen-unlisted n listed items)
    | inr e ↦ simp (e, other) (seen-unlisted n listed items)
  ]
]

module _ (dump : Bytes) where
  -- The name is an identifier of 55 bytes at most, and stands in the dump 0x18 bytes behind the
  -- offset; the address and the size are those of a module that is loaded.
  abbrev pub IsCarved : Carved → Type 0
  IsCarved x =
      StandsAt dump (x.phys_offset + 0x18) x.info.name
      × ((is_identifier x.info.name ≡ true)
          × ((length x.info.name ≤ 55) × (is_loaded x.info ≡ true)))

  abbrev pub AllCarved : List Carved → Type 0
  AllCarved [] = Unit {0}
  AllCarved (x ∷ xs) = IsCarved x × AllCarved xs

  AllCarved-append :
      (xs : List Carved) (x : Carved) → AllCarved xs → IsCarved x → AllCarved (xs ++ (x ∷ []))
  AllCarved-append [] x h k = (k, tt)
  AllCarved-append (y ∷ xs) x h k = (h.0, AllCarved-append xs x h.1 k)

  pub unlisted-AllCarved :
      (listed : List Bytes) (xs : List Carved) → AllCarved xs → AllCarved (unlisted listed xs)
  unfolding unlisted
  unlisted-AllCarved listed [] h = tt
  unlisted-AllCarved listed (x ∷ xs) h = elim (Bool-cases (seen x.info.name listed)) [
    | inl e ↦ rw e (unlisted-AllCarved listed xs h.1)
    | inr e ↦ rw e (h.0, unlisted-AllCarved listed xs h.1)
  ]

  module _ (listed : List Bytes) where
    pub record IsTally (c : Carver) : Type 0 where
      pub all_carved : AllCarved c.carve_results
      pub seen_all : c.seen_names ≡ names c.modules
      pub distinct : Distinct c.seen_names
      pub known :
          (n : Bytes) → seen n c.seen_names ≡ (seen n listed || seen n (carve_names c.modules))
      pub hidden :
          (n : Bytes)
          → seen n (carve_names c.modules)
            ≡ (seen n (item_names c.carve_results) && not (seen n listed))

    module _ (n : Bytes) (x : Carved) (c : Carver) (i : IsTally c) where
      hidden_again :
          seen x.info.name c.seen_names ≡ true
          → seen n (carve_names c.modules)
            ≡ (seen n (item_names (c.carve_results ++ (x ∷ []))) && not (seen n listed))
      hidden_again e =
          rw
            (
              item_names-append c.carve_results x,
              seen-append n x.info.name (item_names c.carve_results),
            )
            (ground (arith, i.known n, i.hidden n, seen_same x.info.name n c.seen_names, e))

      known_new : seen n (c.seen_names ++ (x.info.name ∷ [])) ≡ (
          seen n listed
          || seen n (carve_names (c.modules ++ ((record { info = x.info; source = carve }) ∷ []))))
      known_new =
          rw
            (
              carve_names-append c.modules (record { info = x.info; source = carve }),
              seen-append n x.info.name c.seen_names,
              seen-append n x.info.name (carve_names c.modules),
            )
            (ground (arith, i.known n))

      hidden_new :
          seen x.info.name c.seen_names ≡ false
          → seen n (carve_names (c.modules ++ ((record { info = x.info; source = carve }) ∷ [])))
            ≡ (seen n (item_names (c.carve_results ++ (x ∷ []))) && not (seen n listed))
      hidden_new e =
          rw
            (
              item_names-append c.carve_results x,
              carve_names-append c.modules (record { info = x.info; source = carve }),
              seen-append n x.info.name (item_names c.carve_results),
              seen-append n x.info.name (carve_names c.modules),
            )
            (ground (arith, i.known n, i.hidden n, seen_same x.info.name n c.seen_names, e))

    pub add_carved-IsTally :
        (x : Carved) (c : Carver) → IsCarved x → IsTally c → IsTally (add_carved x c)
    unfolding add_carved
    add_carved-IsTally x c h i =
        let name = x.info.name in
        let m : Module = record { info = x.info; source = carve } in
        elim (Bool-cases (seen name c.seen_names)) [
          | inl e ↦ simp e (record {
            all_carved = AllCarved-append c.carve_results x i.all_carved h;
            seen_all = i.seen_all;
            distinct = i.distinct;
            known = i.known;
            hidden = λ n. hidden_again n x c i e;
          })
          | inr e ↦ simp e (record {
            all_carved = AllCarved-append c.carve_results x i.all_carved h;
            seen_all = ap (λ t. t ++ (name ∷ [])) i.seen_all ∙ sym (names-append c.modules m);
            distinct = Distinct-append_new c.seen_names name e i.distinct;
            known = λ n. known_new n x c i;
            hidden = λ n. hidden_new n x c i e;
          })
        ]
