-- ===== src/Extractors/Modules/Carving.antt =====
-- extractors/linux/modules.py: what the carving of the dump reports of the walk of the list.
use vantacore_engine.Prelude.{
  Bool-cases, List, Option-cases, Result, [], ap, arith, drop, inl, inr, length, refl, some, subst,
  suc, sym, take, true, zero, ℕ, ◌+◌, ◌-◌, ◌==◌, ◌∙◌, ◌∷◌, ◌≡◌, ◌≤◌,
}
use vantacore_engine.Bytes.{Bytes, slice}
use vantacore_engine.Paging.{read_at}
use vantacore_engine.Extractors.Chunked.{range_count}
use vantacore_engine.Extractors.Keyed.{Distinct, bytes_key, seen}
use vantacore_engine.Extractors.Text.{until}
use vantacore_engine.Extractors.Patterns.Keeps.{scan_chunks-keeps}
use vantacore_engine.Extractors.Patterns.Places.{StandsAt, StandsAt-chunk, take-within}
use vantacore_engine.Extractors.Modules.Fields.{Info, clean_module_name, is_identifier, is_loaded}
use vantacore_engine.Extractors.Modules.{
  Carver, Walk, carve_at, carve_chunk, carve_dump, carve_places, carver_of, find_head_module_va,
  is_capped, max_hops, run, start_at, walk_list,
}
use vantacore_engine.Extractors.Process.{unsigned}
use vantacore_engine.Extractors.Modules.Names.{IsWalked, carve_names, names, walked}
use vantacore_engine.Extractors.Modules.Hidden.{
  AllCarved, IsTally, add_carved-IsTally, item_names, seen-unlisted, unlisted-AllCarved,
}

until-take : (bs : Bytes) → take (length (until 0 bs)) bs ≡ until 0 bs
unfolding until
until-take [] = refl
until-take (b ∷ bs) = elim (Bool-cases (b == 0)) [
  | inl e ↦ rw e refl
  | inr e ↦ rw e (ap (λ t. b ∷ t) (until-take bs))
]

clean_module_name-some :
    (bs name : Bytes)
    → clean_module_name bs ≡ some name
    → (until 0 bs ≡ name) × ((is_identifier name ≡ true) × (length name ≤ 55))
unfolding clean_module_name
clean_module_name-some bs name h = elim (Bool-cases (is_identifier (until 0 bs))) [
  | inl e ↦
      let same : until 0 bs ≡ name = ground (arith, h, e) in
      (
        same,
        (ap is_identifier (sym same) ∙ e, subst (λ t. length t ≤ 55) same (ground (arith, h, e))),
      )
  | inr e ↦ ground (arith, h, e)
]

named_place :
    (dump name : Bytes) (offset align_off : ℕ)
    → until 0 (slice (read_at dump offset 65536) (align_off + 0x18) (align_off + 0x18 + 56)) ≡ name
    → StandsAt dump (offset + align_off + 0x18) name
named_place dump name offset align_off h =
    let chunk = read_at dump offset 65536 in
    let start = align_off + 0x18 in
    let field = slice chunk start (start + 56) in
    let at_field : take (length name) field ≡ name =
      subst (λ t. take (length t) field ≡ t) h (until-take field) in
    subst (λ k. StandsAt dump k name) (omega arith)
      (StandsAt-chunk dump name offset 65536 start
        (take-within name (drop start chunk) (start + 56 - start) at_field))

module _ (dump : Bytes) (listed : List Bytes) where
  carve_at-IsTally :
      (offset align_off : ℕ) (c : Carver)
      → IsTally dump listed c
      → IsTally dump listed (carve_at offset (read_at dump offset 65536) align_off c)
  unfolding carve_at
  carve_at-IsTally offset align_off c i =
      let chunk = read_at dump offset 65536 in
      let field = slice chunk (align_off + 0x18) (align_off + 0x18 + 56) in
      elim (Option-cases (clean_module_name field)) [
        | inl e ↦ rw e i
        | inr (name, e) ↦
            let facts = clean_module_name-some field name e in
            let info : Info = record {
              name = name;
              base = unsigned 8 chunk (align_off + 0x150);
              size = unsigned 4 chunk (align_off + 0x158);
            } in
            elim (Bool-cases (is_loaded info)) [
              | inl loaded ↦
                  rw (e, loaded)
                    (add_carved-IsTally dump listed
                      (record { info = info; phys_offset = offset + align_off }) c
                      (
                        named_place dump name offset align_off facts.0,
                        (facts.1.0, (facts.1.1, loaded)),
                      )
                      i)
              | inr e2 ↦ rw (e, e2) i
            ]
      ]

  carve_places-IsTally :
      (offset left align_off : ℕ) (c : Carver)
      → IsTally dump listed c
      → IsTally dump listed (carve_places offset (read_at dump offset 65536) left align_off c)
  unfolding carve_places
  carve_places-IsTally offset zero align_off c i = i
  carve_places-IsTally offset (suc left) align_off c i =
      carve_places-IsTally offset left (align_off + 8) _ (carve_at-IsTally offset align_off c i)

  carve_chunk-IsTally :
      (offset : ℕ) (c : Carver)
      → IsTally dump listed c
      → IsTally dump listed (carve_chunk offset (read_at dump offset 65536) c)
  unfolding carve_chunk
  carve_chunk-IsTally offset c i =
      carve_places-IsTally offset (range_count (length (read_at dump offset 65536) - 0x200) 8) 0 _
        (record {
          all_carved = i.all_carved;
          seen_all = i.seen_all;
          distinct = i.distinct;
          known = i.known;
          hidden = i.hidden;
        })

carver_of-IsTally :
    (dump : Bytes) (w : Walk) → IsWalked w → IsTally dump w.list_walk_names (carver_of w)
carver_of-IsTally dump w i = record {
  all_carved = tt;
  seen_all = i.seen_all;
  distinct = i.distinct;
  known = λ n. rw (i.none_carved, i.seen_all, i.listed_all) (ground arith);
  hidden = λ n. rw i.none_carved refl;
}

carve_dump-IsTally :
    (dump : Bytes) (w : Walk) → IsWalked w → IsTally dump w.list_walk_names (carve_dump dump w)
unfolding carve_dump
carve_dump-IsTally dump w i =
    scan_chunks-keeps (IsTally dump w.list_walk_names) dump 65536 is_capped carve_chunk
      (λ offset c _ k. carve_chunk-IsTally dump w.list_walk_names offset c k) (length dump + 1) 0
      (carver_of w) (carver_of-IsTally dump w i)

-- On any memory and dump each name of a module is reported once. Each anomaly has a name that is an
-- identifier of 55 bytes at most and stands in the dump 0x18 bytes behind the offset, with an
-- address in the kernel and a size of a module. The names of the anomalies are exactly those of the
-- modules that were carved and not found by the walk of the list.
pub modules_lem :
    (read : ℕ → ℕ → Result Bytes) (kernel_base : ℕ) (dump : Bytes)
    → Distinct (names (run read kernel_base dump).modules)
      × (AllCarved dump (run read kernel_base dump).dkom_anomalies
          × ((name : Bytes)
              → seen name (item_names (run read kernel_base dump).dkom_anomalies)
                ≡ seen name (carve_names (run read kernel_base dump).modules)))
unfolding run
modules_lem read kernel_base dump =
    let w = walk_list read max_hops (start_at (find_head_module_va read kernel_base)) in
    let i = carve_dump-IsTally dump w (walked read (find_head_module_va read kernel_base)) in
    let c = carve_dump dump w in
    (
      subst Distinct i.seen_all i.distinct,
      (
        unlisted-AllCarved dump w.list_walk_names c.carve_results i.all_carved,
        λ name. seen-unlisted name w.list_walk_names c.carve_results ∙ sym (i.hidden name),
      ),
    )
