-- ===== src/Extractors/Cisco/Lina/Bounds.antt =====
-- extractors/cisco/asa/lina_process.py: how many threads are reported, and which notes they are of.
use mathlib.Core.List.{append_assoc, append-nil}
use vantacore_engine.Prelude.{
  Bool-cases, List, Option, Option-cases, Result, [], ap, arith, drop, drop_all, false,
  if◌then◌else◌, inl, inr, length, length-append, length-drop, mem, none, ok, raise, refl, some,
  subst, suc, sym, zero, ℕ, ◌++◌, ◌+◌, ◌-◌, ◌==◌, ◌||◌, ◌∙◌, ◌∷◌, ◌≡◌, ◌≤◌,
}
use vantacore_engine.Bytes.{Bytes}
use vantacore_engine.Paging.{read_at}
use vantacore_engine.Extractors.Patterns.Keeps.{scan_pattern-keeps, scan_chunks-keeps}
use vantacore_engine.Extractors.Cisco.Lina.{
  Note, Thread, Search, run, parse_prpsinfo_note, collect_notes, push, max_notes, or_sections,
  or_text, add_lina, visit_chunk, is_capped, is_full, scan_text, lina_pattern, pattern_thread,
}

abbrev prepend : Option Thread → List Thread → List Thread
prepend none ts = ts
prepend (some t) ts = t ∷ ts

-- What the notes of the two types that are long enough are parsed to, all of them.
unfoldable pub parsed : List Note → List Thread
parsed [] = []
parsed (note ∷ notes) =
    let rest = parsed notes in
    if (note.n_type == 1) || (note.n_type == 3)
    then prepend (parse_prpsinfo_note note.n_desc) rest
    else rest

-- The last 256.
abbrev pub last : List Thread → List Thread
last ts = drop (length ts - max_notes) ts

drop-append : (k : ℕ) (xs ys : List Thread) → k ≤ length xs → drop k (xs ++ ys) ≡ drop k xs ++ ys
drop-append zero xs ys h = refl
drop-append (suc k) [] ys h = absurd (omega arith)
drop-append (suc k) (x ∷ xs) ys h = drop-append k xs ys (omega arith)

drop-drop : (k n : ℕ) (xs : List Thread) → drop k (drop n xs) ≡ drop (n + k) xs
drop-drop k zero xs = ap (λ m. drop m xs) (omega arith)
drop-drop k (suc n) [] =
    let e : suc n + k ≡ suc (n + k) = omega arith in rw e (drop_all k [] (omega arith))
drop-drop k (suc n) (x ∷ xs) =
    let e : suc n + k ≡ suc (n + k) = omega arith in rw e (drop-drop k n xs)

push-last : (ts : List Thread) (t : Thread) → push (last ts) t ≡ last (ts ++ (t ∷ []))
push-last ts t =
    let n = length ts - max_notes in
    let kept = length-drop n ts in
    let more = length-append ts (t ∷ []) in
    ap (λ xs. drop (length (drop n ts) + 1 - max_notes) xs)
      (sym (drop-append n ts (t ∷ []) (omega arith)))
    ∙ drop-drop (length (drop n ts) + 1 - max_notes) n (ts ++ (t ∷ []))
    ∙ ap (λ m. drop m (ts ++ (t ∷ []))) (omega arith)

collect_notes-last :
    (ts : List Thread) (notes : List Note)
    → collect_notes (last ts) notes ≡ last (ts ++ parsed notes)
unfolding collect_notes parsed
collect_notes-last ts [] = ap last (sym (append-nil ts))
collect_notes-last ts (note ∷ notes) =
    elim (Bool-cases ((note.n_type == 1) || (note.n_type == 3))) [
      | inr e ↦ rw e (collect_notes-last ts notes)
      | inl e ↦ elim (Option-cases (parse_prpsinfo_note note.n_desc)) [
        | inl none_parsed ↦ rw (e, none_parsed) (collect_notes-last ts notes)
        | inr (t, found) ↦
            rw (e, found)
              (ap (λ q. collect_notes q notes) (push-last ts t)
                ∙ collect_notes-last (ts ++ (t ∷ [])) notes
                ∙ ap last (append_assoc ts (t ∷ []) (parsed notes)))
      ]
    ]

last_bounded : (ts : List Thread) → length (last ts) ≤ max_notes
last_bounded ts = omega (arith, length-drop (length ts - max_notes) ts)

add_lina_bounded :
    (phys_off : ℕ) (s : Search)
    → is_full s ≡ false
    → length (add_lina phys_off s).threads ≤ max_notes
unfolding add_lina
add_lina_bounded phys_off s h = elim (Bool-cases (mem phys_off s.seen_offsets)) [
  | inl e ↦ rw e (ground (arith, h))
  | inr e ↦ rw e (ground (arith, h, length-append s.threads (pattern_thread ∷ [])))
]

scan_text_bounded : (dump : Bytes) → length (scan_text dump) ≤ max_notes
unfolding scan_text visit_chunk
scan_text_bounded dump =
    scan_chunks-keeps (λ s. length s.threads ≤ max_notes) dump 65536 is_capped visit_chunk
      (λ offset s _ k.
        scan_pattern-keeps (λ t. length t.threads ≤ max_notes) lina_pattern is_full
          (λ idx. add_lina (offset + idx)) (read_at dump offset 65536)
          (λ idx t _ room _. add_lina_bounded (offset + idx) t room)
          (length (read_at dump offset 65536) + 1) 0 _ k)
      (length dump + 1) 0 _ (omega arith)

-- The first of the lists that is not empty, the text of the dump behind them.
abbrev pub or_else : List Thread → List Thread → List Thread
or_else [] others = others
or_else (t ∷ ts) others = t ∷ ts

abbrev pub all_of : Result (List Note) → List Thread
all_of (raise e) = []
all_of (ok notes) = parsed notes

-- What the notes give: of the segments, or of the sections where the segments gave nothing; nothing
-- at all where the segments raise.
abbrev pub from_notes : Result (List Note) → Result (List Note) → List Thread
from_notes (raise e) sections = []
from_notes (ok notes) sections = or_else (last (parsed notes)) (last (all_of sections))

or_text-sections :
    (queue : List Thread) (sections : Result (List Note)) (dump : Bytes)
    → or_text dump (or_sections queue sections)
      ≡ or_else (or_else queue (last (all_of sections))) (scan_text dump)
or_text-sections (t ∷ queue) sections dump = refl
or_text-sections [] (raise e) dump = refl
or_text-sections [] (ok notes) dump =
    ap (λ q. or_text dump (ok q)) (collect_notes-last [] notes) ∙ shape (last (parsed notes))
  where
    shape : (q : List Thread) → or_text dump (ok q) ≡ or_else q (scan_text dump)
    shape [] = refl
    shape (t ∷ q) = refl

or_else_bounded :
    (ts us : List Thread)
    → length ts ≤ max_notes
    → length us ≤ max_notes
    → length (or_else ts us) ≤ max_notes
or_else_bounded [] us h k = k
or_else_bounded (t ∷ ts) us h k = h

from_notes_bounded :
    (segments sections : Result (List Note)) → length (from_notes segments sections) ≤ max_notes
from_notes_bounded (raise e) sections = omega arith
from_notes_bounded (ok notes) sections =
    or_else_bounded (last (parsed notes)) (last (all_of sections)) (last_bounded (parsed notes))
      (last_bounded (all_of sections))

threads_eq :
    (segments sections : Result (List Note)) (dump : Bytes)
    → (run segments sections dump).lina_threads
      ≡ or_else (from_notes segments sections) (scan_text dump)
unfolding run
threads_eq (raise e) sections dump = refl
threads_eq (ok notes) sections dump =
    ap (λ q. or_text dump (or_sections q sections)) (collect_notes-last [] notes)
    ∙ or_text-sections (last (parsed notes)) sections dump

-- Whatever elftools makes of the dump, the threads are the last 256 of those that the notes of the
-- segments are parsed to, or else the last 256 of the sections, or else the finds in the text; none
-- of the three is ever mixed with another, and there are never more than 256.
pub lina_threads_lem :
    (segments sections : Result (List Note)) (dump : Bytes)
    → ((run segments sections dump).lina_threads
        ≡ or_else (from_notes segments sections) (scan_text dump))
      × (length (run segments sections dump).lina_threads ≤ 256)
lina_threads_lem segments sections dump =
    let same = threads_eq segments sections dump in
    (
      same,
      subst (λ ts. length ts ≤ 256) (sym same)
          (or_else_bounded (from_notes segments sections) (scan_text dump)
            (from_notes_bounded segments sections) (scan_text_bounded dump)),
    )
