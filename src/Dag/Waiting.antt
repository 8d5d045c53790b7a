-- ===== src/Dag/Waiting.antt =====
-- extractors/base.py: the edges that keep a name waiting, as dependencies of the extractors.
use mathlib.Core.List.{append-nil, append_assoc}
use vantacore_engine.Prelude.{
  ==_iff, Bool, Bool-cases, List, [], ap, arith, false, inl, inr, ltb, mem, not, sym, true, ◌&&◌,
  ◌++◌, ◌<◌, ◌==◌, ◌||◌, ◌∙◌, ◌∷◌, ◌≡◌,
}
use vantacore_engine.Dag.{Name, Extractor}
use vantacore_engine.Dag.Edges.{Edge, edges_of, edges, pending, pending-append}
use vantacore_engine.Dag.Rounds.{IsTopological}

-- An extractor named `n` lists `dep` among its dependencies.
abbrev pub depends_on : List Extractor → Name → Name → Bool
depends_on [] n dep = false
depends_on (e ∷ es) n dep = (e.name == n) && mem dep e.dependencies || depends_on es n dep

-- An edge that waits comes from a dependency that is a key and not done.
pending-source_of :
    (done ks : List Name) (n name : Name) (deps : List Name)
    → 0 < pending done n (edges_of ks name deps)
    → (dep : Name) × (mem dep done ≡ false)
      × (mem dep ks ≡ true)
      × (((name == n) && mem dep deps) ≡ true)
pending-source_of done ks n name [] h = absurd (omega arith)
pending-source_of done ks n name (d ∷ deps) h =
    elim (Bool-cases ((name == n) && (mem d ks && not (mem d done)))) [
      | inl here ↦ (d, ground arith, ground arith, ground arith)
      | inr not_here ↦
          let (dep, free, key, listed) = pending-source_of done ks n name deps (ground arith) in
          (dep, free, key, ground arith)
    ]

pub pending-source :
    (done ks : List Name) (n : Name) (es : List Extractor)
    → 0 < pending done n (edges ks es)
    → (dep : Name) × (mem dep done ≡ false) × (mem dep ks ≡ true) × (depends_on es n dep ≡ true)
pending-source done ks n [] h = absurd (omega arith)
pending-source done ks n (e ∷ es) h =
    elim (Bool-cases (ltb 0 (pending done n (edges_of ks e.name e.dependencies)))) [
      | inl here ↦
          let (dep, free, key, listed) =
            pending-source_of done ks n e.name e.dependencies (ground arith) in
          (dep, free, key, ground arith)
      | inr not_here ↦
          let (dep, free, key, listed) = pending-source done ks n es (
            ground
              (arith, pending-append done n (edges_of ks e.name e.dependencies) (edges ks es))) in
          (dep, free, key, ground arith)
    ]

-- Where no edge waits, the dependencies that are keys are done.
pending-zero_of :
    (done ks : List Name) (n name dep : Name) (deps : List Name)
    → pending done n (edges_of ks name deps) ≡ 0
    → ((name == n) && mem dep deps) ≡ true
    → mem dep ks ≡ true
    → mem dep done ≡ true
pending-zero_of done ks n name dep [] h l k = ground arith
pending-zero_of done ks n name dep (d ∷ deps) h l k = elim (Bool-cases (d == dep)) [
  | inl same ↦
      let eq = (==_iff d dep).0 same in
      ground (arith, ap (λ x. mem x ks) eq, ap (λ x. mem x done) eq)
  | inr other ↦ ground (arith, pending-zero_of done ks n name dep deps)
]

pub pending-zero :
    (done ks : List Name) (n dep : Name) (es : List Extractor)
    → pending done n (edges ks es) ≡ 0
    → depends_on es n dep ≡ true
    → mem dep ks ≡ true
    → mem dep done ≡ true
pending-zero done ks n dep [] h l k = ground arith
pending-zero done ks n dep (e ∷ es) h l k = ground (
  arith,
  pending-append done n (edges_of ks e.name e.dependencies) (edges ks es),
  pending-zero_of done ks n e.name dep e.dependencies,
  pending-zero done ks n dep es,
)

pub IsTopological-split :
    (es : List Edge) (before earlier : List Name) (n : Name) (later : List Name)
    → IsTopological es before (earlier ++ (n ∷ later))
    → pending (before ++ earlier) n es ≡ 0
IsTopological-split es before [] n later t = ap (λ l. pending l n es) (append-nil before) ∙ t.0
IsTopological-split es before (m ∷ earlier) n later t =
    ap (λ l. pending l n es) (sym (append_assoc before (m ∷ []) earlier))
    ∙ IsTopological-split es (before ++ (m ∷ [])) earlier n later t.1
