-- ===== src/Extractors/Process/Walking.antt =====
-- extractors/linux/process.py: the walk of the task list.
use mathlib.Core.List.{append-nil, append_assoc}
use vantacore_engine.Prelude.{
  Bool-cases, List, List-cases, Option, Result, [], ap, arith, false, if◌then◌else◌, inl, inr, leb,
  leb→le, length, length-append, mem, mem-append_one, none, ok, raise, refl, some, suc, sym, take,
  zero, ℕ, ◌++◌, ◌+◌, ◌∙◌, ◌∷◌, ◌≡◌, ◌≤◌, ◌⊎◌,
}
use vantacore_engine.Bytes.{Bytes, unpack_from}
use vantacore_engine.Bytes.Laws.{length-zero}
use vantacore_engine.Extractors.Process.{
  Task, Process, Walk, list_walk, carve, Source, max_hops, add_task, next_of, next_task,
  read_task_struct, visit, is_skipped, walk_list,
}

abbrev pub pids : List Process → List ℕ
pids [] = []
pids (p ∷ ps) = p.pid ∷ pids ps

-- No process id twice.
abbrev pub AreDistinct : List ℕ → Type 0
AreDistinct [] = Unit {0}
AreDistinct (n ∷ ns) = (mem n ns ≡ false) × AreDistinct ns

next_of-short : (r : Result ℕ) → length (next_of r) ≤ 1
next_of-short (raise e) = omega arith
next_of-short (ok p) = ground arith

pub next_task-short : (r : Result Bytes) → length (next_task r) ≤ 1
next_task-short (raise e) = omega arith
next_task-short (ok bs) = next_of-short (unpack_from 8 bs 0)

abbrev pub carved_here : Process → Source → List ℕ
carved_here p list_walk = []
carved_here p carve = p.pid ∷ []

-- The process ids that the walk did not find.
abbrev pub carved_pids : List Process → List ℕ
carved_pids [] = []
carved_pids (p ∷ ps) = carved_here p p.source ++ carved_pids ps

pub pids-append_one :
    (ps : List Process) (p : Process) → pids (ps ++ (p ∷ [])) ≡ pids ps ++ (p.pid ∷ [])
pids-append_one [] p = refl
pids-append_one (q ∷ ps) p = ap (λ t. q.pid ∷ t) (pids-append_one ps p)

pub carved_pids-append_one :
    (ps : List Process) (p : Process)
    → carved_pids (ps ++ (p ∷ [])) ≡ carved_pids ps ++ carved_here p p.source
carved_pids-append_one [] p = append-nil (carved_here p p.source)
carved_pids-append_one (q ∷ ps) p =
    ap (λ t. carved_here q q.source ++ t) (carved_pids-append_one ps p)
    ∙ sym (append_assoc (carved_here q q.source) (carved_pids ps) (carved_here p p.source))

pub AreDistinct-append_one :
    (ns : List ℕ) (n : ℕ) → AreDistinct ns → mem n ns ≡ false → AreDistinct (ns ++ (n ∷ []))
AreDistinct-append_one [] n d h = (refl, tt)
AreDistinct-append_one (k ∷ ns) n d h =
    (ground (arith, mem-append_one ns n k, d.0), AreDistinct-append_one ns n d.1 (ground arith))

-- What the walk keeps: each id once, and none that was carved.
pub record IsWalked (w : Walk) : Type 0 where
  pub same : w.list_walk_pids ≡ w.seen_pids
  pub listed : pids w.processes ≡ w.seen_pids
  pub distinct : AreDistinct w.seen_pids
  pub uncarved : carved_pids w.processes ≡ []

add_task-IsWalked : (t : Option Task) (w : Walk) → IsWalked w → IsWalked (add_task t w)
add_task-IsWalked none w v = v
add_task-IsWalked (some t) w v = elim (Bool-cases (mem t.pid w.seen_pids)) [
  | inl known ↦ rw known v
  | inr new ↦
      let p : Process = record {
        pid = t.pid;
        tgid = t.tgid;
        comm = t.comm;
        state = t.state;
        ppid = t.ppid;
        source = list_walk;
      } in
      rw new (record {
        same = ap (λ ns. ns ++ (t.pid ∷ [])) v.same;
        listed = pids-append_one w.processes p ∙ ap (λ ns. ns ++ (t.pid ∷ [])) v.listed;
        distinct = AreDistinct-append_one w.seen_pids t.pid v.distinct new;
        uncarved =
            carved_pids-append_one w.processes p
            ∙ append-nil (carved_pids w.processes)
            ∙ v.uncarved;
      })
]

hops-add_task : (t : Option Task) (w : Walk) → (add_task t w).hops ≡ w.hops
hops-add_task none w = refl
hops-add_task (some t) w = elim (Bool-cases (mem t.pid w.seen_pids)) [
  | inl known ↦ rw known refl
  | inr new ↦ rw new refl
]

module _ (read : ℕ → ℕ → Result Bytes) where
  pub walk_list-cons :
      (fuel va : ℕ) (rest : List ℕ) (w : Walk)
      → w.queue ≡ va ∷ rest
      → walk_list read (suc fuel) w ≡ (
          if leb max_hops w.hops
          then w
          else if is_skipped read va w
          then walk_list read fuel (record w { queue = rest })
          else walk_list read fuel (visit read va rest w))
  unfolding walk_list
  walk_list-cons fuel va rest w e =
      ap
        (λ (q : List ℕ). elim q as (λ x. Walk) [
          | [] ↦ w
          | v ∷ vs ↦
              if leb max_hops w.hops
              then w
              else if is_skipped read v w
              then walk_list read fuel (record w { queue = vs })
              else walk_list read fuel (visit read v vs w)
        ])
        e

  pub walk_list-nil : (fuel : ℕ) (w : Walk) → w.queue ≡ [] → walk_list read fuel w ≡ w
  unfolding walk_list
  walk_list-nil zero w e = refl
  walk_list-nil (suc fuel) w e =
      ap
        (λ (q : List ℕ). elim q as (λ x. Walk) [
          | [] ↦ w
          | v ∷ vs ↦
              if leb max_hops w.hops
              then w
              else if is_skipped read v w
              then walk_list read fuel (record w { queue = vs })
              else walk_list read fuel (visit read v vs w)
        ])
        e

  pub walk_list-zero : (w : Walk) → walk_list read zero w ≡ w
  unfolding walk_list
  walk_list-zero w = refl

  visit-IsWalked :
      (va : ℕ) (rest : List ℕ) (w : Walk) → IsWalked w → IsWalked (visit read va rest w)
  unfolding visit
  visit-IsWalked va rest w v =
      let begun = record w { visited = w.visited ++ (va ∷ []); hops = w.hops + 1 } in
      let begun_v : IsWalked begun = record {
        same = v.same;
        listed = v.listed;
        distinct = v.distinct;
        uncarved = v.uncarved;
      } in
      let u = add_task-IsWalked (read_task_struct read va) begun begun_v in
      record { same = u.same; listed = u.listed; distinct = u.distinct; uncarved = u.uncarved }

  pub hops-visit : (va : ℕ) (rest : List ℕ) (w : Walk) → (visit read va rest w).hops ≡ w.hops + 1
  unfolding visit
  hops-visit va rest w =
      hops-add_task (read_task_struct read va)
        (record w { visited = w.visited ++ (va ∷ []); hops = w.hops + 1 })

  pub queue-visit :
      (va : ℕ) (rest : List ℕ) (w : Walk)
      → (visit read va rest w).queue ≡ rest ++ next_task (read (va + 0x4a8) 8)
  unfolding visit
  queue-visit va rest w = refl

  -- The walk has come to its end by its own condition, and what it keeps holds.
  pub walk_list_lem :
      (fuel : ℕ) (w : Walk)
      → length w.queue ≤ 1
      → max_hops ≤ w.hops + fuel
      → IsWalked w
      → let w' = walk_list read fuel w in ((w'.queue ≡ []) ⊎ (max_hops ≤ w'.hops)) × IsWalked w'
  walk_list_lem zero w short enough v = rw (walk_list-zero w) (inr (omega arith), v)
  walk_list_lem (suc fuel) w short enough v = elim (List-cases w.queue) [
    | inl e ↦ rw (walk_list-nil (suc fuel) w e) (inl e, v)
    | inr (va, rest, e) ↦
        let alone : length rest ≡ 0 = omega (arith, ap length e) in
        elim (Bool-cases (leb max_hops w.hops)) [
          | inl full ↦
              rw (walk_list-cons fuel va rest w e, full) (inr (leb→le max_hops w.hops full), v)
          | inr room ↦ elim (Bool-cases (is_skipped read va w)) [
            | inl skip ↦
                let none_left : rest ≡ [] = length-zero rest alone in
                let left = record w { queue = rest } in
                let left_v : IsWalked left = record {
                  same = v.same;
                  listed = v.listed;
                  distinct = v.distinct;
                  uncarved = v.uncarved;
                } in
                rw (walk_list-cons fuel va rest w e, room, skip, walk_list-nil fuel left none_left)
                  (inl none_left, left_v)
            | inr take ↦
                let short' : length (visit read va rest w).queue ≤ 1 = omega (
                  arith,
                  ap length (queue-visit va rest w),
                  length-append rest (next_task (read (va + 0x4a8) 8)),
                  next_task-short (read (va + 0x4a8) 8),
                ) in
                rw (walk_list-cons fuel va rest w e, room, take)
                  (walk_list_lem fuel (visit read va rest w) short'
                    (omega (arith, hops-visit va rest w)) (visit-IsWalked va rest w v))
          ]
        ]
  ]
