-- ===== src/Extractors/Process/Dkom.antt =====
-- extractors/linux/process.py: the processes and the anomalies that `run` reports.
use vantacore_engine.Prelude.{
  Bool, List, Option, Result, [], ap, arith, false, if◌then◌else◌, leb, length, ltb, mem, none, not,
  refl, some, subst, suc, sym, true, zero, ℕ, ◌&&◌, ◌+◌, ◌-◌, ◌==◌, ◌||◌, ◌∙◌, ◌≡◌, ◌≤◌, ◌⊎◌,
}
use vantacore_engine.Bytes.{Bytes, slice}
use vantacore_engine.Paging.{read_at}
use vantacore_engine.Extractors.Chunked.{range_count, scan_chunks}
use vantacore_engine.Extractors.Process.{Walk, is_pid, clean_comm, unsigned, max_hops, walk_list}
use vantacore_engine.Extractors.Process.Carving.{
  Carver, is_valid_state, add_named, carve_at, carve_places, carve_chunk, is_capped, unlisted,
  start_at, carve_dump, find_init_task_va, run,
}
use vantacore_engine.Extractors.Process.Fuel.{walk_list-more}
use vantacore_engine.Extractors.Process.Walking.{
  pids, AreDistinct, carved_pids, IsWalked, walk_list_lem,
}
use vantacore_engine.Extractors.Process.Tally.{anomalous_pids, IsCarved, add_carved-IsCarved}

add_named-IsCarved :
    (walked : List ℕ) (pid tgid state phys_off : ℕ) (comm : Option Bytes) (c : Carver)
    → IsCarved walked c
    → IsCarved walked (add_named pid tgid state phys_off comm c)
add_named-IsCarved walked pid tgid state phys_off none c v = v
add_named-IsCarved walked pid tgid state phys_off (some comm) c v =
    add_carved-IsCarved walked _ phys_off c refl v

carve_at-IsCarved :
    (walked : List ℕ) (offset : ℕ) (chunk : Bytes) (align_off : ℕ) (c : Carver)
    → IsCarved walked c
    → IsCarved walked (carve_at offset chunk align_off c)
unfolding carve_at
carve_at-IsCarved walked offset chunk align_off c v =
    chosen walked c _ (ltb (length chunk - align_off) (0x678 + 16))
      (not (
        leb 1 (unsigned 4 chunk (align_off + 0x558))
        && is_pid (unsigned 4 chunk (align_off + 0x558))))
      (not (is_valid_state (unsigned 8 chunk align_off))) v
      (add_named-IsCarved walked _ _ _ _
        (clean_comm (slice chunk (align_off + 0x678) (align_off + 0x678 + 16))) c v)
  where
    chosen :
        (walked : List ℕ) (c d : Carver) (x y z : Bool)
        → IsCarved walked c
        → IsCarved walked d
        → IsCarved walked (if x then c else if y then c else if z then c else d)
    chosen walked c d true y z v w = v
    chosen walked c d false true z v w = v
    chosen walked c d false false true v w = v
    chosen walked c d false false false v w = w

carve_places-IsCarved :
    (walked : List ℕ) (offset : ℕ) (chunk : Bytes) (left align_off : ℕ) (c : Carver)
    → IsCarved walked c
    → IsCarved walked (carve_places offset chunk left align_off c)
unfolding carve_places
carve_places-IsCarved walked offset chunk zero align_off c v = v
carve_places-IsCarved walked offset chunk (suc left) align_off c v =
    carve_places-IsCarved walked offset chunk left (align_off + 8)
      (carve_at offset chunk align_off c) (carve_at-IsCarved walked offset chunk align_off c v)

carve_chunks-IsCarved :
    (walked : List ℕ) (dump : Bytes) (fuel offset : ℕ) (c : Carver)
    → IsCarved walked c
    → IsCarved walked (scan_chunks dump 65536 is_capped carve_chunk fuel offset c)
unfolding scan_chunks carve_chunk
carve_chunks-IsCarved walked dump zero offset c v = v
carve_chunks-IsCarved walked dump (suc fuel) offset c v =
    let chunk = read_at dump offset 65536 in
    let counted = record c { carve_hops = c.carve_hops + 1 } in
    let counted_v : IsCarved walked counted = record {
      listed = v.listed;
      distinct = v.distinct;
      seen = v.seen;
      anomalous = v.anomalous;
      apart = v.apart;
    } in
    let visited =
      carve_places-IsCarved walked offset chunk (range_count (length chunk - 0x700) 8) 0 counted
        counted_v in
    let further =
      carve_chunks-IsCarved walked dump fuel (offset + length chunk) (carve_chunk offset chunk c)
        visited in
    stopped walked c _ (leb (length dump) offset || is_capped c) (length chunk == 0) v further
  where
    stopped :
        (walked : List ℕ) (c d : Carver) (x y : Bool)
        → IsCarved walked c
        → IsCarved walked d
        → IsCarved walked (if x then c else if y then c else d)
    stopped walked c d true y v w = v
    stopped walked c d false true v w = v
    stopped walked c d false false v w = w

or_false : (b : Bool) → (b || false) ≡ b
or_false true = refl
or_false false = refl

none_unlisted : (walked : List ℕ) (n : ℕ) → mem n (anomalous_pids (unlisted walked [])) ≡ false
unfolding unlisted
none_unlisted walked n = refl

carve_dump-IsCarved :
    (dump : Bytes) (w : Walk) → IsWalked w → IsCarved w.list_walk_pids (carve_dump dump w)
unfolding carve_dump
carve_dump-IsCarved dump w v =
    let start : Carver = record {
      carve_hops = 0;
      seen_pids = w.seen_pids;
      processes = w.processes;
      carve_results = [];
    } in
    let none_carved : (n : ℕ) → mem n (carved_pids w.processes) ≡ false =
      λ n. ap (mem n) v.uncarved in
    carve_chunks-IsCarved w.list_walk_pids dump (length dump + 1) 0 start (record {
      listed = v.listed;
      distinct = v.distinct;
      seen = λ n.
          ap (mem n) (sym v.same)
          ∙ sym (or_false (mem n w.list_walk_pids))
          ∙ ap (λ b. mem n w.list_walk_pids || b) (sym (none_carved n));
      anomalous = λ n. none_unlisted w.list_walk_pids n ∙ sym (none_carved n);
      apart = λ n h. none_carved n;
    })

start_at-short : (init_task_va : Option ℕ) → length (start_at init_task_va).queue ≤ 1
start_at-short none = omega arith
start_at-short (some va) = omega arith

start_at-IsWalked : (init_task_va : Option ℕ) → IsWalked (start_at init_task_va)
start_at-IsWalked none = record { same = refl; listed = refl; distinct = tt; uncarved = refl }
start_at-IsWalked (some va) = record { same = refl; listed = refl; distinct = tt; uncarved = refl }

walked_by :
    (read : ℕ → ℕ → Result Bytes) (init_task_va : Option ℕ)
    → let w = walk_list read (max_hops + 1) (start_at init_task_va) in
      ((w.queue ≡ []) ⊎ (max_hops ≤ w.hops)) × IsWalked w
walked_by read init_task_va =
    walk_list_lem read (max_hops + 1) (start_at init_task_va) (start_at-short init_task_va)
      (omega arith) (start_at-IsWalked init_task_va)

-- The walk of the task list ends by its own condition, whatever the list in the dump is like, a
-- ring that never comes back included: any fuel of 500,000 rounds or more gives what the extractor
-- takes, and no address is left there, or 500,000 have been visited.
pub walk_ends :
    (read : ℕ → ℕ → Result Bytes) (init_task_va : Option ℕ) (fuel : ℕ)
    → max_hops ≤ fuel
    → let w = walk_list read (max_hops + 1) (start_at init_task_va) in
      (walk_list read fuel (start_at init_task_va) ≡ w) × ((w.queue ≡ []) ⊎ (max_hops ≤ w.hops))
walk_ends read init_task_va fuel enough = (
  walk_list-more read fuel (max_hops + 1) (start_at init_task_va) (start_at-short init_task_va)
      (omega arith) (omega arith),
  (walked_by read init_task_va).0,
)

-- The report of the extractor on any dump and any backend: each process id comes once among the
-- processes, and the ids of the anomalies are exactly those of the processes that were carved and
-- not found in the task list. So every hidden process is an anomaly, and no listed one is.
pub run-dkom :
    (read : ℕ → ℕ → Result Bytes) (kernel_base : ℕ) (dump : Bytes)
    → let r = run read kernel_base dump in
      AreDistinct (pids r.processes)
      × ((n : ℕ) → mem n (anomalous_pids r.dkom_anomalies) ≡ mem n (carved_pids r.processes))
unfolding run
run-dkom read kernel_base dump =
    let w = walk_list read (max_hops + 1) (start_at (find_init_task_va read kernel_base)) in
    let walked = walked_by read (find_init_task_va read kernel_base) in
    let v = carve_dump-IsCarved dump w walked.1 in
    (subst AreDistinct (sym v.listed) v.distinct, v.anomalous)
