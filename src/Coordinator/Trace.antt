-- ===== src/Coordinator/Trace.antt =====
-- core/scanner/coordinator.py: whatever is called on one coordinator, in whatever order.
use vantacore_engine.Prelude.{
  Bool-cases, List, Option, Option-cases, Result, [], ap, arith, false, if◌then◌else◌, inl, inr,
  length, length-replicate, none, ok, raise, refl, replicate, some, subst, suc, sym, true, zero, ℕ,
  ◌*◌, ◌+◌, ◌∙◌, ◌∷◌, ◌≡◌, ◌≤◌,
}
use vantacore_engine.Ring
use vantacore_engine.Ring.{Handle, Segment}
use vantacore_engine.Coordinator.{
  Coordinator, ExitCode, alive, fresh, launch, start, put_to, submit, drain_results, set_event,
  check_workers, shut_down, stop,
}
use vantacore_engine.Coordinator.Inv.{AreLimited, sum}
use vantacore_engine.Coordinator.Limit.{IsTracked, check_workers-IsTracked}

-- A method, with what the system answers in it.
pub data Call : Type 0 where
  starting : Option ℕ → Call
  submitting : ℕ → Call
  draining : Call
  checking : List ExitCode → Call
  stopping : List ExitCode → Call

abbrev pub call : Call → Coordinator → Coordinator
call (starting file_size) c = (start file_size c).1
call (submitting addr) c = (submit c addr).1
call draining c = (drain_results c).1
call (checking codes) c = if c.started then check_workers codes c else c
call (stopping codes) c = stop codes c

unfoldable pub execute : List Call → Coordinator → Coordinator
execute [] c = c
execute (k ∷ ks) c = execute ks (call k c)

abbrev pub starts : List Call → ℕ
starts [] = 0
starts (starting file_size ∷ ks) = starts ks + 1
starts (_ ∷ ks) = starts ks

-- At most `limit` processes are started until the next `start`.
data IsBounded (n limit : ℕ) (c : Coordinator) : Type 0 where
  running :
      (base : ℕ)
      → c.num_workers ≡ n
      → c.started ≡ true
      → base + 2 * n ≤ limit
      → IsTracked base c
      → IsBounded n limit c
  idle : c.num_workers ≡ n → c.started ≡ false → c.spawned ≤ limit → IsBounded n limit c

AreLimited-replicate : (n : ℕ) → AreLimited (replicate n 0) × (sum (replicate n 0) ≡ 0)
AreLimited-replicate zero = (tt, refl)
AreLimited-replicate (suc n) =
    let (h, e) = AreLimited-replicate n in ((omega arith, h), omega arith)

sum-le-length : (ks : List ℕ) → AreLimited ks → sum ks ≤ length ks
sum-le-length [] h = omega arith
sum-le-length (k ∷ ks) h = omega (arith, sum-le-length ks h.1)

-- Fields that submitting and draining leave as they are.
record Keeps (c c' : Coordinator) : Type 0 where
  same_num : c'.num_workers ≡ c.num_workers
  same_started : c'.started ≡ c.started
  same_workers : c'.workers ≡ c.workers
  same_counts : c'.respawn_counts ≡ c.respawn_counts
  same_spawned : c'.spawned ≡ c.spawned

put_to-Keeps :
    (c : Coordinator) (addr : ℕ) (ring : Option (Handle × Segment)) → Keeps c (put_to c addr ring).1
put_to-Keeps c addr none = ground arith
put_to-Keeps c addr (some (h, s)) = ground arith

submit-Keeps : (c : Coordinator) (addr : ℕ) → Keeps c (submit c addr).1
unfolding submit
submit-Keeps c addr = elim (Bool-cases c.started) [
  | inl on ↦ simp on (put_to-Keeps c addr c.ring_buffer)
  | inr off ↦ simp off (ground arith)
]

drain_results-Keeps : (c : Coordinator) → Keeps c (drain_results c).1
unfolding drain_results
drain_results-Keeps c = elim (Option-cases c.result_queue) [
  | inl e ↦ rw e (ground arith)
  | inr (results, e) ↦ rw e (ground arith)
]

Keeps-IsBounded :
    {n limit : ℕ} {c c' : Coordinator} → Keeps c c' → IsBounded n limit c → IsBounded n limit c'
Keeps-IsBounded s (running base m o le v) =
    running base (s.same_num ∙ m) (s.same_started ∙ o) le (record {
      workers_size = ap length s.same_workers ∙ v.workers_size ∙ sym s.same_num;
      counts_size = ap length s.same_counts ∙ v.counts_size ∙ sym s.same_num;
      limited = subst AreLimited (sym s.same_counts) v.limited;
      counted = omega (arith, v, s, ap sum s.same_counts);
    })
Keeps-IsBounded s (idle m o le) = idle (s.same_num ∙ m) (s.same_started ∙ o) (rw s.same_spawned le)

IsBounded-add :
    {n limit : ℕ} {c : Coordinator} → IsBounded n limit c → IsBounded n (limit + 2 * n) c
IsBounded-add {n} {limit} (running base m o le v) = running base m o (omega arith) v
IsBounded-add {n} {limit} (idle m o le) = idle m o (omega arith)

launch-IsBounded :
    {n limit : ℕ} (c : Coordinator) (ring : Result (Handle × Segment))
    → c.num_workers ≡ n
    → c.started ≡ false
    → c.spawned ≤ limit
    → IsBounded n (limit + 2 * n) (launch c ring).1
launch-IsBounded c (raise e) m o le = idle m o (omega arith)
launch-IsBounded {n} {limit} c (ok ring) m o le =
    let (h, e) = AreLimited-replicate c.num_workers in
    running limit m refl (omega arith) (record {
      workers_size = length-replicate c.num_workers alive;
      counts_size = length-replicate c.num_workers 0;
      limited = h;
      counted = omega arith;
    })

start-IsBounded :
    {n limit : ℕ} (file_size : Option ℕ) (c : Coordinator)
    → IsBounded n limit c
    → IsBounded n (limit + 2 * n) (start file_size c).1
unfolding start
start-IsBounded file_size c (running base m o le v) = simp o (IsBounded-add (running base m o le v))
start-IsBounded none c (idle m o le) = simp o (IsBounded-add (idle m o le))
start-IsBounded (some size) c (idle m o le) =
    simp o (launch-IsBounded c (Ring.create c.ring_buffer_capacity none 0) m o le)

checking-IsBounded :
    {n limit : ℕ} (codes : List ExitCode) (c : Coordinator)
    → IsBounded n limit c
    → IsBounded n limit (call (checking codes) c)
checking-IsBounded codes c (running base m o le v) =
    let (v', o', m') = check_workers-IsTracked codes o v in simp o (running base (m' ∙ m) o' le v')
checking-IsBounded codes c (idle m o le) = simp o (idle m o le)

shut_down-IsBounded :
    {n limit : ℕ} (base : ℕ) (codes : List ExitCode) (c : Coordinator)
    → c.num_workers ≡ n
    → c.started ≡ true
    → base + 2 * n ≤ limit
    → IsTracked base c
    → IsBounded n limit (shut_down codes c)
unfolding shut_down
shut_down-IsBounded base codes c m o le v =
    let told = record c { stop_event = set_event c.stop_event } in
    let v₀ : IsTracked base told = record {
      workers_size = v.workers_size;
      counts_size = v.counts_size;
      limited = v.limited;
      counted = v.counted;
    } in
    let (v', o', m') = check_workers-IsTracked {base = base} codes {c = told} o v₀ in
    idle (m' ∙ m) refl
      (omega (arith, v', sum-le-length (check_workers codes told).respawn_counts v'.limited))

stop-IsBounded :
    {n limit : ℕ} (codes : List ExitCode) (c : Coordinator)
    → IsBounded n limit c
    → IsBounded n limit (stop codes c)
unfolding stop
stop-IsBounded codes c (running base m o le v) = simp o (shut_down-IsBounded base codes c m o le v)
stop-IsBounded codes c (idle m o le) = simp o (idle m o le)

-- At most that many processes.
abbrev pub allowance : ℕ → List Call → ℕ
allowance n [] = 0
allowance n (starting file_size ∷ ks) = 2 * n + allowance n ks
allowance n (_ ∷ ks) = allowance n ks

execute-bound :
    (n : ℕ) (ks : List Call) (limit : ℕ) (c : Coordinator)
    → IsBounded n limit c
    → (execute ks c).spawned ≤ limit + allowance n ks
unfolding execute
execute-bound n [] limit c (idle m o le) = omega arith
execute-bound n [] limit c (running base m o le v) =
    omega (arith, v, sum-le-length c.respawn_counts v.limited)
execute-bound n (starting file_size ∷ ks) limit c v = omega (
  arith,
  execute-bound n ks (limit + 2 * n) (start file_size c).1 (start-IsBounded file_size c v),
)
execute-bound n (submitting addr ∷ ks) limit c v =
    execute-bound n ks limit (submit c addr).1 (Keeps-IsBounded (submit-Keeps c addr) v)
execute-bound n (draining ∷ ks) limit c v =
    execute-bound n ks limit (drain_results c).1 (Keeps-IsBounded (drain_results-Keeps c) v)
execute-bound n (checking codes ∷ ks) limit c v =
    execute-bound n ks limit (call (checking codes) c) (checking-IsBounded codes c v)
execute-bound n (stopping codes ∷ ks) limit c v =
    execute-bound n ks limit (stop codes c) (stop-IsBounded codes c v)

allowance-eq : (n : ℕ) (ks : List Call) → allowance n ks ≡ 2 * n * starts ks
allowance-eq n [] = omega arith
allowance-eq n (starting file_size ∷ ks) = grind (arith, allowance-eq n ks)
allowance-eq n (submitting addr ∷ ks) = allowance-eq n ks
allowance-eq n (draining ∷ ks) = allowance-eq n ks
allowance-eq n (checking codes ∷ ks) = allowance-eq n ks
allowance-eq n (stopping codes ∷ ks) = allowance-eq n ks

-- Whatever calls are made on a new coordinator, and however its workers end, it has started at
-- most twice as many processes as it has workers for each call of `start`: no worker that keeps
-- crashing is started for ever.
pub spawned_bounded :
    (num_workers cpu_count : Option ℕ) (capacity : ℕ) (ks : List Call)
    → let c = fresh num_workers cpu_count capacity in
      (execute ks c).spawned ≤ 2 * c.num_workers * starts ks
spawned_bounded num_workers cpu_count capacity ks =
    let c = fresh num_workers cpu_count capacity in
    omega (
      arith,
      execute-bound c.num_workers ks 0 c (idle refl refl (omega arith)),
      allowance-eq c.num_workers ks,
    )
