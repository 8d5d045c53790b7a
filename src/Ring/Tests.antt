-- ===== src/Ring/Tests.antt =====
-- core/scanner/ring_buffer.py: runs of a ring of three slots, and the theorems at concrete rings.
use vantacore_engine.Prelude.{
  List, [], arith, false, length, none, ok, overflow_error, raise, refl, runtime_error, some,
  value_error, ◌++◌, ◌<◌, ◌^◌, ◌∷◌, ◌≡◌,
}
use vantacore_engine.Ring.{Segment, Handle, create, attach, enqueue, put, dequeue, get, close}
use vantacore_engine.Ring.Inv.{IsValid}
use vantacore_engine.Ring.Queue.{offer}
use vantacore_engine.Ring.Refine.{contents, enqueue_refines}
use vantacore_engine.Ring.Trace.{Call, putting, getting, execute, no_calls, execute_conserves}

abbrev open_handle : Handle
open_handle = record { closed = false; lock = 7 }

abbrev fresh : Segment
fresh = record { head = 0; tail = 0; capacity = 3; slots = 0 ∷ 0 ∷ 0 ∷ [] }

-- 8, then 9, round the end of the slots.
abbrev wrapped : Segment
wrapped = record { head = 2; tail = 1; capacity = 3; slots = 9 ∷ 7 ∷ 8 ∷ [] }

create_three : create 3 none 7 ≡ ok (open_handle, fresh)
unfolding create
create_three = refl

create_limits :
    (create 0 none 7 ≡ raise value_error)
    × (create 65537 none 7 ≡ raise value_error)
    × (attach none (some 1) (some 7) 8 ≡ raise value_error)
unfolding create attach
create_limits = (refl, refl, refl)

wrapped-IsValid : IsValid wrapped
wrapped-IsValid = omega arith

contents-wrapped : contents wrapped ≡ 8 ∷ 9 ∷ []
contents-wrapped = refl

put_when_full : (put open_handle wrapped 5).0 ≡ ok false
unfolding put enqueue
put_when_full = refl

put_too_wide : (put open_handle fresh (2 ^ 64)).0 ≡ raise overflow_error
unfolding put enqueue
put_too_wide = refl

put_when_closed : (put (close open_handle) fresh 5).0 ≡ raise runtime_error
unfolding put close
put_when_closed = refl

get_oldest : (get open_handle wrapped).0 ≡ ok (some 8)
unfolding get dequeue
get_oldest = refl

abbrev script : List Call
script =
    putting open_handle 1 ∷ putting open_handle 2 ∷ putting open_handle 3 ∷ getting open_handle ∷ []

run-script :
    (execute (fresh, no_calls) script).1 ≡ record { accepted = 1 ∷ 2 ∷ []; delivered = 1 ∷ [] }
unfolding execute put enqueue get dequeue
run-script = refl

enqueue_refines_example : let (r, s) = enqueue wrapped 4 in (r, contents s) ≡ offer 3 (8 ∷ 9 ∷ []) 4
enqueue_refines_example = enqueue_refines 4 wrapped-IsValid

execute_conserves_example :
    let (t, l) = execute (fresh, no_calls) script in
    (l.accepted ≡ l.delivered ++ contents t) × (length (contents t) < t.capacity)
execute_conserves_example =
    execute_conserves 3 none 7 script create_three (refl, (refl, (refl, (refl, tt))))
