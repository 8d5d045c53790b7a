-- ===== src/Coordinator/Inv.antt =====
-- core/scanner/coordinator.py: how often a worker is started again.
use mathlib.Core.List.{append_assoc}
use vantacore_engine.Prelude.{
  Bool, Bool-cases, List, Option, [], ap, arith, false, get_or, if◌then◌else◌, inl, inr, leb,
  length, none, not, refl, set, some, sym, true, ℕ, ◌&&◌, ◌++◌, ◌+◌, ◌||◌, ◌∙◌, ◌∷◌, ◌≡◌, ◌≤◌,
}
use vantacore_engine.Coordinator.{
  Coordinator, ExitCode, alive, is_crash, joined, set_event, respawn_worker, check_from,
}

-- What becomes of a worker and its count.
abbrev pub respawns : ExitCode → ℕ → Bool
respawns worker respawn_count = is_crash worker && not (leb 1 respawn_count)

abbrev pub gives_up : ExitCode → ℕ → Bool
gives_up worker respawn_count = is_crash worker && leb 1 respawn_count

abbrev pub new_worker : ExitCode → ℕ → ExitCode
new_worker worker respawn_count = if respawns worker respawn_count then alive else worker

abbrev pub new_count : ExitCode → ℕ → ℕ
new_count worker respawn_count =
    if respawns worker respawn_count then respawn_count + 1 else respawn_count

abbrev pub noted : Coordinator → ExitCode → ℕ → Coordinator
noted c worker respawn_count = record c {
  stop_event = if gives_up worker respawn_count then set_event c.stop_event else c.stop_event;
  spawned = if respawns worker respawn_count then c.spawned + 1 else c.spawned;
}

abbrev pub new_workers : List ExitCode → List ℕ → List ExitCode
new_workers (w ∷ ws) (k ∷ ks) = new_worker w k ∷ new_workers ws ks
new_workers _ _ = []

abbrev pub new_counts : List ExitCode → List ℕ → List ℕ
new_counts (w ∷ ws) (k ∷ ks) = new_count w k ∷ new_counts ws ks
new_counts _ _ = []

abbrev pub all_noted : Coordinator → List ExitCode → List ℕ → Coordinator
all_noted c (w ∷ ws) (k ∷ ks) = all_noted (noted c w k) ws ks
all_noted c _ _ = c

abbrev pub having : Coordinator → List ExitCode → List ℕ → Coordinator
having c workers respawn_counts = record c { workers = workers; respawn_counts = respawn_counts }

get_or-append :
    {A : Type 0} (done rest : List A) (x d : A) → get_or (done ++ (x ∷ rest)) (length done) d ≡ x
get_or-append [] rest x d = refl
get_or-append (y ∷ done) rest x d = get_or-append done rest x d

set-append :
    {A : Type 0} (done rest : List A) (x y : A)
    → set (done ++ (x ∷ rest)) (length done) y ≡ done ++ (y ∷ rest)
set-append [] rest x y = refl
set-append (z ∷ done) rest x y = ap (λ t. z ∷ t) (set-append done rest x y)

length-snoc : {A : Type 0} (done : List A) (x : A) → length (done ++ (x ∷ [])) ≡ length done + 1
length-snoc [] x = refl
length-snoc (y ∷ done) x = omega (arith, length-snoc done x)

check_one :
    (c : Coordinator) (dw ws : List ExitCode) (dk ks : List ℕ) (w : ExitCode) (k : ℕ)
    → length dw ≡ length dk
    → c.started ≡ true
    → (if is_crash (get_or (dw ++ (w ∷ ws)) (length dw) alive) && c.started
        then respawn_worker (having c (dw ++ (w ∷ ws)) (dk ++ (k ∷ ks))) (length dw)
        else having c (dw ++ (w ∷ ws)) (dk ++ (k ∷ ks)))
      ≡ having (noted c w k) (dw ++ (new_worker w k ∷ ws)) (dk ++ (new_count w k ∷ ks))
unfolding respawn_worker
check_one c dw ws dk ks w k e o =
    let gw : get_or (dw ++ (w ∷ ws)) (length dw) alive ≡ w = get_or-append dw ws w alive in
    let gk : get_or (dk ++ (k ∷ ks)) (length dw) 0 ≡ k = rw e (get_or-append dk ks k 0) in
    let sw : set (dw ++ (w ∷ ws)) (length dw) alive ≡ dw ++ (alive ∷ ws) =
      set-append dw ws w alive in
    let sk : set (dk ++ (k ∷ ks)) (length dw) (k + 1) ≡ dk ++ ((k + 1) ∷ ks) =
      rw e (set-append dk ks k (k + 1)) in
    elim (Bool-cases (is_crash w)) [
      | inl crash ↦ elim (Bool-cases (leb 1 k)) [
        | inl again ↦ rw (gw, gk, crash, again, o) refl
        | inr once ↦ rw (gw, gk, crash, once, o, sw, sk) refl
      ]
      | inr fine ↦ rw (gw, fine) refl
    ]

pub check_from_lem :
    (c : Coordinator) (dw ws : List ExitCode) (dk ks : List ℕ)
    → length dw ≡ length dk
    → length ws ≡ length ks
    → c.started ≡ true
    → check_from (length ws) (length dw) (having c (dw ++ ws) (dk ++ ks))
      ≡ having (all_noted c ws ks) (dw ++ new_workers ws ks) (dk ++ new_counts ws ks)
unfolding check_from
check_from_lem c dw [] dk [] e e' o = refl
check_from_lem c dw [] dk (k ∷ ks) e e' o = absurd (omega arith)
check_from_lem c dw (w ∷ ws) dk [] e e' o = absurd (omega arith)
check_from_lem c dw (w ∷ ws) dk (k ∷ ks) e e' o =
    let one = check_one c dw ws dk ks w k e o in
    let rest =
      check_from_lem (noted c w k) (dw ++ (new_worker w k ∷ [])) ws (dk ++ (new_count w k ∷ [])) ks
        (length-snoc dw (new_worker w k) ∙ ap (λ n. n + 1) e ∙ sym (length-snoc dk (new_count w k)))
        (omega arith) o in
    rw (check_from, one)
      (rw
        (
          length-snoc dw (new_worker w k),
          append_assoc dw (new_worker w k ∷ []) ws,
          append_assoc dk (new_count w k ∷ []) ks,
          append_assoc dw (new_worker w k ∷ []) (new_workers ws ks),
          append_assoc dk (new_count w k ∷ []) (new_counts ws ks),
        )
        at rest)

pub length-joined : (codes ws : List ExitCode) → length (joined codes ws) ≡ length ws
length-joined [] ws = refl
length-joined (code ∷ codes) [] = refl
length-joined (code ∷ codes) (w ∷ ws) = omega (arith, length-joined codes ws)

set_event_twice : (e : Option Bool) → set_event (set_event e) ≡ set_event e
set_event_twice none = refl
set_event_twice (some is_set) = refl

-- No worker has been started again more than once.
abbrev pub AreLimited : List ℕ → Type 0
AreLimited [] = Unit {0}
AreLimited (k ∷ ks) = (k ≤ 1) × AreLimited ks

abbrev pub sum : List ℕ → ℕ
sum [] = 0
sum (k ∷ ks) = k + sum ks

abbrev pub any_gives_up : List ExitCode → List ℕ → Bool
any_gives_up (w ∷ ws) (k ∷ ks) = gives_up w k || any_gives_up ws ks
any_gives_up _ _ = false

pub new_counts-AreLimited :
    (ws : List ExitCode) (ks : List ℕ)
    → length ws ≡ length ks
    → AreLimited ks
    → AreLimited (new_counts ws ks)
new_counts-AreLimited [] [] e h = tt
new_counts-AreLimited [] (k ∷ ks) e h = absurd (omega arith)
new_counts-AreLimited (w ∷ ws) [] e h = tt
new_counts-AreLimited (w ∷ ws) (k ∷ ks) e h =
    (new_count-le w k h.0, new_counts-AreLimited ws ks (omega arith) h.1)
  where
    new_count-le : (w : ExitCode) (k : ℕ) → k ≤ 1 → new_count w k ≤ 1
    new_count-le w k h = ground arith

pub spawned-all_noted :
    (c : Coordinator) (ws : List ExitCode) (ks : List ℕ)
    → length ws ≡ length ks
    → (all_noted c ws ks).spawned + sum ks ≡ c.spawned + sum (new_counts ws ks)
spawned-all_noted c [] [] e = refl
spawned-all_noted c [] (k ∷ ks) e = absurd (omega arith)
spawned-all_noted c (w ∷ ws) [] e = absurd (omega arith)
spawned-all_noted c (w ∷ ws) (k ∷ ks) e = ground (arith, spawned-all_noted (noted c w k) ws ks)

pub stop_event-all_noted :
    (c : Coordinator) (ws : List ExitCode) (ks : List ℕ)
    → (all_noted c ws ks).stop_event
      ≡ (if any_gives_up ws ks then set_event c.stop_event else c.stop_event)
stop_event-all_noted c [] ks = refl
stop_event-all_noted c (w ∷ ws) [] = refl
stop_event-all_noted c (w ∷ ws) (k ∷ ks) =
    ground (arith, stop_event-all_noted (noted c w k) ws ks, set_event_twice c.stop_event)
