-- ===== src/Extractors/Process/Tally.antt =====
-- extractors/linux/process.py: what a carved process does to the tally of processes and anomalies.
use vantacore_engine.Prelude.{
  Bool, Bool-cases, List, [], ap, ap₂, arith, false, inl, inr, mem, mem-append_one, not, refl, sym,
  true, ℕ, ◌&&◌, ◌++◌, ◌==◌, ◌||◌, ◌∙◌, ◌∷◌, ◌≡◌,
}
use vantacore_engine.Extractors.Process.{Process, carve}
use vantacore_engine.Extractors.Process.Carving.{Carved, Carver, add_carved, unlisted}
use vantacore_engine.Extractors.Process.Walking.{
  pids, AreDistinct, carved_pids, carved_here, pids-append_one, carved_pids-append_one,
  AreDistinct-append_one,
}

abbrev pub anomalous_pids : List Carved → List ℕ
anomalous_pids [] = []
anomalous_pids (item ∷ items) = item.pid ∷ anomalous_pids items

unlisted-append_one :
    (walked : List ℕ) (items : List Carved) (item : Carved) (n : ℕ)
    → mem n (anomalous_pids (unlisted walked (items ++ (item ∷ [])))) ≡ (
        mem n (anomalous_pids (unlisted walked items))
        || (not (mem item.pid walked) && (item.pid == n)))
unfolding unlisted
unlisted-append_one walked [] item n = ground arith
unlisted-append_one walked (other ∷ items) item n =
    ground (arith, unlisted-append_one walked items item n)

-- What the carving keeps, for the ids that the walk found.
pub record IsCarved (walked : List ℕ) (c : Carver) : Type 0 where
  pub listed : pids c.processes ≡ c.seen_pids
  pub distinct : AreDistinct c.seen_pids
  pub seen : (n : ℕ) → mem n c.seen_pids ≡ (mem n walked || mem n (carved_pids c.processes))
  pub anomalous :
      (n : ℕ)
      → mem n (anomalous_pids (unlisted walked c.carve_results)) ≡ mem n (carved_pids c.processes)
  pub apart : (n : ℕ) → mem n walked ≡ true → mem n (carved_pids c.processes) ≡ false

mem-equal : (a b : ℕ) (ns : List ℕ) → (a == b) ≡ true → mem a ns ≡ mem b ns
mem-equal a b [] e = refl
mem-equal a b (n ∷ ns) e = ground (arith, mem-equal a b ns)

known_step :
    (walked carved : List ℕ) (q n : ℕ)
    → (mem q walked || mem q carved) ≡ true
    → (mem n carved || (not (mem q walked) && (q == n))) ≡ mem n carved
known_step walked carved q n h = ground (arith, mem-equal q n carved)

both_false : (a b : Bool) → (a || b) ≡ false → (a ≡ false) × (b ≡ false)
both_false true b h = cc
both_false false b h = (refl, h)

or_assoc : (a b c : Bool) → ((a || b) || c) ≡ (a || (b || c))
or_assoc true b c = refl
or_assoc false b c = refl

apart_step :
    (walked carved : List ℕ) (q n : ℕ)
    → mem q walked ≡ false
    → mem n carved ≡ false
    → mem n walked ≡ true
    → (mem n carved || (q == n)) ≡ false
apart_step walked carved q n h k l = ground (arith, mem-equal q n walked)

pub add_carved-IsCarved :
    (walked : List ℕ) (p : Process) (phys_off : ℕ) (c : Carver)
    → p.source ≡ carve
    → IsCarved walked c
    → IsCarved walked (add_carved p phys_off c)
unfolding add_carved
add_carved-IsCarved walked p phys_off c carved v = elim (Bool-cases (mem p.pid c.seen_pids)) [
  | inl known ↦ rw known (record {
    listed = v.listed;
    distinct = v.distinct;
    seen = v.seen;
    anomalous = λ n.
        unlisted-append_one walked c.carve_results
          (record { pid = p.pid; comm = p.comm; phys_offset = phys_off }) n
        ∙ ap (λ b. b || (not (mem p.pid walked) && (p.pid == n))) (v.anomalous n)
        ∙ known_step walked (carved_pids c.processes) p.pid n (sym (v.seen p.pid) ∙ known);
    apart = v.apart;
  })
  | inr new ↦
      let fresh : (mem p.pid walked || mem p.pid (carved_pids c.processes)) ≡ false =
        sym (v.seen p.pid) ∙ new in
      let (unwalked, uncarved) = both_false _ _ fresh in
      let more : (n : ℕ)
          → mem n (carved_pids (c.processes ++ (p ∷ [])))
            ≡ (mem n (carved_pids c.processes) || (p.pid == n)) =
        λ n.
          ap (mem n) (
            carved_pids-append_one c.processes p
            ∙ ap (λ t. carved_pids c.processes ++ carved_here p t) carved)
          ∙ mem-append_one (carved_pids c.processes) p.pid n in
      rw new (record {
        listed = pids-append_one c.processes p ∙ ap (λ ns. ns ++ (p.pid ∷ [])) v.listed;
        distinct = AreDistinct-append_one c.seen_pids p.pid v.distinct new;
        seen = λ n.
            mem-append_one c.seen_pids p.pid n
            ∙ ap (λ b. b || (p.pid == n)) (v.seen n)
            ∙ or_assoc (mem n walked) (mem n (carved_pids c.processes)) (p.pid == n)
            ∙ ap (λ b. mem n walked || b) (sym (more n));
        anomalous = λ n.
            unlisted-append_one walked c.carve_results
              (record { pid = p.pid; comm = p.comm; phys_offset = phys_off }) n
            ∙ ap₂ (λ a b. a || (not b && (p.pid == n))) (v.anomalous n) unwalked
            ∙ sym (more n);
        apart = λ n h.
            more n ∙ apart_step walked (carved_pids c.processes) p.pid n unwalked (v.apart n h) h;
      })
]
