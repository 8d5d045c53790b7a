-- ===== src/Paging/Walk.antt =====
-- core/backends/x86_64.py: what `_walk_pml4` gives, on every path of the walk.
use vantacore_engine.Prelude.OptionBind.{◌>>=◌}
use vantacore_engine.Prelude.{
  Bool-cases, Option, Option-cases, ap, arith, drop, false, if◌then◌else◌, inl, inr, leb, length,
  length-drop, length-take, none, refl, some, subst, sym, take, true, ℕ, ◌%◌, ◌&&◌, ◌*◌, ◌+◌, ◌-◌,
  ◌/◌, ◌<◌, ◌^◌, ◌↔◌, ◌∙◌, ◌≡◌,
}
use mathlib.Core.Path.{fun_ext}
use vantacore_engine.Bytes.{Bytes, little_endian, unpack_from}
use vantacore_engine.Bytes.Laws.{take-take}
use vantacore_engine.Paging.{
  Backend, frame_4k, frame_2m, is_huge, read_phys_u64, table_entry, within_file, table_index,
  walk_directory, walk_pml4,
}

-- The eight bytes at an address as a number, the lowest first, and 0 where they do not lie in the
-- file.
abbrev pub dump_entry : Option Bytes → ℕ → ℕ → ℕ
dump_entry none file_size address = 0
dump_entry (some dump) file_size address =
    if leb (address + 8) file_size && leb 8 (length dump - address)
    then little_endian (take 8 (drop address dump))
    else 0

-- The physical address in the bits from 12 or from 21 to 51 of an entry: the rest is taken off.
abbrev pub frame_of : ℕ → ℕ → ℕ
frame_of size entry = entry % 0x10000000000000 - entry % size

-- The entry at an index of a table is present.
pub record Present (entry_at : ℕ → ℕ) (table index entry : ℕ) : Type 0 where
  pub in_memory : entry_at (table + index * 8) ≡ entry
  pub present : entry % 2 ≡ 1

-- Tables by the entry that is at an address of the memory, the address of the first table, and the
-- address of what a small and a large entry lead to.
module _ (entry_at : ℕ → ℕ) (top : ℕ) (small large : ℕ → ℕ) (file_size : ℕ) where
  -- The translations by pages of 4 KB and of 2 MB: the four nine-bit indices of the address select
  -- the entries, and the rest of it is the offset. The page-size bit is looked at in the third
  -- table only.
  pub data Leads (vaddr : ℕ) : ℕ → Type 0 where
    page_4k :
        {e4 e3 e2 e1 phys : ℕ}
        → Present entry_at top (vaddr / 2 ^ 39 % 512) e4
        → Present entry_at (small e4) (vaddr / 2 ^ 30 % 512) e3
        → Present entry_at (small e3) (vaddr / 2 ^ 21 % 512) e2
        → e2 / 2 ^ 7 % 2 ≡ 0
        → Present entry_at (small e2) (vaddr / 2 ^ 12 % 512) e1
        → phys ≡ small e1 + vaddr % 2 ^ 12
        → phys < file_size
        → Leads vaddr phys
    page_2m :
        {e4 e3 e2 phys : ℕ}
        → Present entry_at top (vaddr / 2 ^ 39 % 512) e4
        → Present entry_at (small e4) (vaddr / 2 ^ 30 % 512) e3
        → Present entry_at (small e3) (vaddr / 2 ^ 21 % 512) e2
        → e2 / 2 ^ 7 % 2 ≡ 1
        → phys ≡ large e2 + vaddr % 2 ^ 21
        → phys < file_size
        → Leads vaddr phys

-- The tables in the dump, with the first one at the 4 KB page of the lowest 64 bits of `cr3`.
abbrev pub Translates : Backend → ℕ → ℕ → ℕ → Type 0
Translates b cr3 vaddr phys =
    Leads (dump_entry b.dump_handle b.file_size) (cr3 % 2 ^ 64 - cr3 % 4096) (frame_of 4096)
      (frame_of 0x200000) b.file_size vaddr phys

-- The tables as the walk reads them.
abbrev Walked : Backend → ℕ → ℕ → ℕ → Type 0
Walked b cr3 =
    Leads (read_phys_u64 b) (cr3 % 2 ^ 64 / 2 ^ 12 * 2 ^ 12) frame_4k frame_2m b.file_size

frame_4k-frame_of : (entry : ℕ) → frame_4k entry ≡ frame_of 4096 entry
frame_4k-frame_of entry = omega arith

frame_2m-frame_of : (entry : ℕ) → frame_2m entry ≡ frame_of 0x200000 entry
frame_2m-frame_of entry = omega arith

cr3_base : (cr3 : ℕ) → cr3 % 2 ^ 64 / 2 ^ 12 * 2 ^ 12 ≡ cr3 % 2 ^ 64 - cr3 % 4096
cr3_base cr3 = omega arith

read_phys_u64-dump_entry :
    (b : Backend) (address : ℕ)
    → read_phys_u64 b address ≡ dump_entry b.dump_handle b.file_size address
unfolding read_phys_u64 unpack_from
read_phys_u64-dump_entry b address = elim (Option-cases b.dump_handle) [
  | inl e ↦ rw e refl
  | inr (dump, e) ↦ rw e (
      ground (
        arith,
        length-take 8 (drop address dump),
        length-drop address dump,
        take-take 8 8 (drop address dump),
      ))
]

table_entry_iff :
    (b : Backend) (table index entry : ℕ)
    → (table_entry b table index ≡ some entry) ↔ Present (read_phys_u64 b) table index entry
unfolding table_entry
table_entry_iff b table index entry = (
  λ h. record { in_memory = ground arith; present = ground arith },
  λ p. ground (arith, p.in_memory, p.present),
)

within_file_iff :
    (b : Backend) (resolved phys : ℕ)
    → (within_file b resolved ≡ some phys) ↔ (phys ≡ resolved) × (phys < b.file_size)
within_file_iff b resolved phys = ground arith

-- Inversion of a step of the walk.
bind-eq-some :
    {A B : Type 0} (m : Option A) (f : A → Option B) {b : B}
    → (m >>= f) ≡ some b
    → (a : A) × (m ≡ some a) × (f a ≡ some b)
bind-eq-some none f h = cc
bind-eq-some (some a) f h = (a, refl, h)

walk_directory-Walked :
    (b : Backend) (cr3 vaddr : ℕ) {e4 e3 e2 phys : ℕ}
    → Present (read_phys_u64 b) (cr3 % 2 ^ 64 / 2 ^ 12 * 2 ^ 12) (vaddr / 2 ^ 39 % 512) e4
    → Present (read_phys_u64 b) (frame_4k e4) (vaddr / 2 ^ 30 % 512) e3
    → Present (read_phys_u64 b) (frame_4k e3) (vaddr / 2 ^ 21 % 512) e2
    → walk_directory b e2 vaddr ≡ some phys
    → Walked b cr3 vaddr phys
unfolding walk_directory
walk_directory-Walked b cr3 vaddr {e2 = e2} {phys = phys} p4 p3 p2 h =
    elim (Bool-cases (is_huge e2)) [
      | inl huge ↦
          let inside = (within_file_iff b (frame_2m e2 + vaddr % 2 ^ 21) phys).0 (rw huge at h) in
          page_2m p4 p3 p2 (ground arith) inside.0 inside.1
      | inr small ↦
          let (page, e, last) =
            bind-eq-some (table_entry b (frame_4k e2) (table_index vaddr 12)) _ (rw small at h) in
          let inside = (within_file_iff b (frame_4k page + vaddr % 2 ^ 12) phys).0 last in
          page_4k p4 p3 p2 (ground arith) ((table_entry_iff b _ _ page).0 e) inside.0 inside.1
    ]

walk_sound :
    (b : Backend) (cr3 vaddr phys : ℕ) → walk_pml4 b cr3 vaddr ≡ some phys → Walked b cr3 vaddr phys
unfolding walk_pml4
walk_sound b cr3 vaddr phys h =
    let (e4, p4, h4) = bind-eq-some (table_entry b _ (table_index vaddr 39)) _ h in
    let (e3, p3, h3) = bind-eq-some (table_entry b (frame_4k e4) (table_index vaddr 30)) _ h4 in
    let (e2, p2, h2) = bind-eq-some (table_entry b (frame_4k e3) (table_index vaddr 21)) _ h3 in
    walk_directory-Walked b cr3 vaddr ((table_entry_iff b _ _ e4).0 p4)
      ((table_entry_iff b _ _ e3).0 p3) ((table_entry_iff b _ _ e2).0 p2) h2

walk_complete :
    (b : Backend) (cr3 vaddr : ℕ) {phys : ℕ}
    → Walked b cr3 vaddr phys
    → walk_pml4 b cr3 vaddr ≡ some phys
unfolding walk_pml4 walk_directory
walk_complete b cr3 vaddr (page_4k {e4} {e3} {e2} {e1} p4 p3 p2 small p1 e lt) =
    rw ((table_entry_iff b _ _ e4).1 p4) (
      rw ((table_entry_iff b _ _ e3).1 p3) (
        rw ((table_entry_iff b _ _ e2).1 p2) (
          let s : is_huge e2 ≡ false = ground arith in
          rw s (rw ((table_entry_iff b _ _ e1).1 p1) ((within_file_iff b _ _).1 (e, lt))))))
walk_complete b cr3 vaddr (page_2m {e4} {e3} {e2} p4 p3 p2 huge e lt) =
    rw ((table_entry_iff b _ _ e4).1 p4) (
      rw ((table_entry_iff b _ _ e3).1 p3) (
        rw ((table_entry_iff b _ _ e2).1 p2)
          (let s : is_huge e2 ≡ true = ground arith in rw s ((within_file_iff b _ _).1 (e, lt)))))

-- How the walk reads the tables is how they stand in the dump.
Walked-Translates :
    (b : Backend) (cr3 vaddr phys : ℕ) → Walked b cr3 vaddr phys ≡ Translates b cr3 vaddr phys
Walked-Translates b cr3 vaddr phys =
    let entries : read_phys_u64 b ≡ dump_entry b.dump_handle b.file_size =
      fun_ext (read_phys_u64-dump_entry b) in
    let small : frame_4k ≡ frame_of 4096 = fun_ext frame_4k-frame_of in
    let large : frame_2m ≡ frame_of 0x200000 = fun_ext frame_2m-frame_of in
    ap (λ f. Leads f (cr3 % 2 ^ 64 / 2 ^ 12 * 2 ^ 12) frame_4k frame_2m b.file_size vaddr phys)
      entries
    ∙ ap
        (λ t.
          Leads (dump_entry b.dump_handle b.file_size) t frame_4k frame_2m b.file_size vaddr phys)
        (cr3_base cr3)
    ∙ ap
        (λ f.
          Leads (dump_entry b.dump_handle b.file_size) (cr3 % 2 ^ 64 - cr3 % 4096) f frame_2m
            b.file_size vaddr phys)
        small
    ∙ ap
        (λ f.
          Leads (dump_entry b.dump_handle b.file_size) (cr3 % 2 ^ 64 - cr3 % 4096) (frame_of 4096) f
            b.file_size vaddr phys)
        large

-- The walk returns an address exactly when the tables in the dump lead to it, by a 4 KB or a 2 MB
-- page that is present at every level, with an address inside the file. An entry of the second
-- level is always taken for a table: its page-size bit, a page of 1 GB, is not looked at.
pub walk_pml4_iff :
    (b : Backend) (cr3 vaddr phys : ℕ)
    → (walk_pml4 b cr3 vaddr ≡ some phys) ↔ Translates b cr3 vaddr phys
walk_pml4_iff b cr3 vaddr phys = (
  λ h. subst (λ t. t) (Walked-Translates b cr3 vaddr phys) (walk_sound b cr3 vaddr phys h),
  λ h. walk_complete b cr3 vaddr (subst (λ t. t) (sym (Walked-Translates b cr3 vaddr phys)) h),
)
