-- ===== src/Paging/Page.antt =====
-- core/backends/x86_64.py: addresses of one 4 KB page are translated together.
use vantacore_engine.Prelude.OptionBind.{◌>>=◌}
use vantacore_engine.Prelude.{
  Bool-cases, Option, Option-cases, arith, inl, inr, none, refl, some, ℕ, ◌%◌, ◌+◌, ◌<◌, ◌^◌, ◌≡◌,
}
use vantacore_engine.Paging.{
  Backend, frame_4k, frame_2m, is_huge, table_entry, within_file, table_index, walk_directory,
  walk_pml4,
}

bind_assoc :
    {A B C : Type 0} (m : Option A) (f : A → Option B) (g : B → Option C)
    → ((m >>= f) >>= g) ≡ (m >>= (λ a. f a >>= g))
bind_assoc none f g = refl
bind_assoc (some a) f g = refl

within_file-add :
    (b : Backend) (x j : ℕ)
    → within_file b (x + j) ≡ (within_file b x >>= (λ p. within_file b (p + j)))
within_file-add b x j = ground arith

module _ (b : Backend) (vaddr j : ℕ) (h : vaddr % 2 ^ 12 + j < 2 ^ 12) where
  walk_directory-add :
      (pde : ℕ)
      → walk_directory b pde (vaddr + j)
        ≡ (walk_directory b pde vaddr >>= (λ p. within_file b (p + j)))
  unfolding walk_directory
  walk_directory-add pde = elim (Bool-cases (is_huge pde)) [
    | inl huge ↦
        let shift : frame_2m pde + (vaddr + j) % 2 ^ 21 ≡ frame_2m pde + vaddr % 2 ^ 21 + j =
          omega arith in
        rw huge (rw shift (within_file-add b (frame_2m pde + vaddr % 2 ^ 21) j))
    | inr small ↦
        let index : table_index (vaddr + j) 12 ≡ table_index vaddr 12 = omega arith in
        let offset : (vaddr + j) % 2 ^ 12 ≡ vaddr % 2 ^ 12 + j = omega arith in
        rw small (
          rw index (elim (Option-cases (table_entry b (frame_4k pde) (table_index vaddr 12))) [
            | inl missing ↦ rw missing refl
            | inr (page, e) ↦
                let shift : frame_4k page + (vaddr + j) % 2 ^ 12
                    ≡ frame_4k page + vaddr % 2 ^ 12 + j =
                  omega (arith, offset) in
                rw e (rw shift (within_file-add b (frame_4k page + vaddr % 2 ^ 12) j))
          ]))
  ]

  -- An address of the same page is translated to the same place in the frame, or to none where
  -- that is beyond the file.
  pub walk-add :
      (cr3 : ℕ)
      → walk_pml4 b cr3 (vaddr + j) ≡ (walk_pml4 b cr3 vaddr >>= (λ p. within_file b (p + j)))
  unfolding walk_pml4
  walk-add cr3 =
      let i39 : table_index (vaddr + j) 39 ≡ table_index vaddr 39 = omega arith in
      let i30 : table_index (vaddr + j) 30 ≡ table_index vaddr 30 = omega arith in
      let i21 : table_index (vaddr + j) 21 ≡ table_index vaddr 21 = omega arith in
      rw i39 (rw i30 (rw i21 (simp (bind_assoc, walk_directory-add))))
