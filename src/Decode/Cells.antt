-- ===== src/Decode/Cells.antt =====
-- Cells of the heap, and the ones that an allocation and a write leave alone.
use cuda_schedule_project.Prelude.{ℕ, ◌<◌, ◌≡◌, ◌≢◌, refl, true, false, ◌==◌, arith}
use cuda_schedule_project.Decode.{Heap, alloc, write}

==-self : (a : ℕ) → (a == a) ≡ true
==-self a = ground arith

==-other : (a b : ℕ) → a ≢ b → (a == b) ≡ false
==-other a b h = ground arith

module _ {Cache : Type 0} (c : Cache) (h : Heap Cache) where
  pub alloc_new : (alloc c h).0.cells h.next ≡ c
  unfolding alloc
  alloc_new = rw (==-self h.next) refl

  pub alloc_old : (r : ℕ) → r < h.next → (alloc c h).0.cells r ≡ h.cells r
  unfolding alloc
  alloc_old r l = rw (==-other r h.next (λ e. omega arith)) refl

  pub write_same : (r : ℕ) → (write r c h).cells r ≡ c
  unfolding write
  write_same r = rw (==-self r) refl

  pub write_other : (q r : ℕ) → q ≢ r → (write r c h).cells q ≡ h.cells q
  unfolding write
  write_other q r n = rw (==-other q r n) refl
