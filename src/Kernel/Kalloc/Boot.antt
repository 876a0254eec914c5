-- ===== src/Kernel/Kalloc/Boot.antt =====
-- Freeing a range of pages at boot, and allocation after freeing.
use native.Mathlib.Nat.{zero-add}
use proyecto_3_sistemas_oper.Base.{
  ℕ, zero, suc, ◌+◌, ◌-◌, ◌*◌, ◌/◌, ◌%◌, ◌≤◌, ◌<◌, ◌≡◌, refl, subst, List, [], ◌∷◌, NotIn, arith,
  done, leb, true,
}
use proyecto_3_sistemas_oper.Kernel.Params.{pgsize, phys_top, pg_round_up}
use proyecto_3_sistemas_oper.Kernel.Kalloc.{Kmem, kfree, kalloc, freerange_loop, freerange, kinit}
use proyecto_3_sistemas_oper.Kernel.Kalloc.Pages.{Page, Free, kfree_lem, kalloc_lem}

-- The n pages from `first` on, the highest one first.
abbrev pub pages_down : ℕ → ℕ → List ℕ
pages_down first zero = []
pages_down first (suc n) = (first + n * pgsize) ∷ pages_down first n

pages_down-NotIn : (n : ℕ) (first p : ℕ) → first + n * pgsize ≤ p → NotIn p (pages_down first n)
pages_down-NotIn zero first p h = tt
pages_down-NotIn (suc n) first p h = (λ e. omega arith, pages_down-NotIn n first p (omega arith))

module _ (end pa_end first : ℕ) (end_pos : 0 < end) (low : end ≤ first)
    (aligned : first % pgsize ≡ 0) (top : pa_end ≤ phys_top) where
  freerange_loop_lem :
      (n fuel i p : ℕ) (k : Kmem)
      → n ≤ fuel
      → p ≡ first + i * pgsize
      → p + n * pgsize ≤ pa_end
      → pa_end < p + n * pgsize + pgsize
      → Free end k (pages_down first i)
      → (k' : Kmem) × (freerange_loop end pa_end fuel p k ≡ done k')
        × Free end k' (pages_down first (i + n))
  unfolding freerange_loop
  freerange_loop_lem zero zero i p k le e lo hi f =
      (k, refl, let q : i + 0 ≡ i = omega arith in rw q f)
  freerange_loop_lem zero (suc fuel) i p k le e lo hi f =
      (k, ground arith, let q : i + 0 ≡ i = omega arith in rw q f)
  freerange_loop_lem (suc n) zero i p k le e lo hi f = elim le [ ]
  freerange_loop_lem (suc n) (suc fuel) i p k le e lo hi f =
      let (k', freed, f', _) =
        kfree_lem end p k (pages_down first i) end_pos f (omega arith)
          (pages_down-NotIn i first p (omega arith)) in
      let g : Free end k' (pages_down first (suc i)) =
        subst (λ q. Free end k' (q ∷ pages_down first i)) e f' in
      let (k'', looped, f'') =
        freerange_loop_lem n fuel (suc i) (p + pgsize) k' (omega arith) (omega arith) (omega arith)
          (omega arith) g in
      let q : suc i + n ≡ i + suc n = omega arith in
      let go : leb (p + pgsize) pa_end ≡ true = ground arith in
      (k'', rw (go, freed, looped), subst (λ j. Free end k'' (pages_down first j)) q f'')

-- At boot, from an empty list, `kinit` does not panic and frees exactly the whole pages between
-- the end of the kernel, rounded up, and PHYSTOP.
pub kinit_lem :
    (end : ℕ) (k : Kmem)
    → 0 < end
    → end ≤ phys_top
    → Free end k []
    → (k' : Kmem) × (kinit end k ≡ done k')
      × Free end k' (pages_down (pg_round_up end) ((phys_top - pg_round_up end) / pgsize))
unfolding kinit freerange
kinit_lem end k h top f =
    let count = (phys_top - pg_round_up end) / pgsize in
    let (k', looped, f') =
      freerange_loop_lem end phys_top (pg_round_up end) h (omega arith) (omega arith) (omega arith)
        count (phys_top / pgsize) 0 (pg_round_up end) k (omega arith) (omega arith) (omega arith)
        (omega arith) f in
    (k', looped, subst (λ j. Free end k' (pages_down (pg_round_up end) j)) (zero-add count) f')

-- A page that is freed is the next one that is allocated, and the pages that were free before are
-- free again.
pub kalloc-kfree :
    (end pa : ℕ) (k : Kmem) (ps : List ℕ)
    → 0 < end
    → Free end k ps
    → Page end pa
    → NotIn pa ps
    → (k' : Kmem) × (kfree end pa k ≡ done k') × ((kalloc k').0 ≡ pa) × Free end (kalloc k').1 ps
kalloc-kfree end pa k ps h f ok fresh =
    let (k', freed, f', _) = kfree_lem end pa k ps h f ok fresh in
    let (first, rest, _, _, _) = kalloc_lem end pa k' ps f' in (k', freed, first, rest)
