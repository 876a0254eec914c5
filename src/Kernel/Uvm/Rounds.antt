-- ===== src/Kernel/Uvm/Rounds.antt =====
-- A round of uvmalloc, and uvmdealloc.
use proyecto_3_sistemas_oper.Base.{
  ℕ, subst, sym, length, ◌+◌, ◌-◌, ◌/◌, ◌%◌, ◌^◌, ◌≤◌, ◌<◌, ◌≡◌, ◌≢◌, ◌⊎◌, refl, ap, ◌∙◌, inl, inr,
  Bool, true, false, ◌==◌, leb, ltb, if◌then◌else◌, none, List, [], ◌∷◌, done, arith, Bool-cases,
  eqb_of_ne, some,
}
use proyecto_3_sistemas_oper.Kernel.Params.{pgsize, max_va, pg_round_up}
use proyecto_3_sistemas_oper.Kernel.Kalloc.Pages.{Page}
use proyecto_3_sistemas_oper.Kernel.Pagetable.{
  Machine, pa2pte, or_valid, kalloc_page, kfree_page, zero_page, mappages, px,
}
use proyecto_3_sistemas_oper.Kernel.Pagetable.Owners.{free, lookup3, frame, Owner, own_page}
use proyecto_3_sistemas_oper.Kernel.Pagetable.Growing.{Sound, lookup, no_page}
use proyecto_3_sistemas_oper.Kernel.Pagetable.Mapping.{mappages_lem}
use proyecto_3_sistemas_oper.Kernel.Uvm.{map_page, alloc_at, uvmdealloc}
use proyecto_3_sistemas_oper.Kernel.Uvm.Memory.{Framed}
use proyecto_3_sistemas_oper.Kernel.Uvm.Unmapping.{Unmapped, Unmapped-refl, lookup_same, same_page}
use proyecto_3_sistemas_oper.Kernel.Uvm.Unmap.{uvmunmap_lem}
use proyecto_3_sistemas_oper.Kernel.Uvm.Taking.{zeroed, take_frame, Allocated, Kept}
use proyecto_3_sistemas_oper.Kernel.Uvm.Fresh.{page-Mapped, page_entry, page_returned}

-- A round of `uvmalloc`: the page q behind a, or no address changes its meaning.
abbrev pub Round : (end top pt a q perm : ℕ) → Machine → List ℕ → Bool × Machine → Type 0
Round end top pt a q perm m ps r =
    ((r.0 ≡ true)
      × Allocated end top pt a 1 perm m ps r.1
      × (lookup pt a r.1 ≡ some (pa2pte q + or_valid perm))
      × Page end q)
    ⊎ ((r.0 ≡ false) × Kept end top pt m r.1 × (length ps ≤ 3))

map_page-kept :
    (end pt a q perm : ℕ) (m : Machine) (r : Bool × Machine)
    → mappages pt a pgsize q perm m ≡ done r
    → r.0 ≡ true
    → map_page end pt a q perm m ≡ done r
unfolding map_page
map_page-kept end pt a q perm m r ran ok = rw (ran, ok) refl

map_page-returned :
    (end pt a q perm : ℕ) (m m2 : Machine) (r : Bool × Machine)
    → mappages pt a pgsize q perm m ≡ done r
    → r.0 ≡ false
    → kfree_page end q r.1 ≡ done m2
    → map_page end pt a q perm m ≡ done (false, m2)
unfolding map_page
map_page-returned end pt a q perm m m2 r ran bad freed = rw (ran, bad, freed) refl

alloc_at-page :
    (end pt a perm q : ℕ) (m : Machine)
    → (kalloc_page m).0 ≡ q
    → q ≢ 0
    → alloc_at end pt a perm m ≡ map_page end pt a q perm (zeroed q m)
unfolding alloc_at
alloc_at-page end pt a perm q m first ne = rw (first, eqb_of_ne q 0 ne) refl

alloc_at-no_page :
    (end pt a perm : ℕ) (m : Machine)
    → kalloc_page m ≡ (0, m)
    → alloc_at end pt a perm m ≡ done (false, m)
unfolding alloc_at
alloc_at-no_page end pt a perm m h =
    ap
      (λ (r : ℕ × Machine).
        if r.0 == 0 then done (false, r.1) else map_page end pt a r.0 perm (zero_page r.0 r.1))
      h

-- The mapping of a page that has been taken off the free list.
pub map_page-Round :
    (end top : ℕ) (own : Owner) (pt a q perm : ℕ) (m m1 : Machine) (ps rest : List ℕ)
    → 0 < end
    → a % pgsize ≡ 0
    → a + pgsize ≤ max_va
    → perm < 2 ^ 10
    → Page end q
    → own q ≡ free
    → Framed end top own pt m
    → ((b c d : ℕ) → lookup3 m1.entries pt b c d ≡ lookup3 m.entries pt b c d)
    → length ps ≤ 1 + length rest
    → Sound end (own_page own q (frame (a / pgsize))) pt m1 rest
    → lookup pt a m ≡ none
    → (r : Bool × Machine) × (map_page end pt a q perm m1 ≡ done r)
      × Round end top pt a q perm m ps r
map_page-Round end top own pt a q perm m m1 ps rest pos al below few page was_free fr kept counted
      so1 gap =
    let own1 = own_page own q (frame (a / pgsize)) in
    let (r, ran, st) =
      mappages_lem end own1 pt a pgsize q perm m1 rest al refl (omega arith) below page.0 so1
        (λ va ge lt.
          kept (px 2 va) (px 1 va) (px 0 va)
          ∙ lookup_same pt a va m (same_page a va al ge (omega (arith, lt)))
          ∙ gap) in
    elim (Bool-cases r.0) [
      | inl ok ↦ (
        r,
        map_page-kept end pt a q perm m1 r ran ok,
        inl (
          ok,
          page-Mapped end top own pt a q perm m m1 ps rest al below few page was_free fr kept
              counted r st ok,
          page_entry end top own pt a q perm m m1 ps rest al below few page was_free fr kept counted
              r st ok,
          page,
        ),
      )
      | inr bad ↦
          let (m2, freed, k, left) =
            page_returned end top own pt a q perm m m1 ps rest al below few page was_free fr kept
              counted r pos st bad in
          (
            (false, m2),
            map_page-returned end pt a q perm m1 m2 r ran bad freed,
            inr (refl, k, left),
          )
    ]

pub alloc-Round :
    (end top : ℕ) (own : Owner) (pt a perm : ℕ) (m : Machine) (ps : List ℕ)
    → 0 < end
    → a % pgsize ≡ 0
    → a + pgsize ≤ max_va
    → perm < 2 ^ 10
    → Sound end own pt m ps
    → Framed end top own pt m
    → lookup pt a m ≡ none
    → (r : Bool × Machine) × (alloc_at end pt a perm m ≡ done r)
      × Round end top pt a (kalloc_page m).0 perm m ps r
alloc-Round end top own pt a perm m [] pos al below few so fr gap = (
  (false, m),
  alloc_at-no_page end pt a perm m (no_page end m so.pages),
  inr (
    refl,
    record { own' = own; ps' = []; sound = so; framed = fr; same = λ va hv. refl },
    omega arith,
  ),
)
alloc-Round end top own pt a perm m (q ∷ ps) pos al below few so fr gap =
    let (first, ne, page, so1, kept) = take_frame end own pt (a / pgsize) q m ps so in
    let (r, ran, round) =
      map_page-Round end top own pt a q perm m (zeroed q m) (q ∷ ps) ps pos al below few page
        so.unowned.0 fr kept (omega arith) so1 gap in
    (
      r,
      alloc_at-page end pt a perm q m first ne ∙ ran,
      subst (λ (x : ℕ). Round end top pt a x perm m (q ∷ ps) r) (sym first) round,
    )

-- `uvmdealloc` of memory to a size that is not larger, in a page table whose valid entries below
-- `top` each have a page of their own, with the pages below `top`, unmaps and frees the pages from the new size, rounded up, to the old
-- one, and gives the new size.
pub uvmdealloc_lem :
    (end top : ℕ) (own : Owner) (pt oldsz newsz : ℕ) (m : Machine) (ps : List ℕ)
    → 0 < end
    → newsz ≤ oldsz
    → oldsz ≤ max_va
    → pg_round_up oldsz ≤ top
    → Sound end own pt m ps
    → Framed end top own pt m
    → (m' : Machine) × (uvmdealloc end pt oldsz newsz m ≡ done (newsz, m'))
      × Unmapped end top pt
          (pg_round_up newsz)
          ((pg_round_up oldsz - pg_round_up newsz) / pgsize)
          m
          ps
          m'
unfolding uvmdealloc
uvmdealloc_lem end top own pt oldsz newsz m ps pos le high low so fr =
    let n = (pg_round_up oldsz - pg_round_up newsz) / pgsize in
    elim (Bool-cases (leb oldsz newsz)) [
      | inl same ↦
          let eq : oldsz ≡ newsz = ground (arith, same, le) in
          let none_left : n ≡ 0 = omega (arith, eq) in
          (
            m,
            rw (same, eq) refl,
            rw none_left (Unmapped-refl end top own pt (pg_round_up newsz) m ps so fr),
          )
      | inr less ↦ elim (Bool-cases (ltb (pg_round_up newsz) (pg_round_up oldsz))) [
        | inr level ↦
            let none_left : n ≡ 0 = ground (arith, level) in
            (
              m,
              rw (less, level) refl,
              rw none_left (Unmapped-refl end top own pt (pg_round_up newsz) m ps so fr),
            )
        | inl above ↦
            let (m', ran, u) =
              uvmunmap_lem end top own n pt (pg_round_up newsz) m ps pos (omega arith)
                (omega (arith, high, le)) (omega (arith, low, le)) so fr in
            (m', rw (less, above, ran) refl, u)
      ]
    ]
