-- ===== src/Kernel/Kalloc/Pages.antt =====
-- The allocator's invariant: its links form a list of distinct managed pages, which `kfree` extends
-- and `kalloc` shortens.
use proyecto_3_sistemas_oper.Base.{
  ℕ, ◌%◌, ◌≤◌, ◌<◌, ◌≡◌, ◌≢◌, refl, List, [], ◌∷◌, All, NotIn, Distinct, arith, done, panic,
  if◌then◌else◌, eqb_of_ne, eqb_refl,
}
use proyecto_3_sistemas_oper.Kernel.Params.{pgsize, phys_top}
use proyecto_3_sistemas_oper.Kernel.Strings.{within, memset}
use proyecto_3_sistemas_oper.Kernel.Strings.Moves.{memset_lem}
use proyecto_3_sistemas_oper.Kernel.Kalloc.{Kmem, link, kfree, kalloc}

-- The links from `head` on run through the pages of the list and end at the null pointer.
abbrev pub Chain : (ℕ → ℕ) → ℕ → List ℕ → Type 0
Chain next head [] = head ≡ 0
Chain next head (p ∷ ps) = head ≡ p × p ≢ 0 × Chain next (next p) ps

abbrev pub Page : ℕ → ℕ → Type 0
Page end p = p % pgsize ≡ 0 × end ≤ p × p < phys_top

-- The free pages, in the order of the list.
pub record Free (end : ℕ) (k : Kmem) (ps : List ℕ) : Type 0 where
  pub chain : Chain k.next k.freelist ps
  pub pages : All (Page end) ps
  pub distinct : Distinct ps

Chain-link :
    (ps : List ℕ) (next : ℕ → ℕ) (r v head : ℕ)
    → NotIn r ps
    → Chain next head ps
    → Chain (link next r v) head ps
Chain-link [] next r v head n c = c
Chain-link (p ∷ ps) next r v head n c =
    (c.0, c.1, rw (eqb_of_ne r p n.0) (Chain-link ps next r v (next p) n.1 c.2))

-- `kfree` of a managed page that is not free does not panic, makes the page the first free one,
-- fills it with ones, and touches no other byte.
pub kfree_lem :
    (end pa : ℕ) (k : Kmem) (ps : List ℕ)
    → 0 < end
    → Free end k ps
    → Page end pa
    → NotIn pa ps
    → (k' : Kmem) × (kfree end pa k ≡ done k')
      × Free end k' (pa ∷ ps)
      × ((a : ℕ) → k'.bytes a ≡ (if within pa pgsize a then 1 else k.bytes a))
unfolding kfree
kfree_lem end pa k ps h f ok fresh = (
  record k { bytes = memset k.bytes pa 1 pgsize; next = link k.next pa k.freelist; freelist = pa },
  ground arith,
  record { chain = chain'; pages = (ok, f.pages); distinct = (fresh, f.distinct) },
  λ a. memset_lem k.bytes pa 1 pgsize a,
)
  where
    chain' : Chain (link k.next pa k.freelist) pa (pa ∷ ps)
    chain' = (
      refl,
      omega (arith, ok),
      rw (eqb_refl pa) (Chain-link ps k.next pa k.freelist k.freelist fresh f.chain),
    )

-- `kfree` stops the machine for an address that is unaligned, below `end` or not below PHYSTOP.
pub kfree-panic : (end pa : ℕ) (k : Kmem) → ¬ Page end pa → kfree end pa k ≡ panic
unfolding kfree
kfree-panic end pa k bad = ground (arith, bad)

-- With no free page `kalloc` returns 0 and changes nothing.
pub kalloc-empty : (end : ℕ) (k : Kmem) → Free end k [] → kalloc k ≡ (0, k)
unfolding kalloc
kalloc-empty end k f = ground (arith, f.chain)

-- With a free page `kalloc` takes the first one off the list, keeps the invariant and fills the
-- page with fives, touching no other byte; the page is a managed one, and none of those that
-- stay free.
pub kalloc_lem :
    (end p : ℕ) (k : Kmem) (ps : List ℕ)
    → Free end k (p ∷ ps)
    → ((kalloc k).0 ≡ p)
      × Free end (kalloc k).1 ps
      × NotIn p ps
      × Page end p
      × ((a : ℕ) → (kalloc k).1.bytes a ≡ (if within p pgsize a then 5 else k.bytes a))
unfolding kalloc
kalloc_lem end p k ps f =
    rw (f.chain.0, eqb_of_ne p 0 f.chain.1)
      (
        refl,
        record { chain = f.chain.2; pages = f.pages.1; distinct = f.distinct.1 },
        f.distinct.0,
        f.pages.0,
        λ a. memset_lem k.bytes p 5 pgsize a,
      )
