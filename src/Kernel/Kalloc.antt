-- ===== src/Kernel/Kalloc.antt =====
-- kernel/kalloc.c: the page allocator. A free page holds in its first word the address of the next
-- free page: `next` is that word, `bytes` the memory as the users of a page see it. `end` is the
-- linker's symbol for the first address behind the kernel. The spinlock makes each function one
-- step.
pub mod Pages
pub mod Boot
mod Tests
use proyecto_3_sistemas_oper.Base.{
  ℕ, zero, suc, ◌+◌, ◌-◌, ◌/◌, ◌%◌, Bool, ltb, leb, ◌==◌, ◌||◌, if◌then◌else◌, not, Outcome, done,
  panic, ◌>>=◌, ◌>>◌, check,
}
use proyecto_3_sistemas_oper.Kernel.Params.{pgsize, pg_round_up, phys_top}
use proyecto_3_sistemas_oper.Kernel.Strings.{Memory, memset}

pub record Kmem : Type 0 where
  pub bytes : Memory
  pub next : ℕ → ℕ
  pub freelist : ℕ

abbrev pub link : (ℕ → ℕ) → ℕ → ℕ → ℕ → ℕ
link next r v p = if r == p then v else next p

-- `pa` is one of the pages that the allocator manages.
abbrev pub bad_page : ℕ → ℕ → Bool
bad_page end pa = not (pa % pgsize == 0) || (ltb pa end || leb phys_top pa)

unfoldable pub kfree : ℕ → ℕ → Kmem → Outcome Kmem
kfree end pa k = do
  check (not (bad_page end pa))
  done (record k {
    bytes = memset k.bytes pa 1 pgsize;
    next = link k.next pa k.freelist;
    freelist = pa;
  })

-- The address of the page, or 0 (out of memory), and the new state.
unfoldable pub kalloc : Kmem → ℕ × Kmem
kalloc k =
    let r = k.freelist in
    if r == 0
    then (0, k)
    else (r, record k { bytes = memset k.bytes r 5 pgsize; freelist = k.next r })

-- The loop of `freerange`; its fuel is the number of pages below `pa_end`.
freerange_loop : ℕ → ℕ → ℕ → ℕ → Kmem → Outcome Kmem
freerange_loop end pa_end zero p k = done k
freerange_loop end pa_end (suc fuel) p k =
    let freed = kfree end p k >>= freerange_loop end pa_end fuel (p + pgsize) in
    if leb (p + pgsize) pa_end then freed else done k

unfoldable pub freerange : ℕ → ℕ → ℕ → Kmem → Outcome Kmem
unfolding freerange_loop kfree
freerange end pa_start pa_end k =
    freerange_loop end pa_end (pa_end / pgsize) (pg_round_up pa_start) k

unfoldable pub kinit : ℕ → Kmem → Outcome Kmem
unfolding freerange
kinit end k = freerange end end phys_top k
