-- ===== src/Kernel/Space.antt =====
-- A process's address space: kernel/proc.c's growproc, proc_pagetable, proc_freepagetable and the
-- freeing of memory in freeproc, and kernel/crear_memoria_compartida.c. `end` is the linker's first
-- address behind the kernel, `code` the one of the trampoline's code.
use proyecto_3_sistemas_oper.Base.{
  ℕ, zero, suc, ◌+◌, ◌-◌, ◌/◌, ◌%◌, ◌^◌, Bool, true, false, not, ◌==◌, ltb, leb, ◌&&◌,
  if◌then◌else◌, ℤ, pos, negsuc, Outcome, done, panic, ◌>>=◌,
}
use proyecto_3_sistemas_oper.Kernel.Params.{pgsize, pg_round_up, max_va, trampoline, trap_frame}
use proyecto_3_sistemas_oper.Kernel.Pagetable.{
  Machine, kalloc_page, kfree_page, zero_page, is_valid, find_entry, mappages, uvmcreate,
}
use proyecto_3_sistemas_oper.Kernel.Uvm.{uvmunmap, uvmalloc, uvmdealloc, uvmfree}

-- `struct vregion`
pub record VRegion : Type 0 where
  pub start : ℕ
  pub size : ℤ
  pub active : Bool

-- What `struct proc` says of the process's memory, and its trace mask.
pub record Space : Type 0 where
  pub sz : ℕ
  pub pagetable : ℕ
  pub trapframe : ℕ
  pub shm_va : ℕ
  pub usar_memoria_compartida : Bool
  pub map_ro_va : ℕ
  pub trace_mask : ℤ
  pub vr : VRegion

-- `shared_page` and `refcount`
pub record Shared : Type 0 where
  pub shared_page : ℕ
  pub refcount : ℤ

-- A uint64 plus an int.
abbrev pub plus_int : ℕ → ℤ → ℕ
plus_int a (pos n) = (a + n) % 2 ^ 64
plus_int a (negsuc k) = (a + 2 ^ 64 - (k + 1)) % 2 ^ 64

-- Whether `growproc` returns 0. `PTE_W` is 4.
unfoldable pub growproc : ℕ → ℤ → Space → Machine → Outcome (Bool × Space × Machine)
unfolding uvmalloc uvmdealloc
growproc end (pos zero) p m = done (true, p, m)
growproc end (pos (suc n)) p m =
    let sz = plus_int p.sz (pos (suc n)) in
    let grown : Outcome (Bool × Space × Machine) = uvmalloc end p.pagetable p.sz sz 4 m >>= λ r.
    if r.0 == 0 then done (false, p, r.1) else done (true, record p { sz = r.0 }, r.1) in
    if ltb trap_frame sz then done (false, p, m) else grown
growproc end (negsuc k) p m = do
  r ← uvmdealloc end p.pagetable p.sz (plus_int p.sz (negsuc k)) m
  done (true, record p { sz = r.0 }, r.1)

-- An empty page table goes back, as in the error branches of `proc_pagetable`.
abbrev discard_table : ℕ → ℕ → Machine → Outcome (ℕ × Machine)
discard_table end pt m = uvmfree end pt 0 m >>= λ m'. done (0, m')

-- The mapping of the trapframe in `proc_pagetable`.
map_trapframe : ℕ → ℕ → ℕ → Machine → Outcome (ℕ × Machine)
unfolding mappages uvmunmap uvmfree
map_trapframe end pt frame m = do
  r ← mappages pt trap_frame pgsize frame 6 m
  if r.0 then done (pt, r.1) else (uvmunmap end pt trampoline 1 false r.1 >>= discard_table end pt)

-- The new page table, or 0. `PTE_R | PTE_X` is 10, `PTE_R | PTE_W` is 6.
pub proc_pagetable : ℕ → ℕ → ℕ → Machine → Outcome (ℕ × Machine)
unfolding uvmcreate map_trapframe
proc_pagetable end code frame m =
    let (pt, m') = uvmcreate m in
    let mapped : Outcome (ℕ × Machine) = mappages pt trampoline pgsize code 10 m' >>= λ r.
    if r.0 then map_trapframe end pt frame r.1 else discard_table end pt r.1 in
    if pt == 0 then done (0, m') else mapped

pub proc_freepagetable : ℕ → ℕ → ℕ → Machine → Outcome Machine
unfolding uvmunmap uvmfree
proc_freepagetable end pt sz m = do
  m1 ← uvmunmap end pt trampoline 1 false m
  m2 ← uvmunmap end pt trap_frame 1 false m1
  uvmfree end pt sz m2

-- `x + 1` and `x - 1` of an int that stays in its range.
abbrev int_suc : ℤ → ℤ
int_suc (pos n) = pos (n + 1)
int_suc (negsuc zero) = pos 0
int_suc (negsuc (suc k)) = negsuc k

abbrev int_pred : ℤ → ℤ
int_pred (pos zero) = negsuc 0
int_pred (pos (suc n)) = pos n
int_pred (negsuc k) = negsuc (k + 1)

-- Under `shm_lock`: whether there is a shared page, taken at the first fork.
pub take_shared : Shared → Machine → Bool × Shared × Machine
unfolding kalloc_page zero_page
take_shared s m =
    let (q, m') = kalloc_page m in
    if not (s.shared_page == 0)
    then (true, record s { refcount = int_suc s.refcount }, m)
    else if q == 0
    then (false, s, m')
    else (true, record { shared_page = q; refcount = pos 2 }, zero_page q m')

abbrev shares_at : ℕ → Space → Space
shares_at va p = record p { sz = va + pgsize; shm_va = va; usar_memoria_compartida = true }

-- The rest of it: the page behind the parent's size and the child's. `PTE_W|PTE_R|PTE_U` is 22.
pub map_shared :
    Space → Space → Shared → Machine → Outcome (Bool × Space × Space × Shared × Machine)
unfolding mappages
map_shared p np s m =
    let va = pg_round_up p.sz in
    mappages p.pagetable va pgsize s.shared_page 22 m >>= λ r.
    if not r.0
    then done (false, p, np, s, r.1)
    else (mappages np.pagetable va pgsize s.shared_page 22 r.1 >>= λ r'.
        if not r'.0
        then done (false, p, np, s, r'.1)
        else done (true, shares_at va p, shares_at va np, s, r'.1))

-- Whether `crear_memoria_compartida` returns 0.
pub crear_memoria_compartida :
    Space → Space → Shared → Machine → Outcome (Bool × Space × Space × Shared × Machine)
unfolding take_shared map_shared
crear_memoria_compartida p np s m =
    let (ok, s', m') = take_shared s m in
    if ok then map_shared p np s' m' else done (false, p, np, s', m')

-- `freeproc` lets go of the shared page.
pub drop_shared : ℕ → Space → Shared → Machine → Outcome (Shared × Machine)
unfolding uvmunmap kfree_page
drop_shared end p s m =
    let count = int_pred s.refcount in
    let last : Bool = elim count [ pos n ↦ n == 0 | negsuc k ↦ false ] in
    let dropped : Outcome (Shared × Machine) = uvmunmap end p.pagetable p.shm_va 1 false m >>= λ m1.
    if last
    then (kfree_page end s.shared_page m1 >>= λ m2.
        done (record { shared_page = 0; refcount = count }, m2))
    else done (record s { refcount = count }, m1) in
    if p.usar_memoria_compartida && not (p.shm_va == 0) then dropped else done (s, m)

-- `freeproc` frees the page of `map_ro`.
drop_read_only : ℕ → Space → Machine → Outcome (Space × Machine)
unfolding uvmunmap
drop_read_only end p m =
    if p.map_ro_va == 0
    then done (p, m)
    else (uvmunmap end p.pagetable p.map_ro_va 1 true m >>= λ m'.
        done (record p { map_ro_va = 0 }, m'))

-- The loop of `freeproc` over the region of `mapzero`, with `rounds` of its pages to go.
drop_zeroed_from : ℕ → ℕ → ℕ → ℕ → Machine → Outcome Machine
unfolding find_entry uvmunmap
drop_zeroed_from end pt zero va m = done m
drop_zeroed_from end pt (suc rounds) va m =
    let present = is_valid (find_entry pt va m) in
    let round : Outcome Machine =
      (if present then uvmunmap end pt va 1 true m else done m)
      >>= drop_zeroed_from end pt rounds (va + pgsize) in
    if leb max_va va then panic else round

-- The rounds of that loop; a size that is negative as an int wraps around.
abbrev zeroed_pages : VRegion → ℕ
zeroed_pages r = (plus_int r.start r.size - r.start + pgsize - 1) / pgsize

drop_zeroed : ℕ → Space → Machine → Outcome (Space × Machine)
unfolding drop_zeroed_from
drop_zeroed end p m =
    if p.vr.active
    then (drop_zeroed_from end p.pagetable (zeroed_pages p.vr) p.vr.start m >>= λ m'.
        done (record p { vr = record p.vr { active = false } }, m'))
    else done (p, m)

-- The freeing of a process's memory in `freeproc`, if it has a page table.
pub free_memory : ℕ → Space → Shared → Machine → Outcome (Space × Shared × Machine)
unfolding drop_shared drop_read_only drop_zeroed proc_freepagetable
free_memory end p s m = do
  d ← drop_shared end p s m
  r ← drop_read_only end p d.1
  z ← drop_zeroed end r.0 r.1
  m' ← proc_freepagetable end z.0.pagetable z.0.sz z.1
  done (z.0, d.0, m')
