-- ===== src/Kernel/Uvm.antt =====
-- kernel/vm.c: a process's memory, which grows, shrinks, is copied and is freed. `end` is the
-- linker's first address behind the kernel.
pub mod Memory
pub mod Unmapping
pub mod Unmap
pub mod Taking
pub mod Fresh
pub mod Present
pub mod Rounds
pub mod Grow
pub mod Alloc
pub mod Example
mod Tests
use Prim.Native.Nat.{bit_or}
use proyecto_3_sistemas_oper.Base.{
  ℕ, zero, suc, ◌+◌, ◌-◌, ◌*◌, ◌/◌, ◌%◌, Bool, true, false, not, ◌==◌, ltb, leb, ◌&&◌, ◌||◌,
  if◌then◌else◌, Option, none, some, Outcome, done, panic, ◌>>=◌, ◌>>◌, check,
}
use proyecto_3_sistemas_oper.Kernel.Params.{pgsize, pg_round_up, max_va}
use proyecto_3_sistemas_oper.Kernel.Strings.{memmove}
use proyecto_3_sistemas_oper.Kernel.Pagetable.{
  Machine, set_entry, kalloc_page, kfree_page, zero_page, pte_v, pte_r, pte_w, pte_x, pte2pa,
  pte_flags, px, walk, find_entry, mappages,
}

-- `if(do_free) kfree(pa)`
abbrev pub free_if : ℕ → Bool → ℕ → Machine → Outcome Machine
free_if end do_free pa m = if do_free then kfree_page end pa m else done m

-- The round of `uvmunmap` at a, with the page that `walk` found.
pub unmap_at : ℕ → Bool → ℕ → Option ℕ → Machine → Outcome Machine
unfolding kfree_page
unmap_at end do_free a none m = done m
unmap_at end do_free a (some p) m =
    let e = m.entries p (px 0 a) in
    if not (pte_v e)
    then done m
    else (free_if end do_free (pte2pa e) m >>= λ m'. done (set_entry p (px 0 a) 0 m'))

pub unmap_from : ℕ → Bool → ℕ → ℕ → ℕ → Machine → Outcome Machine
unfolding unmap_at walk
unmap_from end do_free zero pt a m = done m
unmap_from end do_free (suc rounds) pt a m = do
  w ← walk false pt a m
  m' ← unmap_at end do_free a w.0 w.1
  unmap_from end do_free rounds pt (a + pgsize) m'

unfoldable pub uvmunmap : ℕ → ℕ → ℕ → ℕ → Bool → Machine → Outcome Machine
unfolding unmap_from
uvmunmap end pt va npages do_free m = do
  check (va % pgsize == 0)
  unmap_from end do_free npages pt va m

-- The new size.
unfoldable pub uvmdealloc : ℕ → ℕ → ℕ → ℕ → Machine → Outcome (ℕ × Machine)
unfolding uvmunmap
uvmdealloc end pt oldsz newsz m =
    let npages = (pg_round_up oldsz - pg_round_up newsz) / pgsize in
    if leb oldsz newsz
    then done (oldsz, m)
    else if ltb (pg_round_up newsz) (pg_round_up oldsz)
    then (uvmunmap end pt (pg_round_up newsz) npages true m >>= λ m'. done (newsz, m'))
    else done (newsz, m)

-- A failed round of `uvmalloc` at a.
abbrev pub give_back : ℕ → ℕ → ℕ → ℕ → Machine → Outcome (ℕ × Machine)
give_back end pt a oldsz m = uvmdealloc end pt a oldsz m >>= λ r. done (0, r.1)

-- The mapping of the fresh page q at a: whether it succeeded; if not, the page is freed again.
unfoldable pub map_page : ℕ → ℕ → ℕ → ℕ → ℕ → Machine → Outcome (Bool × Machine)
unfolding mappages kfree_page zero_page
map_page end pt a q perm m = do
  r ← mappages pt a pgsize q perm m
  if r.0 then done r else (kfree_page end q r.1 >>= λ m'. done (false, m'))

-- The round of `uvmalloc` at a: whether there is a new page there.
unfoldable pub alloc_at : ℕ → ℕ → ℕ → ℕ → Machine → Outcome (Bool × Machine)
unfolding kalloc_page zero_page map_page
alloc_at end pt a perm m =
    let (q, m') = kalloc_page m in
    if q == 0 then done (false, m') else map_page end pt a q perm (zero_page q m')

-- The loop of `uvmalloc` from a to newsz; `start` is the old size, rounded up. Its fuel is the
-- number of pages.
pub alloc_from : ℕ → ℕ → ℕ → ℕ → ℕ → ℕ → ℕ → Machine → Outcome (ℕ × Machine)
unfolding alloc_at uvmdealloc
alloc_from end zero pt start a newsz perm m = done (newsz, m)
alloc_from end (suc fuel) pt start a newsz perm m =
    let round : Outcome (ℕ × Machine) = alloc_at end pt a perm m >>= λ r.
    if r.0
    then alloc_from end fuel pt start (a + pgsize) newsz perm r.1
    else give_back end pt a start r.1 in
    if ltb a newsz then round else done (newsz, m)

-- The new size, or 0. `PTE_R|PTE_U` is 18.
unfoldable pub uvmalloc : ℕ → ℕ → ℕ → ℕ → ℕ → Machine → Outcome (ℕ × Machine)
unfolding alloc_from
uvmalloc end pt oldsz newsz xperm m =
    let start = pg_round_up oldsz in
    if ltb newsz oldsz
    then done (oldsz, m)
    else alloc_from end (newsz / pgsize + 1) pt start start newsz (bit_or 18 xperm) m

-- The loop of `freewalk` over the entries from i on; `child` is the call of `freewalk` itself.
pub free_entries : (ℕ → Machine → Outcome Machine) → ℕ → ℕ → ℕ → Machine → Outcome Machine
free_entries child zero i pt m = done m
free_entries child (suc rounds) i pt m =
    let e = m.entries pt i in
    let rest = free_entries child rounds (i + 1) pt in
    let below : Outcome Machine = child (pte2pa e) m >>= λ m'. rest (set_entry pt i 0 m') in
    if pte_v e && not (pte_r e || pte_w e || pte_x e)
    then below
    else if pte_v e
    then panic
    else rest m

-- `freewalk` on a page table with at most that many levels; with more it would go deeper.
pub freewalk : ℕ → ℕ → ℕ → Machine → Outcome Machine
unfolding free_entries kfree_page
freewalk end zero pt m = panic
freewalk end (suc levels) pt m = free_entries (freewalk end levels) 512 0 pt m >>= kfree_page end pt

-- `if(sz > 0) uvmunmap(pagetable, 0, PGROUNDUP(sz)/PGSIZE, 1);`
abbrev unmap_all : ℕ → ℕ → ℕ → Machine → Outcome Machine
unmap_all end pt sz m =
    if ltb 0 sz then uvmunmap end pt 0 (pg_round_up sz / pgsize) true m else done m

unfoldable pub uvmfree : ℕ → ℕ → ℕ → Machine → Outcome Machine
unfolding uvmunmap freewalk
uvmfree end pt sz m = do m' ← unmap_all end pt sz m; freewalk end 3 pt m'

-- `memmove` of a page to the page at `mem`
abbrev pub copy_page : ℕ → ℕ → Machine → Machine
copy_page mem pa m = record m {
  kmem = record m.kmem { bytes = memmove m.kmem.bytes mem pa pgsize };
}

-- The round of `uvmcopy` at i, for the parent's entry e.
pub copy_at : ℕ → ℕ → ℕ → Option ℕ → Machine → Outcome (Bool × Machine)
unfolding kalloc_page map_page
copy_at end new i none m = done (true, m)
copy_at end new i (some e) m =
    let (mem, m') = kalloc_page m in
    if not (pte_v e)
    then done (true, m)
    else if mem == 0
    then done (false, m')
    else map_page end new i mem (pte_flags e) (copy_page mem (pte2pa e) m')

-- The loop of `uvmcopy`, with the pages from i on to go; false: it failed at the page that comes
-- with it.
pub copy_from : ℕ → ℕ → ℕ → ℕ → ℕ → Machine → Outcome (Bool × ℕ × Machine)
unfolding copy_at find_entry
copy_from end zero old new i m = done (true, i, m)
copy_from end (suc rounds) old new i m =
    let round : Outcome (Bool × ℕ × Machine) = copy_at end new i (find_entry old i m) m >>= λ r.
    if r.0 then copy_from end rounds old new (i + pgsize) r.1 else done (false, i, r.1) in
    if leb max_va i then panic else round

-- `err`: whether `uvmcopy` returns 0; else the i / PGSIZE pages that it mapped are unmapped.
abbrev undo_copy : ℕ → ℕ → Bool × ℕ × Machine → Outcome (Bool × Machine)
undo_copy end new (true, i, m) = done (true, m)
undo_copy end new (false, i, m) = uvmunmap end new 0 (i / pgsize) true m >>= λ m'. done (false, m')

pub uvmcopy : ℕ → ℕ → ℕ → ℕ → Machine → Outcome (Bool × Machine)
unfolding copy_from uvmunmap
uvmcopy end old new sz m =
    copy_from end ((sz + pgsize - 1) / pgsize) old new 0 m >>= undo_copy end new
