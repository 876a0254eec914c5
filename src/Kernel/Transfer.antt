-- ===== src/Kernel/Transfer.antt =====
-- kernel/vm.c: copies between the kernel and a process's memory. `end` is the linker's first address
-- behind the kernel, `sz` and `own_pt` the size and the page table of the running process. A loop's
-- fuel is the number of bytes: a round copies one at least.
pub mod Fault
pub mod CopyIn
pub mod CopyString
pub mod FindNull
pub mod WholeString
mod Tests
use proyecto_3_sistemas_oper.Base.{
  ℕ, zero, suc, ◌+◌, ◌-◌, ◌*◌, ◌/◌, ◌%◌, Bool, true, false, not, ◌==◌, ltb, leb, ◌&&◌,
  if◌then◌else◌, Option, none, some, Outcome, done, panic, ◌>>=◌, ◌>>◌,
}
use proyecto_3_sistemas_oper.Kernel.Params.{pgsize, pg_round_down, max_va}
use proyecto_3_sistemas_oper.Kernel.Strings.{Memory, store, memmove}
use proyecto_3_sistemas_oper.Kernel.Pagetable.{
  Machine, kalloc_page, pte_w, find_entry, walkaddr, ismapped,
}
use proyecto_3_sistemas_oper.Kernel.Uvm.{alloc_at}

-- The page that `vmfault` takes: `alloc_at` is its `kalloc`, `memset`, `mappages` and `kfree`, and
-- 22 is `PTE_W|PTE_U|PTE_R`.
abbrev fault_page : ℕ → ℕ → ℕ → Machine → Outcome (ℕ × Machine)
fault_page end own_pt va m = do
  r ← alloc_at end own_pt va 22 m
  done ((if r.0 then (kalloc_page m).0 else 0), r.1)

pub vmfault : ℕ → ℕ → ℕ → ℕ → ℕ → Machine → Outcome (ℕ × Machine)
unfolding alloc_at kalloc_page ismapped
vmfault end sz own_pt pt va m =
    let va0 = pg_round_down va in
    let fault : Outcome (ℕ × Machine) =
      ismapped pt va0 m >>= λ b. if b then done (0, m) else fault_page end own_pt va0 m in
    if leb sz va then done (0, m) else fault

-- `pa0 = walkaddr(pagetable, va0)`, and `vmfault` if that is 0.
pub page_at : ℕ → ℕ → ℕ → ℕ → ℕ → Machine → Outcome (ℕ × Machine)
unfolding walkaddr vmfault
page_at end sz own_pt pt va0 m =
    let pa0 = walkaddr pt va0 m in
    if not (pa0 == 0) then done (pa0, m) else vmfault end sz own_pt pt va0 m

-- `n`: how many of `len` bytes from va on are in its page.
abbrev pub in_page_of : ℕ → ℕ → ℕ
in_page_of va len = let n = pgsize - (va - pg_round_down va) in if ltb len n then len else n

abbrev pub move : ℕ → ℕ → ℕ → Machine → Machine
move dst src n m = record m { kmem = record m.kmem { bytes = memmove m.kmem.bytes dst src n } }

-- Whether the loop of `copyin` returns 0.
pub copyin_loop : ℕ → ℕ → ℕ → ℕ → ℕ → ℕ → ℕ → ℕ → Machine → Outcome (Bool × Machine)
unfolding page_at
copyin_loop end sz own_pt zero pt dst srcva len m = done (true, m)
copyin_loop end sz own_pt (suc fuel) pt dst srcva len m =
    let va0 = pg_round_down srcva in
    let n = in_page_of srcva len in
    let round : Outcome (Bool × Machine) = page_at end sz own_pt pt va0 m >>= λ q.
    if q.0 == 0
    then done (false, q.1)
    else copyin_loop end sz own_pt fuel pt (dst + n) (va0 + pgsize) (len - n)
        (move dst (q.0 + (srcva - va0)) n q.1) in
    if len == 0 then done (true, m) else round

pub copyin : ℕ → ℕ → ℕ → ℕ → ℕ → ℕ → ℕ → Machine → Outcome (Bool × Machine)
unfolding copyin_loop
copyin end sz own_pt pt dst srcva len m = copyin_loop end sz own_pt len pt dst srcva len m

-- `(*pte & PTE_W) == 0`; a null pointer has no entry to read.
abbrev writable : Option ℕ → Outcome Bool
writable none = panic
writable (some e) = done (pte_w e)

-- Whether the loop of `copyout` returns 0.
pub copyout_loop : ℕ → ℕ → ℕ → ℕ → ℕ → ℕ → ℕ → ℕ → Machine → Outcome (Bool × Machine)
unfolding page_at find_entry
copyout_loop end sz own_pt zero pt dstva src len m = done (true, m)
copyout_loop end sz own_pt (suc fuel) pt dstva src len m =
    let va0 = pg_round_down dstva in
    let n = in_page_of dstva len in
    let written : ℕ × Machine → Outcome (Bool × Machine) = λ q.
      writable (find_entry pt va0 q.1) >>= λ w.
      if not w
      then done (false, q.1)
      else copyout_loop end sz own_pt fuel pt (va0 + pgsize) (src + n) (len - n)
          (move (q.0 + (dstva - va0)) src n q.1) in
    let round : Outcome (Bool × Machine) =
      page_at end sz own_pt pt va0 m >>= λ q. if q.0 == 0 then done (false, q.1) else written q in
    if len == 0 then done (true, m) else if leb max_va va0 then done (false, m) else round

pub copyout : ℕ → ℕ → ℕ → ℕ → ℕ → ℕ → ℕ → Machine → Outcome (Bool × Machine)
unfolding copyout_loop
copyout end sz own_pt pt dstva src len m = copyout_loop end sz own_pt len pt dstva src len m

-- The inner loop of `copyinstr`, with n bytes to go in the page: whether it found the NUL.
pub copy_to_null : ℕ → ℕ → ℕ → Memory → Bool × Memory
copy_to_null zero p dst bytes = (false, bytes)
copy_to_null (suc n) p dst bytes =
    let rest = copy_to_null n (p + 1) (dst + 1) (store bytes dst (bytes p)) in
    if bytes p == 0 then (true, store bytes dst 0) else rest

-- The outer loop of `copyinstr`: whether it found the NUL.
pub copyinstr_loop : ℕ → ℕ → ℕ → ℕ → ℕ → Machine → Bool × Machine
unfolding copy_to_null walkaddr
copyinstr_loop zero pt dst srcva max m = (false, m)
copyinstr_loop (suc fuel) pt dst srcva max m =
    let va0 = pg_round_down srcva in
    let pa0 = walkaddr pt va0 m in
    let n = in_page_of srcva max in
    let (got_null, bytes) = copy_to_null n (pa0 + (srcva - va0)) dst m.kmem.bytes in
    let m' : Machine = record m { kmem = record m.kmem { bytes = bytes } } in
    let rest = copyinstr_loop fuel pt (dst + n) (va0 + pgsize) (max - n) m' in
    if max == 0
    then (false, m)
    else if pa0 == 0
    then (false, m)
    else if got_null
    then (true, m')
    else rest

-- Whether `copyinstr` returns 0.
pub copyinstr : ℕ → ℕ → ℕ → ℕ → Machine → Bool × Machine
unfolding copyinstr_loop
copyinstr pt dst srcva max m = copyinstr_loop max pt dst srcva max m
