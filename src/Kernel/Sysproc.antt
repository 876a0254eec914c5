-- ===== src/Kernel/Sysproc.antt =====
-- kernel/sysproc.c: the system calls on a process's own memory. A return value of -1 is `none`.
-- `end` is the linker's first address behind the kernel.
pub mod MapRo
mod Tests
use proyecto_3_sistemas_oper.Base.{
  ℕ, zero, suc, ◌+◌, ◌-◌, ◌*◌, ◌/◌, ◌%◌, ◌^◌, Bool, true, false, not, ◌==◌, ltb, leb, ◌&&◌, ◌||◌,
  if◌then◌else◌, Option, none, some, ℤ, pos, negsuc, sub_ℕ, Outcome, done, panic, ◌>>=◌, ◌>>◌,
}
use proyecto_3_sistemas_oper.Kernel.Params.{pgsize, pg_round_up, pg_round_down, trap_frame}
use proyecto_3_sistemas_oper.Kernel.Strings.{memmove}
use proyecto_3_sistemas_oper.Kernel.Pagetable.{Machine, kalloc_page, zero_page, ismapped}
use proyecto_3_sistemas_oper.Kernel.Uvm.{map_page}
use proyecto_3_sistemas_oper.Kernel.Space.{Space, VRegion, plus_int, growproc}

pub sys_sbrk : ℕ → ℤ → Space → Machine → Outcome (Option ℕ × Space × Machine)
unfolding growproc
sys_sbrk end (pos zero) p m = done (some p.sz, p, m)
sys_sbrk end (pos (suc n)) p m =
    let sz = plus_int p.sz (pos (suc n)) in
    if ltb sz p.sz || ltb trap_frame sz
    then done (none, p, m)
    else done (some p.sz, record p { sz = sz }, m)
sys_sbrk end (negsuc k) p m = do
  r ← growproc end (negsuc k) p m
  done ((if r.0 then some p.sz else none), r.1, r.2)

pub sys_setshm : Space → Option ℕ × Space
sys_setshm p = (some 0, record p { usar_memoria_compartida = true })

pub sys_getshm : Space → Option ℕ
sys_getshm p = if p.usar_memoria_compartida then some p.shm_va else some 0

pub sys_trace : ℤ → Space → Option ℕ × Space
sys_trace mask p = (some 0, record p { trace_mask = mask })

-- The greeting, `strlen(msg) + 1` bytes from `msg` on, is copied into the page.
abbrev pub greet : ℕ → ℕ → Machine → Machine
greet msg mem m = record m { kmem = record m.kmem { bytes = memmove m.kmem.bytes mem msg 47 } }

-- `map_ro` of a page that has no entry: `map_page` is its `mappages` and `kfree`, and 18 is
-- `PTE_R | PTE_U`.
pub map_greeting : ℕ → ℕ → ℕ → ℕ → Machine → Outcome (Bool × Machine)
unfolding kalloc_page zero_page map_page
map_greeting end msg pt va m =
    let (mem, m') = kalloc_page m in
    if mem == 0
    then done (false, m')
    else map_page end pt va mem 18 (greet msg mem (zero_page mem m'))

pub sys_map_ro : ℕ → ℕ → ℕ → Space → Machine → Outcome (Option ℕ × Space × Machine)
unfolding ismapped map_greeting
sys_map_ro end msg va p m =
    let va0 = pg_round_down va in
    ismapped p.pagetable va0 m >>= λ b.
    if b
    then done (none, p, m)
    else (map_greeting end msg p.pagetable va0 m >>= λ r.
        if r.0 then done (some 0, record p { map_ro_va = va0 }, r.1) else done (none, p, r.1))

-- `(int)aligned`
abbrev to_int : ℕ → ℤ
to_int a = if ltb a (2 ^ 31) then pos a else sub_ℕ a (2 ^ 32)

pub sys_mapzero : ℤ → Space → Option ℕ × Space
sys_mapzero (pos zero) p = (none, p)
sys_mapzero (pos (suc n)) p =
    let aligned = pg_round_up (suc n) in
    (
      some p.sz,
      record p {
        sz = (p.sz + aligned) % 2 ^ 64;
        vr = record { start = p.sz; size = to_int aligned; active = true };
      },
    )
sys_mapzero (negsuc k) p = (none, p)
