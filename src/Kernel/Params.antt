-- ===== src/Kernel/Params.antt =====
-- Constants and address arithmetic of kernel/param.h, kernel/riscv.h, kernel/memlayout.h and
-- kernel/fs.h. Addresses are `uint64` values below 2^64.
use proyecto_3_sistemas_oper.Base.{ℕ, ◌+◌, ◌-◌, ◌*◌, ◌/◌, ◌%◌, ◌^◌, ◌≡◌, ◌≤◌, arith}

abbrev pub pgsize : ℕ
pgsize = 4096

-- `((sz) + PGSIZE-1) & ~(PGSIZE-1)` on a uint64
abbrev pub pg_round_up : ℕ → ℕ
pg_round_up sz = (sz + pgsize - 1) % 2 ^ 64 / pgsize * pgsize

-- `(a) & ~(PGSIZE-1)`
abbrev pub pg_round_down : ℕ → ℕ
pg_round_down a = a / pgsize * pgsize

-- `1L << (9 + 9 + 9 + 12 - 1)`
abbrev pub max_va : ℕ
max_va = 2 ^ 38

abbrev pub kern_base : ℕ
kern_base = 0x80000000

abbrev pub phys_top : ℕ
phys_top = kern_base + 128 * 1024 * 1024

abbrev pub trampoline : ℕ
trampoline = max_va - pgsize

abbrev pub trap_frame : ℕ
trap_frame = trampoline - pgsize

-- `KSTACK(p)`
abbrev pub kstack : ℕ → ℕ
kstack p = trampoline - (p + 1) * 2 * pgsize

abbrev pub nproc : ℕ
nproc = 64

abbrev pub nfile : ℕ
nfile = 100

abbrev pub ninode : ℕ
ninode = 50

abbrev pub max_op_blocks : ℕ
max_op_blocks = 10

abbrev pub log_blocks : ℕ
log_blocks = max_op_blocks * 3

abbrev pub nbuf : ℕ
nbuf = max_op_blocks * 3

abbrev pub bsize : ℕ
bsize = 1024

-- `PGROUNDUP` gives the least multiple of the page size that is not below its argument, if that
-- does not pass 2^64.
pub pg_round_up_lem :
    (sz q : ℕ)
    → sz + pgsize ≤ 2 ^ 64
    → (sz ≤ pg_round_up sz)
      × (pg_round_up sz % pgsize ≡ 0)
      × (sz ≤ q * pgsize → pg_round_up sz ≤ q * pgsize)
pg_round_up_lem sz q h = omega arith
