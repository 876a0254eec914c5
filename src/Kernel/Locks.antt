-- ===== src/Kernel/Locks.antt =====
-- kernel/spinlock.c and sleeplock.c. A processor is its interrupt flag with the members noff and
-- intena of its struct cpu (kernel/proc.h). A spin lock holds the number of its processor; a
-- sleep lock the pid of its holder. Each is changed at once, by the atomic swap or under the spin
-- lock inside; fences and names are left out.
pub mod Nesting
mod Tests
use proyecto_3_sistemas_oper.Base.{
  ℕ, zero, suc, ◌+◌, ◌-◌, Bool, true, false, not, ◌==◌, ltb, Option, none, some, Outcome, done,
  panic, ◌>>=◌, ◌>>◌, check, if◌then◌else◌, ◌&&◌,
}

pub record Cpu : Type 0 where
  pub intr : Bool
  pub noff : ℕ
  pub intena : Bool

pub record Spinlock : Type 0 where
  pub locked : Bool
  pub cpu : Option ℕ

pub push_off : Cpu → Cpu
push_off c = record {
  intr = false;
  noff = c.noff + 1;
  intena = if c.noff == 0 then c.intr else c.intena;
}

pub pop_off : Cpu → Outcome Cpu
pop_off c =
    let left = c.noff - 1 in
    if c.intr
    then panic
    else if ltb c.noff 1
    then panic
    else done (record c { noff = left; intr = left == 0 && c.intena })

abbrev pub is_cpu : ℕ → Option ℕ → Bool
is_cpu me none = false
is_cpu me (some c) = c == me

pub holding : ℕ → Spinlock → Bool
holding me lk = lk.locked && is_cpu me lk.cpu

-- `acquire` by the processor `me` up to its first swap; `none`: the lock is taken, it spins.
pub acquire : ℕ → Cpu → Spinlock → Outcome (Cpu × Option Spinlock)
unfolding push_off holding
acquire me c lk =
    if holding me lk
    then panic
    else done
        (push_off c, (if lk.locked then none else some (record { locked = true; cpu = some me })))

pub release : ℕ → Cpu → Spinlock → Outcome (Cpu × Spinlock)
unfolding pop_off holding
release me c lk =
    if holding me lk
    then (pop_off c >>= λ c'. done (c', record { locked = false; cpu = none }))
    else panic

pub record Sleeplock : Type 0 where
  pub locked : Bool
  pub pid : ℕ

pub initsleeplock : Sleeplock
initsleeplock = record { locked = false; pid = 0 }

-- One turn of `acquiresleep`; `none`: it sleeps on the lock.
pub acquiresleep : ℕ → Sleeplock → Option Sleeplock
acquiresleep pid lk = if lk.locked then none else some (record { locked = true; pid = pid })

-- `releasesleep` also wakes the processes that sleep on the lock.
pub releasesleep : Sleeplock → Sleeplock
releasesleep lk = record { locked = false; pid = 0 }

pub holdingsleep : ℕ → Sleeplock → Bool
holdingsleep pid lk = lk.locked && (lk.pid == pid)
