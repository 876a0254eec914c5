-- ===== src/Kernel/Locks/Tests.antt =====
-- A processor with interrupts on, and free locks.
use proyecto_3_sistemas_oper.Base.{◌⊎◌, ◌≡◌, refl, true, false, none, some, done, panic, arith}
use proyecto_3_sistemas_oper.Kernel.Locks.{
  Cpu, Spinlock, Sleeplock, push_off, holding, acquire, release,
}
use proyecto_3_sistemas_oper.Kernel.Locks.Nesting.{release-acquire}

abbrev idle : Cpu
idle = record { intr = true; noff = 0; intena = false }

abbrev unlocked : Spinlock
unlocked = record { locked = false; cpu = none }

abbrev taken : Sleeplock
taken = record { locked = true; pid = 5 }

release-acquire_example :
    (c' : Cpu) × (lk' : Spinlock) × (acquire 0 idle unlocked ≡ done (c', some lk'))
    × (c'.intr ≡ false)
    × (holding 0 lk' ≡ true)
    × (acquire 0 c' lk' ≡ panic)
    × (acquire 1 idle lk' ≡ done (push_off idle, none))
    × ((c'' : Cpu) × (lk'' : Spinlock) × (release 0 c' lk' ≡ done (c'', lk''))
        × (lk''.locked ≡ false)
        × (c''.intr ≡ true)
        × (c''.noff ≡ 0)
        × ((idle.noff ≡ 0) ⊎ (c''.intena ≡ false)))
release-acquire_example =
    release-acquire 0 1 idle idle unlocked (λ h. absurd (omega arith)) refl refl
