-- ===== src/Kernel/Proc/Tests.antt =====
-- init at 0, its sleeping child at 1, and a running child of that at 2.
use proyecto_3_sistemas_oper.Base.{
  ◌⊎◌, set, zero, suc, ◌≢◌, subst, some_inj, ℕ, ◌<◌, ◌≡◌, refl, [], ◌∷◌, arith, true, false, some,
  pos, get_elem?,
}
use proyecto_3_sistemas_oper.Kernel.Proc.{
  Proc, Table, blank, process, running, runnable, sleeping, zombie, unused, state_eq, has_child,
  kexit_locked, is_parent, freeproc, kwait, kkill, allocproc,
}
use proyecto_3_sistemas_oper.Kernel.Proc.Wait.{kexit_locked_lem, kwait-kexit, sleeps_on}
use proyecto_3_sistemas_oper.Kernel.Proc.Kill.{kkill-zero_poisons}

abbrev init_proc : Proc
init_proc = record blank { state = sleeping; chan = process 0; pid = 1 }

abbrev shell : Proc
shell = record blank { state = sleeping; chan = process 1; pid = 2; parent = some 0 }

abbrev command : Proc
command = record blank { state = running; pid = 3; parent = some 1 }

abbrev family : Table
family = record { procs = init_proc ∷ shell ∷ command ∷ blank ∷ []; nextpid = 4 }

kexit_locked_example :
    (get_elem? (kexit_locked 0 (pos 7) 2 family).procs 2
      ≡ some (record command { xstate = pos 7; state = zombie }))
    × (has_child 2 (kexit_locked 0 (pos 7) 2 family).procs ≡ false)
    × ((w' : Proc) × (get_elem? (kexit_locked 0 (pos 7) 2 family).procs 1 ≡ some w')
        × ((w'.state ≡ runnable) ⊎ (sleeps_on 1 shell ≡ false)))
kexit_locked_example =
    kexit_locked_lem 0 2 1 (pos 7) family refl refl (omega arith) (omega arith) refl

kwait-kexit_example :
    (j : ℕ) × (c : Proc) × (get_elem? (kexit_locked 0 (pos 7) 2 family).procs j ≡ some c)
    × (is_parent 1 c.parent ≡ true)
    × (c.state ≡ zombie)
    × (kwait true false 1 (kexit_locked 0 (pos 7) 2 family) ≡ (
      some (pos c.pid, some c.xstate),
      record family { procs = set (kexit_locked 0 (pos 7) 2 family).procs j (freeproc c) },
    ))
kwait-kexit_example = kwait-kexit 0 2 1 (pos 7) family refl refl (omega arith) (omega arith) false

abbrev Alive : Proc → Type 0
Alive q = q.pid ≢ 0 × state_eq q.state unused ≡ false

alive :
    (j : ℕ) (q : Proc)
    → j < 3
    → get_elem? family.procs j ≡ some q
    → q.pid ≢ 0 × state_eq q.state unused ≡ false
alive zero q h g = subst Alive (some_inj g) (omega arith, refl)
alive (suc zero) q h g = subst Alive (some_inj g) (omega arith, refl)
alive (suc (suc zero)) q h g = subst Alive (some_inj g) (omega arith, refl)
alive (suc (suc (suc j))) q h g = absurd (omega (arith, h))

kkill-zero_poisons_example :
    let (r, t') = kkill 0 family in
    let (found, t'') = allocproc true t' in
    (r ≡ pos 0)
    × (found ≡ some 3)
    × ((q : Proc) × (get_elem? t''.procs 3 ≡ some q) × (q.killed ≡ true))
kkill-zero_poisons_example =
    kkill-zero_poisons family 3 blank
      (record { got = refl; same = refl; before = λ j q h g. (alive j q h g).0 }) refl
      (λ j q h g. (alive j q h g).1)
