-- ===== src/Kernel/Proc.antt =====
-- kernel/proc.c and kernel/proc.h: the process table. A pointer to a process is its index in the
-- table, a loop over the table a recursion on the list. Locks make each function one step, and a
-- function that sleeps or switches runs to there. User memory, the memory shared on fork, open files
-- and the current directory are not part of this model: what freeproc, kfork and kexit do to them,
-- and the fields for them, are left out, and whether the pages that allocproc and kfork need can be
-- had is an argument.
pub mod Wait
pub mod Kill
mod Tests
use proyecto_3_sistemas_oper.Base.{
  ℕ, zero, suc, ◌+◌, ◌≡◌, List, [], ◌∷◌, Bool, true, false, not, ◌==◌, ◌&&◌, if◌then◌else◌, length,
  get_elem?, set, replicate, ℤ, pos, minus_one, Option, none, some, Outcome, done, panic,
}
use proyecto_3_sistemas_oper.Kernel.Params.{nproc}

-- `enum procstate`
pub data State : Type 0 where
  unused used sleeping runnable running zombie : State

abbrev pub state_eq : State → State → Bool
state_eq unused unused = true
state_eq used used = true
state_eq sleeping sleeping = true
state_eq runnable runnable = true
state_eq running running = true
state_eq zombie zombie = true
state_eq _ _ = false

-- `void *chan`: null, the address of a process, or another address.
pub data Channel : Type 0 where
  nowhere : Channel
  process : ℕ → Channel
  address : ℕ → Channel

abbrev pub channel_eq : Channel → Channel → Bool
channel_eq nowhere nowhere = true
channel_eq (process i) (process j) = i == j
channel_eq (address a) (address b) = a == b
channel_eq _ _ = false

-- `struct vregion` is `region_start`, `region_size` and `region_active`.
pub record Proc : Type 0 where
  pub state : State
  pub chan : Channel
  pub killed : Bool
  pub xstate : ℤ
  pub pid : ℕ
  pub parent : Option ℕ
  pub trace_mask : ℕ
  pub pagefault_count : ℕ
  pub region_start : ℕ
  pub region_size : ℕ
  pub region_active : Bool

pub record Table : Type 0 where
  pub procs : List Proc
  pub nextpid : ℕ

-- What the zeroed memory of a static `struct proc` says.
abbrev pub blank : Proc
blank = record {
  state = unused;
  chan = nowhere;
  killed = false;
  xstate = pos 0;
  pid = 0;
  parent = none;
  trace_mask = 0;
  pagefault_count = 0;
  region_start = 0;
  region_size = 0;
  region_active = false;
}

pub procinit : Table
procinit = record { procs = replicate nproc blank; nextpid = 1 }

pub allocpid : Table → ℕ × Table
allocpid t = (t.nextpid, record t { nextpid = t.nextpid + 1 })

-- The end of `freeproc`, which resets the fields.
pub freeproc : Proc → Proc
freeproc p = record p {
  pid = 0;
  parent = none;
  chan = nowhere;
  killed = false;
  xstate = pos 0;
  trace_mask = 0;
  pagefault_count = 0;
  region_start = 0;
  region_size = 0;
  region_active = false;
  state = unused;
}

-- The search of `allocproc`.
pub find_unused : ℕ → List Proc → Option (ℕ × Proc)
find_unused i [] = none
find_unused i (p ∷ ps) =
    let rest = find_unused (i + 1) ps in if state_eq p.state unused then some (i, p) else rest

-- `pages`: whether the trapframe and the page table could be allocated; if not, the process is
-- freed again, but its pid is used up.
pub allocproc : Bool → Table → Option ℕ × Table
unfolding allocpid freeproc
allocproc pages t = elim (find_unused 0 t.procs) [
  | none ↦ (none, t)
  | some (i, p) ↦
      let (pid, t') = allocpid t in
      let q = record p {
        pid = pid;
        state = used;
        pagefault_count = 0;
        region_start = 0;
        region_size = 0;
        region_active = false;
      } in
      if pages
      then (some i, record t' { procs = set t.procs i q })
      else (none, record t' { procs = set t.procs i (freeproc q) })
]

-- `kfork` of the process at index `me`, up to the return: `copied` is whether the user memory could
-- be copied. The result is the child's pid or -1.
pub kfork : Bool → Bool → ℕ → Proc → Table → ℤ × Table
unfolding allocproc freeproc
kfork pages copied me p t =
    let (found, t') = allocproc pages t in
    elim found [
      | none ↦ (minus_one, t')
      | some i ↦ elim (get_elem? t'.procs i) [
        | none ↦ (minus_one, t')
        | some np ↦
            let child = record np {
              trace_mask = p.trace_mask;
              parent = some me;
              state = runnable;
            } in
            if copied
            then (pos np.pid, record t' { procs = set t'.procs i child })
            else (minus_one, record t' { procs = set t'.procs i (freeproc np) })
      ]
    ]

abbrev pub is_parent : ℕ → Option ℕ → Bool
is_parent me none = false
is_parent me (some i) = i == me

-- One round of `wakeup`: i is the round's process, `me` the caller.
pub wake : ℕ → Channel → ℕ → Proc → Proc
wake me chan i p =
    if not (i == me) && (state_eq p.state sleeping && channel_eq p.chan chan)
    then record p { state = runnable }
    else p

pub wakeup : ℕ → Channel → ℕ → List Proc → List Proc
unfolding wake
wakeup me chan i [] = []
wakeup me chan i (p ∷ ps) = wake me chan i p ∷ wakeup me chan (i + 1) ps

-- The loop of `reparent` gives the children of `me` to init; each time it wakes init.
pub reparent : ℕ → ℕ → List Proc → List Proc
reparent me init [] = []
reparent me init (p ∷ ps) =
    (if is_parent me p.parent then record p { parent = some init } else p) ∷ reparent me init ps

pub has_child : ℕ → List Proc → Bool
has_child me [] = false
has_child me (p ∷ ps) = if is_parent me p.parent then true else has_child me ps

-- `wakeup(p->parent)`; for a process without a parent it wakes nobody.
pub wake_parent_of : ℕ → Option ℕ → List Proc → List Proc
unfolding wakeup
wake_parent_of me none ps = ps
wake_parent_of me (some q) ps = wakeup me (process q) 0 ps

abbrev pub parent_at : Option Proc → Option ℕ
parent_at none = none
parent_at (some p) = p.parent

-- `p->xstate = status; p->state = ZOMBIE;` for the entry at `me`
abbrev pub become_zombie : ℕ → ℤ → Option Proc → List Proc → List Proc
become_zombie me status none ps = ps
become_zombie me status (some p) ps = set ps me (record p { xstate = status; state = zombie })

-- The part of `kexit` of `me` that runs under wait_lock, up to the switch to the scheduler; the test
-- for init, the closing of the files and the release of the directory stand before it and are left
-- out. `reparent` wakes init only if `me` has a child.
pub kexit_locked : ℕ → ℤ → ℕ → Table → Table
unfolding wakeup reparent has_child wake_parent_of
kexit_locked init status me t =
    let adopted =
      if has_child me t.procs
      then wakeup me (process init) 0 (reparent me init t.procs)
      else t.procs in
    let woken = wake_parent_of me (parent_at (get_elem? adopted me)) adopted in
    record t { procs = become_zombie me status (get_elem? woken me) woken }

-- What a scan of `kwait` finds.
pub data Scan : Type 0 where
  reaped : ℕ → ℤ → List Proc → Scan
  fault : Scan
  kids : Scan
  no_kids : Scan

-- The rest of a scan behind the process p; `child` says that p is a child.
abbrev pub behind : Proc → Bool → Scan → Scan
behind p child (reaped pid x ps) = reaped pid x (p ∷ ps)
behind p child fault = fault
behind p child kids = kids
behind p child no_kids = if child then kids else no_kids

-- `copied`: whether the exit status can be copied out.
pub kwait_scan : Bool → ℕ → List Proc → Scan
unfolding freeproc
kwait_scan copied me [] = no_kids
kwait_scan copied me (p ∷ ps) =
    let rest = behind p (is_parent me p.parent) (kwait_scan copied me ps) in
    let found = if copied then reaped p.pid p.xstate (freeproc p ∷ ps) else fault in
    if is_parent me p.parent && state_eq p.state zombie then found else rest

-- One run of `kwait`: the return value, the status that went out, or `none` where it sleeps.
pub kwait : Bool → Bool → ℕ → Table → Option (ℤ × Option ℤ) × Table
unfolding kwait_scan
kwait copied is_killed me t = elim (kwait_scan copied me t.procs) [
  | reaped pid x ps ↦ (some (pos pid, some x), record t { procs = ps })
  | fault ↦ (some (minus_one, none), t)
  | kids ↦ if is_killed then (some (minus_one, none), t) else (none, t)
  | no_kids ↦ (some (minus_one, none), t)
]

-- `sleep` up to the switch, and the tidying up after it.
pub go_to_sleep : Channel → Proc → Proc
go_to_sleep chan p = record p { chan = chan; state = sleeping }

pub awake : Proc → Proc
awake p = record p { chan = nowhere }

-- `yield` up to the switch.
pub yield_up : Proc → Proc
yield_up p = record p { state = runnable }

-- The scheduler at one process: it runs it if it is runnable.
pub schedule : Proc → Option Proc
schedule p = if state_eq p.state runnable then some (record p { state = running }) else none

abbrev pub kill_one : Proc → Proc
kill_one p = record p {
  killed = true;
  state = if state_eq p.state sleeping then runnable else p.state;
}

-- The loop of `kkill`; `none`: no process has the pid.
pub kill_in : ℕ → List Proc → Option (List Proc)
kill_in pid [] = none
kill_in pid (p ∷ ps) =
    let rest : Option (List Proc) = elim (kill_in pid ps) [
      | none ↦ none
      | some qs ↦ some (p ∷ qs)
    ] in
    if p.pid == pid then some (kill_one p ∷ ps) else rest

pub kkill : ℕ → Table → ℤ × Table
unfolding kill_in
kkill pid t = elim (kill_in pid t.procs) [
  | none ↦ (minus_one, t)
  | some ps ↦ (pos 0, record t { procs = ps })
]

pub setkilled : Proc → Proc
setkilled p = record p { killed = true }
