-- ===== src/Kernel/Proc/Kill.antt =====
-- kkill, and a flaw of kkill(0).
use native.Mathlib.Nat.{add-zero, zero-add}
use proyecto_3_sistemas_oper.Base.{
  ℕ, zero, suc, ◌+◌, ◌<◌, ◌≡◌, ◌≢◌, ◌⊎◌, inl, inr, refl, sym, subst, ◌∙◌, List, [], ◌∷◌, true,
  false, ◌==◌, set, get_elem?, length, arith, some, none, pos, minus_one, Bool-cases, if◌then◌else◌,
  some_inj, lt-length, get_elem?-set_self, get_elem?-set_ne, set-set,
}
use proyecto_3_sistemas_oper.Kernel.Proc.{
  Proc, Table, unused, used, sleeping, runnable, state_eq, kill_in, kill_one, kkill, find_unused,
  allocproc, allocpid,
}

-- The processes before place i do not have the pid.
abbrev pub NoneBefore : ℕ → ℕ → List Proc → Type 0
NoneBefore pid i ps = (j : ℕ) (p : Proc) → j < i → get_elem? ps j ≡ some p → p.pid ≢ pid

-- No process has the pid.
abbrev pub Nowhere : ℕ → List Proc → Type 0
Nowhere pid ps = (j : ℕ) (p : Proc) → get_elem? ps j ≡ some p → p.pid ≢ pid

-- The process p is the first one with the pid, and stands at place i.
pub record First (pid : ℕ) (ps : List Proc) (i : ℕ) (p : Proc) : Type 0 where
  pub got : get_elem? ps i ≡ some p
  pub same : p.pid ≡ pid
  pub before : NoneBefore pid i ps

Nowhere-cons :
    (pid : ℕ) (p : Proc) (ps : List Proc) → p.pid ≢ pid → Nowhere pid ps → Nowhere pid (p ∷ ps)
Nowhere-cons pid p ps ne h zero q got e =
    ne (subst (λ (r : Proc). r.pid ≡ pid) (sym (some_inj got)) e)
Nowhere-cons pid p ps ne h (suc j) q got e = h j q got e

NoneBefore-cons :
    (pid i : ℕ) (p : Proc) (ps : List Proc)
    → p.pid ≢ pid
    → NoneBefore pid i ps
    → NoneBefore pid (suc i) (p ∷ ps)
NoneBefore-cons pid i p ps ne h zero q lt got e =
    ne (subst (λ (r : Proc). r.pid ≡ pid) (sym (some_inj got)) e)
NoneBefore-cons pid i p ps ne h (suc j) q lt got e = h j q (omega arith) got e

-- What the loop of `kkill` does: it marks the first process with the pid, or finds none.
pub kill_in_lem :
    (pid : ℕ) (ps : List Proc)
    → ((kill_in pid ps ≡ none) × Nowhere pid ps)
      ⊎ ((i : ℕ) × (p : Proc) × First pid ps i p × (kill_in pid ps ≡ some (set ps i (kill_one p))))
unfolding kill_in
kill_in_lem pid [] = inl (refl, λ j p h. cc)
kill_in_lem pid (p ∷ ps) = elim (Bool-cases (p.pid == pid)) [
  | inl e ↦ inr (
    0,
    p,
    record { got = refl; same = ground arith; before = λ j q lt h. absurd (omega arith) },
    rw e,
  )
  | inr ne ↦ elim (kill_in_lem pid ps) [
    | inl (stuck, away) ↦ inl (rw (ne, stuck), Nowhere-cons pid p ps (λ z. ground arith) away)
    | inr (i, q, first, eq) ↦ inr (
      suc i,
      q,
      record {
        got = first.got;
        same = first.same;
        before = NoneBefore-cons pid i p ps (λ z. ground arith) first.before;
      },
      rw (ne, eq),
    )
  ]
]

-- `kkill` returns -1 and changes nothing if no process has the pid; otherwise it returns 0, and the
-- first process with the pid is marked as killed, made runnable if it slept, and nothing else
-- changes.
pub kkill_lem :
    (pid : ℕ) (t : Table)
    → ((kkill pid t ≡ (minus_one, t)) × Nowhere pid t.procs)
      ⊎ ((i : ℕ) × (p : Proc) × First pid t.procs i p
          × (kkill pid t ≡ (
            pos 0,
            record t {
              procs = set t.procs i (record p {
                killed = true;
                state = if state_eq p.state sleeping then runnable else p.state;
              });
            },
          )))
unfolding kkill
kkill_lem pid t = elim (kill_in_lem pid t.procs) [
  | inl (stuck, away) ↦ inl (rw (stuck, kkill), away)
  | inr (i, p, first, eq) ↦ inr (i, p, first, rw (eq, kkill))
]

-- The place of the first unused process, as `allocproc` finds it.
find_unused_lem :
    (k i : ℕ) (ps : List Proc) (p : Proc)
    → get_elem? ps i ≡ some p
    → state_eq p.state unused ≡ true
    → ((j : ℕ) (q : Proc) → j < i → get_elem? ps j ≡ some q → state_eq q.state unused ≡ false)
    → find_unused k ps ≡ some (k + i, p)
unfolding find_unused
find_unused_lem k i [] p got free before = cc
find_unused_lem k zero (q ∷ ps) p got free before = rw (some_inj got, free, add-zero k)
find_unused_lem k (suc i) (q ∷ ps) p got free before = rw (before 0 q (omega arith) refl) (
    find_unused_lem (k + 1) i ps p got free (λ j r lt h. before (suc j) r (omega arith) h)
    ∙ (let e : k + 1 + i ≡ k + suc i = omega arith in rw e))

kill_in_first :
    (pid i : ℕ) (ps : List Proc) (p : Proc)
    → get_elem? ps i ≡ some p
    → p.pid ≡ pid
    → NoneBefore pid i ps
    → kill_in pid ps ≡ some (set ps i (kill_one p))
unfolding kill_in
kill_in_first pid i [] p got same before = cc
kill_in_first pid zero (q ∷ ps) p got same before = ground (arith, some_inj got)
kill_in_first pid (suc i) (q ∷ ps) p got same before = ground (
  arith,
  before 0 q (omega arith) refl,
  kill_in_first pid i ps p got same (λ j r lt h. before (suc j) r (omega arith) h),
)

kkill-First :
    (pid i : ℕ) (t : Table) (p : Proc)
    → First pid t.procs i p
    → kkill pid t ≡ (pos 0, record t { procs = set t.procs i (kill_one p) })
unfolding kkill
kkill-First pid i t p first =
    rw (kill_in_first pid i t.procs p first.got first.same first.before, kkill)

abbrev born : Proc → ℕ → Proc
born p pid = record p {
  pid = pid;
  state = used;
  pagefault_count = 0;
  region_start = 0;
  region_size = 0;
  region_active = false;
}

allocproc_found :
    (t : Table) (i : ℕ) (p : Proc)
    → find_unused 0 t.procs ≡ some (i, p)
    → allocproc true t
      ≡ (some i, record t { nextpid = t.nextpid + 1; procs = set t.procs i (born p t.nextpid) })
unfolding allocproc allocpid
allocproc_found t i p e = rw (e, allocproc)

-- `kkill(0)` does not fail: pid 0 is the pid of unused entries. If an entry with pid 0 is the first
-- one with that pid and the first unused one, then `kkill(0)` returns 0, and the next `allocproc`,
-- if it has the pages, hands out that entry as a process that is already killed.
pub kkill-zero_poisons :
    (t : Table) (i : ℕ) (p : Proc)
    → First 0 t.procs i p
    → state_eq p.state unused ≡ true
    → ((j : ℕ) (q : Proc) → j < i → get_elem? t.procs j ≡ some q → state_eq q.state unused ≡ false)
    → let (r, t') = kkill 0 t in
      let (found, t'') = allocproc true t' in
      (r ≡ pos 0)
      × (found ≡ some i)
      × ((q : Proc) × (get_elem? t''.procs i ≡ some q) × (q.killed ≡ true))
kkill-zero_poisons t i p first free before =
    rw
      (
        kkill-First 0 i t p first,
        allocproc_found (record t { procs = killed }) i (kill_one p)
            (find_unused_lem 0 i killed (kill_one p) here (ground arith) others ∙ rw (zero-add i)),
      )
      (
        refl,
        refl,
        (
          born (kill_one p) t.nextpid,
          rw (set-set t.procs i (kill_one p) (born (kill_one p) t.nextpid))
              (get_elem?-set_self t.procs i (born (kill_one p) t.nextpid) lt),
          refl,
        ),
      )
  where
    killed : List Proc
    killed = set t.procs i (kill_one p)

    lt : i < length t.procs
    lt = lt-length t.procs i first.got

    here : get_elem? killed i ≡ some (kill_one p)
    here = get_elem?-set_self t.procs i (kill_one p) lt

    others :
        (j : ℕ) (q : Proc) → j < i → get_elem? killed j ≡ some q → state_eq q.state unused ≡ false
    others j q l h =
        before j q l (sym (get_elem?-set_ne t.procs i j (kill_one p) (λ e. omega arith)) ∙ h)
