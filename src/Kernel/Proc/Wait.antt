-- ===== src/Kernel/Proc/Wait.antt =====
-- kexit and kwait: a process that exits is seen by its parent.
use native.Mathlib.Nat.{zero-add, add-zero}
use proyecto_3_sistemas_oper.Base.{
  ℕ, zero, suc, ◌+◌, ◌≡◌, ◌≢◌, ◌⊎◌, refl, sym, ap, ◌∙◌, List, [], ◌∷◌, Bool, true, false, ◌&&◌, set,
  get_elem?, arith, some, ℤ, pos, Bool-cases, inl, inr, if◌then◌else◌, some_inj, lt-length,
  get_elem?-set_self, get_elem?-set_ne, eqb_of_ne, eqb_refl,
}
use proyecto_3_sistemas_oper.Kernel.Proc.{
  Proc, Table, Channel, process, sleeping, runnable, zombie, state_eq, is_parent, wake, wakeup,
  reparent, has_child, kexit_locked, State, unused, used, running, channel_eq, wake_parent_of,
  parent_at, become_zombie, reaped, kwait_scan, kwait, freeproc,
}

-- `wakeup` treats each entry by itself.
pub get_elem?-wakeup :
    (me : ℕ) (c : Channel) (k j : ℕ) (ps : List Proc) {p : Proc}
    → get_elem? ps j ≡ some p
    → get_elem? (wakeup me c k ps) j ≡ some (wake me c (k + j) p)
unfolding wakeup
get_elem?-wakeup me c k j [] h = cc
get_elem?-wakeup me c k zero (q ∷ ps) h =
    ap (λ r. some (wake me c k r)) (some_inj h) ∙ rw (add-zero k)
get_elem?-wakeup me c k (suc j) (q ∷ ps) {p} h =
    get_elem?-wakeup me c (k + 1) j ps h
    ∙ (let e : k + 1 + j ≡ k + suc j = omega arith in ap (λ i. some (wake me c i p)) e)

get_elem?-reparent :
    (me init j : ℕ) (ps : List Proc) {p : Proc}
    → get_elem? ps j ≡ some p
    → get_elem? (reparent me init ps) j
      ≡ some (if is_parent me p.parent then record p { parent = some init } else p)
unfolding reparent
get_elem?-reparent me init j [] h = cc
get_elem?-reparent me init zero (q ∷ ps) h = rw (some_inj h)
get_elem?-reparent me init (suc j) (q ∷ ps) h = get_elem?-reparent me init j ps h

wake_parent : (me : ℕ) (c : Channel) (i : ℕ) (p : Proc) → (wake me c i p).parent ≡ p.parent
unfolding wake
wake_parent me c i p = ground arith

wake_self : (me : ℕ) (c : Channel) (p : Proc) → wake me c me p ≡ p
unfolding wake
wake_self me c p = rw (eqb_refl me)

has_child-wakeup :
    (me q : ℕ) (c : Channel) (k : ℕ) (ps : List Proc)
    → has_child q (wakeup me c k ps) ≡ has_child q ps
unfolding has_child wakeup
has_child-wakeup me q c k [] = refl
has_child-wakeup me q c k (p ∷ ps) = rw (wake_parent me c k p, has_child-wakeup me q c (k + 1) ps)

has_child-reparent :
    (me init : ℕ) (ps : List Proc) → init ≢ me → has_child me (reparent me init ps) ≡ false
unfolding has_child reparent
has_child-reparent me init [] ne = refl
has_child-reparent me init (p ∷ ps) ne =
    ground (arith, has_child-reparent me init ps ne, eqb_of_ne init me ne)

has_child-set :
    (q i : ℕ) (ps : List Proc) (p p' : Proc)
    → get_elem? ps i ≡ some p
    → p'.parent ≡ p.parent
    → has_child q (set ps i p') ≡ has_child q ps
unfolding has_child
has_child-set q i [] p p' h e = cc
has_child-set q zero (r ∷ ps) p p' h e = rw (e, ap (λ (s : Proc). s.parent) (some_inj h))
has_child-set q (suc i) (r ∷ ps) p p' h e = rw (has_child-set q i ps p p' h e)

state_eq-zombie : (s : State) → state_eq s zombie ≡ true → s ≡ zombie
state_eq-zombie zombie h = refl
state_eq-zombie unused h = cc
state_eq-zombie used h = cc
state_eq-zombie sleeping h = cc
state_eq-zombie runnable h = cc
state_eq-zombie running h = cc

-- A scan that reaps the child c at place j of the table ps.
abbrev pub Reaps : ℕ → ℕ → List Proc → Type 0
Reaps q j ps =
    (c : Proc) × (get_elem? ps j ≡ some c)
    × (is_parent q c.parent ≡ true)
    × (c.state ≡ zombie)
    × (kwait_scan true q ps ≡ reaped c.pid c.xstate (set ps j (freeproc c)))

-- With a zombie child in the table, a scan that can copy the status out reaps a zombie child.
kwait_scan_finds :
    (q i : ℕ) (ps : List Proc) (p : Proc)
    → get_elem? ps i ≡ some p
    → is_parent q p.parent ≡ true
    → state_eq p.state zombie ≡ true
    → (j : ℕ) × Reaps q j ps
unfolding kwait_scan
kwait_scan_finds q i [] p h c z = cc
kwait_scan_finds q zero (r ∷ ps) p h c z =
    let same = some_inj h in
    (0, (r, refl, rw same c, state_eq-zombie r.state (rw same z), rw (same, c, z) refl))
kwait_scan_finds q (suc i) (r ∷ ps) p h c z =
    elim (Bool-cases (is_parent q r.parent && state_eq r.state zombie)) [
      | inl e ↦ (0, (r, refl, ground arith, state_eq-zombie r.state (ground arith), rw e refl))
      | inr e ↦
          let (j, (d, at, child, gone, found)) = kwait_scan_finds q i ps p h c z in
          (suc j, (d, at, child, gone, rw (e, found) refl))
    ]

-- The table after the exiting process's children were given to init, of whom it wakes.
abbrev adopted : ℕ → ℕ → List Proc → List Proc
adopted me init ps =
    if has_child me ps then wakeup me (process init) 0 (reparent me init ps) else ps

abbrev adopt : ℕ → ℕ → Proc → Proc
adopt me init p = if is_parent me p.parent then record p { parent = some init } else p

get_elem?-adopted :
    (me init j : ℕ) (ps : List Proc) {p : Proc}
    → get_elem? ps j ≡ some p
    → (get_elem? (adopted me init ps) j ≡ some p)
      ⊎ (get_elem? (adopted me init ps) j ≡ some (wake me (process init) j (adopt me init p)))
get_elem?-adopted me init j ps {p} h = elim (Bool-cases (has_child me ps)) [
  | inl e ↦ inr (
      rw e (
        get_elem?-wakeup me (process init) 0 j (reparent me init ps)
          (get_elem?-reparent me init j ps h)
        ∙ ap (λ i. some (wake me (process init) i (adopt me init p))) (zero-add j)))
  | inr e ↦ inl (rw e h)
]

has_child-adopted :
    (me init : ℕ) (ps : List Proc) → init ≢ me → has_child me (adopted me init ps) ≡ false
has_child-adopted me init ps ne = elim (Bool-cases (has_child me ps)) [
  | inl e ↦ rw e (
      has_child-wakeup me me (process init) 0 (reparent me init ps)
      ∙ has_child-reparent me init ps ne)
  | inr e ↦ rw (e, e)
]

-- The exiting process itself is not changed by the adoption.
adopted_self :
    (me init q : ℕ) (ps : List Proc) {p : Proc}
    → q ≢ me
    → p.parent ≡ some q
    → get_elem? ps me ≡ some p
    → get_elem? (adopted me init ps) me ≡ some p
adopted_self me init q ps {p} ne par h = elim (get_elem?-adopted me init me ps h) [
  | inl e ↦ e
  | inr e ↦ e ∙ ap some (wake_self me (process init) (adopt me init p) ∙ same)
]
  where
    same : adopt me init p ≡ p
    same = rw (par, eqb_of_ne q me ne)

-- The entry's process sleeps on q.
abbrev pub sleeps_on : ℕ → Proc → Bool
sleeps_on q w = state_eq w.state sleeping && channel_eq w.chan (process q)

-- A process that sleeps on itself as a channel still does, or is runnable.
adopted_sleeper :
    (me init q : ℕ) (ps : List Proc) {w : Proc}
    → get_elem? ps q ≡ some w
    → (w' : Proc) × (get_elem? (adopted me init ps) q ≡ some w')
      × ((w'.state ≡ runnable) ⊎ (sleeps_on q w' ≡ sleeps_on q w))
unfolding wake
adopted_sleeper me init q ps {w} h = elim (get_elem?-adopted me init q ps h) [
  | inl e ↦ (w, e, inr refl)
  | inr e ↦ (wake me (process init) q (adopt me init w), e, ground arith)
]

woken_sleeper :
    (me q : ℕ) (w : Proc) (asleep : Bool)
    → q ≢ me
    → (w.state ≡ runnable) ⊎ (sleeps_on q w ≡ asleep)
    → ((wake me (process q) q w).state ≡ runnable) ⊎ (asleep ≡ false)
unfolding wake
woken_sleeper me q w asleep ne h = elim (Bool-cases asleep) [
  | inl on ↦ inl (ground arith)
  | inr off ↦ inr off
]

-- The table that `kexit_locked` leaves, for a process p with a parent.
abbrev exited : ℕ → ℕ → ℕ → ℤ → Proc → List Proc → List Proc
exited me init q status p ps =
    set (wakeup me (process q) 0 (adopted me init ps)) me
      (record p { xstate = status; state = zombie })

kwait_reaps :
    (q pid : ℕ) (x : ℤ) (ps : List Proc) (is_killed : Bool) (t : Table)
    → kwait_scan true q t.procs ≡ reaped pid x ps
    → kwait true is_killed q t ≡ (some (pos pid, some x), record t { procs = ps })
unfolding kwait
kwait_reaps q pid x ps is_killed t found = rw (kwait, found) refl

module _ (init me q : ℕ) (status : ℤ) (t : Table) {p : Proc} (here : get_elem? t.procs me ≡ some p)
    (par : p.parent ≡ some q) (q_ne : q ≢ me) (init_ne : init ≢ me) where
  self_adopted : get_elem? (adopted me init t.procs) me ≡ some p
  self_adopted = adopted_self me init q t.procs q_ne par here

  self_woken : get_elem? (wakeup me (process q) 0 (adopted me init t.procs)) me ≡ some p
  self_woken =
      get_elem?-wakeup me (process q) 0 me (adopted me init t.procs) self_adopted
      ∙ ap (λ i. some (wake me (process q) i p)) (zero-add me)
      ∙ ap some (wake_self me (process q) p)

  kexit_raw : kexit_locked init status me t ≡ record t { procs = exited me init q status p t.procs }
  unfolding kexit_locked wake_parent_of
  kexit_raw =
      ap (λ ps. record t { procs = ps })
        (zombied ∙ ap (λ o. become_zombie me status o woken) self_woken)
    where
      woken : List Proc
      woken = wakeup me (process q) 0 (adopted me init t.procs)

      parent_woken :
          wake_parent_of me
            (parent_at (get_elem? (adopted me init t.procs) me))
            (adopted me init t.procs)
          ≡ woken
      parent_woken =
          ap (λ o. wake_parent_of me o (adopted me init t.procs)) (ap parent_at self_adopted ∙ par)

      zombied :
          (let w =
              wake_parent_of me
                (parent_at (get_elem? (adopted me init t.procs) me))
                (adopted me init t.procs) in
            become_zombie me status (get_elem? w me) w)
          ≡ become_zombie me status (get_elem? woken me) woken
      zombied = ap (λ w. become_zombie me status (get_elem? w me) w) parent_woken

  exited_self :
      get_elem? (exited me init q status p t.procs) me
      ≡ some (record p { xstate = status; state = zombie })
  exited_self = get_elem?-set_self _ me _ (lt-length _ me self_woken)

  -- Let the process at `me`, not init, with another process q as its parent, be in `kexit`, under
  -- wait_lock. The table then left has it as a zombie with its status, no process has it as
  -- parent, and its parent is runnable if it slept in `kwait`, on itself as the channel.
  pub kexit_locked_lem :
      {w : Proc}
      → get_elem? t.procs q ≡ some w
      → (get_elem? (kexit_locked init status me t).procs me
          ≡ some (record p { xstate = status; state = zombie }))
        × (has_child me (kexit_locked init status me t).procs ≡ false)
        × ((w' : Proc) × (get_elem? (kexit_locked init status me t).procs q ≡ some w')
            × ((w'.state ≡ runnable) ⊎ (sleeps_on q w ≡ false)))
  kexit_locked_lem {w} at_q =
      let (w1, e1, asleep) = adopted_sleeper me init q t.procs at_q in
      rw kexit_raw (
        exited_self,
        has_child-set me me _ p _ self_woken refl
            ∙ has_child-wakeup me me (process q) 0 (adopted me init t.procs)
            ∙ has_child-adopted me init t.procs init_ne,
        (
          wake me (process q) q w1,
          get_elem?-set_ne _ me q _ (λ e. q_ne (sym e))
              ∙ get_elem?-wakeup me (process q) 0 q (adopted me init t.procs) e1
              ∙ ap (λ i. some (wake me (process q) i w1)) (zero-add q),
          woken_sleeper me q w1 (sleeps_on q w) q_ne asleep,
        ),
      )

  -- Let the process at `me`, not init, with another process q as its parent, have been through the
  -- part of `kexit` under wait_lock. Then a `kwait` of q that can copy the status out does not
  -- sleep: there is an entry of the table that is a zombie child of q, whose pid it returns, whose
  -- status it copies out, and which alone it frees.
  pub kwait-kexit :
      (is_killed : Bool)
      → (j : ℕ) × (c : Proc) × (get_elem? (kexit_locked init status me t).procs j ≡ some c)
        × (is_parent q c.parent ≡ true)
        × (c.state ≡ zombie)
        × (kwait true is_killed q (kexit_locked init status me t) ≡ (
          some (pos c.pid, some c.xstate),
          record t { procs = set (kexit_locked init status me t).procs j (freeproc c) },
        ))
  kwait-kexit is_killed =
      let (j, (c, at, child, gone, found)) =
        kwait_scan_finds q me (exited me init q status p t.procs) _ exited_self
          (rw (par, eqb_refl q)) refl in
      rw kexit_raw (j, c, at, child, gone, kwait_reaps _ _ _ _ is_killed _ found)
