-- ===== src/Kernel/Locks/Nesting.antt =====
-- Interrupts under nested push_off and pop_off, and what the locks promise.
use proyecto_3_sistemas_oper.Base.{
  ℕ, zero, suc, ◌+◌, ◌-◌, ◌⊎◌, eqb_refl, some_inj, subst, ◌<◌, ◌≡◌, refl, Bool, true, false, ◌==◌,
  none, some, Outcome, done, panic, arith, ◌>>=◌, if◌then◌else◌, ◌&&◌, ◌∙◌, inl, inr, Bool-cases,
  ltb,
}
use proyecto_3_sistemas_oper.Kernel.Locks.{
  Cpu, Spinlock, Sleeplock, push_off, pop_off, holding, acquire, release, acquiresleep,
  releasesleep, holdingsleep,
}

-- A processor that has interrupts turned off by push_off has them off.
abbrev pub IsMasked : Cpu → Type 0
IsMasked c = 0 < c.noff → c.intr ≡ false

abbrev pub pushes : ℕ → Cpu → Cpu
pushes zero c = c
pushes (suc n) c = push_off (pushes n c)

abbrev pub pops : ℕ → Cpu → Outcome Cpu
pops zero c = done c
pops (suc n) c = pop_off c >>= pops n

pushes_off :
    (n : ℕ) (c : Cpu)
    → ((pushes (suc n) c).intr ≡ false)
      × ((pushes (suc n) c).noff ≡ c.noff + suc n)
      × ((pushes (suc n) c).intena ≡ (if c.noff == 0 then c.intr else c.intena))
unfolding push_off
pushes_off zero c = (refl, refl, refl)
pushes_off (suc n) c =
    let (off, depth, kept) = pushes_off n c in
    (refl, omega (arith, depth), ground (arith, depth, kept))

pop_off_lem :
    (d : Cpu) (m : ℕ)
    → d.intr ≡ false
    → d.noff ≡ suc m
    → pop_off d ≡ done (record d { noff = m; intr = m == 0 && d.intena })
unfolding pop_off
pop_off_lem d m off depth =
    let less : suc m - 1 ≡ m = omega arith in
    let some_left : ltb (suc m) 1 ≡ false = ground arith in rw (off, depth, some_left, less) refl

pops_lem :
    (n m : ℕ) (d : Cpu)
    → d.intr ≡ false
    → d.noff ≡ m + suc n
    → (c' : Cpu) × (pops (suc n) d ≡ done c')
      × (c'.intr ≡ (m == 0 && d.intena))
      × (c'.noff ≡ m)
      × (c'.intena ≡ d.intena)
pops_lem zero m d off depth = (
  record d { noff = m; intr = m == 0 && d.intena },
  rw (pop_off_lem d m off (omega arith)) refl,
  refl,
  refl,
  refl,
)
pops_lem (suc n) m d off depth =
    let (c', ran, on, left, saved) =
      pops_lem n m (record d { noff = m + suc n; intr = (m + suc n) == 0 && d.intena })
        (ground arith) refl in
    (c', rw (pop_off_lem d (m + suc n) off (omega arith)) ran, on, left, saved)

outer : (depth : ℕ) (b x y : Bool) → b ≡ (if depth == 0 then x else y) → (depth ≡ 0) ⊎ (b ≡ y)
outer depth b x y h = elim (Bool-cases (depth == 0)) [
  | inl first ↦ inl (ground arith)
  | inr inner ↦ inr (h ∙ rw inner refl)
]

-- After any number of `push_off` and as many `pop_off`, which do not panic, interrupts are on
-- exactly if they were on before, and the nesting depth is what it was; in between they are off. What
-- an outer push_off has saved is still saved. A processor with a nesting depth above 0 must have them
-- off before.
pub pops-pushes :
    (n : ℕ) (c : Cpu)
    → IsMasked c
    → ((pushes (suc n) c).intr ≡ false)
      × ((c' : Cpu) × (pops (suc n) (pushes (suc n) c) ≡ done c')
          × (c'.intr ≡ c.intr)
          × (c'.noff ≡ c.noff)
          × ((c.noff ≡ 0) ⊎ (c'.intena ≡ c.intena)))
pops-pushes n c v =
    let (off, depth, kept) = pushes_off n c in
    let (c', ran, on, left, saved) = pops_lem n c.noff (pushes (suc n) c) off depth in
    (off, (c', ran, on ∙ restored c v kept, left, outer c.noff _ c.intr c.intena (saved ∙ kept)))
  where
    restored :
        {b : Bool} (c : Cpu)
        → IsMasked c
        → b ≡ (if c.noff == 0 then c.intr else c.intena)
        → (c.noff == 0 && b) ≡ c.intr
    restored c v kept = elim (Bool-cases (c.noff == 0)) [
      | inl z ↦ ground arith
      | inr nz ↦ ground (arith, v (omega (arith, ne nz)))
    ]
      where
        ne : (c.noff == 0) ≡ false → 0 < c.noff
        ne e = ground arith

single : (o : Outcome Cpu) (c : Cpu) → (o >>= pops 0) ≡ done c → o ≡ done c
single (done d) c h = h
single panic c h = h

-- A processor that has interrupts off if its nesting depth is above 0, and that gets a free spin lock,
-- holds it, with interrupts off; then a second `acquire` of its own panics and another processor
-- spins; and its `release` does not panic, frees the lock and restores interrupts and the nesting
-- depth, and what an outer `push_off` has saved in intena, if there is one.
pub release-acquire :
    (me other : ℕ) (c d : Cpu) (lk : Spinlock)
    → IsMasked c
    → lk.locked ≡ false
    → (me == other) ≡ false
    → (c' : Cpu) × (lk' : Spinlock) × (acquire me c lk ≡ done (c', some lk'))
      × (c'.intr ≡ false)
      × (holding me lk' ≡ true)
      × (acquire me c' lk' ≡ panic)
      × (acquire other d lk' ≡ done (push_off d, none))
      × ((c'' : Cpu) × (lk'' : Spinlock) × (release me c' lk' ≡ done (c'', lk''))
          × (lk''.locked ≡ false)
          × (c''.intr ≡ c.intr)
          × (c''.noff ≡ c.noff)
          × ((c.noff ≡ 0) ⊎ (c''.intena ≡ c.intena)))
unfolding acquire release
release-acquire me other c d lk v free ne =
    let (off, (c'', popped, on, depth, saved)) = pops-pushes 0 c v in
    (
      push_off c,
      record { locked = true; cpu = some me },
      rw free refl,
      off,
      rw (eqb_refl me) refl,
      rw (eqb_refl me) refl,
      rw ne refl,
      (
        c'',
        record { locked = false; cpu = none },
        rw (eqb_refl me, single (pop_off (push_off c)) c'' popped) refl,
        refl,
        on,
        depth,
        saved,
      ),
    )

abbrev Kept : ℕ → ℕ → Sleeplock → Type 0
Kept pid other lk =
    (holdingsleep pid lk ≡ true)
    × (acquiresleep other lk ≡ none)
    × (holdingsleep other lk ≡ (pid == other))
    × (acquiresleep other (releasesleep lk) ≡ some (record { locked = true; pid = other }))

-- A process that gets a sleep lock holds it and nobody else does; every other `acquiresleep` sleeps
-- until `releasesleep`, after which any process gets it.
pub acquiresleep_lem :
    (pid other : ℕ) (lk lk' : Sleeplock)
    → acquiresleep pid lk ≡ some lk'
    → (holdingsleep pid lk' ≡ true)
      × (acquiresleep other lk' ≡ none)
      × (holdingsleep other lk' ≡ (pid == other))
      × (acquiresleep other (releasesleep lk') ≡ some (record { locked = true; pid = other }))
unfolding acquiresleep holdingsleep releasesleep
acquiresleep_lem pid other lk lk' h = elim (Bool-cases lk.locked) [
  | inl taken ↦ ground arith
  | inr free ↦
      subst (Kept pid other) (some_inj (rw free at h)) (rw (eqb_refl pid) (refl, refl, refl, refl))
]
