-- ===== src/Kernel/Transfer/CopyIn.antt =====
-- copyin of memory that is there.
use proyecto_3_sistemas_oper.Base.{
  ℕ, zero, suc, ◌+◌, ◌-◌, ◌%◌, ◌≤◌, ◌<◌, ◌≡◌, ◌≢◌, ◌⊎◌, refl, ap, ◌∙◌, inl, inr, true, false, not,
  ◌==◌, ltb, if◌then◌else◌, done, arith, Bool-cases, eqb→eq, eqb_of_ne,
}
use proyecto_3_sistemas_oper.Kernel.Params.{pgsize, pg_round_down, max_va}
use proyecto_3_sistemas_oper.Kernel.Strings.{within}
use proyecto_3_sistemas_oper.Kernel.Strings.Moves.{memmove_lem}
use proyecto_3_sistemas_oper.Kernel.Pagetable.{Machine, walkaddr}
use proyecto_3_sistemas_oper.Kernel.Pagetable.Growing.{lookup}
use proyecto_3_sistemas_oper.Kernel.Pagetable.Address.{user_page, walkaddr_lem}
use proyecto_3_sistemas_oper.Kernel.Transfer.{
  in_page_of, vmfault, page_at, move, copyin_loop, copyin,
}

-- The physical address of a user's address.
abbrev pub translate : ℕ → Machine → ℕ → ℕ
translate pt m va = user_page (lookup pt (pg_round_down va) m) + va % pgsize

-- The user may use every one of the len addresses from va on, and none of them is one of the len
-- bytes from dst on.
abbrev pub Readable : ℕ → Machine → ℕ → ℕ → ℕ → Type 0
Readable pt m dst srcva len =
    (va : ℕ)
    → srcva ≤ va
    → va < srcva + len
    → (va < max_va)
      × (user_page (lookup pt (pg_round_down va) m) ≢ 0)
      × (within dst len (translate pt m va) ≡ false)

pub in_page_of_lem :
    (va len : ℕ)
    → (in_page_of va len ≤ len)
      × (0 < len → 0 < in_page_of va len)
      × (va + in_page_of va len ≤ pg_round_down va + pgsize)
      × ((in_page_of va len ≡ len) ⊎ (va + in_page_of va len ≡ pg_round_down va + pgsize))
in_page_of_lem va len = elim (Bool-cases (ltb len (pgsize - (va - pg_round_down va)))) [
  | inl short ↦
      let lt : len < pgsize - (va - pg_round_down va) = ground (arith, short) in
      rw short (omega arith, (λ h. h), omega (arith, lt), inl refl)
  | inr long ↦
      let ge : pgsize - (va - pg_round_down va) ≤ len = ground (arith, long) in
      rw long (ge, (λ h. omega arith), omega arith, inr (omega arith))
]

page_at-there :
    (end sz own_pt pt va : ℕ) (m : Machine)
    → va < max_va
    → user_page (lookup pt (pg_round_down va) m) ≢ 0
    → page_at end sz own_pt pt (pg_round_down va) m
      ≡ done (user_page (lookup pt (pg_round_down va) m), m)
unfolding page_at
page_at-there end sz own_pt pt va m lt ne =
    let below : ltb (pg_round_down va) max_va ≡ true = ground (arith, lt) in
    let there : walkaddr pt (pg_round_down va) m ≡ user_page (lookup pt (pg_round_down va) m) =
      walkaddr_lem pt (pg_round_down va) m ∙ rw below refl in
    ap
      (λ (p : ℕ).
        if not (p == 0) then done (p, m) else vmfault end sz own_pt pt (pg_round_down va) m)
      there
    ∙ rw (eqb_of_ne (user_page (lookup pt (pg_round_down va) m)) 0 ne) refl

copyin_round :
    (end sz own_pt fuel pt dst srcva len pa : ℕ) (m : Machine)
    → 0 < len
    → pa ≢ 0
    → page_at end sz own_pt pt (pg_round_down srcva) m ≡ done (pa, m)
    → copyin_loop end sz own_pt (suc fuel) pt dst srcva len m
      ≡ copyin_loop end sz own_pt fuel pt
          (dst + in_page_of srcva len)
          (pg_round_down srcva + pgsize)
          (len - in_page_of srcva len)
          (move dst (pa + (srcva - pg_round_down srcva)) (in_page_of srcva len) m)
unfolding copyin_loop
copyin_round end sz own_pt fuel pt dst srcva len pa m some_left ne got =
    rw (eqb_of_ne len 0 (λ z. omega arith), got, eqb_of_ne pa 0 ne) refl

-- The bytes after a copy of len bytes from the user's address srcva to dst.
abbrev pub copied : ℕ → Machine → ℕ → ℕ → ℕ → ℕ → ℕ
copied pt m dst srcva len a =
    if within dst len a then m.kmem.bytes (translate pt m (srcva + (a - dst))) else m.kmem.bytes a

module _ (pt dst srcva len n : ℕ) (m m1 : Machine) (le : n ≤ len)
    (short : srcva + n ≤ pg_round_down srcva + pgsize)
    (end_of : (n ≡ len) ⊎ (srcva + n ≡ pg_round_down srcva + pgsize))
    (same : m1.entries ≡ m.entries)
    (bytes : (a : ℕ)
      → m1.kmem.bytes a ≡ (
          if within dst n a
          then m.kmem.bytes (
              user_page (lookup pt (pg_round_down srcva) m)
              + (srcva - pg_round_down srcva)
              + (a - dst))
          else m.kmem.bytes a))
    (apart : Readable pt m dst srcva len) where
  same_translate : (va : ℕ) → translate pt m1 va ≡ translate pt m va
  same_translate va = rw same refl

  pub rest_Readable : Readable pt m1 (dst + n) (pg_round_down srcva + pgsize) (len - n)
  rest_Readable va ge lt =
      let from : srcva ≤ va = omega (arith, ge) in
      let before : va < srcva + len = elim end_of [
        | inl all ↦ omega (arith, ge, lt, all)
        | inr page ↦ omega (arith, lt, page, le)
      ] in
      let (low, there, away) = apart va from before in
      (low, rw same there, rw (same_translate va) (ground (arith, away, le)))

  in_first :
      (a : ℕ)
      → dst ≤ a
      → a < dst + n
      → user_page (lookup pt (pg_round_down srcva) m) + (srcva - pg_round_down srcva) + (a - dst)
        ≡ translate pt m (srcva + (a - dst))
  in_first a ge lt =
      let page : pg_round_down (srcva + (a - dst)) ≡ pg_round_down srcva =
        omega (arith, ge, lt, short) in
      let place : (srcva + (a - dst)) % pgsize ≡ srcva - pg_round_down srcva + (a - dst) =
        omega (arith, ge, lt, short) in
      rw (page, place) (omega arith)

  pub copied_step :
      (a : ℕ)
      → copied pt m1 (dst + n) (pg_round_down srcva + pgsize) (len - n) a
        ≡ copied pt m dst srcva len a
  copied_step a = elim (Bool-cases (within dst n a)) [
    | inl first ↦
        let no_rest : within (dst + n) (len - n) a ≡ false = ground (arith, first) in
        let yes_all : within dst len a ≡ true = ground (arith, first, le) in
        rw (no_rest, yes_all)
          (bytes a
            ∙ rw first
                (ap m.kmem.bytes (in_first a (ground (arith, first)) (ground (arith, first)))))
    | inr not_first ↦ elim (Bool-cases (within (dst + n) (len - n) a)) [
      | inr out ↦
          let no_all : within dst len a ≡ false = ground (arith, out, not_first) in
          rw (out, no_all) (bytes a ∙ rw not_first refl)
      | inl later ↦
          let yes_all : within dst len a ≡ true = ground (arith, later) in
          let ge : dst + n ≤ a = ground (arith, later) in
          let lt : a < dst + len = ground (arith, later) in
          let here : pg_round_down srcva + pgsize + (a - (dst + n)) ≡ srcva + (a - dst) =
            elim end_of [
              | inl all ↦ absurd (past all ge lt)
              | inr page ↦ omega (arith, page, ge)
            ] in
          let t = translate pt m (srcva + (a - dst)) in
          let away : within dst n t ≡ false =
            ground
              (arith, (apart (srcva + (a - dst)) (omega arith) (omega (arith, ge, lt))).2, le) in
          rw (later, yes_all)
            (ap (λ (va : ℕ). m1.kmem.bytes (translate pt m1 va)) here
              ∙ ap m1.kmem.bytes (same_translate (srcva + (a - dst)))
              ∙ bytes t
              ∙ rw away refl)
    ]
  ]
    where
      past : n ≡ len → dst + n ≤ a → a < dst + len → ⊥
      past all ge lt = omega arith

copyin_loop_lem :
    (end sz own_pt fuel pt dst srcva len : ℕ) (m : Machine)
    → len ≤ fuel
    → Readable pt m dst srcva len
    → (m' : Machine) × (copyin_loop end sz own_pt fuel pt dst srcva len m ≡ done (true, m'))
      × (m'.entries ≡ m.entries)
      × ((a : ℕ) → m'.kmem.bytes a ≡ copied pt m dst srcva len a)
unfolding copyin_loop
copyin_loop_lem end sz own_pt zero pt dst srcva len m enough apart =
    let nothing : len ≡ 0 = omega (arith, enough) in (m, refl, refl, λ a. rw nothing (ground arith))
copyin_loop_lem end sz own_pt (suc fuel) pt dst srcva len m enough apart =
    elim (Bool-cases (len == 0)) [
      | inl none_left ↦
          let nothing : len ≡ 0 = eqb→eq len 0 none_left in
          (m, rw none_left refl, refl, λ a. rw nothing (ground arith))
      | inr some_left ↦
          let pos : 0 < len = ground (arith, some_left) in
          let (low, there, _) = apart srcva (omega arith) (omega (arith, pos)) in
          let pa = user_page (lookup pt (pg_round_down srcva) m) in
          let n = in_page_of srcva len in
          let (le, more, short, end_of) = in_page_of_lem srcva len in
          let m1 = move dst (pa + (srcva - pg_round_down srcva)) n m in
          let bytes : (a : ℕ)
              → m1.kmem.bytes a ≡ (
                  if within dst n a
                  then m.kmem.bytes (pa + (srcva - pg_round_down srcva) + (a - dst))
                  else m.kmem.bytes a) =
            λ a. memmove_lem m.kmem.bytes dst (pa + (srcva - pg_round_down srcva)) n a in
          let (m2, ran, same, view) =
            copyin_loop_lem end sz own_pt fuel pt (dst + n) (pg_round_down srcva + pgsize) (len - n)
              m1 (omega (arith, enough, more pos))
              (rest_Readable pt dst srcva len n m m1 le short end_of refl bytes apart) in
          (
            m2,
            copyin_round end sz own_pt fuel pt dst srcva len pa m pos there
                  (page_at-there end sz own_pt pt srcva m low there)
                ∙ ran,
            same,
            λ a. view a ∙ copied_step pt dst srcva len n m m1 le short end_of refl bytes apart a,
          )
    ]

-- `copyin` of bytes that the user may use, none of which lies in the destination, returns 0: it
-- copies each of them from its physical address, and changes no other byte and no page table.
pub copyin_lem :
    (end sz own_pt pt dst srcva len : ℕ) (m : Machine)
    → Readable pt m dst srcva len
    → (m' : Machine) × (copyin end sz own_pt pt dst srcva len m ≡ done (true, m'))
      × (m'.entries ≡ m.entries)
      × ((a : ℕ) → m'.kmem.bytes a ≡ copied pt m dst srcva len a)
unfolding copyin
copyin_lem end sz own_pt pt dst srcva len m apart =
    copyin_loop_lem end sz own_pt len pt dst srcva len m (omega arith) apart
