-- ===== src/Kernel/Transfer/WholeString.antt =====
-- copyinstr of a string that is there, as a whole.
use proyecto_3_sistemas_oper.Base.{
  ℕ, zero, suc, ◌+◌, ◌-◌, ◌≤◌, ◌<◌, ◌≡◌, ◌≢◌, refl, sym, ap, ◌∙◌, subst, inl, inr, true, false, ltb,
  arith, Bool-cases,
}
use proyecto_3_sistemas_oper.Kernel.Params.{pgsize, pg_round_down, max_va}
use proyecto_3_sistemas_oper.Kernel.Strings.{Memory, within}
use proyecto_3_sistemas_oper.Kernel.Pagetable.{Machine, walkaddr}
use proyecto_3_sistemas_oper.Kernel.Pagetable.Growing.{lookup}
use proyecto_3_sistemas_oper.Kernel.Pagetable.Address.{user_page, walkaddr_lem}
use proyecto_3_sistemas_oper.Kernel.Transfer.{in_page_of, copy_to_null, copyinstr_loop, copyinstr}
use proyecto_3_sistemas_oper.Kernel.Transfer.CopyIn.{
  translate, Readable, copied, in_page_of_lem, rest_Readable, copied_step,
}
use proyecto_3_sistemas_oper.Kernel.Transfer.FindNull.{
  moved, Apart, UserString, copy_to_null-none, copy_to_null-some, place, copyinstr_end,
  copyinstr_round,
}

walkaddr-there :
    (pt va : ℕ) (m : Machine)
    → va < max_va
    → walkaddr pt (pg_round_down va) m ≡ user_page (lookup pt (pg_round_down va) m)
walkaddr-there pt va m lt =
    let below : ltb (pg_round_down va) max_va ≡ true = ground (arith, lt) in
    walkaddr_lem pt (pg_round_down va) m ∙ rw below refl

module _ (pt dst srcva max k : ℕ) (m : Machine) (room : k < max)
    (apart : Readable pt m dst srcva (suc k)) (str : UserString pt m srcva k) where
  abbrev p : ℕ
  p = user_page (lookup pt (pg_round_down srcva) m) + (srcva - pg_round_down srcva)

  -- Of the bytes in the first page.
  abbrev n : ℕ
  n = in_page_of srcva max

  in_n : (i : ℕ) → i < n → p + i ≡ translate pt m (srcva + i)
  in_n i lt = place pt srcva i m (omega (arith, lt, (in_page_of_lem srcva max).2))

  first_Apart : (j : ℕ) → j ≤ n → j ≤ suc k → Apart dst p j
  first_Apart j le le' i lt =
      let away : within dst (suc k) (translate pt m (srcva + i)) ≡ false =
        (apart (srcva + i) (omega arith) (omega (arith, lt, le'))).2 in
      rw (in_n i (omega (arith, lt, le))) (ground (arith, away, le'))

  first_full : (j : ℕ) → j ≤ n → j ≤ k → (i : ℕ) → i < j → m.kmem.bytes (p + i) ≢ 0
  first_full j le le' i lt z =
      str.0 i (omega (arith, lt, le')) (ap m.kmem.bytes (sym (in_n i (omega (arith, lt, le)))) ∙ z)

  -- The NUL is in the first page.
  ends_here :
      k < n
      → (bytes : Memory) × (copy_to_null n p dst m.kmem.bytes ≡ (true, bytes))
        × ((a : ℕ) → bytes a ≡ copied pt m dst srcva (suc k) a)
  ends_here lt =
      let (got, view) =
        copy_to_null-some k n p dst m.kmem.bytes lt
          (first_Apart (suc k) (omega (arith, lt)) (omega arith))
          (first_full k (omega (arith, lt)) (omega arith)) (ap m.kmem.bytes (in_n k lt) ∙ str.1) in
      (
        (copy_to_null n p dst m.kmem.bytes).1,
        ap (λ b. (b, (copy_to_null n p dst m.kmem.bytes).1)) got,
        λ a. view a ∙ as_copied a,
      )
    where
      as_copied : (a : ℕ) → moved m.kmem.bytes dst p (suc k) a ≡ copied pt m dst srcva (suc k) a
      as_copied a = elim (Bool-cases (within dst (suc k) a)) [
        | inl here ↦ rw here (ap m.kmem.bytes (in_n (a - dst) (ground (arith, here, lt))))
        | inr away ↦ rw away refl
      ]

  -- It is in a later one.
  goes_on :
      n ≤ k
      → (bytes : Memory) × (copy_to_null n p dst m.kmem.bytes ≡ (false, bytes))
        × ((a : ℕ) → bytes a ≡ moved m.kmem.bytes dst p n a)
  goes_on le =
      let (got, view) =
        copy_to_null-none n p dst m.kmem.bytes (first_Apart n (omega arith) (omega (arith, le)))
          (first_full n (omega arith) le) in
      (
        (copy_to_null n p dst m.kmem.bytes).1,
        ap (λ b. (b, (copy_to_null n p dst m.kmem.bytes).1)) got,
        view,
      )

  whole_page : n ≤ k → srcva + n ≡ pg_round_down srcva + pgsize
  whole_page le = elim (in_page_of_lem srcva max).3 [
    | inl all ↦ absurd (past all)
    | inr page ↦ page
  ]
    where
      past : n ≡ max → ⊥
      past all = omega (arith, all, le, room)

  rest_string :
      (m1 : Machine)
      → n ≤ k
      → m1.entries ≡ m.entries
      → ((a : ℕ) → m1.kmem.bytes a ≡ moved m.kmem.bytes dst p n a)
      → UserString pt m1 (pg_round_down srcva + pgsize) (k - n)
  rest_string m1 le same view = (
    (λ i lt z. str.0 (n + i) (omega (arith, lt)) (sym (kept i (omega (arith, lt, le))) ∙ z)),
    kept (k - n) (omega (arith, le))
        ∙ ap (λ (i : ℕ). m.kmem.bytes (translate pt m (srcva + i))) (omega (arith, le))
        ∙ str.1,
  )
    where
      kept :
          (i : ℕ)
          → n + i ≤ k
          → m1.kmem.bytes (translate pt m1 (pg_round_down srcva + pgsize + i))
            ≡ m.kmem.bytes (translate pt m (srcva + (n + i)))
      kept i lt =
          let here : pg_round_down srcva + pgsize + i ≡ srcva + (n + i) =
            omega (arith, whole_page le) in
          let t = translate pt m (srcva + (n + i)) in
          let far : within dst (suc k) t ≡ false =
            (apart (srcva + (n + i)) (omega arith) (omega (arith, lt))).2 in
          let away : within dst n t ≡ false = ground (arith, far, le) in
          let table : translate pt m1 (srcva + (n + i)) ≡ t = rw same refl in
          ap (λ (va : ℕ). m1.kmem.bytes (translate pt m1 va)) here
          ∙ ap m1.kmem.bytes table
          ∙ view t
          ∙ rw away refl

copyinstr_loop_lem :
    (fuel pt dst srcva max k : ℕ) (m : Machine)
    → max ≤ fuel
    → k < max
    → Readable pt m dst srcva (suc k)
    → UserString pt m srcva k
    → (m' : Machine) × (copyinstr_loop fuel pt dst srcva max m ≡ (true, m'))
      × (m'.entries ≡ m.entries)
      × ((a : ℕ) → m'.kmem.bytes a ≡ copied pt m dst srcva (suc k) a)
copyinstr_loop_lem zero pt dst srcva max k m enough room apart str = absurd (nothing enough room)
  where
    nothing : max ≤ 0 → k < max → ⊥
    nothing le lt = omega arith
copyinstr_loop_lem (suc fuel) pt dst srcva max k m enough room apart str =
    let (low, there, _) = apart srcva (omega arith) (omega arith) in
    let pa = user_page (lookup pt (pg_round_down srcva) m) in
    let at_pa = walkaddr-there pt srcva m low in
    let n = in_page_of srcva max in
    let (le, more, short, _) = in_page_of_lem srcva max in
    elim (Bool-cases (ltb k n)) [
      | inl here ↦
          let (bytes, got, view) =
            ends_here pt dst srcva max k m room apart str (ground (arith, here)) in
          (
            record { kmem = record m.kmem { bytes = bytes }; entries = m.entries },
            copyinstr_end fuel pt dst srcva max pa m bytes (omega (arith, room)) there at_pa got,
            refl,
            view,
          )
      | inr later ↦
          let past : n ≤ k = ground (arith, later) in
          let (bytes, got, view) = goes_on pt dst srcva max k m room apart str past in
          let m1 : Machine = record {
            kmem = record m.kmem { bytes = bytes };
            entries = m.entries;
          } in
          let page = whole_page pt dst srcva max k m room apart str past in
          let left : suc (k - n) ≡ suc k - n = omega (arith, past) in
          let rest =
            rest_Readable pt dst srcva (suc k) n m m1 (omega (arith, past)) short (inr page) refl
              view apart in
          let (m2, ran, same, view') =
            copyinstr_loop_lem fuel pt (dst + n) (pg_round_down srcva + pgsize) (max - n) (k - n) m1
              (omega (arith, enough, more (omega (arith, room)))) (omega (arith, room, past))
              (subst (λ (l : ℕ). Readable pt m1 (dst + n) (pg_round_down srcva + pgsize) l)
                (sym left) rest)
              (rest_string pt dst srcva max k m room apart str m1 past refl view) in
          (
            m2,
            copyinstr_round fuel pt dst srcva max pa m bytes (omega (arith, room)) there at_pa got
                ∙ ran,
            same,
            λ a.
                view' a
                ∙ ap (λ (l : ℕ). copied pt m1 (dst + n) (pg_round_down srcva + pgsize) l a) left
                ∙ copied_step pt dst srcva (suc k) n m m1 (omega (arith, past)) short (inr page)
                    refl view apart a,
          )
    ]

-- `copyinstr` of a string of fewer than `max` bytes that the user may use, with its NUL, none of
-- which lies in the destination, returns 0: it copies the string and the NUL, each byte from its
-- physical address, and changes no other byte and no page table.
pub copyinstr-UserString :
    (pt dst srcva max k : ℕ) (m : Machine)
    → k < max
    → Readable pt m dst srcva (suc k)
    → UserString pt m srcva k
    → (m' : Machine) × (copyinstr pt dst srcva max m ≡ (true, m'))
      × (m'.entries ≡ m.entries)
      × ((a : ℕ) → m'.kmem.bytes a ≡ copied pt m dst srcva (suc k) a)
unfolding copyinstr
copyinstr-UserString pt dst srcva max k m room apart str =
    copyinstr_loop_lem max pt dst srcva max k m (omega arith) room apart str
