-- ===== src/Kernel/Transfer/CopyString.antt =====
-- What copyinstr writes.
use proyecto_3_sistemas_oper.Base.{
  ℕ, zero, suc, ◌+◌, ◌-◌, ◌≤◌, ◌<◌, ◌≡◌, ◌≢◌, refl, sym, ap, ◌∙◌, subst, inl, inr, Bool, true,
  false, ◌==◌, ltb, arith, Bool-cases, eqb→eq, eqb_refl,
}
use proyecto_3_sistemas_oper.Kernel.Params.{pgsize, pg_round_down}
use proyecto_3_sistemas_oper.Kernel.Strings.{Memory, store, within}
use proyecto_3_sistemas_oper.Kernel.Pagetable.{Machine, walkaddr}
use proyecto_3_sistemas_oper.Kernel.Pagetable.Lookup.{true-false}
use proyecto_3_sistemas_oper.Kernel.Transfer.{in_page_of, copy_to_null, copyinstr_loop, copyinstr}

-- A string of k bytes at dst, with its NUL.
abbrev pub IsString : Memory → ℕ → ℕ → Type 0
IsString bytes dst k = (bytes (dst + k) ≡ 0) × ((i : ℕ) → i < k → bytes (dst + i) ≢ 0)

-- What a copy of a string with room for `max` bytes leaves, and whether it found the NUL.
pub record Written (max dst : ℕ) (bytes : Memory) (ended : Bool) (bytes' : Memory) : Type 0 where
  pub outside : (a : ℕ) → within dst max a ≡ false → bytes' a ≡ bytes a
  pub string : ended ≡ true → (k : ℕ) × (k < max) × IsString bytes' dst k

-- A copy that wrote nothing.
failed : (max dst : ℕ) (bytes : Memory) → Written max dst bytes false bytes
failed max dst bytes = record {
  outside = λ a away. refl;
  string = λ e. absurd (true-false (sym e));
}

AllBytes : ℕ → ℕ → Memory → Type 0
AllBytes n dst bytes = (i : ℕ) → i < n → bytes (dst + i) ≢ 0

-- A first part without a NUL, and then a string.
joined :
    (n rest dst : ℕ) (bytes bytes1 bytes2 : Memory) (ended : Bool)
    → ((a : ℕ) → within dst n a ≡ false → bytes1 a ≡ bytes a)
    → AllBytes n dst bytes1
    → Written rest (dst + n) bytes1 ended bytes2
    → Written (n + rest) dst bytes ended bytes2
unfolding AllBytes
joined n rest dst bytes bytes1 bytes2 ended same full w = record {
  outside = λ a away. w.outside a (ground (arith, away)) ∙ same a (ground (arith, away));
  string = λ yes_ended.
      let (k, short, str) = w.string yes_ended in
      (
        n + k,
        omega (arith, short),
        (
          subst (λ (a : ℕ). bytes2 a ≡ 0) (omega arith) str.0,
          λ i lt. elim (Bool-cases (ltb i n)) [
            | inl early ↦
                let under : i < n = ground (arith, early) in
                let kept : bytes2 (dst + i) ≡ bytes1 (dst + i) =
                  w.outside (dst + i) (ground (arith, under)) in
                λ z. full i under (sym kept ∙ z)
            | inr late ↦
                let over : n ≤ i = ground (arith, late) in
                let here : dst + n + (i - n) ≡ dst + i = omega (arith, over) in
                λ z. str.1 (i - n) (omega (arith, over, lt)) (ap bytes2 here ∙ z)
          ],
        ),
      );
}

widened :
    (n max dst : ℕ) (bytes bytes' : Memory)
    → n ≤ max
    → Written n dst bytes true bytes'
    → Written max dst bytes true bytes'
widened n max dst bytes bytes' le w = record {
  outside = λ a away. w.outside a (ground (arith, away, le));
  string = λ e. let (k, short, str) = w.string e in (k, omega (arith, short, le), str);
}

-- The inner loop.
copy_to_null_lem :
    (n p dst : ℕ) (bytes : Memory)
    → Written n dst bytes (copy_to_null n p dst bytes).0 (copy_to_null n p dst bytes).1
      × ((copy_to_null n p dst bytes).0 ≡ false → AllBytes n dst (copy_to_null n p dst bytes).1)
unfolding copy_to_null AllBytes
copy_to_null_lem zero p dst bytes = (
  record { outside = λ a away. refl; string = λ e. absurd (true-false (sym e)) },
  λ e i lt. absurd (nothing lt),
)
  where
    nothing : {i : ℕ} → i < 0 → ⊥
    nothing lt = omega arith
copy_to_null_lem (suc n) p dst bytes = elim (Bool-cases (bytes p == 0)) [
  | inl null ↦ rw null (
    record {
      outside = λ a away. ground (arith, away);
      string = λ e. (0, omega arith, (ground arith, λ i lt. absurd (nothing lt)));
    },
    λ e. absurd (true-false e),
  )
  | inr byte ↦
      let (w, full) = copy_to_null_lem n (p + 1) (dst + 1) (store bytes dst (bytes p)) in
      let first : AllBytes 1 dst (store bytes dst (bytes p)) = one_byte byte in
      let one_more : 1 + n ≡ suc n = omega arith in
      let rest = copy_to_null n (p + 1) (dst + 1) (store bytes dst (bytes p)) in
      rw byte (
        subst (λ (k : ℕ). Written k dst bytes rest.0 rest.1) one_more
            (joined 1 n dst bytes (store bytes dst (bytes p)) rest.1 rest.0
              (λ a away. ground (arith, away)) first w),
        λ e i lt. elim (Bool-cases (i == 0)) [
          | inl head ↦
              let at_dst : dst + i ≡ dst = omega (arith, eqb→eq i 0 head) in
              let kept : rest.1 dst ≡ store bytes dst (bytes p) dst =
                w.outside dst (ground arith) in
              λ z. first 0 (omega arith) (
                ap (store bytes dst (bytes p)) (omega arith)
                ∙ sym kept
                ∙ ap rest.1 (sym at_dst)
                ∙ z)
          | inr later ↦
              let here : dst + 1 + (i - 1) ≡ dst + i = ground (arith, later) in
              λ z. full e (i - 1) (ground (arith, later, lt)) (ap rest.1 here ∙ z)
        ],
      )
]
  where
    nothing : {i : ℕ} → i < 0 → ⊥
    nothing lt = omega arith

    one_byte : (bytes p == 0) ≡ false → AllBytes 1 dst (store bytes dst (bytes p))
    one_byte byte i lt h =
        let at_dst : dst + i ≡ dst = omega (arith, lt) in
        let same : store bytes dst (bytes p) dst ≡ bytes p = rw (eqb_refl dst) refl in
        let zero_byte : bytes p ≡ 0 = sym same ∙ ap (store bytes dst (bytes p)) (sym at_dst) ∙ h in
        true-false (sym (rw zero_byte refl) ∙ byte)

-- The outer loop.
copyinstr_loop_lem :
    (fuel pt dst srcva max : ℕ) (m : Machine)
    → Written max dst m.kmem.bytes
        (copyinstr_loop fuel pt dst srcva max m).0
        (copyinstr_loop fuel pt dst srcva max m).1.kmem.bytes
unfolding copyinstr_loop
copyinstr_loop_lem zero pt dst srcva max m = failed max dst m.kmem.bytes
copyinstr_loop_lem (suc fuel) pt dst srcva max m =
    let n = in_page_of srcva max in
    let va0 = pg_round_down srcva in
    let c = copy_to_null n (walkaddr pt va0 m + (srcva - va0)) dst m.kmem.bytes in
    let m' : Machine = record m { kmem = record m.kmem { bytes = c.1 } } in
    let (w, full) = copy_to_null_lem n (walkaddr pt va0 m + (srcva - va0)) dst m.kmem.bytes in
    let fits : n + (max - n) ≡ max = ground arith in
    elim (Bool-cases (max == 0)) [
      | inl nothing ↦ rw nothing (failed max dst m.kmem.bytes)
      | inr some_room ↦ elim (Bool-cases (walkaddr pt va0 m == 0)) [
        | inl unmapped ↦ rw (some_room, unmapped) (failed max dst m.kmem.bytes)
        | inr mapped ↦ elim (Bool-cases c.0) [
          | inl ended ↦
              rw (some_room, mapped, ended)
                (widened n max dst m.kmem.bytes c.1 (omega (arith, fits))
                  (subst (λ b. Written n dst m.kmem.bytes b c.1) ended w))
          | inr more ↦
              let rest = copyinstr_loop fuel pt (dst + n) (va0 + pgsize) (max - n) m' in
              rw (some_room, mapped, more)
                (subst (λ (k : ℕ). Written k dst m.kmem.bytes rest.0 rest.1.kmem.bytes) fits
                  (joined n (max - n) dst m.kmem.bytes c.1 rest.1.kmem.bytes rest.0 w.outside
                    (full more) (copyinstr_loop_lem fuel pt (dst + n) (va0 + pgsize) (max - n) m')))
        ]
      ]
    ]

-- `copyinstr` changes no byte but the `max` ones from dst on; if it returns 0, these begin with a
-- string and its NUL.
pub copyinstr_lem :
    (pt dst srcva max : ℕ) (m : Machine)
    → Written max dst m.kmem.bytes
        (copyinstr pt dst srcva max m).0
        (copyinstr pt dst srcva max m).1.kmem.bytes
unfolding copyinstr
copyinstr_lem pt dst srcva max m = copyinstr_loop_lem max pt dst srcva max m
