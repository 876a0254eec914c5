-- ===== src/Kernel/Transfer/FindNull.antt =====
-- copyinstr of a string that is there.
use proyecto_3_sistemas_oper.Base.{
  ℕ, zero, suc, ◌+◌, ◌-◌, ◌%◌, ◌<◌, ◌≡◌, ◌≢◌, refl, sym, ap, ◌∙◌, inl, inr, true, false, ◌==◌,
  if◌then◌else◌, arith, Bool-cases, eqb→eq, eqb_of_ne,
}
use proyecto_3_sistemas_oper.Kernel.Params.{pgsize, pg_round_down}
use proyecto_3_sistemas_oper.Kernel.Strings.{Memory, store, within}
use proyecto_3_sistemas_oper.Kernel.Pagetable.{Machine, walkaddr}
use proyecto_3_sistemas_oper.Kernel.Pagetable.Growing.{lookup}
use proyecto_3_sistemas_oper.Kernel.Pagetable.Address.{user_page}
use proyecto_3_sistemas_oper.Kernel.Transfer.{in_page_of, copy_to_null, copyinstr_loop}
use proyecto_3_sistemas_oper.Kernel.Transfer.CopyIn.{translate}

-- The bytes after n bytes from p on are copied to dst.
abbrev pub moved : Memory → ℕ → ℕ → ℕ → ℕ → ℕ
moved bytes dst p n a = if within dst n a then bytes (p + (a - dst)) else bytes a

-- No byte of the source is one of the n from dst on.
abbrev pub Apart : ℕ → ℕ → ℕ → Type 0
Apart dst p n = (i : ℕ) → i < n → within dst n (p + i) ≡ false

moved_step :
    (bytes : Memory) (dst p n a : ℕ)
    → Apart dst p (suc n)
    → moved (store bytes dst (bytes p)) (dst + 1) (p + 1) n a ≡ moved bytes dst p (suc n) a
moved_step bytes dst p n a apart = elim (Bool-cases (within (dst + 1) n a)) [
  | inl later ↦
      let all : within dst (suc n) a ≡ true = ground (arith, later) in
      let same : p + 1 + (a - (dst + 1)) ≡ p + (a - dst) = ground (arith, later) in
      let away : (dst == p + (a - dst)) ≡ false =
        ground (arith, apart (a - dst) (ground (arith, later)), later) in
      rw (later, all, same, away) refl
  | inr out ↦ elim (Bool-cases (dst == a)) [
    | inl here ↦
        let e : dst ≡ a = eqb→eq dst a here in
        let all : within dst (suc n) a ≡ true = ground (arith, e) in
        let same : p + (a - dst) ≡ p = omega (arith, e) in rw (out, all, here, same) refl
    | inr other_byte ↦
        let none_at : within dst (suc n) a ≡ false = ground (arith, out, other_byte) in
        rw (out, none_at, other_byte) refl
  ]
]

Apart-suc : (dst p n : ℕ) → Apart dst p (suc n) → Apart (dst + 1) (p + 1) n
Apart-suc dst p n apart i lt = ground (arith, apart (i + 1) (omega (arith, lt)))

Apart-store :
    (bytes : Memory) (dst p n i : ℕ)
    → Apart dst p (suc n)
    → i < n
    → store bytes dst (bytes p) (p + 1 + i) ≡ bytes (p + (i + 1))
Apart-store bytes dst p n i apart lt =
    let same : p + 1 + i ≡ p + (i + 1) = omega arith in
    let away : (dst == p + (i + 1)) ≡ false = ground (arith, apart (i + 1) (omega (arith, lt))) in
    rw (same, away) refl

-- The inner loop over n bytes that are not NUL.
pub copy_to_null-none :
    (n p dst : ℕ) (bytes : Memory)
    → Apart dst p n
    → ((i : ℕ) → i < n → bytes (p + i) ≢ 0)
    → ((copy_to_null n p dst bytes).0 ≡ false)
      × ((a : ℕ) → (copy_to_null n p dst bytes).1 a ≡ moved bytes dst p n a)
unfolding copy_to_null
copy_to_null-none zero p dst bytes apart full = (refl, λ a. ground arith)
copy_to_null-none (suc n) p dst bytes apart full =
    let bytes1 = store bytes dst (bytes p) in
    let byte : (bytes p == 0) ≡ false =
      eqb_of_ne (bytes p) 0 (λ z. full 0 (omega arith) (ap bytes (omega arith) ∙ z)) in
    let (no_null, view) =
      copy_to_null-none n (p + 1) (dst + 1) bytes1 (Apart-suc dst p n apart) (λ i lt z.
        full (i + 1) (omega (arith, lt)) (sym (Apart-store bytes dst p n i apart lt) ∙ z)) in
    rw byte (no_null, λ a. view a ∙ moved_step bytes dst p n a apart)

one_null :
    (bytes : Memory) (dst p a : ℕ) → bytes p ≡ 0 → store bytes dst 0 a ≡ moved bytes dst p 1 a
one_null bytes dst p a null = elim (Bool-cases (dst == a)) [
  | inl here ↦
      let e : dst ≡ a = eqb→eq dst a here in
      let all : within dst 1 a ≡ true = ground (arith, e) in
      let same : p + (a - dst) ≡ p = omega (arith, e) in rw (here, all, same, null) refl
  | inr away ↦ let out : within dst 1 a ≡ false = ground (arith, away) in rw (away, out) refl
]

-- The inner loop up to a NUL.
pub copy_to_null-some :
    (j n p dst : ℕ) (bytes : Memory)
    → j < n
    → Apart dst p (suc j)
    → ((i : ℕ) → i < j → bytes (p + i) ≢ 0)
    → bytes (p + j) ≡ 0
    → ((copy_to_null n p dst bytes).0 ≡ true)
      × ((a : ℕ) → (copy_to_null n p dst bytes).1 a ≡ moved bytes dst p (suc j) a)
unfolding copy_to_null
copy_to_null-some j zero p dst bytes short apart full null = absurd (nothing short)
  where
    nothing : j < 0 → ⊥
    nothing lt = omega arith
copy_to_null-some zero (suc n) p dst bytes short apart full null =
    let at_p : bytes p ≡ 0 = ap bytes (omega arith) ∙ null in
    rw at_p (refl, λ a. one_null bytes dst p a at_p)
copy_to_null-some (suc j) (suc n) p dst bytes short apart full null =
    let bytes1 = store bytes dst (bytes p) in
    let byte : (bytes p == 0) ≡ false =
      eqb_of_ne (bytes p) 0 (λ z. full 0 (omega arith) (ap bytes (omega arith) ∙ z)) in
    let same : p + (j + 1) ≡ p + suc j = omega arith in
    let (got, view) =
      copy_to_null-some j n (p + 1) (dst + 1) bytes1 (omega (arith, short))
        (Apart-suc dst p (suc j) apart)
        (λ i lt z.
          full (i + 1) (omega (arith, lt))
            (sym (Apart-store bytes dst p (suc j) i apart (omega (arith, lt))) ∙ z))
        (Apart-store bytes dst p (suc j) j apart (omega arith) ∙ ap bytes same ∙ null) in
    rw byte (got, λ a. view a ∙ moved_step bytes dst p (suc j) a apart)

-- A user's string of k bytes, and its NUL.
abbrev pub UserString : ℕ → Machine → ℕ → ℕ → Type 0
UserString pt m srcva k =
    ((i : ℕ) → i < k → m.kmem.bytes (translate pt m (srcva + i)) ≢ 0)
    × (m.kmem.bytes (translate pt m (srcva + k)) ≡ 0)

pub place :
    (pt srcva i : ℕ) (m : Machine)
    → srcva + i < pg_round_down srcva + pgsize
    → user_page (lookup pt (pg_round_down srcva) m) + (srcva - pg_round_down srcva) + i
      ≡ translate pt m (srcva + i)
place pt srcva i m lt =
    let page : pg_round_down (srcva + i) ≡ pg_round_down srcva = omega (arith, lt) in
    let at : (srcva + i) % pgsize ≡ srcva - pg_round_down srcva + i = omega (arith, lt) in
    rw (page, at) (omega arith)

pub copyinstr_end :
    (fuel pt dst srcva max pa : ℕ) (m : Machine) (bytes : Memory)
    → 0 < max
    → pa ≢ 0
    → walkaddr pt (pg_round_down srcva) m ≡ pa
    → copy_to_null (in_page_of srcva max) (pa + (srcva - pg_round_down srcva)) dst m.kmem.bytes
      ≡ (true, bytes)
    → copyinstr_loop (suc fuel) pt dst srcva max m
      ≡ (true, record { kmem = record m.kmem { bytes = bytes }; entries = m.entries })
unfolding copyinstr_loop
copyinstr_end fuel pt dst srcva max pa m bytes pos ne at_pa got =
    rw (eqb_of_ne max 0 (λ z. omega arith), at_pa, eqb_of_ne pa 0 ne, got) refl

pub copyinstr_round :
    (fuel pt dst srcva max pa : ℕ) (m : Machine) (bytes : Memory)
    → 0 < max
    → pa ≢ 0
    → walkaddr pt (pg_round_down srcva) m ≡ pa
    → copy_to_null (in_page_of srcva max) (pa + (srcva - pg_round_down srcva)) dst m.kmem.bytes
      ≡ (false, bytes)
    → copyinstr_loop (suc fuel) pt dst srcva max m
      ≡ copyinstr_loop fuel pt
          (dst + in_page_of srcva max)
          (pg_round_down srcva + pgsize)
          (max - in_page_of srcva max)
          (record { kmem = record m.kmem { bytes = bytes }; entries = m.entries })
unfolding copyinstr_loop
copyinstr_round fuel pt dst srcva max pa m bytes pos ne at_pa got =
    rw (eqb_of_ne max 0 (λ z. omega arith), at_pa, eqb_of_ne pa 0 ne, got) refl
