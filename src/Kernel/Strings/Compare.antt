-- ===== src/Kernel/Strings/Compare.antt =====
-- What memcmp, strncmp and strlen decide.
use proyecto_3_sistemas_oper.Base.{
  ℕ, zero, suc, ◌+◌, ◌<◌, ◌≡◌, ◌≢◌, ◌↔◌, refl, ◌==◌, pos, arith, some, sub_ℕ-eq-zero, Bool-cases,
  inl, inr, ap, ◌∙◌,
}
use native.Mathlib.Nat.{add-zero, zero-add}
use proyecto_3_sistemas_oper.Kernel.Strings.{Memory, memcmp, strncmp, strlen, strlen_loop}

-- The bytes at distance below n are the same.
abbrev pub SameBytes : Memory → ℕ → ℕ → ℕ → Type 0
SameBytes m v1 v2 n = (i : ℕ) → i < n → m (v1 + i) ≡ m (v2 + i)

-- The bytes at distance below n are the same, up to and with the first NUL of p.
abbrev pub SameText : Memory → ℕ → ℕ → ℕ → Type 0
SameText m p q n = (i : ℕ) → i < n → ((j : ℕ) → j < i → m (p + j) ≢ 0) → m (p + i) ≡ m (q + i)

memcmp_sound : (n : ℕ) (m : Memory) (v1 v2 : ℕ) → memcmp m v1 v2 n ≡ pos 0 → SameBytes m v1 v2 n
unfolding memcmp
memcmp_sound zero m v1 v2 h i lt = elim lt [ ]
memcmp_sound (suc n) m v1 v2 h zero lt =
    ground (arith, sub_ℕ-eq-zero (m v1) (m v2), add-zero v1, add-zero v2)
memcmp_sound (suc n) m v1 v2 h (suc i) lt =
    ground (arith, memcmp_sound n m (v1 + 1) (v2 + 1) (ground arith) i)

-- The hypothesis on n + 1 bytes gives the one on the n bytes behind the first.
SameBytes-tail :
    (n : ℕ) (m : Memory) (v1 v2 : ℕ) → SameBytes m v1 v2 (suc n) → SameBytes m (v1 + 1) (v2 + 1) n
SameBytes-tail n m v1 v2 h i lt = rw (shift v1, shift v2) (h (suc i) (omega arith))
  where
    shift : (v : ℕ) → v + 1 + i ≡ v + suc i
    shift v = omega arith

memcmp_complete : (n : ℕ) (m : Memory) (v1 v2 : ℕ) → SameBytes m v1 v2 n → memcmp m v1 v2 n ≡ pos 0
unfolding memcmp
memcmp_complete zero m v1 v2 h = refl
memcmp_complete (suc n) m v1 v2 h = ground (
  arith,
  add-zero v1,
  add-zero v2,
  h 0 (omega arith),
  memcmp_complete n m (v1 + 1) (v2 + 1) (SameBytes-tail n m v1 v2 h),
)

-- `memcmp(v1, v2, n)` returns 0 exactly if the n bytes at v1 are the n bytes at v2.
pub memcmp_iff : (m : Memory) (v1 v2 n : ℕ) → (memcmp m v1 v2 n ≡ pos 0) ↔ SameBytes m v1 v2 n
memcmp_iff m v1 v2 n = (memcmp_sound n m v1 v2, memcmp_complete n m v1 v2)

strncmp_sound : (n : ℕ) (m : Memory) (p q : ℕ) → strncmp m p q n ≡ pos 0 → SameText m p q n
unfolding strncmp
strncmp_sound zero m p q h i lt clean = elim lt [ ]
strncmp_sound (suc n) m p q h zero lt clean =
    ground (arith, sub_ℕ-eq-zero (m p) (m q), add-zero p, add-zero q)
strncmp_sound (suc n) m p q h (suc i) lt clean =
    rw (← shift p, ← shift q)
      (strncmp_sound n m (p + 1) (q + 1) tail i (omega arith)
        (λ j jl. rw (shift2 j) (clean (suc j) (omega arith))))
  where
    shift : (v : ℕ) → v + 1 + i ≡ v + suc i
    shift v = omega arith

    shift2 : (j : ℕ) → p + 1 + j ≡ p + suc j
    shift2 j = omega arith

    tail : strncmp m (p + 1) (q + 1) n ≡ pos 0
    tail = ground (arith, clean 0 (omega arith), add-zero p, sub_ℕ-eq-zero (m p) (m q))

SameText-tail :
    (n : ℕ) (m : Memory) (p q : ℕ) → SameText m p q (suc n) → m p ≢ 0 → SameText m (p + 1) (q + 1) n
SameText-tail n m p q h ne i lt clean = rw (shift p, shift q) (h (suc i) (omega arith) clean')
  where
    shift : (v : ℕ) → v + 1 + i ≡ v + suc i
    shift v = omega arith

    clean' : (j : ℕ) → j < suc i → m (p + j) ≢ 0
    clean' zero jl = rw (add-zero p) ne
    clean' (suc j) jl =
        let e : p + 1 + j ≡ p + suc j = omega arith in rw (← e) (clean j (omega arith))

strncmp_complete : (n : ℕ) (m : Memory) (p q : ℕ) → SameText m p q n → strncmp m p q n ≡ pos 0
unfolding strncmp
strncmp_complete zero m p q h = refl
strncmp_complete (suc n) m p q h = elim (Bool-cases (m p == 0)) [
  | inl e ↦ ground (arith, first)
  | inr e ↦ ground (
    arith,
    first,
    strncmp_complete n m (p + 1) (q + 1) (SameText-tail n m p q h (λ z. ground arith)),
  )
]
  where
    first : m p ≡ m q
    first = rw (add-zero p, add-zero q) at (h 0 (omega arith) (λ j jl. elim jl [ ]))

-- `strncmp(p, q, n)` returns 0 exactly if the two texts agree on each of the first n places that
-- p reaches before or at its NUL.
pub strncmp_iff : (m : Memory) (p q n : ℕ) → (strncmp m p q n ≡ pos 0) ↔ SameText m p q n
strncmp_iff m p q n = (strncmp_sound n m p q, strncmp_complete n m p q)

strlen_loop_lem :
    (fuel : ℕ) (m : Memory) (s n k : ℕ)
    → k < fuel
    → ((j : ℕ) → j < k → m (s + (n + j)) ≢ 0)
    → m (s + (n + k)) ≡ 0
    → strlen_loop m s n fuel ≡ some (n + k)
unfolding strlen_loop
strlen_loop_lem zero m s n k lt clean nul = elim lt [ ]
strlen_loop_lem (suc fuel) m s n zero lt clean nul = ground (arith, add-zero n)
strlen_loop_lem (suc fuel) m s n (suc k) lt clean nul = ground (
  arith,
  rw (add-zero n) at (clean 0 (omega arith)),
  rw (shift k) at (
      strlen_loop_lem fuel m s (n + 1) k (omega arith)
        (λ j jl. rw (shift j) (clean (suc j) (omega arith))) (rw (shift k) nul)),
)
  where
    shift : (j : ℕ) → n + 1 + j ≡ n + suc j
    shift j = omega arith

-- If the first NUL from s on stands k bytes behind s, `strlen(s)` returns k; k + 1 rounds of the
-- loop are enough.
pub strlen_lem :
    (m : Memory) (s k fuel : ℕ)
    → k < fuel
    → ((j : ℕ) → j < k → m (s + j) ≢ 0)
    → m (s + k) ≡ 0
    → strlen m s fuel ≡ some k
unfolding strlen
strlen_lem m s k fuel lt clean nul =
    strlen_loop_lem fuel m s 0 k lt (λ j jl. rw (zero-add j) (clean j jl)) (rw (zero-add k) nul)
    ∙ ap some (zero-add k)
