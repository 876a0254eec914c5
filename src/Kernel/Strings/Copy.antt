-- ===== src/Kernel/Strings/Copy.antt =====
-- What strncpy and safestrcpy leave in memory, when the source does not overlap the n bytes that
-- are written.
use native.Mathlib.Numerals.{add-one}
use proyecto_3_sistemas_oper.Base.{
  ℕ, zero, suc, ◌+◌, ◌-◌, ◌≤◌, ◌<◌, ◌≡◌, refl, ◌==◌, arith, Bool, true, false, ◌&&◌, ◌⊎◌, not,
  if◌then◌else◌, Bool-cases, inl, inr,
}
use proyecto_3_sistemas_oper.Kernel.Strings.{
  Memory, store, within, pad, strncpy, safestrcpy, safestrcpy_loop,
}

-- No NUL stands among the first i bytes from t on.
abbrev pub no_nul : Memory → ℕ → ℕ → Bool
no_nul m t zero = true
no_nul m t (suc i) = not (m t == 0) && no_nul m (t + 1) i

-- The ranges of n bytes at s and t do not meet.
abbrev pub Apart : ℕ → ℕ → ℕ → Type 0
Apart s t n = (s + n ≤ t) ⊎ (t + n ≤ s)

pad_lem : (n : ℕ) (m : Memory) (s a : ℕ) → pad m s n a ≡ (if within s n a then 0 else m a)
unfolding pad
pad_lem zero m s a = ground arith
pad_lem (suc n) m s a = ground (arith, pad_lem n (store m s 0) (s + 1) a)

-- A write outside the range that is looked at does not change what is found there.
no_nul-store :
    (i : ℕ) (m : Memory) (s v t : ℕ)
    → (s < t) ⊎ (t + i ≤ s)
    → no_nul (store m s v) t i ≡ no_nul m t i
no_nul-store zero m s v t h = ground arith
no_nul-store (suc i) m s v t h = ground (arith, no_nul-store i m s v (t + 1))

strncpy_frame : (n : ℕ) (m : Memory) (s t a : ℕ) → within s n a ≡ false → strncpy m s t n a ≡ m a
unfolding strncpy
strncpy_frame zero m s t a h = ground arith
strncpy_frame (suc n) m s t a h = ground (
  arith,
  pad_lem n (store m s (m t)) (s + 1) a,
  strncpy_frame n (store m s (m t)) (s + 1) (t + 1) a,
)

strncpy_byte :
    (n i : ℕ) (m : Memory) (s t a b : ℕ)
    → Apart s t n
    → i < n
    → a ≡ s + i
    → b ≡ t + i
    → strncpy m s t n a ≡ (if no_nul m t i then m b else 0)
unfolding strncpy
strncpy_byte zero i m s t a b h lt p q = elim lt [ ]
strncpy_byte (suc n) zero m s t a b h lt p q = ground (
  arith,
  pad_lem n (store m s (m t)) (s + 1) a,
  strncpy_frame n (store m s (m t)) (s + 1) (t + 1) a,
)
strncpy_byte (suc n) (suc i) m s t a b h lt p q = ground (
  arith,
  pad_lem n (store m s (m t)) (s + 1) a,
  strncpy_byte n i (store m s (m t)) (s + 1) (t + 1) a b,
  no_nul-store i m s (m t) (t + 1),
)

-- `strncpy(s, t, n)`, if the n bytes at s and the n bytes at t do not meet, writes to each place
-- i < n of s the byte of t there if no NUL stands before it, and 0 otherwise; no other byte of
-- memory changes.
pub strncpy_lem :
    (m : Memory) (s t n a : ℕ)
    → Apart s t n
    → strncpy m s t n a
      ≡ (if within s n a then (if no_nul m t (a - s) then m (t + (a - s)) else 0) else m a)
strncpy_lem m s t n a h = elim (Bool-cases (within s n a)) [
  | inl e ↦ rw e (strncpy_byte n (a - s) m s t a (t + (a - s)) h (inside e) (back e) refl)
  | inr e ↦ rw e (strncpy_frame n m s t a e)
]
  where
    inside : within s n a ≡ true → a - s < n
    inside e = ground arith

    back : within s n a ≡ true → a ≡ s + (a - s)
    back e = ground arith

safestrcpy_frame :
    (n : ℕ) (m : Memory) (s t a : ℕ) → within s (n + 1) a ≡ false → safestrcpy_loop m s t n a ≡ m a
unfolding safestrcpy_loop
safestrcpy_frame zero m s t a h = ground arith
safestrcpy_frame (suc n) m s t a h =
    ground (arith, safestrcpy_frame n (store m s (m t)) (s + 1) (t + 1) a)

safestrcpy_byte :
    (n i : ℕ) (m : Memory) (s t a b : ℕ)
    → Apart s t (n + 1)
    → i ≤ n
    → a ≡ s + i
    → b ≡ t + i
    → no_nul m t i ≡ true
    → safestrcpy_loop m s t n a ≡ (if i == n then 0 else m b)
unfolding safestrcpy_loop
safestrcpy_byte zero i m s t a b h le p q clean = ground arith
safestrcpy_byte (suc n) zero m s t a b h le p q clean =
    ground (arith, safestrcpy_frame n (store m s (m t)) (s + 1) (t + 1) a)
safestrcpy_byte (suc n) (suc i) m s t a b h le p q clean = ground (
  arith,
  safestrcpy_byte n i (store m s (m t)) (s + 1) (t + 1) a b,
  no_nul-store i m s (m t) (t + 1),
)

-- `safestrcpy(s, t, n)`, if the n bytes at s and the n bytes at t do not meet: each place i < n
-- that t reaches without a NUL before it gets the byte of t, but the last of the n places gets 0,
-- so that the result ends in a NUL within the n bytes; and no byte a outside the n bytes at s
-- changes.
pub safestrcpy_lem :
    (m : Memory) (s t n i a : ℕ)
    → Apart s t n
    → i < n
    → no_nul m t i ≡ true
    → within s n a ≡ false
    → (safestrcpy m s t n (s + i) ≡ (if i + 1 == n then 0 else m (t + i)))
      × (safestrcpy m s t n a ≡ m a)
unfolding safestrcpy
safestrcpy_lem m s t zero i a h lt clean out = elim lt [ ]
safestrcpy_lem m s t (suc n) i a h lt clean out = (
  ground (
    arith,
    safestrcpy_byte n i m s t (s + i) (t + i) (rw add-one h) (omega arith) refl refl clean,
  ),
  safestrcpy_frame n m s t a (rw add-one out),
)
