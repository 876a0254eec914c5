-- ===== src/Kernel/Strings.antt =====
-- kernel/string.c: the byte routines, over a memory that maps each address to its byte. Pointers
-- do not wrap (in C that is undefined), so they are plain numbers; a `char` or `uchar` is its
-- unsigned value.
pub mod Moves
pub mod Compare
pub mod Copy
mod Tests
use proyecto_3_sistemas_oper.Base.{
  ℕ, zero, suc, ◌+◌, ◌-◌, ◌%◌, Bool, ltb, leb, ◌==◌, ◌&&◌, if◌then◌else◌, ℤ, pos, sub_ℕ, Option,
  none, some, not,
}

abbrev pub Memory : Type 0
Memory = ℕ → ℕ

-- `*a = v`
abbrev pub store : Memory → ℕ → ℕ → Memory
store m a v = λ b. if a == b then v else m b

-- Is `a` one of the `n` addresses from `dst` on?
abbrev pub within : ℕ → ℕ → ℕ → Bool
within dst n a = leb dst a && ltb a (dst + n)

-- The loop of `memset` with `rounds` rounds left.
memset_loop : Memory → ℕ → ℕ → ℕ → Memory
memset_loop m p c zero = m
memset_loop m p c (suc rounds) = memset_loop (store m p (c % 256)) (p + 1) c rounds

unfoldable pub memset : Memory → ℕ → ℕ → ℕ → Memory
unfolding memset_loop
memset m dst c n = memset_loop m dst c n

-- `while(n-- > 0) *--d = *--s;`
pub move_down : Memory → ℕ → ℕ → ℕ → Memory
move_down m d s zero = m
move_down m d s (suc n) = move_down (store m (d - 1) (m (s - 1))) (d - 1) (s - 1) n

-- `while(n-- > 0) *d++ = *s++;`
pub move_up : Memory → ℕ → ℕ → ℕ → Memory
move_up m d s zero = m
move_up m d s (suc n) = move_up (store m d (m s)) (d + 1) (s + 1) n

unfoldable pub memmove : Memory → ℕ → ℕ → ℕ → Memory
unfolding move_down move_up
memmove m dst src n =
    if n == 0
    then m
    else if ltb src dst && ltb dst (src + n)
    then move_down m (dst + n) (src + n) n
    else move_up m dst src n

unfoldable pub memcpy : Memory → ℕ → ℕ → ℕ → Memory
unfolding memmove
memcpy m dst src n = memmove m dst src n

unfoldable pub memcmp : Memory → ℕ → ℕ → ℕ → ℤ
memcmp m v1 v2 zero = pos 0
memcmp m v1 v2 (suc n) = if m v1 == m v2 then memcmp m (v1 + 1) (v2 + 1) n else sub_ℕ (m v1) (m v2)

unfoldable pub strncmp : Memory → ℕ → ℕ → ℕ → ℤ
strncmp m p q zero = pos 0
strncmp m p q (suc n) =
    if not (m p == 0) && (m p == m q) then strncmp m (p + 1) (q + 1) n else sub_ℕ (m p) (m q)

-- `while(n-- > 0) *s++ = 0;`
pad : Memory → ℕ → ℕ → Memory
pad m s zero = m
pad m s (suc n) = pad (store m s 0) (s + 1) n

-- Both loops: the first ends at a NUL, and what is left of `n` is padded.
unfoldable pub strncpy : Memory → ℕ → ℕ → ℕ → Memory
unfolding pad
strncpy m s t zero = m
strncpy m s t (suc n) =
    let m' = store m s (m t) in
    let padded = pad m' (s + 1) n in
    let rest = strncpy m' (s + 1) (t + 1) n in if m t == 0 then padded else rest

-- The loop with `n` bytes of room left besides the one for the final NUL. A NUL that is copied
-- has moved `s` on, so the byte behind it is cleared too.
safestrcpy_loop : Memory → ℕ → ℕ → ℕ → Memory
safestrcpy_loop m s t zero = store m s 0
safestrcpy_loop m s t (suc n) =
    let m' = store m s (m t) in
    let rest = safestrcpy_loop m' (s + 1) (t + 1) n in if m t == 0 then store m' (s + 1) 0 else rest

-- A negative `n` does what 0 does.
unfoldable pub safestrcpy : Memory → ℕ → ℕ → ℕ → Memory
unfolding safestrcpy_loop
safestrcpy m s t zero = m
safestrcpy m s t (suc n) = safestrcpy_loop m s t n

-- `fuel` bounds the bytes that are looked at; `none` means that no NUL was among them.
strlen_loop : Memory → ℕ → ℕ → ℕ → Option ℕ
strlen_loop m s n zero = none
strlen_loop m s n (suc fuel) =
    let rest = strlen_loop m s (n + 1) fuel in if m (s + n) == 0 then some n else rest

unfoldable pub strlen : Memory → ℕ → ℕ → Option ℕ
unfolding strlen_loop
strlen m s fuel = strlen_loop m s 0 fuel
