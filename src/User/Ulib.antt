-- ===== src/User/Ulib.antt =====
-- user/ulib.c: strings, numbers and byte moves of the user library, on a memory from addresses to
-- bytes. A loop that runs to a NUL or a non-digit has a bound on its rounds as fuel.
pub mod Numbers
pub mod Moves
mod Tests
use proyecto_3_sistemas_oper.Base.{
  ℕ, zero, suc, ◌+◌, ◌-◌, ◌*◌, ◌^◌, Bool, true, false, not, ◌==◌, ltb, leb, if◌then◌else◌, ◌&&◌,
  Option, none, some, ℤ, pos, sub_ℕ,
}
use proyecto_3_sistemas_oper.Kernel.Strings.{Memory, store, move_up, move_down}

-- `strcpy`, whose loop stops after it has copied a NUL.
pub strcpy : Memory → ℕ → ℕ → ℕ → Option Memory
strcpy m s t zero = none
strcpy m s t (suc fuel) =
    let rest = strcpy (store m s (m t)) (s + 1) (t + 1) fuel in
    if m t == 0 then some (store m s (m t)) else rest

pub strcmp : Memory → ℕ → ℕ → ℕ → Option ℤ
strcmp m p q zero = none
strcmp m p q (suc fuel) =
    let rest = strcmp m (p + 1) (q + 1) fuel in
    if not (m p == 0) && m p == m q then rest else some (sub_ℕ (m p) (m q))

-- The address of the first c, or 0.
pub strchr : Memory → ℕ → ℕ → ℕ → Option ℕ
strchr m s c zero = none
strchr m s c (suc fuel) =
    let rest = strchr m (s + 1) c fuel in
    if m s == 0 then some 0 else if m s == c then some s else rest

abbrev pub is_digit : ℕ → Bool
is_digit c = leb b'0' c && leb c b'9'

-- The loop of `atoi`, with `none` where the int overflows, which is undefined behaviour: the sum is
-- taken before '0' is subtracted.
pub atoi_from : Memory → ℕ → ℕ → ℕ → Option ℕ
atoi_from m s n zero = none
atoi_from m s n (suc fuel) =
    let rest = atoi_from m (s + 1) (n * 10 + (m s - b'0')) fuel in
    let next = if ltb (n * 10 + m s) (2 ^ 31) then rest else none in
    if is_digit (m s) then next else some n

pub atoi : Memory → ℕ → ℕ → Option ℕ
unfolding atoi_from
atoi m s fuel = atoi_from m s 0 fuel

pub memmove : Memory → ℕ → ℕ → ℕ → Memory
memmove m dst src n = if ltb dst src then move_up m dst src n else move_down m (dst + n) (src + n) n

pub memcmp : Memory → ℕ → ℕ → ℕ → ℤ
memcmp m p q zero = pos 0
memcmp m p q (suc n) =
    let rest = memcmp m (p + 1) (q + 1) n in if m p == m q then rest else sub_ℕ (m p) (m q)
