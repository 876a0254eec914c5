-- ===== src/User/Ulib/Moves.antt =====
-- The user library's memmove.
use proyecto_3_sistemas_oper.Base.{
  ℕ, ◌+◌, ◌-◌, ◌≡◌, inl, inr, ltb, if◌then◌else◌, arith, Bool-cases,
}
use proyecto_3_sistemas_oper.Kernel.Strings.{Memory, within}
use proyecto_3_sistemas_oper.Kernel.Strings.Moves.{move_up_lem, move_down_lem}
use proyecto_3_sistemas_oper.User.Ulib.{memmove}

-- The user library's `memmove` gives the n bytes from dst on what the n bytes from src on held before
-- the call, and leaves every other byte, however the two ranges overlap.
pub user_memmove_lem :
    (m : Memory) (dst src n a : ℕ)
    → memmove m dst src n a ≡ (if within dst n a then m (src + (a - dst)) else m a)
unfolding memmove
user_memmove_lem m dst src n a = elim (Bool-cases (ltb dst src)) [
  | inl up ↦ rw up (ground (arith, move_up_lem n m dst src a))
  | inr down ↦ rw down (ground (arith, move_down_lem n m dst src (dst + n) (src + n) a))
]
