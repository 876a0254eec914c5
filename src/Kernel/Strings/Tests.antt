-- ===== src/Kernel/Strings/Tests.antt =====
-- Byte routines on a memory whose first bytes are given.
use proyecto_3_sistemas_oper.Base.{◌≡◌, refl, [], ◌∷◌, get_or}
use proyecto_3_sistemas_oper.Kernel.Strings.{Memory, memmove}
use proyecto_3_sistemas_oper.Kernel.Strings.Moves.{memmove_lem}

-- "abc" at 0, and ones from 8 on.
abbrev text : Memory
text a = get_or (b'a' ∷ b'b' ∷ b'c' ∷ 0 ∷ 0 ∷ 0 ∷ 0 ∷ 0 ∷ []) a 1

overlapping_move : memmove text 1 0 3 3 ≡ b'c'
unfolding memmove
overlapping_move = refl

memmove_example : memmove text 1 0 3 3 ≡ b'c'
memmove_example = memmove_lem text 1 0 3 3
