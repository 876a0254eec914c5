-- ===== src/User/Ulib/Tests.antt =====
-- The text "42" at address 0, with a space behind it.
use proyecto_3_sistemas_oper.Base.{◌≡◌, refl, [], ◌∷◌, get_or, some}
use proyecto_3_sistemas_oper.Kernel.Strings.{Memory}
use proyecto_3_sistemas_oper.User.Ulib.{atoi_from, atoi}

abbrev text : Memory
text a = get_or (b'4' ∷ b'2' ∷ b' ' ∷ []) a 0

text_value : atoi text 0 5 ≡ some 42
unfolding atoi atoi_from
text_value = refl
