-- ===== src/User/Printf/Tests.antt =====
-- The number 42 in decimal, at address 0.
use proyecto_3_sistemas_oper.Base.{
  ◌≡◌, ◌≤◌, refl, inl, [], ◌∷◌, get_or, length, true, some, arith, pos, negsuc,
}
use proyecto_3_sistemas_oper.Kernel.Strings.{Memory}
use proyecto_3_sistemas_oper.User.Ulib.{atoi}
use proyecto_3_sistemas_oper.User.Printf.{digits_from, put_back, buffer, printint}
use proyecto_3_sistemas_oper.User.Printf.Digits.{Text, buffer-fits, atoi-printint}

abbrev text : Memory
text a = get_or (b'4' ∷ b'2' ∷ []) a 0

minus_42 : printint (negsuc 41) 10 true ≡ b'-' ∷ b'4' ∷ b'2' ∷ []
unfolding printint buffer digits_from put_back
minus_42 = refl

text-Text : Text text 0 (printint (pos 42) 10 true)
unfolding printint buffer digits_from put_back
text-Text = (refl, (refl, refl))

atoi-printint_example : atoi text 0 21 ≡ some 42
atoi-printint_example = atoi-printint text 0 42 true (omega arith) text-Text

buffer-fits_example : length (buffer (negsuc 41) 10 true) ≤ 20
buffer-fits_example = buffer-fits (negsuc 41) 10 true (inl refl) (omega arith)
