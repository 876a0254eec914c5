-- ===== src/User/Grep/Tests.antt =====
-- The expression "b*c$" on the text "abbc".
use proyecto_3_sistemas_oper.Base.{ℕ, ◌≡◌, ◌↔◌, refl, List, [], ◌∷◌, true}
use proyecto_3_sistemas_oper.User.Grep.{matchhere, match_from, matchstar, match_one, match}
use proyecto_3_sistemas_oper.User.Grep.Meaning.{Matches, match_iff}

abbrev expression : List ℕ
expression = b'b' ∷ b'*' ∷ b'c' ∷ b'$' ∷ []

abbrev abbc : List ℕ
abbc = b'a' ∷ b'b' ∷ b'b' ∷ b'c' ∷ []

abbc_matches : match expression abbc ≡ true
unfolding match match_from matchhere matchstar match_one
abbc_matches = refl

match_example : (match expression abbc ≡ true) ↔ Matches expression abbc
match_example = match_iff expression abbc
