-- ===== src/User/Grep.antt =====
-- user/grep.c: the matcher. A C string is the list of the characters before its NUL, so that a
-- read at its end gives 0. `matchstar` and the last case of `matchhere` call `matchhere` on one
-- expression and any text: they take that call, `here`, as a function of the text.
pub mod Meaning
mod Tests
use proyecto_3_sistemas_oper.Base.{ℕ, Bool, true, false, ◌==◌, List, [], ◌∷◌, if◌then◌else◌, ◌||◌}

-- `*text == '\0'`
abbrev pub is_end : List ℕ → Bool
is_end [] = true
is_end (t ∷ text) = false

-- `if(*text!='\0' && (re[0]=='.' || re[0]==*text)) return matchhere(re+1, text+1);`
pub match_one : (List ℕ → Bool) → ℕ → List ℕ → Bool
match_one here c [] = false
match_one here c (t ∷ text) = if c == b'.' || c == t then here text else false

pub matchstar : (List ℕ → Bool) → ℕ → List ℕ → Bool
matchstar here c [] = here []
matchstar here c (t ∷ text) =
    let more = matchstar here c text in
    if here (t ∷ text) then true else if t == c || c == b'.' then more else false

pub matchhere : List ℕ → List ℕ → Bool
unfolding match_one matchstar
matchhere [] text = true
matchhere (c ∷ []) text = if c == b'$' then is_end text else match_one (λ rest. true) c text
matchhere (c ∷ s ∷ re) text =
    let starred = matchstar (λ rest. matchhere re rest) c text in
    let plain = match_one (λ rest. matchhere (s ∷ re) rest) c text in
    if s == b'*' then starred else plain

-- The loop of `match` over the text's ends.
pub match_from : (List ℕ → Bool) → List ℕ → Bool
match_from here [] = here []
match_from here (t ∷ text) =
    let rest = match_from here text in if here (t ∷ text) then true else rest

pub match : List ℕ → List ℕ → Bool
unfolding matchhere match_from
match [] text = match_from (matchhere []) text
match (c ∷ re) text = if c == b'^' then matchhere re text else match_from (matchhere (c ∷ re)) text
