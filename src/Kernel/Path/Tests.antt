-- ===== src/Kernel/Path/Tests.antt =====
-- The examples of skipelem's comment.
use proyecto_3_sistemas_oper.Base.{◌≡◌, refl, some, none, if◌then◌else◌, ◌==◌}
use proyecto_3_sistemas_oper.Kernel.Strings.{Memory}
use proyecto_3_sistemas_oper.Kernel.Path.{skipelem}

-- "a/bb/c" at 100, and nothing else.
abbrev a_bb_c : Memory
a_bb_c a =
    if a == 100
    then b'a'
    else if a == 101
    then b'/'
    else if a == 102
    then b'b'
    else if a == 103
    then b'b'
    else if a == 104
    then b'/'
    else if a == 105
    then b'c'
    else 0

first_element : (skipelem 10 a_bb_c 100 200).0 ≡ some 102
unfolding skipelem
first_element = refl

its_name : (skipelem 10 a_bb_c 100 200).1 200 ≡ b'a'
unfolding skipelem
its_name = refl

last_element : (skipelem 10 a_bb_c 105 200).0 ≡ some 106
unfolding skipelem
last_element = refl

no_element : (skipelem 10 a_bb_c 106 200).0 ≡ none
unfolding skipelem
no_element = refl
