-- ===== src/Kernel/Console/Tests.antt =====
-- A console with one byte ready and one byte typed.
use proyecto_3_sistemas_oper.Base.{◌⊎◌, [], arith}
use proyecto_3_sistemas_oper.Kernel.Console.{Console, consoleintr}
use proyecto_3_sistemas_oper.Kernel.Console.Line.{IsValid}
use proyecto_3_sistemas_oper.Kernel.Console.Editing.{Edited, Handed, consoleintr_lem}

abbrev typing : Console
typing = record { bytes = λ _. b'x'; r = 5; w = 6; e = 7; echoed = []; woken = 0 }

typing-IsValid : IsValid typing
typing-IsValid = omega arith

consoleintr_example :
    Edited typing (consoleintr b'\n' typing) ⊎ Handed b'\n' typing (consoleintr b'\n' typing)
consoleintr_example = consoleintr_lem b'\n' typing-IsValid
