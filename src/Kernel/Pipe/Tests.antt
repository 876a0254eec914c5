-- ===== src/Kernel/Pipe/Tests.antt =====
-- A pipe whose counters are about to wrap, with one byte in it.
use proyecto_3_sistemas_oper.Base.{
  ◌++◌, ℕ, ◌+◌, ◌-◌, ◌^◌, ◌≡◌, List, [], arith, true, false, some, Option,
}
use proyecto_3_sistemas_oper.Kernel.Pipe.{Pipe, pipewrite, piperead}
use proyecto_3_sistemas_oper.Kernel.Pipe.Window.{IsValid, contents}
use proyecto_3_sistemas_oper.Kernel.Pipe.Refine.{Wrote, Read, pipewrite_lem, piperead_lem}

abbrev one_byte : Pipe
one_byte = record {
  bytes = λ _. 9;
  nread = 2 ^ 32 - 1;
  nwrite = 0;
  readopen = true;
  writeopen = true;
  woken = [];
}

one_byte-IsValid : IsValid one_byte
one_byte-IsValid = omega arith

abbrev user_bytes : ℕ → Option ℕ
user_bytes i = some (i + 1)

pipewrite_example :
    (xs : List ℕ) × Wrote
      (λ _. false)
      user_bytes
      3
      0
      one_byte
      xs
      (pipewrite (λ _. false) user_bytes 3 one_byte)
pipewrite_example = pipewrite_lem (λ _. false) user_bytes 3 one_byte one_byte-IsValid

piperead_example :
    IsValid (piperead false (λ _. true) 4 one_byte).2
    × (contents one_byte
        ≡ (piperead false (λ _. true) 4 one_byte).1
          ++ contents (piperead false (λ _. true) 4 one_byte).2)
    × Read false (λ _. true) 4 one_byte (piperead false (λ _. true) 4 one_byte)
piperead_example = piperead_lem false (λ _. true) 4 one_byte one_byte-IsValid
