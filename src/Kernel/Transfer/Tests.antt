-- ===== src/Kernel/Transfer/Tests.antt =====
-- Two bytes and a NUL that lie across the end of a user's page.
use proyecto_3_sistemas_oper.Kernel.Params.{trap_frame}
use proyecto_3_sistemas_oper.Kernel.Params.{pg_round_down}
use proyecto_3_sistemas_oper.Base.{
  ℕ, zero, suc, ◌+◌, ◌≡◌, ◌≢◌, ◌<◌, refl, arith, done, if◌then◌else◌, ◌==◌, true,
}
use proyecto_3_sistemas_oper.Kernel.Pagetable.{Machine}
use proyecto_3_sistemas_oper.Kernel.Transfer.{vmfault, copyin, copyinstr}
use proyecto_3_sistemas_oper.Kernel.Transfer.CopyIn.{Readable, copied, translate, copyin_lem}
use proyecto_3_sistemas_oper.Kernel.Transfer.FindNull.{UserString}
use proyecto_3_sistemas_oper.Kernel.Transfer.WholeString.{copyinstr-UserString}
use proyecto_3_sistemas_oper.Kernel.Uvm.Example.{
  end, pt, one_page, free_pages, owners, one_page-Sound, one_page-Framed,
}
use proyecto_3_sistemas_oper.Kernel.Transfer.Fault.{Faulted, vmfault_lem}

-- Every address is in the page at 0x80008000.
abbrev one_frame : Machine
one_frame = record {
  kmem = record {
    bytes = λ a. if a == 0x80008fff then 104 else if a == 0x80008000 then 105 else 0;
    next = λ _. 0;
    freelist = 0;
  };
  entries = λ _ _. 0x20002017;
}

one_frame-Readable : Readable 0x80005000 one_frame 0x80020000 4095 3
one_frame-Readable va ge lt = (omega (arith, lt), (λ z. omega arith), ground (arith, lt))

one_frame-UserString : UserString 0x80005000 one_frame 4095 2
one_frame-UserString = (λ i lt z. byte i lt z, refl)
  where
    byte : (i : ℕ) → i < 2 → one_frame.kmem.bytes (translate 0x80005000 one_frame (4095 + i)) ≢ 0
    byte zero lt z = omega arith
    byte (suc zero) lt z = omega arith
    byte (suc (suc i)) lt z = omega arith

copyin_example :
    (m' : Machine) × (copyin 0x80001000 8192 0x80005000 0x80005000 0x80020000 4095 3 one_frame
      ≡ done (true, m'))
    × (m'.entries ≡ one_frame.entries)
    × ((a : ℕ) → m'.kmem.bytes a ≡ copied 0x80005000 one_frame 0x80020000 4095 3 a)
copyin_example =
    copyin_lem 0x80001000 8192 0x80005000 0x80005000 0x80020000 4095 3 one_frame one_frame-Readable

copyinstr-UserString_example :
    (m' : Machine) × (copyinstr 0x80005000 0x80020000 4095 14 one_frame ≡ (true, m'))
    × (m'.entries ≡ one_frame.entries)
    × ((a : ℕ) → m'.kmem.bytes a ≡ copied 0x80005000 one_frame 0x80020000 4095 3 a)
copyinstr-UserString_example =
    copyinstr-UserString 0x80005000 0x80020000 4095 14 2 one_frame (omega arith) one_frame-Readable
      one_frame-UserString

-- The page behind the one that the process has.
vmfault_example :
    (r : ℕ × Machine) × (vmfault end 12288 pt pt 5000 one_page ≡ done r)
    × Faulted end trap_frame pt (pg_round_down 5000) one_page free_pages r
vmfault_example =
    vmfault_lem end trap_frame 12288 owners pt 5000 one_page free_pages (omega arith) (omega arith)
      (omega arith) one_page-Sound one_page-Framed
