-- ===== src/Kernel/Kalloc/Tests.antt =====
-- The allocator without a free page, above a kernel that ends at 0x80001000.
use proyecto_3_sistemas_oper.Base.{ℕ, ◌-◌, ◌/◌, ◌≡◌, refl, [], arith, done}
use proyecto_3_sistemas_oper.Kernel.Params.{pgsize, phys_top, pg_round_up}
use proyecto_3_sistemas_oper.Kernel.Kalloc.{Kmem, kinit}
use proyecto_3_sistemas_oper.Kernel.Kalloc.Pages.{Free}
use proyecto_3_sistemas_oper.Kernel.Kalloc.Boot.{pages_down, kinit_lem}

abbrev end : ℕ
end = 0x80001000

abbrev none_free : Kmem
none_free = record { bytes = λ _. 0; next = λ _. 0; freelist = 0 }

none_free-Free : Free end none_free []
none_free-Free = record { chain = refl; pages = tt; distinct = tt }

kinit_example :
    (k' : Kmem) × (kinit end none_free ≡ done k')
    × Free end k' (pages_down (pg_round_up end) ((phys_top - pg_round_up end) / pgsize))
kinit_example = kinit_lem end none_free (omega arith) (omega arith) none_free-Free
