-- ===== src/Kernel/Uvm/Tests.antt =====
-- The memory of a process with one page.
use proyecto_3_sistemas_oper.Kernel.Params.{trap_frame}
use proyecto_3_sistemas_oper.Base.{
  ℕ, ◌-◌, ◌/◌, ◌≡◌, refl, arith, done, if◌then◌else◌, Bool, true, ltb,
}
use proyecto_3_sistemas_oper.Kernel.Params.{pgsize, pg_round_up, max_va}
use proyecto_3_sistemas_oper.Kernel.Pagetable.{Machine, mappages, walkaddr}
use proyecto_3_sistemas_oper.Kernel.Pagetable.Growing.{lookup}
use proyecto_3_sistemas_oper.Kernel.Pagetable.Entering.{Mapped}
use proyecto_3_sistemas_oper.Kernel.Pagetable.Mapping.{mappages_lem}
use proyecto_3_sistemas_oper.Kernel.Pagetable.Address.{user_page, walkaddr_lem}
use proyecto_3_sistemas_oper.Kernel.Uvm.{uvmunmap, uvmalloc}
use proyecto_3_sistemas_oper.Kernel.Uvm.Unmapping.{Unmapped}
use proyecto_3_sistemas_oper.Kernel.Uvm.Unmap.{uvmunmap_lem}
use proyecto_3_sistemas_oper.Kernel.Uvm.Alloc.{Grew, uvmalloc_lem}
use proyecto_3_sistemas_oper.Kernel.Uvm.Example.{
  end, pt, one_page, free_pages, owners, one_page-Sound, one_page-Framed, one_page-unmapped,
}

mappages_example :
    (r : Bool × Machine) × (mappages pt 4096 8192 0x80009000 6 one_page ≡ done r)
    × Mapped end owners pt 4096 0x80009000 6 2 one_page free_pages r
mappages_example =
    mappages_lem end owners pt 4096 8192 0x80009000 6 one_page free_pages refl refl (omega arith)
      (omega arith) refl one_page-Sound (λ a ge lt. one_page-unmapped a ge (omega (arith, lt)))

uvmunmap_example :
    (m' : Machine) × (uvmunmap end pt 0 2 true one_page ≡ done m')
    × Unmapped end trap_frame pt 0 2 one_page free_pages m'
uvmunmap_example =
    uvmunmap_lem end trap_frame owners 2 pt 0 one_page free_pages (omega arith) refl (omega arith)
      (omega arith) one_page-Sound one_page-Framed

uvmalloc_example :
    (r : ℕ × Machine) × (uvmalloc end pt 4096 10000 4 one_page ≡ done r)
    × Grew end trap_frame pt
        (pg_round_up 4096)
        ((pg_round_up 10000 - pg_round_up 4096) / pgsize)
        10000
        22
        one_page
        free_pages
        r
uvmalloc_example =
    uvmalloc_lem end trap_frame owners pt 4096 10000 4 one_page free_pages (omega arith)
      (omega arith) (omega arith) (omega arith) (omega arith) one_page-Sound one_page-Framed
      (λ va ge lt. one_page-unmapped va (omega (arith, ge)) (omega (arith, lt)))

walkaddr_example :
    walkaddr pt 100 one_page ≡ (if ltb 100 max_va then user_page (lookup pt 100 one_page) else 0)
walkaddr_example = walkaddr_lem pt 100 one_page
