-- ===== src/Kernel/Sysproc/Tests.antt =====
-- map_ro by a process with one page.
use proyecto_3_sistemas_oper.Kernel.Params.{trap_frame}
use proyecto_3_sistemas_oper.Base.{ℕ, ◌≡◌, refl, arith, false, Option, pos, done}
use proyecto_3_sistemas_oper.Kernel.Params.{pg_round_down}
use proyecto_3_sistemas_oper.Kernel.Pagetable.{Machine}
use proyecto_3_sistemas_oper.Kernel.Uvm.Example.{
  end, pt, one_page, free_pages, owners, one_page-Sound, one_page-Framed,
}
use proyecto_3_sistemas_oper.Kernel.Space.{Space}
use proyecto_3_sistemas_oper.Kernel.Sysproc.{sys_map_ro, sys_mapzero}
use proyecto_3_sistemas_oper.Kernel.Sysproc.MapRo.{ReadOnly, sys_map_ro_lem}

abbrev small : Space
small = record {
  sz = 4096;
  pagetable = pt;
  trapframe = 0;
  shm_va = 0;
  usar_memoria_compartida = false;
  map_ro_va = 0;
  trace_mask = pos 0;
  vr = record { start = 0; size = pos 0; active = false };
}

sys_map_ro_example :
    (r : Option ℕ × Space × Machine) × (sys_map_ro end 0x80000100 5000 small one_page ≡ done r)
    × ReadOnly end trap_frame (pg_round_down 5000) small one_page free_pages r
sys_map_ro_example =
    sys_map_ro_lem end trap_frame 0x80000100 owners 5000 small one_page free_pages (omega arith)
      (omega arith) one_page-Sound one_page-Framed

-- A region of a hundred bytes takes a page.
one_zeroed_page : (sys_mapzero (pos 100) small).1.sz ≡ 8192
unfolding sys_mapzero
one_zeroed_page = refl
