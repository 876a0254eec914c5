-- ===== src/Kernel/Bio/Tests.antt =====
-- Two buffers: block 7 of device 1 is in use, the other buffer is free.
use proyecto_3_sistemas_oper.Base.{◌≡◌, ◌<◌, ◌≤◌, refl, [], ◌∷◌, arith, true, false, none, some}
use proyecto_3_sistemas_oper.Kernel.Bio.{Buf, same, bget}
use proyecto_3_sistemas_oper.Kernel.Bio.Cache.{Unique, in_use, bget_lem}

abbrev seven : Buf
seven = record { index = 0; valid = true; dev = 1; blockno = 7; holder = some 3; refcnt = 1 }

abbrev spare : Buf
spare = record { index = 1; valid = false; dev = 0; blockno = 0; holder = none; refcnt = 0 }

abbrev eight : Buf
eight = record { index = 1; valid = false; dev = 1; blockno = 8; holder = none; refcnt = 1 }

seven-spare-Unique : Unique (seven ∷ spare ∷ [])
seven-spare-Unique dev blockno ne = ground arith

bget_example :
    Unique (seven ∷ eight ∷ [])
    × (same 1 8 eight ≡ true)
    × (0 < in_use 1 1 8 (seven ∷ eight ∷ []))
    × (in_use 0 1 7 (seven ∷ spare ∷ []) ≤ in_use 0 1 7 (seven ∷ eight ∷ []))
unfolding bget
bget_example =
    bget_lem 1 8 0 1 7 (seven ∷ spare ∷ []) eight (seven ∷ eight ∷ []) seven-spare-Unique
      (omega arith) refl
