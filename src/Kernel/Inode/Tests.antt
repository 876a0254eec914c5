-- ===== src/Kernel/Inode/Tests.antt =====
-- A table of two entries: inode 4 of device 1 with one reference, and an unused one.
use proyecto_3_sistemas_oper.Base.{
  ℕ, ◌<◌, ◌≡◌, ◌⊎◌, List, [], ◌∷◌, true, false, some, done, panic, get_elem?, arith,
}
use proyecto_3_sistemas_oper.Kernel.Locks.{initsleeplock}
use proyecto_3_sistemas_oper.Kernel.Blocks.{fresh_inode}
use proyecto_3_sistemas_oper.Kernel.Inode.{Inode, iget}
use proyecto_3_sistemas_oper.Kernel.Inode.Refs.{Unique, Got, total, one_for, iget_lem}

abbrev four : Inode
four = record {
  dev = 1;
  inum = 4;
  ref = 1;
  lock = initsleeplock;
  valid = true;
  copy = fresh_inode 2;
}

abbrev unused_entry : Inode
unused_entry = record {
  dev = 0;
  inum = 0;
  ref = 0;
  lock = initsleeplock;
  valid = false;
  copy = fresh_inode 0;
}

abbrev two_entries : List Inode
two_entries = four ∷ unused_entry ∷ []

two_entries-Unique : Unique two_entries
two_entries-Unique dev inum = ground arith

iget_example :
    ((iget 1 4 two_entries ≡ panic)
      × (total (one_for 1 4) two_entries ≡ 0)
      × ((i : ℕ) (ip : Inode) → get_elem? two_entries i ≡ some ip → 0 < ip.ref))
    ⊎ ((r : ℕ × List Inode) × (iget 1 4 two_entries ≡ done r) × Got 1 4 two_entries r)
iget_example = iget_lem 1 4 two_entries two_entries-Unique
