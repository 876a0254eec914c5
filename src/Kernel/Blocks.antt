-- ===== src/Kernel/Blocks.antt =====
-- kernel/fs.c: the block bitmap, on-disk inodes and the blocks of a file. A volume is the disk as
-- a transaction sees it, its areas apart: the bits of the bitmap's blocks, the 32-bit words of
-- indirect blocks, the bytes of data blocks, and the inodes of the inode blocks, by their number.
-- A block serves as an indirect block or holds data, so a write goes to one view of it; the zeros
-- of a fresh block go to both. `logged` lists the blocks
-- that log_write was called for, newest first; reading a block and giving it back leaves no trace.
pub mod Bitmap
pub mod Files
pub mod Slots
pub mod Growth
pub mod Mapping
pub mod Logging
pub mod Present
mod Tests
use proyecto_3_sistemas_oper.Base.{
  ℕ, zero, suc, ◌+◌, ◌-◌, ◌*◌, ◌/◌, ◌%◌, Bool, true, false, not, ◌==◌, ltb, if◌then◌else◌, List,
  ◌∷◌, ◌&&◌, Option, none, some, Outcome, done, panic, ◌>>=◌, ◌>>◌, check,
}
use proyecto_3_sistemas_oper.Kernel.Params.{bsize}

abbrev pub ndirect : ℕ
ndirect = 12

-- `BSIZE / sizeof(uint)`
abbrev pub nindirect : ℕ
nindirect = bsize / 4

-- `BSIZE*8`
abbrev pub bpb : ℕ
bpb = bsize * 8

-- `BSIZE / sizeof(struct dinode)`
abbrev pub ipb : ℕ
ipb = bsize / 64

pub record Dinode : Type 0 where
  pub type_of : ℕ
  pub major : ℕ
  pub minor : ℕ
  pub nlink : ℕ
  pub size : ℕ
  pub addrs : ℕ → ℕ

pub record Volume : Type 0 where
  pub size : ℕ
  pub ninodes : ℕ
  pub inodestart : ℕ
  pub bmapstart : ℕ
  pub bits : ℕ → ℕ → Bool
  pub words : ℕ → ℕ → ℕ
  pub bytes : ℕ → ℕ → ℕ
  pub dinodes : ℕ → Dinode
  pub logged : List ℕ

-- `BBLOCK(b, sb)` and `IBLOCK(i, sb)`
abbrev pub bblock : ℕ → Volume → ℕ
bblock b v = b / bpb + v.bmapstart

abbrev pub iblock : ℕ → Volume → ℕ
iblock i v = i / ipb + v.inodestart

abbrev pub log_block : ℕ → Volume → Volume
log_block b v = record v { logged = b ∷ v.logged }

abbrev pub set_bit : ℕ → ℕ → Bool → Volume → Volume
set_bit b bi on v = record v { bits = λ c ci. if c == b && ci == bi then on else v.bits c ci }

abbrev pub set_word : ℕ → ℕ → ℕ → Volume → Volume
set_word b i w v = record v { words = λ c j. if c == b && j == i then w else v.words c j }

pub bzero : ℕ → Volume → Volume
bzero bno v = log_block bno (record v {
  words = λ c j. if c == bno then 0 else v.words c j;
  bytes = λ c j. if c == bno then 0 else v.bytes c j;
})

-- The inner loop of `balloc` on the bitmap block of b, from the bit bi on.
pub scan_bits : Volume → ℕ → ℕ → ℕ → Option ℕ
scan_bits v b zero bi = none
scan_bits v b (suc rounds) bi =
    let rest = scan_bits v b rounds (bi + 1) in
    if not (ltb (b + bi) v.size)
    then none
    else if not (v.bits (bblock b v) bi)
    then some bi
    else rest

-- Bit bi of the bitmap block of b is taken for the block b + bi.
pub take_block : Volume → ℕ → ℕ → Volume
unfolding bzero
take_block v b bi = bzero (b + bi) (log_block (bblock b v) (set_bit (bblock b v) bi true v))

-- The outer loop, from the block b on; its fuel is the number of blocks.
pub balloc_from : Volume → ℕ → ℕ → ℕ × Volume
balloc_from v zero b = (0, v)
balloc_from v (suc fuel) b =
    let rest = balloc_from v fuel (b + bpb) in
    let next : ℕ × Volume = elim (scan_bits v b bpb 0) [
      | some bi ↦ (b + bi, take_block v b bi)
      | none ↦ rest
    ] in
    if ltb b v.size then next else (0, v)

pub balloc : Volume → ℕ × Volume
balloc v = balloc_from v v.size 0

pub bfree : ℕ → Volume → Outcome Volume
bfree b v =
    if v.bits (bblock b v) (b % bpb)
    then done (log_block (bblock b v) (set_bit (bblock b v) (b % bpb) false v))
    else panic

abbrev pub set_addr : ℕ → ℕ → Dinode → Dinode
set_addr i a ip = record ip { addrs = λ j. if j == i then a else ip.addrs j }

-- The address in slot i of the inode, allocated if there is none.
pub direct : ℕ → Dinode → Volume → ℕ × Dinode × Volume
direct i ip v =
    let (a, v') = balloc v in
    if ip.addrs i == 0
    then (if a == 0 then (0, ip, v') else (a, set_addr i a ip, v'))
    else (ip.addrs i, ip, v)

-- The address in word i of the indirect block `ib`, allocated if there is none.
pub indirect : ℕ → ℕ → Volume → ℕ × Volume
indirect ib i v =
    let (a, v') = balloc v in
    if v.words ib i == 0
    then (if a == 0 then (0, v') else (a, log_block ib (set_word ib i a v')))
    else (v.words ib i, v)

-- `bmap` of an inode, of which only what lies on disk matters.
pub bmap : ℕ → Dinode → Volume → Outcome (ℕ × Dinode × Volume)
unfolding direct indirect
bmap bn ip v =
    let (ib, ip', v') = direct ndirect ip v in
    let (a, v'') = indirect ib (bn - ndirect) v' in
    if ltb bn ndirect
    then done (direct bn ip v)
    else if ltb (bn - ndirect) nindirect
    then (if ib == 0 then done (0, ip', v') else done (a, ip', v''))
    else panic

unfoldable pub iupdate : ℕ → Dinode → Volume → Volume
iupdate inum ip v =
    log_block (iblock inum v) (record v { dinodes = λ i. if i == inum then ip else v.dinodes i })

-- The first loop of `itrunc`, from slot i on.
pub free_direct : ℕ → ℕ → Dinode → Volume → Outcome (Dinode × Volume)
unfolding bfree
free_direct zero i ip v = done (ip, v)
free_direct (suc rounds) i ip v =
    let freed = bfree (ip.addrs i) v >>= λ v'. free_direct rounds (i + 1) (set_addr i 0 ip) v' in
    let rest = free_direct rounds (i + 1) ip v in if ip.addrs i == 0 then rest else freed

-- The second loop, from word j of the indirect block on.
pub free_indirect : ℕ → ℕ → ℕ → Volume → Outcome Volume
unfolding bfree
free_indirect zero ib j v = done v
free_indirect (suc rounds) ib j v =
    let freed = bfree (v.words ib j) v >>= λ v'. free_indirect rounds ib (j + 1) v' in
    let rest = free_indirect rounds ib (j + 1) v in if v.words ib j == 0 then rest else freed

abbrev pub free_indirect_block : Dinode → Volume → Outcome (Dinode × Volume)
free_indirect_block ip v =
    let ib = ip.addrs ndirect in
    if ib == 0
    then done (ip, v)
    else (free_indirect nindirect ib 0 v >>= λ v'.
        bfree ib v' >>= λ v''. done (set_addr ndirect 0 ip, v''))

pub itrunc : ℕ → Dinode → Volume → Outcome (Dinode × Volume)
unfolding free_direct free_indirect bfree iupdate
itrunc inum ip v = free_direct ndirect 0 ip v >>= λ r. free_indirect_block r.0 r.1 >>= λ s.
    (let emptied = record s.0 { size = 0 } in done (emptied, iupdate inum emptied s.1))

-- The loop of `ialloc`, from the inode inum on.
pub find_inode : ℕ → ℕ → Volume → Option ℕ
find_inode zero inum v = none
find_inode (suc rounds) inum v =
    let rest = find_inode rounds (inum + 1) v in
    if (v.dinodes inum).type_of == 0 then some inum else rest

abbrev pub fresh_inode : ℕ → Dinode
fresh_inode type_of = record {
  type_of = type_of;
  major = 0;
  minor = 0;
  nlink = 0;
  size = 0;
  addrs = λ _. 0;
}

-- `ialloc` up to its `iget`.
pub ialloc : ℕ → Volume → Option (ℕ × Volume)
unfolding find_inode iupdate
ialloc type_of v = elim (find_inode (v.ninodes - 1) 1 v) [
  | some inum ↦ some (inum, iupdate inum (fresh_inode type_of) v)
  | none ↦ none
]
