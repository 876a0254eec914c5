-- ===== src/Kernel/FileIo.antt =====
-- kernel/file.c: fileread, filewrite and filestat, and stati of kernel/fs.c. The inode is locked and
-- valid, as ilock leaves it; what begin_op and end_op do is in Kernel.Log. A short is a natural
-- number here, so a major number is never negative.
pub mod Pieces
mod Tests
use proyecto_3_sistemas_oper.Base.{
  ℕ, zero, suc, ◌+◌, ◌-◌, ◌*◌, ◌/◌, ◌^◌, Bool, not, ◌==◌, ltb, leb, ◌||◌, if◌then◌else◌, Option,
  none, some, Outcome, done, panic, ◌>>=◌, ℤ, pos, negsuc, minus_one,
}
use proyecto_3_sistemas_oper.Kernel.Params.{bsize, max_op_blocks}
use proyecto_3_sistemas_oper.Kernel.Blocks.{Dinode, Volume}
use proyecto_3_sistemas_oper.Kernel.File.{File, fd_none, fd_pipe, fd_inode, fd_device}
use proyecto_3_sistemas_oper.Kernel.FileData.{CopyOut, CopyIn, readi, writei}

abbrev pub ndev : ℕ
ndev = 10

-- How bytes move through what is not a file on disk: `piperead` or `pipewrite` of the pipe at an
-- address, and the member `read` or `write` of `devsw`, which may be missing.
pub record Others (D : Type 0) : Type 0 where
  pub pipe : ℕ → ℕ → ℤ → D → Outcome (ℤ × D)
  pub device : ℕ → Option (ℕ → ℤ → D → Outcome (ℤ × D))

-- `struct stat`
pub record Stat : Type 0 where
  pub dev : ℕ
  pub ino : ℕ
  pub type_of : ℕ
  pub nlink : ℕ
  pub size : ℕ

abbrev pub stati : ℕ → ℕ → Dinode → Stat
stati dev inum ip = record {
  dev = dev;
  ino = inum;
  type_of = ip.type_of;
  nlink = ip.nlink;
  size = ip.size;
}

-- `filestat` of an inode; `copyout` of a struct stat is whether it succeeds, and the memory then.
pub filestat : {D : Type 0} → (ℕ → Stat → D → Bool × D) → ℕ → ℕ → ℕ → File → Dinode → D → ℤ × D
filestat copyout dev inum addr f ip d =
    let (ok, d') = copyout addr (stati dev inum ip) d in
    let copied : ℤ × _ = ((if ok then pos 0 else minus_one), d') in
    elim f.type_of [
      | fd_inode i ↦ copied
      | fd_device i ↦ copied
      | fd_pipe p ↦ (minus_one, d)
      | fd_none ↦ (minus_one, d)
    ]

-- An int as a uint.
abbrev pub to_uint : ℤ → ℕ
to_uint (pos n) = n
to_uint (negsuc n) = 2 ^ 32 - suc n

-- The return value, the open file, the memory, the inode and the disk.
abbrev pub Effect : Type 0 → Type 0
Effect D = ℤ × File × D × Dinode × Volume

abbrev other_end : {D : Type 0} → File → Dinode → Volume → Outcome (ℤ × D) → Outcome (Effect D)
other_end f ip v o = o >>= λ r. done (r.0, f, r.1, ip, v)

-- `if(f->major < 0 || f->major >= NDEV || !devsw[f->major].read) return -1;` and the call.
abbrev device_end :
    {D : Type 0} → Others D → ℕ → ℤ → File → D → Dinode → Volume → Outcome (Effect D)
device_end o addr n f d ip v =
    if leb ndev f.major then done (minus_one, f, d, ip, v) else elim (o.device f.major) [
      | none ↦ done (minus_one, f, d, ip, v)
      | some call ↦ other_end f ip v (call addr n d)
    ]

-- `if((r = readi(...)) > 0) f->off += r;`
abbrev advance : {D : Type 0} → File → Option ℕ × D × Dinode × Volume → Effect D
advance f (none, d, ip, v) = (minus_one, f, d, ip, v)
advance f (some r, d, ip, v) = (pos r, record f { off = f.off + r }, d, ip, v)

pub fileread :
    {D : Type 0} → Others D → CopyOut D → ℕ → ℤ → File → D → Dinode → Volume → Outcome (Effect D)
fileread o copy addr n f d ip v =
    let answer : Outcome (Effect _) = elim f.type_of [
      | fd_pipe p ↦ other_end f ip v (o.pipe p addr n d)
      | fd_device i ↦ device_end o addr n f d ip v
      | fd_inode i ↦ (readi copy addr f.off (to_uint n) d ip v >>= λ r. done (advance f r))
      | fd_none ↦ panic
    ] in
    if not f.readable then done (minus_one, f, d, ip, v) else answer

-- `((MAXOPBLOCKS-1-1-2) / 2) * BSIZE`
abbrev pub max_piece : ℕ
max_piece = (max_op_blocks - 1 - 1 - 2) / 2 * bsize

-- `n1`, with `left` bytes to write
abbrev pub piece : ℕ → ℕ
piece left = if ltb max_piece left then max_piece else left

-- The bytes written by whole transactions, the offset of the file, the memory, the inode, the disk.
abbrev pub Pieces : Type 0 → Type 0
Pieces S = ℕ × ℕ × S × Dinode × Volume

-- What follows `writei` of n1 bytes: `f->off += r`, and the next piece if r is n1.
abbrev pub after_piece :
    {S : Type 0}
    → ℕ
    → ℕ
    → ℕ
    → Option ℕ × S × Dinode × Volume
    → (ℕ → S → Dinode → Volume → Outcome (Pieces S))
    → Outcome (Pieces S)
after_piece i off n1 (none, s, ip, v) next = done (i, off, s, ip, v)
after_piece i off n1 (some r, s, ip, v) next =
    if r == n1 then next (off + r) s ip v else done (i, off + r, s, ip, v)

-- The loop of `filewrite`, with i bytes written; its fuel is the number of bytes.
pub filewrite_from :
    {S : Type 0} → CopyIn S → ℕ → ℕ → ℕ → ℕ → ℕ → ℕ → S → Dinode → Volume → Outcome (Pieces S)
filewrite_from copy inum zero i n addr off s ip v = done (i, off, s, ip, v)
filewrite_from copy inum (suc fuel) i n addr off s ip v =
    let n1 = piece (n - i) in
    let round = writei copy inum (addr + i) off n1 s ip v >>= λ r.
    after_piece i off n1 r (filewrite_from copy inum fuel (i + n1) n addr) in
    if ltb i n then round else done (i, off, s, ip, v)

-- `filewrite` to an inode: a negative n is an error without a write.
abbrev pub write_inode :
    {S : Type 0} → CopyIn S → ℕ → ℕ → ℤ → File → S → Dinode → Volume → Outcome (Effect S)
write_inode copy inum addr (negsuc k) f s ip v = done (minus_one, f, s, ip, v)
write_inode copy inum addr (pos n) f s ip v =
    filewrite_from copy inum n 0 n addr f.off s ip v >>= λ (i, off, s', ip', v').
    done ((if i == n then pos n else minus_one), record f { off = off }, s', ip', v')

pub filewrite :
    {S : Type 0} → Others S → CopyIn S → ℕ → ℕ → ℤ → File → S → Dinode → Volume → Outcome (Effect S)
unfolding filewrite_from
filewrite o copy inum addr n f s ip v =
    let answer : Outcome (Effect _) = elim f.type_of [
      | fd_pipe p ↦ other_end f ip v (o.pipe p addr n s)
      | fd_device i ↦ device_end o addr n f s ip v
      | fd_inode i ↦ write_inode copy inum addr n f s ip v
      | fd_none ↦ panic
    ] in
    if not f.writable then done (minus_one, f, s, ip, v) else answer
