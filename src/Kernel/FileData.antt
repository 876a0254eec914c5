-- ===== src/Kernel/FileData.antt =====
-- kernel/fs.c: the bytes of a file. The inode is its copy in memory; the disk is a volume, and the
-- memory that bytes come from or go to is apart from it.
pub mod Bytes
pub mod Written
pub mod WriteRound
pub mod Write
pub mod Logging
pub mod ReadRound
pub mod Read
pub mod Whole
mod Tests
use proyecto_3_sistemas_oper.Base.{
  ℕ, zero, suc, ◌+◌, ◌-◌, ◌*◌, ◌/◌, ◌%◌, ◌^◌, Bool, true, false, not, ◌==◌, ltb, leb, ◌&&◌, ◌||◌,
  if◌then◌else◌, Option, none, some, Outcome, done, panic, ◌>>=◌,
}
use proyecto_3_sistemas_oper.Kernel.Params.{bsize}
use proyecto_3_sistemas_oper.Kernel.Strings.{Memory, within}
use proyecto_3_sistemas_oper.Kernel.Blocks.{Dinode, Volume, bmap, iupdate, log_block}
use proyecto_3_sistemas_oper.Kernel.Blocks.Growth.{max_bytes}

-- `either_copyout(user_dst, dst, src, len)`, its source the bytes of a block: whether it succeeds.
abbrev pub CopyOut : Type 0 → Type 0
CopyOut D = ℕ → (ℕ → ℕ) → ℕ → D → Bool × D

-- `either_copyin(dst, user_src, src, len)`: how many of the bytes it copies before it fails, and
-- which.
abbrev pub CopyIn : Type 0 → Type 0
CopyIn S = ℕ → ℕ → S → ℕ × (ℕ → ℕ) × S

-- With `user_dst` 0, and with `user_src` 0: `memmove`.
abbrev pub to_kernel : CopyOut Memory
to_kernel dst src len m = (true, λ a. if within dst len a then src (a - dst) else m a)

abbrev pub from_kernel : CopyIn Memory
from_kernel src len m = (len, (λ i. m (src + i)), m)

-- `min(n - tot, BSIZE - off%BSIZE)`
abbrev pub chunk : ℕ → ℕ → ℕ
chunk left off = let m = bsize - off % bsize in if ltb left m then left else m

-- What a read gives: the return value, -1 being `none`, where the bytes went, the inode, the disk.
abbrev pub ReadResult : Type 0 → Type 0
ReadResult D = Option ℕ × D × Dinode × Volume

-- The round of `readi` after `bmap`, with `left` bytes to read; the next round is `next`.
abbrev read_block :
    {D : Type 0}
    → CopyOut D
    → ℕ
    → ℕ
    → ℕ
    → ℕ
    → D
    → ℕ × Dinode × Volume
    → (D → Dinode → Volume → Outcome (ReadResult D))
    → Outcome (ReadResult D)
read_block copy tot left off dst d (a, ip, v) next =
    let (ok, d') = copy dst (λ i. v.bytes a (off % bsize + i)) (chunk left off) d in
    if a == 0
    then done (some tot, d, ip, v)
    else if not ok
    then done (none, d', ip, v)
    else next d' ip v

-- The loop of `readi`, with the `tot` bytes that are read; its fuel is the number of bytes.
pub readi_from :
    {D : Type 0} → CopyOut D → ℕ → ℕ → ℕ → ℕ → ℕ → D → Dinode → Volume → Outcome (ReadResult D)
readi_from copy zero tot n off dst d ip v = done (some tot, d, ip, v)
readi_from copy (suc fuel) tot n off dst d ip v =
    let m = chunk (n - tot) off in
    let round = bmap (off / bsize) ip v >>= λ r.
    read_block copy tot (n - tot) off dst d r
      (readi_from copy fuel (tot + m) n (off + m) (dst + m)) in
    if ltb tot n then round else done (some tot, d, ip, v)

pub readi : {D : Type 0} → CopyOut D → ℕ → ℕ → ℕ → D → Dinode → Volume → Outcome (ReadResult D)
unfolding readi_from
readi copy dst off n d ip v =
    let n' = if ltb ip.size (off + n) then ip.size - off else n in
    if ltb ip.size off || ltb ((off + n) % 2 ^ 32) off
    then done (some 0, d, ip, v)
    else readi_from copy n' 0 n' off dst d ip v

-- n bytes are put into a block, from its byte `at` on.
abbrev pub put_bytes : ℕ → ℕ → ℕ → (ℕ → ℕ) → Volume → Volume
put_bytes b at n src v = record v {
  bytes = λ c j. if c == b && within at n j then src (j - at) else v.bytes c j;
}

-- The bytes written, the offset behind them, the source, the inode, the disk.
abbrev pub Progress : Type 0 → Type 0
Progress S = ℕ × ℕ × S × Dinode × Volume

abbrev write_block :
    {S : Type 0}
    → CopyIn S
    → ℕ
    → ℕ
    → ℕ
    → ℕ
    → S
    → ℕ × Dinode × Volume
    → (S → Dinode → Volume → Outcome (Progress S))
    → Outcome (Progress S)
write_block copy tot left off src s (a, ip, v) next =
    let m = chunk left off in
    let (got, data_in, s') = copy src m s in
    let v' = put_bytes a (off % bsize) got data_in v in
    if a == 0
    then done (tot, off, s, ip, v)
    else if ltb got m
    then done (tot, off, s', ip, v')
    else next s' ip (log_block a v')

-- The loop of `writei`.
pub writei_from :
    {S : Type 0} → CopyIn S → ℕ → ℕ → ℕ → ℕ → ℕ → S → Dinode → Volume → Outcome (Progress S)
writei_from copy zero tot n off src s ip v = done (tot, off, s, ip, v)
writei_from copy (suc fuel) tot n off src s ip v =
    let m = chunk (n - tot) off in
    let round = bmap (off / bsize) ip v >>= λ r.
    write_block copy tot (n - tot) off src s r
      (writei_from copy fuel (tot + m) n (off + m) (src + m)) in
    if ltb tot n then round else done (tot, off, s, ip, v)

-- `if(off > ip->size) ip->size = off; iupdate(ip);`
abbrev pub write_end : {S : Type 0} → ℕ → Progress S → Option ℕ × S × Dinode × Volume
write_end inum (tot, off, s, ip, v) =
    let ip' = if ltb ip.size off then record ip { size = off } else ip in
    (some tot, s, ip', iupdate inum ip' v)

-- `writei` of the inode with the number inum; -1 is `none`.
pub writei :
    {S : Type 0}
    → CopyIn S
    → ℕ
    → ℕ
    → ℕ
    → ℕ
    → S
    → Dinode
    → Volume
    → Outcome (Option ℕ × S × Dinode × Volume)
unfolding writei_from iupdate
writei copy inum src off n s ip v =
    if ltb ip.size off || ltb ((off + n) % 2 ^ 32) off
    then done (none, s, ip, v)
    else if ltb max_bytes (off + n)
    then done (none, s, ip, v)
    else (writei_from copy n 0 n off src s ip v >>= λ p. done (write_end inum p))
