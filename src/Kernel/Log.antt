-- ===== src/Kernel/Log.antt =====
-- kernel/log.c: the write-ahead log. A disk block is its 32-bit words. `cache b` is what bread of
-- block b gives (the cached buffer, or the disk's block when none is cached), `pins b` what bpin
-- and bunpin have added to its reference count, and bwrite carries one block from the cache to the
-- disk at once. `seen` is the log of all states of the disk since boot, newest first: the states in
-- which a crash may leave it. The recovery printout is left out.
pub mod Words
pub mod Recover
pub mod Commit
pub mod Admit
pub mod Replay
pub mod Crash
pub mod Atomic
pub mod Protocol
mod Tests
use proyecto_3_sistemas_oper.Base.{
  ℕ, zero, suc, ◌+◌, ◌-◌, ◌*◌, ◌≡◌, List, [], ◌∷◌, Bool, true, false, not, ◌==◌, ltb, leb,
  if◌then◌else◌, add_u32, sub_u32, Option, none, some, Outcome, done, panic, ◌>>=◌, ◌>>◌, check,
}
use proyecto_3_sistemas_oper.Kernel.Params.{max_op_blocks, log_blocks, bsize}

abbrev pub Block : Type 0
Block = ℕ → ℕ

abbrev pub Disk : Type 0
Disk = ℕ → Block

abbrev pub update {ℓ} : {A : Type ℓ} → (ℕ → A) → ℕ → A → ℕ → A
update f b v c = if b == c then v else f c

-- `struct log` with its header `lh`, and the storage below it.
pub record Log : Type 0 where
  pub start : ℕ
  pub outstanding : ℕ
  pub committing : Bool
  pub n : ℕ
  pub block : ℕ → ℕ
  pub disk : Disk
  pub cache : Disk
  pub pins : ℕ → ℕ
  pub seen : List Disk

pub bwrite : ℕ → Log → Log
bwrite b s = let d = update s.disk b (s.cache b) in record s { disk = d; seen = d ∷ s.seen }

-- `memmove(to->data, from->data, BSIZE)` between two cached blocks
pub copy_block : ℕ → ℕ → Log → Log
copy_block to from s = record s { cache = update s.cache to (s.cache from) }

-- The round of `install_trans` at `tail`.
pub install_one : Bool → ℕ → Log → Log
unfolding bwrite copy_block
install_one recovering tail s =
    let dst = s.block tail in
    let t = bwrite dst (copy_block dst (s.start + tail + 1) s) in
    if recovering then t else record t { pins = update t.pins dst (sub_u32 (t.pins dst) 1) }

pub install_from : Bool → ℕ → ℕ → Log → Log
install_from recovering zero tail s = s
install_from recovering (suc rounds) tail s =
    install_from recovering rounds (tail + 1) (install_one recovering tail s)

pub install_trans : Bool → Log → Log
install_trans recovering s = install_from recovering s.n 0 s

-- `lh.block[i] = lh->block[i]` for the rounds from i on; the header block holds n in its first
-- word.
pub read_entries : Block → ℕ → ℕ → (ℕ → ℕ) → ℕ → ℕ
read_entries hd zero i block = block
read_entries hd (suc rounds) i block = read_entries hd rounds (i + 1) (update block i (hd (i + 1)))

pub read_head : Log → Log
read_head s =
    let hd = s.cache s.start in record s { n = hd 0; block = read_entries hd (hd 0) 0 s.block }

-- `hb->block[i] = log.lh.block[i]`
pub write_entries : (ℕ → ℕ) → ℕ → ℕ → Block → Block
write_entries block zero i hb = hb
write_entries block (suc rounds) i hb =
    write_entries block rounds (i + 1) (update hb (i + 1) (block i))

pub write_head : Log → Log
unfolding bwrite
write_head s =
    let hb = write_entries s.block s.n 0 (update (s.cache s.start) 0 s.n) in
    bwrite s.start (record s { cache = update s.cache s.start hb })

pub recover_from_log : Log → Log
recover_from_log s =
    let installed = install_trans true (read_head s) in write_head (record installed { n = 0 })

-- `sizeof(struct logheader)` is four bytes for n and for each entry.
pub initlog : ℕ → Log → Outcome Log
initlog logstart s = do
  check (ltb (4 * (1 + log_blocks)) bsize)
  done (recover_from_log (record s { start = logstart }))

-- One run of `begin_op`; `none`: it sleeps on the log and tries again when woken.
pub begin_op : Log → Option Log
begin_op s =
    if s.committing
    then none
    else if ltb log_blocks (s.n + (s.outstanding + 1) * max_op_blocks)
    then none
    else some (record s { outstanding = s.outstanding + 1 })

-- The round of `write_log` at `tail`.
pub write_log_one : ℕ → Log → Log
unfolding bwrite copy_block
write_log_one tail s = let to = s.start + tail + 1 in bwrite to (copy_block to (s.block tail) s)

pub write_log_from : ℕ → ℕ → Log → Log
write_log_from zero tail s = s
write_log_from (suc rounds) tail s = write_log_from rounds (tail + 1) (write_log_one tail s)

pub write_log : Log → Log
write_log s = write_log_from s.n 0 s

pub commit : Log → Log
commit s =
    if ltb 0 s.n
    then write_head (record (install_trans false (write_head (write_log s))) { n = 0 })
    else s

-- The part of `end_op` under the first lock: whether this call is to commit. An `end_op` with no
-- operation under way would count to -1; no caller does that, and it is `none` here.
pub end_op_locked : Log → Option (Outcome (Bool × Log))
end_op_locked s =
    let left = s.outstanding - 1 in
    if s.outstanding == 0
    then none
    else if s.committing
    then some panic
    else if left == 0
    then some (done (true, record s { outstanding = left; committing = true }))
    else some (done (false, record s { outstanding = left }))

-- The rest of `end_op`.
pub end_op_commit : Bool → Log → Log
end_op_commit do_commit s = if do_commit then record (commit s) { committing = false } else s

-- `for (i = 0; i < log.lh.n; i++) if (log.lh.block[i] == b->blockno) break;`
pub find_block : (ℕ → ℕ) → ℕ → ℕ → ℕ → ℕ
find_block block b zero i = i
find_block block b (suc rounds) i =
    let rest = find_block block b rounds (i + 1) in if block i == b then i else rest

pub log_write : ℕ → Log → Outcome Log
unfolding find_block
log_write b s =
    let i = find_block s.block b s.n 0 in
    let t = record s { block = update s.block i b } in
    let added = record t { pins = update t.pins b (add_u32 (t.pins b) 1); n = s.n + 1 } in
    if leb log_blocks s.n
    then panic
    else if ltb s.outstanding 1
    then panic
    else done (if i == s.n then added else t)

-- The machine after a crash that left the disk d: nothing is cached that is not on the disk.
pub boot : ℕ → Disk → Log
boot start d = record {
  start = start;
  outstanding = 0;
  committing = false;
  n = 0;
  block = λ _. 0;
  disk = d;
  cache = d;
  pins = λ _. 0;
  seen = [];
}

-- The disk that `initlog` leaves after a crash with the disk d.
pub recovered : ℕ → Disk → Disk
unfolding boot recover_from_log
recovered start d = (recover_from_log (boot start d)).disk
