-- ===== src/Kernel/Bio.antt =====
-- kernel/bio.c: the buffer cache. The doubly linked list of the buffers is the list in the order
-- of `next`, most recently used first; a buffer is known by its index in `bcache.buf`. bcache.lock
-- makes each function one step; the wait for a buffer's sleep lock, its data and the disk are not
-- part of this model, but `read` says that bread had to read the disk.
pub mod Cache
mod Tests
use proyecto_3_sistemas_oper.Base.{
  ℕ, zero, suc, ◌+◌, List, [], ◌∷◌, ◌++◌, Bool, true, false, not, ◌==◌, ◌&&◌, if◌then◌else◌,
  add_u32, sub_u32, Option, none, some, Outcome, done, panic, ◌>>=◌,
}
use proyecto_3_sistemas_oper.Kernel.Params.{nbuf}

-- `struct buf`; `holder` is the pid that holds its sleep lock, if it is held.
pub record Buf : Type 0 where
  pub index : ℕ
  pub valid : Bool
  pub dev : ℕ
  pub blockno : ℕ
  pub holder : Option ℕ
  pub refcnt : ℕ  -- uint

-- The loop of `binit` puts each buffer in front.
pub binit_from : ℕ → ℕ → List Buf → List Buf
binit_from zero i bs = bs
binit_from (suc rounds) i bs =
    binit_from rounds (i + 1)
      (record { index = i; valid = false; dev = 0; blockno = 0; holder = none; refcnt = 0 } ∷ bs)

pub binit : List Buf
unfolding binit_from
binit = binit_from nbuf 0 []

-- `b->dev == dev && b->blockno == blockno`
abbrev pub same : ℕ → ℕ → Buf → Bool
same dev blockno b = b.dev == dev && b.blockno == blockno

-- The first loop of `bget`: is the block already cached?
pub find_cached : ℕ → ℕ → List Buf → Option (Buf × List Buf)
find_cached dev blockno [] = none
find_cached dev blockno (b ∷ bs) =
    let hit = record b { refcnt = add_u32 b.refcnt 1 } in
    let rest : Option (Buf × List Buf) = elim (find_cached dev blockno bs) [
      | none ↦ none
      | some (c, cs) ↦ some (c, b ∷ cs)
    ] in
    if same dev blockno b then some (hit, hit ∷ bs) else rest

-- The second loop, from the least recently used end: the first buffer there that nobody uses.
pub recycle : ℕ → ℕ → List Buf → Option (Buf × List Buf)
recycle dev blockno [] = none
recycle dev blockno (b ∷ bs) =
    let taken = record b { dev = dev; blockno = blockno; valid = false; refcnt = 1 } in
    elim (recycle dev blockno bs) [
      | some (c, cs) ↦ some (c, b ∷ cs)
      | none ↦ if b.refcnt == 0 then some (taken, taken ∷ bs) else none
    ]

-- `bget` up to the wait for the buffer's lock.
pub bget : ℕ → ℕ → List Buf → Outcome (Buf × List Buf)
unfolding find_cached recycle
bget dev blockno bs = elim (find_cached dev blockno bs) [
  | some r ↦ done r
  | none ↦ elim (recycle dev blockno bs) [ some r ↦ done r | none ↦ panic ]
]

-- The entry of the list with the index, changed.
pub modify : ℕ → (Buf → Buf) → List Buf → List Buf
modify i f [] = []
modify i f (b ∷ bs) = if b.index == i then f b ∷ bs else b ∷ modify i f bs

abbrev mark_valid : Buf → Buf
mark_valid b = record b { valid = true }

-- `bread` behind the lock: whether the disk is read, and the list after it.
pub bread : ℕ → ℕ → List Buf → Outcome (Buf × Bool × List Buf)
unfolding modify
bread dev blockno bs = bget dev blockno bs >>= λ r.
    (if r.0.valid
      then done (r.0, false, r.1)
      else done (mark_valid r.0, true, modify r.0.index mark_valid r.1))

-- The buffer with the index and the list without it.
pub unlink : ℕ → List Buf → Option (Buf × List Buf)
unlink i [] = none
unlink i (b ∷ bs) =
    let rest : Option (Buf × List Buf) = elim (unlink i bs) [
      | none ↦ none
      | some (c, cs) ↦ some (c, b ∷ cs)
    ] in
    if b.index == i then some (b, bs) else rest

abbrev pub holds : ℕ → Option ℕ → Bool
holds pid none = false
holds pid (some p) = p == pid

-- `brelse` of the buffer with the index by the process with the pid; `none`: there is no such
-- buffer.
pub brelse : ℕ → ℕ → List Buf → Option (Outcome (List Buf))
unfolding unlink modify
brelse pid i bs = elim (unlink i bs) [
  | none ↦ none
  | some (b, others) ↦
      let left = record b { holder = none; refcnt = sub_u32 b.refcnt 1 } in
      if not (holds pid b.holder)
      then some panic
      else if left.refcnt == 0
      then some (done (left ∷ others))
      else some (done (modify i (λ _. left) bs))
]

pub bpin : ℕ → List Buf → List Buf
unfolding modify
bpin i bs = modify i (λ b. record b { refcnt = add_u32 b.refcnt 1 }) bs

pub bunpin : ℕ → List Buf → List Buf
unfolding modify
bunpin i bs = modify i (λ b. record b { refcnt = sub_u32 b.refcnt 1 }) bs
