-- ===== src/Kernel/Inode.antt =====
-- kernel/fs.c: the table of inodes in memory. An entry is found by its place in the table; the
-- members that also lie on disk are its `copy`. The reference count, an int, only counts up from
-- 0 here.
pub mod Refs
mod Tests
use proyecto_3_sistemas_oper.Base.{
  ℕ, zero, suc, ◌+◌, ◌-◌, Bool, true, false, not, ◌==◌, ltb, if◌then◌else◌, List, [], ◌∷◌, ◌&&◌,
  Option, none, some, Outcome, done, panic, ◌>>=◌, set, get_elem?,
}
use proyecto_3_sistemas_oper.Kernel.Locks.{Sleeplock, acquiresleep, releasesleep, holdingsleep}
use proyecto_3_sistemas_oper.Kernel.Blocks.{Dinode, Volume, itrunc, iupdate}

pub record Inode : Type 0 where
  pub dev : ℕ
  pub inum : ℕ
  pub ref : ℕ
  pub lock : Sleeplock
  pub valid : Bool
  pub copy : Dinode

-- Whether an entry in use is for the inode.
abbrev pub is_for : ℕ → ℕ → Inode → Bool
is_for dev inum ip = ltb 0 ip.ref && ip.dev == dev && ip.inum == inum

-- The place of the entry for the inode, from place i on.
pub find_ref : ℕ → ℕ → ℕ → List Inode → Option ℕ
find_ref dev inum i [] = none
find_ref dev inum i (ip ∷ ips) =
    let rest = find_ref dev inum (i + 1) ips in if is_for dev inum ip then some i else rest

-- The place of the first entry that is not in use.
pub find_empty : ℕ → List Inode → Option ℕ
find_empty i [] = none
find_empty i (ip ∷ ips) = let rest = find_empty (i + 1) ips in if ip.ref == 0 then some i else rest

-- A change of the entry at a place.
pub modify_at : ℕ → (Inode → Inode) → List Inode → List Inode
modify_at i f [] = []
modify_at zero f (ip ∷ ips) = f ip ∷ ips
modify_at (suc i) f (ip ∷ ips) = ip ∷ modify_at i f ips

pub idup : ℕ → List Inode → List Inode
unfolding modify_at
idup i = modify_at i (λ ip. record ip { ref = ip.ref + 1 })

abbrev pub claim : ℕ → ℕ → Inode → Inode
claim dev inum ip = record ip { dev = dev; inum = inum; ref = 1; valid = false }

pub iget : ℕ → ℕ → List Inode → Outcome (ℕ × List Inode)
unfolding find_ref find_empty modify_at idup
iget dev inum ips = elim (find_ref dev inum 0 ips) [
  | some i ↦ done (i, idup i ips)
  | none ↦ elim (find_empty 0 ips) [
    | some i ↦ done (i, modify_at i (claim dev inum) ips)
    | none ↦ panic
  ]
]

-- `ilock` of an entry by the process `pid`; `none`: it sleeps on the entry's lock.
pub ilock : ℕ → Inode → Volume → Option (Outcome Inode)
ilock pid ip v =
    let fill : Inode → Outcome Inode = λ jp.
      if jp.valid
      then done jp
      else if (v.dinodes ip.inum).type_of == 0
      then panic
      else done (record jp { copy = v.dinodes ip.inum; valid = true }) in
    let locked : Option (Outcome Inode) = elim (acquiresleep pid ip.lock) [
      | some lk ↦ some (fill (record ip { lock = lk }))
      | none ↦ none
    ] in
    if ltb ip.ref 1 then some panic else locked

pub iunlock : ℕ → Inode → Outcome Inode
iunlock pid ip =
    if not (holdingsleep pid ip.lock)
    then panic
    else if ltb ip.ref 1
    then panic
    else done (record ip { lock = releasesleep ip.lock })

-- The freeing of an inode that has no links, in `iput`, by a process that gets the entry's lock.
pub discard : Inode → Volume → Outcome (Inode × Volume)
discard ip v = itrunc ip.inum ip.copy v >>= λ r.
    let freed = record r.0 { type_of = 0 } in
    done (
      record ip { copy = freed; valid = false; lock = releasesleep ip.lock },
      iupdate ip.inum freed r.1,
    )

-- `iput` of an entry.
pub iput : Inode → Volume → Outcome (Inode × Volume)
unfolding discard
iput ip v =
    let drop_ref : Inode → Inode = λ jp. record jp { ref = jp.ref - 1 } in
    if ip.ref == 1 && ip.valid && ip.copy.nlink == 0
    then (discard ip v >>= λ r. done (drop_ref r.0, r.1))
    else done (drop_ref ip, v)
