-- ===== src/Kernel/File.antt =====
-- kernel/file.c: the table of open files, and of kernel/sysfile.c the open files of a process. An
-- entry of the table is found by its place. What closing a file sets off for its pipe or inode is
-- the value `Closed`; it happens after the table's lock is let go.
pub mod Counts
pub mod Picks
mod Tests
use proyecto_3_sistemas_oper.Base.{
  ℕ, zero, suc, ◌+◌, ◌-◌, Bool, true, false, ◌==◌, ltb, if◌then◌else◌, List, [], ◌∷◌, Option, none,
  some, Outcome, done, panic, ℤ, pos, minus_one, set, length,
}

-- The member `type`, with the pipe's or the inode's address.
pub data FileType : Type 0 where
  fd_none : FileType
  fd_pipe : ℕ → FileType
  fd_inode : ℕ → FileType
  fd_device : ℕ → FileType

pub record File : Type 0 where
  pub type_of : FileType
  pub ref : ℕ
  pub readable : Bool
  pub writable : Bool
  pub off : ℕ
  pub major : ℕ

-- What `fileclose` does after it has let go of the table.
pub data Closed : Type 0 where
  still_open : Closed
  close_pipe : ℕ → Bool → Closed
  put_inode : ℕ → Closed
  nothing : Closed

abbrev pub closing : File → Closed
closing f = elim f.type_of [
  | fd_none ↦ nothing
  | fd_pipe p ↦ close_pipe p f.writable
  | fd_inode ip ↦ put_inode ip
  | fd_device ip ↦ put_inode ip
]

-- The loop of `filealloc`, from place i on.
pub filealloc_from : ℕ → List File → Option ℕ × List File
filealloc_from i [] = (none, [])
filealloc_from i (f ∷ fs) =
    let (found, fs') = filealloc_from (i + 1) fs in
    if f.ref == 0 then (some i, record f { ref = 1 } ∷ fs) else (found, f ∷ fs')

pub filealloc : List File → Option ℕ × List File
filealloc fs = filealloc_from 0 fs

-- An operation on the entry at a place.
pub at_place {ℓ} :
    {A : Type ℓ} → (File → Outcome (A × File)) → ℕ → List File → Outcome (A × List File)
at_place op i [] = panic
at_place op zero (f ∷ fs) = elim (op f) [ done (a, g) ↦ done (a, g ∷ fs) | panic ↦ panic ]
at_place op (suc i) (f ∷ fs) = elim (at_place op i fs) [
  | done (a, gs) ↦ done (a, f ∷ gs)
  | panic ↦ panic
]

abbrev pub dup_one : File → Outcome (ℕ × File)
dup_one f = if ltb f.ref 1 then panic else done (0, record f { ref = f.ref + 1 })

pub filedup : ℕ → List File → Outcome (ℕ × List File)
unfolding at_place
filedup i fs = at_place dup_one i fs

abbrev pub close_one : File → Outcome (Closed × File)
close_one f =
    let left = record f { ref = f.ref - 1 } in
    if ltb f.ref 1
    then panic
    else if ltb 0 (f.ref - 1)
    then done (still_open, left)
    else done (closing f, record f { ref = 0; type_of = fd_none })

pub fileclose : ℕ → List File → Outcome (Closed × List File)
unfolding at_place
fileclose i fs = at_place close_one i fs

-- The loop of `fdalloc`, on the open files of the process from descriptor fd on.
pub fdalloc_from : ℕ → ℕ → List (Option ℕ) → ℤ × List (Option ℕ)
fdalloc_from f fd [] = (minus_one, [])
fdalloc_from f fd (o ∷ os) =
    let (r, rest) = fdalloc_from f (fd + 1) os in
    elim o [ none ↦ (pos fd, some f ∷ os) | some g ↦ (r, some g ∷ rest) ]

pub fdalloc : ℕ → List (Option ℕ) → ℤ × List (Option ℕ)
fdalloc f os = fdalloc_from f 0 os
