-- ===== src/Kernel/Sysfile.antt =====
-- kernel/sysfile.c: the system calls on a descriptor: dup, read, write, close, fstat. An open file is
-- its place in the table of files; a descriptor without one is `none`. The arguments are given
-- here as the calls fetch them. An inode is found by its address, and what an operation on the file
-- leaves of it and of the memory is in the state.
pub mod Dup
mod Tests
use proyecto_3_sistemas_oper.Base.{
  ℕ, ◌==◌, leb, Bool, if◌then◌else◌, List, Option, none, some, Outcome, done, panic, ◌>>=◌, ℤ, pos,
  negsuc, minus_one, get_elem?, set,
}
use proyecto_3_sistemas_oper.Kernel.Blocks.{Dinode, Volume}
use proyecto_3_sistemas_oper.Kernel.File.{
  File, fd_none, fd_pipe, fd_inode, fd_device, Closed, nothing, at_place, filedup, fileclose,
  fdalloc,
}
use proyecto_3_sistemas_oper.Kernel.FileData.{CopyOut, CopyIn}
use proyecto_3_sistemas_oper.Kernel.FileIo.{Others, Effect, Stat, fileread, filewrite, filestat}

-- `NOFILE`
abbrev pub nofile : ℕ
nofile = 16

-- `argfd`: the descriptor and the place of its file.
abbrev pub argfd : ℤ → List (Option ℕ) → Option (ℕ × ℕ)
argfd (negsuc k) os = none
argfd (pos fd) os =
    let found : Option (ℕ × ℕ) = elim (get_elem? os fd) [
      | none ↦ none
      | some none ↦ none
      | some (some f) ↦ some (fd, f)
    ] in
    if leb nofile fd then none else found

-- `sys_dup` once it has a descriptor, or has none.
abbrev pub dup_to : ℕ → List File → ℤ × List (Option ℕ) → Outcome (ℤ × List (Option ℕ) × List File)
dup_to f fs (negsuc k, os) = done (minus_one, os, fs)
dup_to f fs (pos fd, os) = filedup f fs >>= λ r. done (pos fd, os, r.1)

abbrev pub dup_found :
    List (Option ℕ) → List File → Option (ℕ × ℕ) → Outcome (ℤ × List (Option ℕ) × List File)
dup_found os fs none = done (minus_one, os, fs)
dup_found os fs (some (_, f)) = dup_to f fs (fdalloc f os)

pub sys_dup : ℤ → List (Option ℕ) → List File → Outcome (ℤ × List (Option ℕ) × List File)
sys_dup fd os fs = dup_found os fs (argfd fd os)

-- `sys_close` behind argfd, with what the closing of the file sets off.
abbrev pub close_found :
    List (Option ℕ)
    → List File
    → Option (ℕ × ℕ)
    → Outcome (ℤ × Closed × List (Option ℕ) × List File)
close_found os fs none = done (minus_one, nothing, os, fs)
close_found os fs (some (d, f)) = fileclose f fs >>= λ (c, fs'). done (pos 0, c, set os d none, fs')

pub sys_close : ℤ → List (Option ℕ) → List File → Outcome (ℤ × Closed × List (Option ℕ) × List File)
sys_close fd os fs = close_found os fs (argfd fd os)

-- The open files of a process, the table of files, the inodes, the disk and the memory.
pub record Files (D : Type 0) : Type 0 where
  pub ofile : List (Option ℕ)
  pub files : List File
  pub inodes : ℕ → Dinode
  pub disk : Volume
  pub mem : D

-- The address of the inode of a file, 0 if it has none.
abbrev pub inode_of : File → ℕ
inode_of f = elim f.type_of [ fd_none ↦ 0 | fd_pipe p ↦ 0 | fd_inode i ↦ i | fd_device i ↦ i ]

-- An operation on the file of a descriptor.
abbrev pub on_file :
    {D : Type 0}
    → (File → D → Dinode → Volume → Outcome (Effect D))
    → ℤ
    → Files D
    → Outcome (ℤ × Files D)
on_file op fd s = elim (argfd fd s.ofile) [
  | none ↦ done (minus_one, s)
  | some (_, k) ↦
      let run : File → Outcome ((ℤ × ℕ × _ × Dinode × Volume) × File) = λ f.
        op f s.mem (s.inodes (inode_of f)) s.disk >>= λ (r, f', d, ip, v).
        done ((r, inode_of f, d, ip, v), f') in
      at_place run k s.files >>= λ (e, fs).
      let (r, i, d, ip, v) = e in
      done (
        r,
        record s { files = fs; inodes = λ c. if c == i then ip else s.inodes c; disk = v; mem = d },
      )
]

pub sys_read : {D : Type 0} → Others D → CopyOut D → ℤ → ℕ → ℤ → Files D → Outcome (ℤ × Files D)
sys_read o copy fd p n s = on_file (fileread o copy p n) fd s

-- `inums`: the number of the inode at an address.
pub sys_write :
    {D : Type 0} → Others D → CopyIn D → (ℕ → ℕ) → ℤ → ℕ → ℤ → Files D → Outcome (ℤ × Files D)
sys_write o copy inums fd p n s = on_file (λ f. filewrite o copy (inums (inode_of f)) p n f) fd s

pub sys_fstat :
    {D : Type 0}
    → (ℕ → Stat → D → Bool × D)
    → (ℕ → ℕ)
    → (ℕ → ℕ)
    → ℤ
    → ℕ
    → Files D
    → Outcome (ℤ × Files D)
sys_fstat copyout devs inums fd st s =
    on_file
      (λ f d ip v.
        let i = inode_of f in
        let (r, d') = filestat copyout (devs i) (inums i) st f ip d in done (r, f, d', ip, v))
      fd s
