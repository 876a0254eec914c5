-- ===== src/Kernel/Dir.antt =====
-- kernel/fs.c: directories, and isdirempty of kernel/sysfile.c. They are files of entries of 16 bytes:
-- a number of two bytes, the low one first, and a name. An entry is read into kernel memory at `de`,
-- the local of that name. The fuel of a loop is the directory's size in bytes, more than its entries.
pub mod Entries
pub mod Answers
pub mod Gaps
pub mod Adding
pub mod Search
pub mod Link
pub mod Whole
pub mod Empty
mod Tests
use proyecto_3_sistemas_oper.Base.{
  ℕ, zero, suc, ◌+◌, ◌*◌, ◌/◌, ◌%◌, ◌==◌, ltb, Bool, true, false, not, if◌then◌else◌, Option, none,
  some, Outcome, done, panic, ◌>>=◌, ℤ, pos, negsuc, minus_one, List, get_elem?,
}
use proyecto_3_sistemas_oper.Kernel.Strings.{Memory, store, strncmp, strncpy}
use proyecto_3_sistemas_oper.Kernel.Blocks.{Dinode, Volume}
use proyecto_3_sistemas_oper.Kernel.FileData.{to_kernel, from_kernel, readi, writei}
use proyecto_3_sistemas_oper.Kernel.Path.{dirsiz}
use proyecto_3_sistemas_oper.Kernel.Inode.{Inode, iget, iput, modify_at}

-- `sizeof(struct dirent)`
abbrev pub dirent_size : ℕ
dirent_size = 16

-- `T_DIR`
abbrev pub t_dir : ℕ
t_dir = 1

-- The member `inum` and the address of the member `name`, of the entry at an address.
abbrev pub inum_at : Memory → ℕ → ℕ
inum_at m de = m de + 256 * m (de + 1)

abbrev pub name_at : ℕ → ℕ
name_at de = de + 2

abbrev pub namecmp : Memory → ℕ → ℕ → ℤ
namecmp m s t = strncmp m s t dirsiz

-- The memory, the directory and the disk.
abbrev pub Reading : Type 0
Reading = Memory × Dinode × Volume

-- `if(readi(dp, 0, (uint64)&de, off, sizeof(de)) != sizeof(de)) panic(...);`
abbrev pub full_read : Option ℕ × Memory × Dinode × Volume → Outcome Reading
full_read (some r, m, dp, v) = if r == dirent_size then done (m, dp, v) else panic
full_read (none, m, dp, v) = panic

abbrev pub read_entry : ℕ → ℕ → Memory → Dinode → Volume → Outcome Reading
read_entry de off m dp v = readi to_kernel de off dirent_size m dp v >>= full_read

-- Whether the entry that is read has the name.
abbrev pub is_named : ℕ → ℕ → Memory → Bool
is_named name de m = elim (namecmp m name (name_at de)) [ pos n ↦ n == 0 | negsuc n ↦ false ]

-- The loop of `dirlookup`: the offset and the number of the first entry with the name.
pub dirlookup_from :
    ℕ → ℕ → ℕ → ℕ → Memory → Dinode → Volume → Outcome (Option (ℕ × ℕ) × Memory × Dinode × Volume)
dirlookup_from zero off name de m dp v = done (none, m, dp, v)
dirlookup_from (suc fuel) off name de m dp v =
    let round = read_entry de off m dp v >>= λ (m', dp', v').
    let rest = dirlookup_from fuel (off + dirent_size) name de m' dp' v' in
    if inum_at m' de == 0
    then rest
    else if is_named name de m'
    then done (some (off, inum_at m' de), m', dp', v')
    else rest in
    if ltb off dp.size then round else done (none, m, dp, v)

-- `dirlookup` in a directory of the device: the offset of the entry and the place of its inode.
pub dirlookup :
    ℕ
    → ℕ
    → ℕ
    → Memory
    → Dinode
    → Volume
    → List Inode
    → Outcome (Option (ℕ × ℕ) × List Inode × Memory × Dinode × Volume)
unfolding dirlookup_from
dirlookup dev name de m dp v ips =
    let found = dirlookup_from dp.size 0 name de m dp v >>= λ r. elim r.0 [
      | none ↦ done (none, ips, r.1, r.2, r.3)
      | some (off, inum) ↦
          (iget dev inum ips >>= λ (i, ips'). done (some (off, i), ips', r.1, r.2, r.3))
    ] in
    if dp.type_of == t_dir then found else panic

-- The loop of `dirlink` for an empty entry: its offset, or that of the directory's end.
pub find_empty_entry : ℕ → ℕ → ℕ → Memory → Dinode → Volume → Outcome (ℕ × Memory × Dinode × Volume)
find_empty_entry zero off de m dp v = done (off, m, dp, v)
find_empty_entry (suc fuel) off de m dp v =
    let round = read_entry de off m dp v >>= λ (m', dp', v').
    let rest = find_empty_entry fuel (off + dirent_size) de m' dp' v' in
    if inum_at m' de == 0 then done (off, m', dp', v') else rest in
    if ltb off dp.size then round else done (off, m, dp, v)

-- `strncpy(de.name, name, DIRSIZ); de.inum = inum;`, the number cut to 16 bits
abbrev pub fill_entry : ℕ → ℕ → ℕ → Memory → Memory
fill_entry name inum de m =
    store (store (strncpy m (name_at de) name dirsiz) de (inum % 256)) (de + 1) (inum / 256 % 256)

-- `if(writei(...) != sizeof(de)) return -1; return 0;`
abbrev pub full_write : Option ℕ × Memory × Dinode × Volume → ℤ × Memory × Dinode × Volume
full_write (some r, m, dp, v) = ((if r == dirent_size then pos 0 else minus_one), m, dp, v)
full_write (none, m, dp, v) = (minus_one, m, dp, v)

-- `dirlink` behind its test that the name is not there, for the directory with the number dir.
pub add_entry : ℕ → ℕ → ℕ → ℕ → Memory → Dinode → Volume → Outcome (ℤ × Memory × Dinode × Volume)
unfolding find_empty_entry
add_entry dir name inum de m dp v = find_empty_entry dp.size 0 de m dp v >>= λ (off, m', dp', v').
    writei from_kernel dir de off dirent_size (fill_entry name inum de m') dp' v' >>= λ r.
    done (full_write r)

-- `iput` of the entry at a place of the table.
abbrev pub iput_at : ℕ → List Inode → Volume → Outcome (List Inode × Volume)
iput_at i ips v = elim (get_elem? ips i) [
  | none ↦ panic
  | some ip ↦ (iput ip v >>= λ (ip', v'). done (modify_at i (λ _. ip') ips, v'))
]

pub dirlink :
    ℕ
    → ℕ
    → ℕ
    → ℕ
    → ℕ
    → Memory
    → Dinode
    → Volume
    → List Inode
    → Outcome (ℤ × List Inode × Memory × Dinode × Volume)
dirlink dev dir name inum de m dp v ips = dirlookup dev name de m dp v ips >>= λ r. elim r.0 [
  | some (off, i) ↦ (iput_at i r.1 r.4 >>= λ (ips', v'). done (minus_one, ips', r.2, r.3, v'))
  | none ↦ (add_entry dir name inum de r.2 r.3 r.4 >>= λ q. done (q.0, r.1, q.1, q.2, q.3))
]

-- `isdirempty` of kernel/sysfile.c: its loop, and whether no entry but the first two is in use.
pub isdirempty_from :
    ℕ → ℕ → ℕ → Memory → Dinode → Volume → Outcome (Bool × Memory × Dinode × Volume)
isdirempty_from zero off de m dp v = done (true, m, dp, v)
isdirempty_from (suc fuel) off de m dp v =
    let round = read_entry de off m dp v >>= λ (m', dp', v').
    let rest = isdirempty_from fuel (off + dirent_size) de m' dp' v' in
    if inum_at m' de == 0 then rest else done (false, m', dp', v') in
    if ltb off dp.size then round else done (true, m, dp, v)

pub isdirempty : ℕ → Memory → Dinode → Volume → Outcome (Bool × Memory × Dinode × Volume)
unfolding isdirempty_from
isdirempty de m dp v = isdirempty_from dp.size (2 * dirent_size) de m dp v
