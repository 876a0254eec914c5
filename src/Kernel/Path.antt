-- ===== src/Kernel/Path.antt =====
-- kernel/fs.c: the elements of a path, a string in memory. The loops' fuel bounds the bytes that are
-- looked at; the string's length is enough.
pub mod Elements
mod Tests
use proyecto_3_sistemas_oper.Base.{
  ℕ, zero, suc, ◌+◌, ◌-◌, Bool, ◌==◌, leb, ◌||◌, if◌then◌else◌, Option, none, some,
}
use proyecto_3_sistemas_oper.Kernel.Strings.{Memory, store, memmove}

abbrev pub dirsiz : ℕ
dirsiz = 14

abbrev pub slash : ℕ
slash = 47

-- `while(*path == '/') path++;`
pub skip_slashes : ℕ → Memory → ℕ → ℕ
skip_slashes zero m path = path
skip_slashes (suc fuel) m path =
    let rest = skip_slashes fuel m (path + 1) in if m path == slash then rest else path

-- `while(*path != '/' && *path != 0) path++;`
pub find_end : ℕ → Memory → ℕ → ℕ
find_end zero m path = path
find_end (suc fuel) m path =
    let rest = find_end fuel m (path + 1) in if m path == slash || m path == 0 then path else rest

-- The element of `len` bytes at s, copied into `name`.
abbrev pub copy_element : Memory → ℕ → ℕ → ℕ → Memory
copy_element m name s len =
    if leb dirsiz len then memmove m name s dirsiz else store (memmove m name s len) (name + len) 0

-- The path behind its first element, if it has one, and the memory with the element in `name`.
pub skipelem : ℕ → Memory → ℕ → ℕ → Option ℕ × Memory
unfolding skip_slashes find_end memmove
skipelem fuel m path name =
    let s = skip_slashes fuel m path in
    let e = find_end fuel m s in
    let m' = copy_element m name s (e - s) in
    if m s == 0 then (none, m) else (some (skip_slashes fuel m' e), m')
