-- ===== src/Kernel/Sysfile/Tests.antt =====
-- A process with its second descriptor open to the first entry of the table of files.
use proyecto_3_sistemas_oper.Base.{
  ℕ, ◌≡◌, ◌≢◌, ◌⊎◌, refl, List, [], ◌∷◌, Option, none, some, true, false, done, arith, pos,
  minus_one, get_elem?,
}
use proyecto_3_sistemas_oper.Kernel.File.{File, fd_pipe, still_open}
use proyecto_3_sistemas_oper.Kernel.Sysfile.{argfd, sys_dup, sys_close}
use proyecto_3_sistemas_oper.Kernel.Sysfile.Dup.{sys_close-sys_dup}

abbrev pipe_end : File
pipe_end = record {
  type_of = fd_pipe 0x80004000;
  ref = 1;
  readable = true;
  writable = false;
  off = 0;
  major = 0;
}

abbrev table : List File
table = pipe_end ∷ []

abbrev descriptors : List (Option ℕ)
descriptors = none ∷ some 0 ∷ none ∷ []

sys_close-sys_dup_example :
    ((sys_dup (pos 1) descriptors table ≡ done (minus_one, descriptors, table))
      × ((i : ℕ) → get_elem? descriptors i ≢ some none))
    ⊎ ((i : ℕ) × (os' : List (Option ℕ)) × (fs' : List File) × (sys_dup (pos 1) descriptors table
          ≡ done (pos i, os', fs'))
        × (get_elem? descriptors i ≡ some none)
        × (argfd (pos i) os' ≡ some (i, 0))
        × (sys_close (pos i) os' fs' ≡ done (pos 0, still_open, descriptors, table)))
sys_close-sys_dup_example =
    sys_close-sys_dup (pos 1) 1 0 descriptors table pipe_end refl refl (omega arith) (omega arith)
