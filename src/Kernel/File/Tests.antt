-- ===== src/Kernel/File/Tests.antt =====
-- A table of two files: one end of a pipe with one reference, and an unused entry.
use proyecto_3_sistemas_oper.Base.{◌≡◌, refl, List, [], ◌∷◌, true, false, done}
use proyecto_3_sistemas_oper.Kernel.File.{File, fd_none, fd_pipe, close_pipe, at_place, fileclose}

abbrev pipe_end : File
pipe_end = record {
  type_of = fd_pipe 0x80004000;
  ref = 1;
  readable = false;
  writable = true;
  off = 0;
  major = 0;
}

abbrev no_file : File
no_file = record pipe_end { type_of = fd_none; ref = 0 }

abbrev two_files : List File
two_files = pipe_end ∷ no_file ∷ []

last_reference :
    fileclose 0 two_files
    ≡ done
        (close_pipe 0x80004000 true, record pipe_end { ref = 0; type_of = fd_none } ∷ no_file ∷ [])
unfolding fileclose at_place
last_reference = refl
