-- ===== src/Kernel/Console.antt =====
-- kernel/console.c: the input line editor. `r`, `w` and `e` are `uint` counters that wrap at 2^32,
-- into a ring of 128 bytes: what lies between r and w is ready to be read, what lies between w and
-- e is the line being typed. cons.lock makes consoleintr one step, and consoleread one step up to
-- its return or its sleep. `echoed` is the log of what consputc was given, latest first, and
-- `woken` counts the calls of wakeup. The process list that Control-P prints is left out.
pub mod Line
pub mod Editing
mod Tests
use proyecto_3_sistemas_oper.Base.{
  ℕ, zero, suc, ◌+◌, ◌-◌, ◌%◌, List, [], ◌∷◌, Bool, true, false, not, ◌==◌, ◌&&◌, ◌||◌, ltb,
  if◌then◌else◌, add_u32, sub_u32, Option, none, some, ℤ, pos, minus_one,
}
use proyecto_3_sistemas_oper.Kernel.Strings.{Memory, store}

pub record Console : Type 0 where
  pub bytes : Memory
  pub r : ℕ
  pub w : ℕ
  pub e : ℕ
  pub echoed : List ℕ
  pub woken : ℕ

abbrev pub input_buf_size : ℕ
input_buf_size = 128

-- The constant that asks consputc to rub a character out.
abbrev pub backspace : ℕ
backspace = 0x100

-- `C(x)`: Control-x.
abbrev pub control : ℕ → ℕ
control x = x - b'@'

-- `cons.e--; consputc(BACKSPACE);`
pub rub_out : Console → Console
rub_out c = record c { e = sub_u32 c.e 1; echoed = backspace ∷ c.echoed }

-- The loop of Control-U; its fuel is the length of the line being typed.
pub kill_line : ℕ → Console → Console
unfolding rub_out
kill_line zero c = c
kill_line (suc fuel) c =
    let rest = kill_line fuel (rub_out c) in
    if not (c.e == c.w) && not (c.bytes (sub_u32 c.e 1 % input_buf_size) == b'\n') then rest else c

-- The default case: a character is echoed and stored, and a whole line is handed to the readers.
pub typed : ℕ → Console → Console
typed ch c =
    let ch' = if ch == 13 then b'\n' else ch in
    let stored = record c {
      echoed = ch' ∷ c.echoed;
      bytes = store c.bytes (c.e % input_buf_size) (ch' % 256);
      e = add_u32 c.e 1;
    } in
    let ready = record stored { w = stored.e; woken = suc stored.woken } in
    let whole =
      ch' == b'\n' || (ch' == control b'D' || sub_u32 stored.e stored.r == input_buf_size) in
    if not (ch == 0) && ltb (sub_u32 c.e c.r) input_buf_size
    then (if whole then ready else stored)
    else c

pub consoleintr : ℕ → Console → Console
unfolding kill_line rub_out typed
consoleintr ch c =
    if ch == control b'P'
    then c
    else if ch == control b'U'
    then kill_line (sub_u32 c.e c.w) c
    else if ch == control b'H' || ch == 0x7f
    then (if c.e == c.w then c else rub_out c)
    else typed ch c

-- What a run of consoleread ends with: a return value, or asleep with n bytes still wanted.
pub data Run : Type 0 where
  returned : ℤ → Run
  asleep : ℕ → Run

-- The loop of `consoleread` with n bytes wanted of `target`: how it ends, the bytes copied out, and
-- the console. `killed k` is the killed flag, and `out k` whether the copy succeeds, with k bytes
-- wanted.
pub consoleread : (ℕ → Bool) → (ℕ → Bool) → ℕ → ℕ → Console → Run × List ℕ × Console
consoleread killed out target zero c = (returned (pos target), [], c)
consoleread killed out target (suc n) c =
    let ch = c.bytes (c.r % input_buf_size) in
    let taken = record c { r = add_u32 c.r 1 } in
    let count : Run = returned (pos (target - suc n)) in
    let less : Run = returned (pos (target - n)) in
    let rest = consoleread killed out target n taken in
    let more : Run × List ℕ × Console = (rest.0, ch ∷ rest.1, rest.2) in
    let eof : Run × List ℕ × Console = (count, [], if ltb (suc n) target then c else taken) in
    if c.r == c.w
    then (if killed (suc n) then (returned minus_one, [], c) else (asleep (suc n), [], c))
    else if ch == control b'D'
    then eof
    else if not (out (suc n))
    then (count, [], taken)
    else if ch == b'\n'
    then (less, ch ∷ [], taken)
    else more
