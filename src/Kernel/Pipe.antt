-- ===== src/Kernel/Pipe.antt =====
-- kernel/pipe.c: a pipe is a ring of 512 bytes with two `uint` counters that wrap at 2^32. The
-- pipe's spinlock makes the code between two sleeps one step, so each function below runs to its
-- return or to its next `sleep`. What such a run reads from elsewhere is an argument: `killed i`
-- is the killed flag as round i finds it, `src i` the byte that `copyin` gets from addr + i
-- (`none`: it fails), `dst_ok i` whether `copyout` to addr + i succeeds. `woken` is the log of
-- the channels that wakeup was called on.
pub mod Window
pub mod Refine
mod Tests
use proyecto_3_sistemas_oper.Base.{
  ℕ, zero, suc, ◌+◌, ◌%◌, ◌≡◌, List, [], ◌∷◌, Bool, true, false, not, ◌==◌, ◌||◌, ◌&&◌,
  if◌then◌else◌, add_u32, ℤ, pos, minus_one, Option, none, some, Outcome, done, ◌>>=◌,
}
use proyecto_3_sistemas_oper.Kernel.Strings.{Memory, store}
use proyecto_3_sistemas_oper.Kernel.Kalloc.{Kmem, kfree}

pub data Channel : Type 0 where
  readers writers : Channel

pub record Pipe : Type 0 where
  pub bytes : Memory
  pub nread : ℕ  -- uint
  pub nwrite : ℕ  -- uint
  pub readopen : Bool
  pub writeopen : Bool
  pub woken : List Channel

abbrev pub pipe_size : ℕ
pipe_size = 512

-- The part of `pipealloc` that sets up the pipe in its new page.
pub pipe_init : Memory → Pipe
pipe_init m = record {
  bytes = m;
  nread = 0;
  nwrite = 0;
  readopen = true;
  writeopen = true;
  woken = [];
}

abbrev pub wakeup : Channel → Pipe → Pipe
wakeup c p = record p { woken = c ∷ p.woken }

-- `pi->data[pi->nwrite++ % PIPESIZE] = ch`
pub put : Pipe → ℕ → Pipe
put p ch = record p { bytes = store p.bytes (p.nwrite % pipe_size) ch; nwrite = add_u32 p.nwrite 1 }

-- A run ends with a return value, or asleep with i bytes done.
pub data Run : Type 0 where
  returned : ℤ → Run
  asleep : ℕ → Run

module _ (killed : ℕ → Bool) (src : ℕ → Option ℕ) where
  -- The loop of `pipewrite` with `rounds` = n - i bytes to go.
  pub pipewrite_from : ℕ → ℕ → Pipe → Run × Pipe
  unfolding put
  pipewrite_from zero i p = (returned (pos i), wakeup readers p)
  pipewrite_from (suc rounds) i p =
      let next : Run × Pipe = elim (src i) [
        | none ↦ (returned (pos i), wakeup readers p)
        | some ch ↦ pipewrite_from rounds (i + 1) (put p ch)
      ] in
      if not p.readopen || killed i
      then (returned minus_one, p)
      else if p.nwrite == add_u32 p.nread pipe_size
      then (asleep i, wakeup readers p)
      else next

  pub pipewrite : ℕ → Pipe → Run × Pipe
  pipewrite n p = pipewrite_from n 0 p

-- The copying loop of `piperead`: the result, the bytes that went out, and the pipe.
pub piperead_from : (ℕ → Bool) → ℕ → ℕ → Pipe → ℤ × List ℕ × Pipe
piperead_from dst_ok zero i p = (pos i, [], wakeup writers p)
piperead_from dst_ok (suc rounds) i p =
    let ch = p.bytes (p.nread % pipe_size) in
    let rest = piperead_from dst_ok rounds (i + 1) (record p { nread = add_u32 p.nread 1 }) in
    let more : ℤ × List ℕ × Pipe = (rest.0, ch ∷ rest.1, rest.2) in
    let failed : ℤ × List ℕ × Pipe =
      ((if i == 0 then minus_one else pos i), [], wakeup writers p) in
    if p.nread == p.nwrite then (pos i, [], wakeup writers p) else if dst_ok i then more else failed

-- `piperead` from its start, or from where it wakes: it sleeps on an empty pipe that may still be
-- written.
pub piperead : Bool → (ℕ → Bool) → ℕ → Pipe → Run × List ℕ × Pipe
piperead killed dst_ok n p =
    if p.nread == p.nwrite && p.writeopen
    then (if killed then (returned minus_one, [], p) else (asleep 0, [], p))
    else (let (r, out, p') = piperead_from dst_ok n 0 p in (returned r, out, p'))

-- `pa` is the address of the pipe's page.
pub pipeclose : ℕ → ℕ → Bool → Pipe → Kmem → Outcome (Pipe × Kmem)
pipeclose end pa writable p k =
    let p' =
      if writable
      then wakeup readers (record p { writeopen = false })
      else wakeup writers (record p { readopen = false }) in
    if not p'.readopen && not p'.writeopen
    then (kfree end pa k >>= λ k'. done (p', k'))
    else done (p', k)
