-- ===== src/Kernel/Pipe/Window.antt =====
-- The bytes that a pipe holds, as a list, and how one byte comes in or goes out.
use proyecto_3_sistemas_oper.Base.{
  ℕ, zero, suc, ◌-◌, ◌%◌, ◌^◌, ◌≤◌, ◌<◌, ◌≡◌, ◌≢◌, refl, ap₂, List, [], ◌∷◌, ◌++◌, length, arith,
  add_u32, sub_u32, eqb_refl, eqb_of_ne,
}
use proyecto_3_sistemas_oper.Kernel.Strings.{Memory, store}
use proyecto_3_sistemas_oper.Kernel.Pipe.{Pipe, pipe_size, put, pipe_init}

-- The n bytes from counter value r on.
abbrev pub window : Memory → ℕ → ℕ → List ℕ
window d r zero = []
window d r (suc n) = d (r % pipe_size) ∷ window d (add_u32 r 1) n

-- The number of bytes in the pipe.
abbrev pub fill : Pipe → ℕ
fill p = sub_u32 p.nwrite p.nread

-- The bytes in the pipe, oldest first.
abbrev pub contents : Pipe → List ℕ
contents p = window p.bytes p.nread (fill p)

-- The counters are `uint` values, and no more bytes are in the pipe than it has room for.
pub record IsValid (p : Pipe) : Type 0 where
  pub read_word : p.nread < 2 ^ 32
  pub write_word : p.nwrite < 2 ^ 32
  pub fits : fill p ≤ pipe_size

pub length-window : (d : Memory) (r n : ℕ) → length (window d r n) ≡ n
length-window d r zero = refl
length-window d r (suc n) = omega (arith, length-window d (add_u32 r 1) n)

-- Writing just past a window extends it by that byte, also where the counter wraps.
window-store :
    (n : ℕ) (d : Memory) (r i x : ℕ)
    → r < 2 ^ 32
    → n < pipe_size
    → i ≡ add_u32 r n % pipe_size
    → window (store d i x) r (suc n) ≡ window d r n ++ (x ∷ [])
window-store zero d r i x hr hn e =
    let e' : i ≡ r % pipe_size = omega arith in rw (e', eqb_refl (r % pipe_size))
window-store (suc n) d r i x hr hn e =
    ap₂ ◌∷◌ (rw (eqb_of_ne i (r % pipe_size) (λ q. omega arith)))
      (window-store n d (add_u32 r 1) i x (omega arith) (omega arith) (omega arith))

window_of_pos :
    (d : Memory) (r n : ℕ)
    → 0 < n
    → window d r n ≡ d (r % pipe_size) ∷ window d (add_u32 r 1) (n - 1)
window_of_pos d r zero h = elim h [ ]
window_of_pos d r (suc n) h = let e : suc n - 1 ≡ n = omega arith in rw e

pub pipe_init-IsValid : (m : Memory) → IsValid (pipe_init m)
unfolding pipe_init
pipe_init-IsValid m = omega arith

pub put-IsValid : {p : Pipe} (x : ℕ) → IsValid p → fill p < pipe_size → IsValid (put p x)
unfolding put
put-IsValid x v h = omega arith

pub contents-put :
    {p : Pipe} (x : ℕ)
    → IsValid p
    → fill p < pipe_size
    → contents (put p x) ≡ contents p ++ (x ∷ [])
unfolding put
contents-put {p} x v h =
    let e : sub_u32 (add_u32 p.nwrite 1) p.nread ≡ suc (fill p) = omega arith in
    rw e
      (window-store (fill p) p.bytes p.nread (p.nwrite % pipe_size) x v.read_word h (omega arith))

-- The code's test for a full pipe, and its test for an empty one.
pub full_iff : {p : Pipe} → IsValid p → p.nwrite ≢ add_u32 p.nread pipe_size → fill p < pipe_size
full_iff v h = omega arith

abbrev pub advance : Pipe → Pipe
advance p = record p { nread = add_u32 p.nread 1 }

pub advance-IsValid : {p : Pipe} → IsValid p → p.nread ≢ p.nwrite → IsValid (advance p)
advance-IsValid v h = omega arith

pub contents-advance :
    {p : Pipe}
    → IsValid p
    → p.nread ≢ p.nwrite
    → contents p ≡ p.bytes (p.nread % pipe_size) ∷ contents (advance p)
contents-advance {p} v h =
    let e : fill p - 1 ≡ sub_u32 p.nwrite (add_u32 p.nread 1) = omega arith in
    rw (← e) (window_of_pos p.bytes p.nread (fill p) (omega arith))
