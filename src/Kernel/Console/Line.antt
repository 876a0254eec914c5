-- ===== src/Kernel/Console/Line.antt =====
-- The bytes of the ring between two counters, as a list.
use native.Mathlib.Nat.{zero-add}
use proyecto_3_sistemas_oper.Base.{
  ℕ, zero, suc, ◌+◌, ◌-◌, ◌%◌, ◌^◌, ◌≤◌, ◌<◌, ◌≡◌, refl, ap, ap₂, List, [], ◌∷◌, ◌++◌, arith,
  add_u32, sub_u32, eqb_refl, eqb_of_ne,
}
use proyecto_3_sistemas_oper.Kernel.Strings.{Memory, store}
use proyecto_3_sistemas_oper.Kernel.Console.{Console, input_buf_size}

-- The n bytes from counter value r on.
abbrev pub span : Memory → ℕ → ℕ → List ℕ
span d r zero = []
span d r (suc n) = d (r % input_buf_size) ∷ span d (add_u32 r 1) n

-- A byte written behind the span, within the size of the ring, leaves it alone.
pub span_frame :
    (n : ℕ) (d : Memory) (r i x m : ℕ)
    → r < 2 ^ 32
    → n ≤ m
    → m < input_buf_size
    → i ≡ add_u32 r m % input_buf_size
    → span (store d i x) r n ≡ span d r n
span_frame zero d r i x m hr hn hm e = refl
span_frame (suc n) d r i x m hr hn hm e =
    ap₂ ◌∷◌ (rw (eqb_of_ne i (r % input_buf_size) (λ q. omega arith))) (
      span_frame n d (add_u32 r 1) i x (m - 1) (omega arith) (omega arith) (omega arith)
        (omega arith))

-- A byte written just past the span extends it.
pub span-store :
    (n : ℕ) (d : Memory) (r i x : ℕ)
    → r < 2 ^ 32
    → n < input_buf_size
    → i ≡ add_u32 r n % input_buf_size
    → span (store d i x) r (suc n) ≡ span d r n ++ (x ∷ [])
span-store zero d r i x hr hn e =
    let e' : i ≡ r % input_buf_size = omega arith in rw (e', eqb_refl (r % input_buf_size))
span-store (suc n) d r i x hr hn e =
    ap₂ ◌∷◌ (rw (eqb_of_ne i (r % input_buf_size) (λ q. omega arith)))
      (span-store n d (add_u32 r 1) i x (omega arith) (omega arith) (omega arith))

pub span_split :
    (a : ℕ) (d : Memory) (r b : ℕ)
    → r < 2 ^ 32
    → span d r (a + b) ≡ span d r a ++ span d (add_u32 r a) b
span_split zero d r b hr = let e : add_u32 r 0 ≡ r = omega arith in rw (zero-add b, e)
span_split (suc a) d r b hr =
    let e : suc a + b ≡ suc (a + b) = omega arith in
    let f : add_u32 (add_u32 r 1) a ≡ add_u32 r (suc a) = omega arith in
    rw (e, ← f)
      (ap (λ l. d (r % input_buf_size) ∷ l) (span_split a d (add_u32 r 1) b (omega arith)))

-- The counters are `uint` values in the order r, w, e, with room for what is between them.
pub record IsValid (c : Console) : Type 0 where
  pub r_word : c.r < 2 ^ 32
  pub w_word : c.w < 2 ^ 32
  pub e_word : c.e < 2 ^ 32
  pub order : sub_u32 c.w c.r ≤ sub_u32 c.e c.r
  pub fits : sub_u32 c.e c.r ≤ input_buf_size

-- The input that is ready to be read, and the line that is being typed.
abbrev pub ready : Console → List ℕ
ready c = span c.bytes c.r (sub_u32 c.w c.r)

abbrev pub line : Console → List ℕ
line c = span c.bytes c.w (sub_u32 c.e c.w)
