-- ===== src/User/Printf.antt =====
-- user/printf.c: printint, as the bytes that it hands to putc. A `long long` is an integer and its
-- `unsigned long long` a number below 2 ^ 64. The fuel of the loop, 64 rounds, is enough from base 2
-- on.
pub mod Digits
mod Tests
use proyecto_3_sistemas_oper.Base.{
  ℕ, zero, suc, ◌+◌, ◌-◌, ◌/◌, ◌%◌, ◌^◌, ◌==◌, ltb, Bool, if◌then◌else◌, List, [], ◌∷◌, ◌++◌, ℤ,
  pos, negsuc,
}

-- `digits[d]`
abbrev pub digit : ℕ → ℕ
digit d = if ltb d 10 then b'0' + d else b'A' + (d - 10)

-- What `do{ buf[i++] = digits[x % base]; }while((x /= base) != 0);` puts into buf.
pub digits_from : ℕ → ℕ → ℕ → List ℕ
digits_from zero base x = []
digits_from (suc fuel) base x =
    let rest = digits_from fuel base (x / base) in
    digit (x % base) ∷ (if x / base == 0 then [] else rest)

-- `while(--i >= 0) putc(fd, buf[i]);`, where `acc` follows.
pub put_back : List ℕ → List ℕ → List ℕ
put_back [] acc = acc
put_back (c ∷ cs) acc = put_back cs (c ∷ acc)

-- The buffer: the digits, the lowest first, and the sign.
pub buffer : ℤ → ℕ → Bool → List ℕ
unfolding digits_from
buffer (pos n) base sgn = digits_from 64 base n
buffer (negsuc n) base sgn =
    if sgn then digits_from 64 base (suc n) ++ (b'-' ∷ []) else digits_from 64 base (2 ^ 64 - suc n)

pub printint : ℤ → ℕ → Bool → List ℕ
unfolding buffer put_back
printint xx base sgn = put_back (buffer xx base sgn) []
