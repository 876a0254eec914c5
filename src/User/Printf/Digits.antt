-- ===== src/User/Printf/Digits.antt =====
-- The digits that printint writes: how many, and their value.
use proyecto_3_sistemas_oper.Base.{
  ℕ, zero, suc, ◌+◌, ◌-◌, ◌*◌, ◌/◌, ◌%◌, ◌^◌, ◌≤◌, ◌<◌, ◌≡◌, ◌⊎◌, refl, ap, ◌∙◌, inl, inr, Bool,
  true, false, ◌==◌, List, [], ◌∷◌, length, length-append, All, some, arith, Bool-cases, eqb→eq, ℤ,
  pos, negsuc,
}
use proyecto_3_sistemas_oper.Kernel.Strings.{Memory}
use proyecto_3_sistemas_oper.User.Ulib.{is_digit, atoi}
use proyecto_3_sistemas_oper.User.Ulib.Numbers.{Numeral, decimal, atoi_lem}
use proyecto_3_sistemas_oper.User.Printf.{digit, digits_from, put_back, buffer, printint}

more_digits :
    (fuel base x : ℕ)
    → (x / base == 0) ≡ false
    → length (digits_from (suc fuel) base x) ≡ suc (length (digits_from fuel base (x / base)))
unfolding digits_from
more_digits fuel base x h = rw h refl

last_digit : (fuel base x : ℕ) → (x / base == 0) ≡ true → length (digits_from (suc fuel) base x) ≡ 1
unfolding digits_from
last_digit fuel base x h = rw h refl

no_digits : (base x : ℕ) → length (digits_from 0 base x) ≡ 0
unfolding digits_from
no_digits base x = refl

-- A number below base ^ (k + 1) has at most k + 1 digits.
digits_bound :
    (base : ℕ)
    → ((k : ℕ) → base ^ suc k ≡ base * base ^ k)
    → base ^ 0 ≡ 1
    → ((x p : ℕ) → x < base * p → x / base < p)
    → (fuel k x : ℕ) → x < base ^ suc k
    → length (digits_from fuel base x) ≤ suc k
digits_bound base power one divided zero k x lt = rw (no_digits base x) (omega arith)
digits_bound base power one divided (suc fuel) k x lt = elim (Bool-cases (x / base == 0)) [
  | inl last ↦ rw (last_digit fuel base x last) (omega arith)
  | inr more ↦
      let below : x / base < base ^ k = divided x (base ^ k) (rw (power k) at lt) in
      let (j, e) = not_first k more below in
      let rest = digits_bound base power one divided fuel j (x / base) (rw e at below) in
      rw (more_digits fuel base x more, e) (omega (arith, rest))
]
  where
    positive : (y : ℕ) → (y == 0) ≡ false → y < 1 → ⊥
    positive y h lt = ground arith

    not_first : (k : ℕ) → (x / base == 0) ≡ false → x / base < base ^ k → (j : ℕ) × (k ≡ suc j)
    not_first zero more below = absurd (positive (x / base) more (rw one at below))
    not_first (suc j) more below = (j, refl)

ten_power : (k : ℕ) → 10 ^ suc k ≡ 10 * 10 ^ k
ten_power k = grind arith

sixteen_power : (k : ℕ) → 16 ^ suc k ≡ 16 * 16 ^ k
sixteen_power k = grind arith

ten_divides : (x p : ℕ) → x < 10 * p → x / 10 < p
ten_divides x p h = omega arith

sixteen_divides : (x p : ℕ) → x < 16 * p → x / 16 < p
sixteen_divides x p h = omega arith

length-put_back : (cs acc : List ℕ) → length (put_back cs acc) ≡ length cs + length acc
unfolding put_back
length-put_back [] acc = omega arith
length-put_back (c ∷ cs) acc = length-put_back cs (c ∷ acc) ∙ omega arith

decimal_digits : (x : ℕ) → x < 2 ^ 64 → length (digits_from 64 10 x) ≤ 20
decimal_digits x h = digits_bound 10 ten_power refl ten_divides 64 19 x (omega (arith, h))

signed_digits : (x : ℕ) → x ≤ 2 ^ 63 → length (digits_from 64 10 x) ≤ 19
signed_digits x h = digits_bound 10 ten_power refl ten_divides 64 18 x (omega (arith, h))

hex_digits : (x : ℕ) → x < 2 ^ 64 → length (digits_from 64 16 x) ≤ 16
hex_digits x h = digits_bound 16 sixteen_power refl sixteen_divides 64 15 x (omega (arith, h))

-- The integers of a `long long`.
abbrev pub IsLong : ℤ → Type 0
IsLong (pos n) = n < 2 ^ 63
IsLong (negsuc n) = n < 2 ^ 63

below_20 : {x : ℕ} → x ≤ 16 → x ≤ 20
below_20 h = omega (arith, h)

signed_hex : {x : ℕ} → x ≤ 16 → x + 1 ≤ 20
signed_hex h = omega (arith, h)

one_more : {x : ℕ} → x ≤ 19 → x + 1 ≤ 20
one_more h = omega (arith, h)

-- `printint` of a `long long` to base 10 or 16, signed or not, puts at most 20 bytes into its buffer,
-- which has 20.
pub buffer-fits :
    (xx : ℤ) (base : ℕ) (sgn : Bool)
    → (base ≡ 10) ⊎ (base ≡ 16)
    → IsLong xx
    → length (buffer xx base sgn) ≤ 20
unfolding buffer
buffer-fits (pos n) base sgn (inl ten) range = rw ten (decimal_digits n (omega (arith, range)))
buffer-fits (pos n) base sgn (inr hex) range =
    rw hex (below_20 (hex_digits n (omega (arith, range))))
buffer-fits (negsuc n) base true (inl ten) range =
    rw (ten, length-append (digits_from 64 10 (suc n)) (b'-' ∷ []))
      (one_more (signed_digits (suc n) (omega (arith, range))))
buffer-fits (negsuc n) base false (inl ten) range =
    rw ten (decimal_digits (2 ^ 64 - suc n) (omega arith))
buffer-fits (negsuc n) base true (inr hex) range =
    rw (hex, length-append (digits_from 64 16 (suc n)) (b'-' ∷ []))
      (signed_hex (hex_digits (suc n) (omega (arith, range))))
buffer-fits (negsuc n) base false (inr hex) range =
    rw hex (below_20 (hex_digits (2 ^ 64 - suc n) (omega arith)))

-- A number of decimal digits, low first, and their value.
low_value : List ℕ → ℕ
low_value [] = 0
low_value (d ∷ ds) = (d - b'0') + 10 * low_value ds

decimal-put_back :
    (ds acc : List ℕ) → decimal (put_back ds acc) ≡ low_value ds * 10 ^ length acc + decimal acc
unfolding put_back low_value
decimal-put_back [] acc = omega arith
decimal-put_back (d ∷ ds) acc =
    decimal-put_back ds (d ∷ acc)
    ∙ rw (ten_power (length acc))
        (regroup (low_value ds) (10 ^ length acc) (d - b'0') (decimal acc))
  where
    regroup : (v p d r : ℕ) → v * (10 * p) + (d * p + r) ≡ (d + 10 * v) * p + r
    regroup v p d r = grind arith

digit_value : (x : ℕ) → digit (x % 10) - b'0' ≡ x % 10
digit_value x = ground arith

low_value-digits_from : (fuel x : ℕ) → x < 10 ^ fuel → low_value (digits_from fuel 10 x) ≡ x
unfolding low_value digits_from
low_value-digits_from zero x lt = omega (arith, lt)
low_value-digits_from (suc fuel) x lt = elim (Bool-cases (x / 10 == 0)) [
  | inl last ↦ let small = eqb→eq (x / 10) 0 last in rw (last, digit_value x) (omega (arith, small))
  | inr more ↦
      let rest =
        low_value-digits_from fuel (x / 10)
          (ten_divides x (10 ^ fuel) (rw (ten_power fuel) at lt)) in
      rw (more, digit_value x, rest) (omega arith)
]

digits-are_digits : (fuel x : ℕ) → All (λ d. is_digit d ≡ true) (digits_from fuel 10 x)
unfolding digits_from
digits-are_digits zero x = tt
digits-are_digits (suc fuel) x =
    let first : is_digit (digit (x % 10)) ≡ true = ground arith in
    elim (Bool-cases (x / 10 == 0)) [
      | inl last ↦ rw last (first, tt)
      | inr more ↦ rw more (first, digits-are_digits fuel (x / 10))
    ]

All-put_back :
    (cs acc : List ℕ)
    → All (λ d. is_digit d ≡ true) cs
    → All (λ d. is_digit d ≡ true) acc
    → All (λ d. is_digit d ≡ true) (put_back cs acc)
unfolding put_back
All-put_back [] acc h k = k
All-put_back (c ∷ cs) acc h k = All-put_back cs (c ∷ acc) h.1 (h.0, k)

-- The bytes stand in memory from s on, and no digit behind them.
abbrev pub Text : Memory → ℕ → List ℕ → Type 0
Text m s [] = is_digit (m s) ≡ false
Text m s (d ∷ ds) = (m s ≡ d) × Text m (s + 1) ds

Text-Numeral :
    (m : Memory) (s : ℕ) (ds : List ℕ)
    → All (λ d. is_digit d ≡ true) ds
    → Text m s ds
    → Numeral m s ds
Text-Numeral m s [] h t = t
Text-Numeral m s (d ∷ ds) h t = (t.0, h.0, Text-Numeral m (s + 1) ds h.1 t.1)

-- `atoi` of the text that `printint` writes to base 10 for a number below 2^31 - 48, with no digit
-- behind it, returns the number.
pub atoi-printint :
    (m : Memory) (s n : ℕ) (sgn : Bool)
    → n + b'0' < 2 ^ 31
    → Text m s (printint (pos n) 10 sgn)
    → atoi m s 21 ≡ some n
unfolding printint buffer
atoi-printint m s n sgn lt t =
    let ds = put_back (digits_from 64 10 n) [] in
    let numeral =
      Text-Numeral m s ds (All-put_back (digits_from 64 10 n) [] (digits-are_digits 64 n) tt) t in
    let short : length ds < 21 =
      let count = length-put_back (digits_from 64 10 n) [] in
      let few = decimal_digits n (omega (arith, lt)) in omega (arith, count, few) in
    let value : decimal ds ≡ n =
      decimal-put_back (digits_from 64 10 n) []
      ∙ unit (low_value (digits_from 64 10 n))
      ∙ low_value-digits_from 64 n (omega (arith, lt)) in
    atoi_lem ds m s 21 short numeral (rw value lt) ∙ ap some value
  where
    unit : (x : ℕ) → x * 1 + 0 ≡ x
    unit x = omega arith
