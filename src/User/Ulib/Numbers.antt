-- ===== src/User/Ulib/Numbers.antt =====
-- What atoi reads.
use proyecto_3_sistemas_oper.Base.{
  ℕ, zero, suc, ◌+◌, ◌-◌, ◌*◌, ◌^◌, ◌<◌, ◌≤◌, ltb, sym, ◌≡◌, ap, ◌∙◌, true, false, List, [], ◌∷◌,
  length, some, arith,
}
use proyecto_3_sistemas_oper.Kernel.Strings.{Memory}
use proyecto_3_sistemas_oper.User.Ulib.{is_digit, atoi_from, atoi}

-- The digits stand in memory from s on, and no digit behind them.
abbrev pub Numeral : Memory → ℕ → List ℕ → Type 0
Numeral m s [] = is_digit (m s) ≡ false
Numeral m s (d ∷ ds) = m s ≡ d × is_digit d ≡ true × Numeral m (s + 1) ds

-- The number that the digits stand for.
abbrev pub decimal : List ℕ → ℕ
decimal [] = 0
decimal (d ∷ ds) = (d - b'0') * 10 ^ length ds + decimal ds

shift : (n v p r : ℕ) → (n * 10 + v) * p + r ≡ n * (10 * p) + (v * p + r)
shift n v p r = grind arith

pow_suc : (k : ℕ) → 10 ^ suc k ≡ 10 * 10 ^ k
pow_suc k = grind arith

times_power : (v k : ℕ) → v ≤ v * 10 ^ k
times_power v zero = omega arith
times_power v (suc k) =
    let more = times_power v k in
    let step : v * 10 ^ suc k ≡ 10 * (v * 10 ^ k) = rw (pow_suc k) (swap v (10 ^ k)) in
    omega (arith, more, step)
  where
    swap : (v p : ℕ) → v * (10 * p) ≡ 10 * (v * p)
    swap v p = grind arith

digit_range : (d : ℕ) → is_digit d ≡ true → b'0' ≤ d
digit_range d h = ground arith

ltb-true : {a b : ℕ} → a < b → ltb a b ≡ true
ltb-true {a} {b} h = ground arith

atoi_from_lem :
    (ds : List ℕ) (m : Memory) (s n fuel : ℕ)
    → length ds < fuel
    → Numeral m s ds
    → n * 10 ^ length ds + decimal ds + b'0' < 2 ^ 31
    → atoi_from m s n fuel ≡ some (n * 10 ^ length ds + decimal ds)
unfolding atoi_from
atoi_from_lem ds m s n zero lt h low = elim lt [ ]
atoi_from_lem [] m s n (suc fuel) lt h low = rw h (ap some (omega arith))
atoi_from_lem (d ∷ ds) m s n (suc fuel) lt h low =
    let moved = shift n (d - b'0') (10 ^ length ds) (decimal ds) in
    let total : n * 10 ^ suc (length ds) + ((d - b'0') * 10 ^ length ds + decimal ds)
        ≡ (n * 10 + (d - b'0')) * 10 ^ length ds + decimal ds =
      rw (pow_suc (length ds)) (sym moved) in
    let low' : (n * 10 + (d - b'0')) * 10 ^ length ds + decimal ds + b'0' < 2 ^ 31 =
      omega (arith, total, low) in
    let fits : n * 10 + d < 2 ^ 31 =
      omega (arith, low', times_power (n * 10 + (d - b'0')) (length ds), digit_range d h.1) in
    rw (h.0, h.1, ltb-true fits)
      (atoi_from_lem ds m (s + 1) (n * 10 + (d - b'0')) fuel (omega (arith, lt)) h.2 low'
        ∙ ap some (sym total))

-- `atoi` of a numeral returns the number that its decimal digits stand for, if that is at most
-- 2^31 - 49, so that the int does not overflow before '0' is subtracted; one round more than the
-- numeral has digits is enough.
pub atoi_lem :
    (ds : List ℕ) (m : Memory) (s fuel : ℕ)
    → length ds < fuel
    → Numeral m s ds
    → decimal ds + b'0' < 2 ^ 31
    → atoi m s fuel ≡ some (decimal ds)
unfolding atoi
atoi_lem ds m s fuel lt h low =
    atoi_from_lem ds m s 0 fuel lt h (omega (arith, low)) ∙ ap some (omega arith)
