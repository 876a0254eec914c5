-- ===== src/Kernel/Path/Elements.antt =====
-- Where the loops of skipelem stop.
use proyecto_3_sistemas_oper.Base.{
  ℕ, zero, suc, ◌+◌, ◌≤◌, ◌≡◌, ◌≢◌, ◌⊎◌, refl, sym, ap, ◌∙◌, inl, inr, true, false, ◌==◌, arith,
  Bool-cases, eqb→eq,
}
use proyecto_3_sistemas_oper.Kernel.Strings.{Memory}
use proyecto_3_sistemas_oper.Kernel.Path.{slash, skip_slashes, find_end}

-- In a string of k bytes, with fuel for them, the element ends at a slash or at the NUL.
find_end_lem :
    (fuel k : ℕ) (m : Memory) (path : ℕ)
    → k ≤ fuel
    → m (path + k) ≡ 0
    → (m (find_end fuel m path) ≡ slash) ⊎ (m (find_end fuel m path) ≡ 0)
unfolding find_end
find_end_lem zero k m path enough null =
    let here : path + k ≡ path = omega (arith, enough) in inr (ap m (sym here) ∙ null)
find_end_lem (suc fuel) zero m path enough null =
    let here : path + 0 ≡ path = omega arith in
    let at_null : m path ≡ 0 = ap m (sym here) ∙ null in rw at_null (inr at_null)
find_end_lem (suc fuel) (suc k) m path enough null =
    let next : path + suc k ≡ path + 1 + k = omega arith in
    elim (Bool-cases (m path == slash)) [
      | inl at_slash ↦ rw at_slash (inl (eqb→eq (m path) slash at_slash))
      | inr no_slash ↦ elim (Bool-cases (m path == 0)) [
        | inl at_null ↦ rw (no_slash, at_null) (inr (eqb→eq (m path) 0 at_null))
        | inr byte ↦
            rw (no_slash, byte)
              (find_end_lem fuel k m (path + 1) (omega (arith, enough)) (ap m (sym next) ∙ null))
      ]
    ]

null-slash : 0 ≡ slash → ⊥
null-slash h = omega arith

true-false : true ≡ false → ⊥
true-false h = cc

-- And what comes behind the slashes is none.
skip_slashes_lem :
    (fuel k : ℕ) (m : Memory) (path : ℕ)
    → k ≤ fuel
    → m (path + k) ≡ 0
    → m (skip_slashes fuel m path) ≢ slash
unfolding skip_slashes
skip_slashes_lem zero k m path enough null =
    let here : path + k ≡ path = omega (arith, enough) in
    λ z. null-slash (sym (ap m (sym here) ∙ null) ∙ z)
skip_slashes_lem (suc fuel) zero m path enough null =
    let here : path + 0 ≡ path = omega arith in
    let at_null : m path ≡ 0 = ap m (sym here) ∙ null in
    rw at_null (λ z. null-slash (sym at_null ∙ z))
skip_slashes_lem (suc fuel) (suc k) m path enough null =
    let next : path + suc k ≡ path + 1 + k = omega arith in
    elim (Bool-cases (m path == slash)) [
      | inr other_byte ↦ rw other_byte (λ z. true-false (sym (rw z refl) ∙ other_byte))
      | inl at_slash ↦
          rw at_slash
            (skip_slashes_lem fuel k m (path + 1) (omega (arith, enough)) (ap m (sym next) ∙ null))
    ]
