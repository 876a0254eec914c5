-- ===== src/Kernel/File/Picks.antt =====
-- The descriptor that fdalloc gives, and one step of filedup and fileclose.
use proyecto_3_sistemas_oper.Base.{
  ℕ, zero, suc, ◌+◌, ◌-◌, ◌<◌, ◌≡◌, ◌≢◌, ◌⊎◌, refl, inl, inr, List, [], ◌∷◌, Option, none, some,
  some_inj, done, arith, pos, minus_one, get_elem?, set,
}
use proyecto_3_sistemas_oper.Kernel.File.{
  File, still_open, dup_one, filedup, close_one, fileclose, fdalloc_from, fdalloc,
}
use proyecto_3_sistemas_oper.Kernel.File.Counts.{none-some, at_place_done}

-- The first descriptor that is not in use is taken, or all are in use.
abbrev Picked : ℕ → ℕ → List (Option ℕ) → Type 0
Picked f k os =
    ((fdalloc_from f k os ≡ (minus_one, os)) × ((i : ℕ) → get_elem? os i ≢ some none))
    ⊎ ((i : ℕ) × (get_elem? os i ≡ some none)
        × (fdalloc_from f k os ≡ (pos (k + i), set os i (some f))))

all_used :
    (g : ℕ) (os : List (Option ℕ))
    → ((i : ℕ) → get_elem? os i ≢ some none)
    → (i : ℕ) → get_elem? (some g ∷ os) i ≢ some none
all_used g os all zero got = some-none (some_inj got)
  where
    some-none : some g ≡ none → ⊥
    some-none h = cc
all_used g os all (suc i) got = all i got

fdalloc_from_lem : (f k : ℕ) (os : List (Option ℕ)) → Picked f k os
unfolding fdalloc_from
fdalloc_from_lem f k [] = inl (refl, λ i got. none-some got)
fdalloc_from_lem f k (none ∷ os) = inr (0, refl, let e : k + 0 ≡ k = omega arith in rw e refl)
fdalloc_from_lem f k (some g ∷ os) = elim (fdalloc_from_lem f (k + 1) os) [
  | inl (ran, all) ↦ inl (rw ran refl, all_used g os all)
  | inr (i, got, ran) ↦
      let place : k + 1 + i ≡ k + suc i = omega arith in inr (suc i, got, rw (ran, place) refl)
]

pub fdalloc_lem :
    (f : ℕ) (os : List (Option ℕ))
    → ((fdalloc f os ≡ (minus_one, os)) × ((i : ℕ) → get_elem? os i ≢ some none))
      ⊎ ((i : ℕ) × (get_elem? os i ≡ some none) × (fdalloc f os ≡ (pos i, set os i (some f))))
unfolding fdalloc
fdalloc_lem f os = elim (fdalloc_from_lem f 0 os) [
  | inl full ↦ inl full
  | inr (i, got, ran) ↦ let e : 0 + i ≡ i = omega arith in inr (i, got, rw e at ran)
]

pub filedup_one :
    (i : ℕ) (fs : List File) (f : File)
    → get_elem? fs i ≡ some f
    → 0 < f.ref
    → filedup i fs ≡ done (0, set fs i (record f { ref = f.ref + 1 }))
unfolding filedup
filedup_one i fs f got some_ref =
    at_place_done dup_one i fs f (record f { ref = f.ref + 1 }) 0 got (ground arith)

pub fileclose_one :
    (i : ℕ) (fs : List File) (f : File)
    → get_elem? fs i ≡ some f
    → 1 < f.ref
    → fileclose i fs ≡ done (still_open, set fs i (record f { ref = f.ref - 1 }))
unfolding fileclose
fileclose_one i fs f got more =
    at_place_done close_one i fs f (record f { ref = f.ref - 1 }) still_open got (ground arith)
