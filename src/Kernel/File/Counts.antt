-- ===== src/Kernel/File/Counts.antt =====
-- Reference counts of open files.
use native.Mathlib.Nat.{add-zero, zero-add}
use proyecto_3_sistemas_oper.Base.{
  ℕ, zero, suc, ◌+◌, ◌-◌, ◌<◌, ◌≡◌, ◌⊎◌, refl, inl, inr, sym, ap, subst, ◌∙◌, false, ◌==◌, List, [],
  ◌∷◌, none, some, Outcome, done, panic, arith, Bool-cases, eqb→eq, set, get_elem?, some_inj,
  set-set,
}
use proyecto_3_sistemas_oper.Kernel.File.{
  File, fd_none, still_open, closing, filealloc_from, filealloc, at_place, dup_one, filedup,
  close_one, fileclose,
}

pub none-some {ℓ} : {A : Type ℓ} {a : A} → none ≡ some a → ⊥
none-some h = cc

pub at_place_done {ℓ} :
    {A : Type ℓ} (op : File → Outcome (A × File)) (i : ℕ) (fs : List File) (f g : File) (a : A)
    → get_elem? fs i ≡ some f
    → op f ≡ done (a, g)
    → at_place op i fs ≡ done (a, set fs i g)
unfolding at_place
at_place_done op i [] f g a got h = absurd (none-some got)
at_place_done op zero (e ∷ fs) f g a got h = rw (some_inj got, at_place, h) refl
at_place_done op (suc i) (e ∷ fs) f g a got h =
    rw (at_place, at_place_done op i fs f g a got h) refl

pub get_elem?-set :
    (fs : List File) (i : ℕ) (f g : File)
    → get_elem? fs i ≡ some f
    → get_elem? (set fs i g) i ≡ some g
get_elem?-set [] i f g got = absurd (none-some got)
get_elem?-set (e ∷ fs) zero f g got = refl
get_elem?-set (e ∷ fs) (suc i) f g got = get_elem?-set fs i f g got

pub set_same : (fs : List File) (i : ℕ) (f : File) → get_elem? fs i ≡ some f → set fs i f ≡ fs
set_same [] i f got = refl
set_same (e ∷ fs) zero f got = ap (λ (x : File). x ∷ fs) (sym (some_inj got))
set_same (e ∷ fs) (suc i) f got = ap (λ (x : List File). e ∷ x) (set_same fs i f got)

-- The table after n calls of `filedup` on place i.
abbrev pub dups : ℕ → ℕ → List File → Outcome (List File)
dups zero i fs = done fs
dups (suc n) i fs = elim (filedup i fs) [ done (_, gs) ↦ dups n i gs | panic ↦ panic ]

-- n calls of `fileclose` on place i, each of which leaves the file open.
abbrev pub closes : ℕ → ℕ → List File → Outcome (List File)
closes zero i fs = done fs
closes (suc n) i fs = elim (fileclose i fs) [
  | done (still_open, gs) ↦ closes n i gs
  | done (_, gs) ↦ panic
  | panic ↦ panic
]

dups_lem :
    (n i : ℕ) (fs : List File) (f : File)
    → get_elem? fs i ≡ some f
    → 0 < f.ref
    → dups n i fs ≡ done (set fs i (record f { ref = f.ref + n }))
unfolding filedup
dups_lem zero i fs f got some_ref =
    ap done (sym (set_same fs i (record f { ref = f.ref + 0 }) (rw (add-zero f.ref) got)))
dups_lem (suc n) i fs f got some_ref =
    let g : File = record f { ref = f.ref + 1 } in
    let dup : filedup i fs ≡ done (0, set fs i g) =
      at_place_done dup_one i fs f g 0 got (ground arith) in
    let rest : dups n i (set fs i g)
        ≡ done (set (set fs i g) i (record f { ref = f.ref + 1 + n })) =
      dups_lem n i (set fs i g) g (get_elem?-set fs i f g got) (omega arith) in
    rw (dups, dup) (rest ∙ rw (set-set fs i g (record f { ref = f.ref + 1 + n }), more) refl)
  where
    more : f.ref + 1 + n ≡ f.ref + suc n
    more = omega arith

closes_lem :
    (n i : ℕ) (fs : List File) (f : File)
    → get_elem? fs i ≡ some f
    → n < f.ref
    → closes n i fs ≡ done (set fs i (record f { ref = f.ref - n }))
unfolding fileclose
closes_lem zero i fs f got more =
    let same : f.ref - 0 ≡ f.ref = omega arith in
    ap done (sym (set_same fs i (record f { ref = f.ref - 0 }) (rw same got)))
closes_lem (suc n) i fs f got more =
    let g : File = record f { ref = f.ref - 1 } in
    let closed : fileclose i fs ≡ done (still_open, set fs i g) =
      at_place_done close_one i fs f g still_open got (ground arith) in
    let rest : closes n i (set fs i g)
        ≡ done (set (set fs i g) i (record f { ref = f.ref - 1 - n })) =
      closes_lem n i (set fs i g) g (get_elem?-set fs i f g got) (omega arith) in
    rw (closes, closed) (rest ∙ rw (set-set fs i g (record f { ref = f.ref - 1 - n }), less) refl)
  where
    less : f.ref - 1 - n ≡ f.ref - suc n
    less = omega arith

-- A file with references survives as many calls of `fileclose` as there were calls of `filedup`,
-- none of which panics, and is then as it was; after one more for each older reference but the
-- last, the next `fileclose` closes it: it hands on the file's pipe or inode and clears the entry.
pub closes-dups :
    (n i : ℕ) (fs : List File) (f : File)
    → get_elem? fs i ≡ some f
    → 0 < f.ref
    → (gs hs : List File) × (dups n i fs ≡ done gs)
      × (closes n i gs ≡ done fs)
      × (closes (f.ref - 1) i fs ≡ done hs)
      × (fileclose i hs ≡ done (closing f, set fs i (record f { ref = 0; type_of = fd_none })))
unfolding fileclose
closes-dups n i fs f got some_ref =
    let g : File = record f { ref = f.ref + n } in
    let h : File = record f { ref = f.ref - (f.ref - 1) } in
    let last : File = record f { ref = 0; type_of = fd_none } in
    (
      set fs i g,
      set fs i h,
      dups_lem n i fs f got some_ref,
      closes_lem n i (set fs i g) g (get_elem?-set fs i f g got) (omega arith)
          ∙ ap done
              (set-set fs i g (record f { ref = f.ref + n - n }) ∙ rw back (set_same fs i f got)),
      closes_lem (f.ref - 1) i fs f got (omega arith),
      at_place_done close_one i (set fs i h) h last (closing f) (get_elem?-set fs i f h got)
            (ground arith)
          ∙ ap (λ (x : List File). done (closing f, x)) (set-set fs i h last),
    )
  where
    back : f.ref + n - n ≡ f.ref
    back = omega arith

all_busy :
    (e : File) (fs : List File)
    → (e.ref == 0) ≡ false
    → ((i : ℕ) (f : File) → get_elem? fs i ≡ some f → 0 < f.ref)
    → (i : ℕ) (f : File) → get_elem? (e ∷ fs) i ≡ some f
    → 0 < f.ref
all_busy e fs used busy zero f got = subst (λ (q : File). 0 < q.ref) (some_inj got) (ground arith)
all_busy e fs used busy (suc i) f got = busy i f got

filealloc_from_lem :
    (k : ℕ) (fs : List File)
    → ((filealloc_from k fs ≡ (none, fs))
        × ((i : ℕ) (f : File) → get_elem? fs i ≡ some f → 0 < f.ref))
      ⊎ ((i : ℕ) × (f : File) × (get_elem? fs i ≡ some f)
          × (f.ref ≡ 0)
          × (filealloc_from k fs ≡ (some (k + i), set fs i (record f { ref = 1 }))))
unfolding filealloc_from
filealloc_from_lem k [] = inl (refl, λ i f got. absurd (none-some got))
filealloc_from_lem k (e ∷ fs) = elim (Bool-cases (e.ref == 0)) [
  | inl free ↦ inr (0, e, refl, eqb→eq e.ref 0 free, rw (free, add-zero k) refl)
  | inr used ↦ elim (filealloc_from_lem (k + 1) fs) [
    | inl (eq, busy) ↦ inl (rw (used, eq) refl, all_busy e fs used busy)
    | inr (i, f, got, free, eq) ↦ inr (suc i, f, got, free, rw (used, eq) (rw (shift i) refl))
  ]
]
  where
    shift : (i : ℕ) → k + 1 + i ≡ k + suc i
    shift i = omega arith

-- `filealloc` fails only if every entry has references; otherwise the entry it gives is one without
-- references, which now has one, and no other entry changes.
pub filealloc_lem :
    (fs : List File)
    → ((filealloc fs ≡ (none, fs)) × ((i : ℕ) (f : File) → get_elem? fs i ≡ some f → 0 < f.ref))
      ⊎ ((i : ℕ) × (f : File) × (get_elem? fs i ≡ some f)
          × (f.ref ≡ 0)
          × (filealloc fs ≡ (some i, set fs i (record f { ref = 1 }))))
unfolding filealloc
filealloc_lem fs = elim (filealloc_from_lem 0 fs) [
  | inl none_free ↦ inl none_free
  | inr (i, f, got, free, eq) ↦ inr (i, f, got, free, rw (zero-add i) at eq)
]
