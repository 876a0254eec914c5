-- ===== src/Kernel/Sysfile/Dup.antt =====
-- dup and close on the descriptors and the references.
use proyecto_3_sistemas_oper.Base.{
  ℕ, zero, suc, ◌+◌, ◌-◌, ◌≤◌, ◌<◌, ◌≡◌, ◌≢◌, ◌⊎◌, refl, sym, ap, ◌∙◌, inl, inr, false, leb, List,
  [], ◌∷◌, Option, none, some, some_inj, Outcome, done, ◌>>=◌, arith, ℤ, pos, minus_one, get_elem?,
  set, set-set, length,
}
use proyecto_3_sistemas_oper.Kernel.File.{File, still_open, fileclose, fdalloc}
use proyecto_3_sistemas_oper.Kernel.File.Counts.{none-some, get_elem?-set, set_same}
use proyecto_3_sistemas_oper.Kernel.File.Picks.{fdalloc_lem, filedup_one, fileclose_one}
use proyecto_3_sistemas_oper.Kernel.Sysfile.{
  nofile, argfd, dup_to, dup_found, close_found, sys_dup, sys_close,
}

get_elem?-lt :
    (os : List (Option ℕ)) (i : ℕ) {o : Option ℕ} → get_elem? os i ≡ some o → i < length os
get_elem?-lt [] i got = absurd (none-some got)
get_elem?-lt (p ∷ os) zero got = omega arith
get_elem?-lt (p ∷ os) (suc i) got = let h = get_elem?-lt os i got in omega (arith, h)

put_there :
    (os : List (Option ℕ)) (i : ℕ) (o p : Option ℕ)
    → get_elem? os i ≡ some p
    → get_elem? (set os i o) i ≡ some o
put_there [] i o p got = absurd (none-some got)
put_there (q ∷ os) zero o p got = refl
put_there (q ∷ os) (suc i) o p got = put_there os i o p got

put_same : (os : List (Option ℕ)) (i : ℕ) (o : Option ℕ) → get_elem? os i ≡ some o → set os i o ≡ os
put_same [] i o got = refl
put_same (q ∷ os) zero o got = ap (λ (x : Option ℕ). x ∷ os) (sym (some_inj got))
put_same (q ∷ os) (suc i) o got = ap (λ (x : List (Option ℕ)). q ∷ x) (put_same os i o got)

argfd-there :
    (os : List (Option ℕ)) (i f : ℕ)
    → i < nofile
    → get_elem? os i ≡ some (some f)
    → argfd (pos i) os ≡ some (i, f)
argfd-there os i f lt got =
    let inside : leb nofile i ≡ false = ground (arith, lt) in rw (inside, got) refl

sys_dup-found :
    (fd : ℤ) (k f : ℕ) (os : List (Option ℕ)) (fs : List File)
    → argfd fd os ≡ some (k, f)
    → sys_dup fd os fs ≡ dup_to f fs (fdalloc f os)
unfolding sys_dup
sys_dup-found fd k f os fs h = ap (dup_found os fs) h

sys_close-found :
    (fd : ℤ) (k f : ℕ) (os : List (Option ℕ)) (fs : List File)
    → argfd fd os ≡ some (k, f)
    → sys_close fd os fs ≡ (fileclose f fs >>= λ (c, fs'). done (pos 0, c, set os k none, fs'))
unfolding sys_close
sys_close-found fd k f os fs h = ap (close_found os fs) h

-- `dup` of a descriptor that is open, to a file with references, in a process with at most NOFILE
-- descriptors, does not panic. It returns -1 and changes nothing, and then every descriptor is in
-- use; or it returns one that was not in use, which is then open for the same file, and to
-- `close` the new descriptor returns 0, leaves the file open, and brings back the descriptors and
-- the table of files as they were before.
pub sys_close-sys_dup :
    (fd : ℤ) (k f : ℕ) (os : List (Option ℕ)) (fs : List File) (file : File)
    → argfd fd os ≡ some (k, f)
    → get_elem? fs f ≡ some file
    → 0 < file.ref
    → length os ≤ nofile
    → ((sys_dup fd os fs ≡ done (minus_one, os, fs)) × ((i : ℕ) → get_elem? os i ≢ some none))
      ⊎ ((i : ℕ) × (os' : List (Option ℕ)) × (fs' : List File) × (sys_dup fd os fs
            ≡ done (pos i, os', fs'))
          × (get_elem? os i ≡ some none)
          × (argfd (pos i) os' ≡ some (i, f))
          × (sys_close (pos i) os' fs' ≡ done (pos 0, still_open, os, fs)))
sys_close-sys_dup fd k f os fs file opened there some_ref short = elim (fdalloc_lem f os) [
  | inl (ran, full) ↦ inl (sys_dup-found fd k f os fs opened ∙ ap (dup_to f fs) ran, full)
  | inr (i, unused, ran) ↦
      let lt = get_elem?-lt os i unused in
      let os' = set os i (some f) in
      let more : File = record file { ref = file.ref + 1 } in
      let fs' = set fs f more in
      let now_open =
        argfd-there os' i f (omega (arith, lt, short)) (put_there os i (some f) none unused) in
      let closed =
        fileclose_one f fs' more (get_elem?-set fs f file more there) (omega (arith, some_ref)) in
      let same_ref : file.ref + 1 - 1 ≡ file.ref = omega arith in
      inr (
        i,
        os',
        fs',
        sys_dup-found fd k f os fs opened
            ∙ ap (dup_to f fs) ran
            ∙ ap (λ (o : Outcome (ℕ × List File)). o >>= λ r. done (pos i, os', r.1))
                (filedup_one f fs file there some_ref),
        unused,
        now_open,
        sys_close-found (pos i) i f os' fs' now_open
            ∙ ap (λ o. o >>= λ (c, gs). done (pos 0, c, set os' i none, gs)) closed
            ∙ ap
                (λ (x : List (Option ℕ)).
                  done (pos 0, still_open, x, set fs' f (record more { ref = file.ref + 1 - 1 })))
                (set-set os i (some f) none ∙ put_same os i none unused)
            ∙ ap (λ (x : List File). done (pos 0, still_open, os, x))
                (set-set fs f more (record more { ref = file.ref + 1 - 1 })
                  ∙ rw same_ref (set_same fs f file there)),
      )
]
