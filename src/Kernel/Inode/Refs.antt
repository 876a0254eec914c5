-- ===== src/Kernel/Inode/Refs.antt =====
-- The references that the table of inodes counts.
use native.Mathlib.Nat.{add-zero, zero-add}
use proyecto_3_sistemas_oper.Base.{
  ℕ, zero, suc, ◌+◌, ◌≤◌, ◌<◌, ◌≡◌, ◌⊎◌, refl, inl, inr, sym, ap, subst, ◌∙◌, true, ◌==◌,
  if◌then◌else◌, ◌&&◌, List, [], ◌∷◌, none, some, done, panic, arith, Bool-cases, Option-cases,
  eqb→eq, get_elem?, some_inj,
}
use proyecto_3_sistemas_oper.Kernel.Inode.{
  Inode, is_for, find_ref, find_empty, modify_at, idup, claim, iget,
}

none-some {ℓ} : {A : Type ℓ} {a : A} → none ≡ some a → ⊥
none-some h = cc

find_empty-none :
    (k : ℕ) (ips : List Inode)
    → find_empty k ips ≡ none
    → (i : ℕ) (ip : Inode) → get_elem? ips i ≡ some ip
    → 0 < ip.ref
unfolding find_empty
find_empty-none k [] h i ip got = absurd (none-some got)
find_empty-none k (jp ∷ ips) h zero ip got = elim (Bool-cases (jp.ref == 0)) [
  | inl free ↦ absurd (none-some (sym (rw free at h)))
  | inr used ↦ subst (λ (q : Inode). 0 < q.ref) (some_inj got) (ground arith)
]
find_empty-none k (jp ∷ ips) h (suc i) ip got = elim (Bool-cases (jp.ref == 0)) [
  | inl free ↦ absurd (none-some (sym (rw free at h)))
  | inr used ↦ find_empty-none (k + 1) ips (rw used at h) i ip got
]

abbrev pub total : (Inode → ℕ) → List Inode → ℕ
total w [] = 0
total w (ip ∷ ips) = w ip + total w ips

abbrev pub refs_of : ℕ → ℕ → Inode → ℕ
refs_of dev inum ip = if is_for dev inum ip then ip.ref else 0

abbrev pub one_for : ℕ → ℕ → Inode → ℕ
one_for dev inum ip = if is_for dev inum ip then 1 else 0

-- The references to an inode over the whole table.
abbrev pub refs : ℕ → ℕ → List Inode → ℕ
refs dev inum = total (refs_of dev inum)

-- No inode has two entries in use.
abbrev pub Unique : List Inode → Type 0
Unique ips = (dev inum : ℕ) → total (one_for dev inum) ips ≤ 1

find_ref-none :
    (dev inum i : ℕ) (ips : List Inode)
    → find_ref dev inum i ips ≡ none
    → total (one_for dev inum) ips ≡ 0
unfolding find_ref
find_ref-none dev inum i [] h = refl
find_ref-none dev inum i (ip ∷ ips) h = elim (Bool-cases (is_for dev inum ip)) [
  | inl hit ↦ ground arith
  | inr miss ↦ ground (arith, find_ref-none dev inum (i + 1) ips)
]

find_ref-some :
    (dev inum k r : ℕ) (ips : List Inode)
    → find_ref dev inum k ips ≡ some r
    → (i : ℕ) × (ip : Inode) × (r ≡ k + i)
      × (get_elem? ips i ≡ some ip)
      × (is_for dev inum ip ≡ true)
unfolding find_ref
find_ref-some dev inum k r [] h = absurd (none-some h)
find_ref-some dev inum k r (ip ∷ ips) h = elim (Bool-cases (is_for dev inum ip)) [
  | inl hit ↦ (0, ip, sym (some_inj (rw hit at h)) ∙ sym (add-zero k), refl, hit)
  | inr miss ↦
      let (i, jp, place, got, found) = find_ref-some dev inum (k + 1) r ips (rw miss at h) in
      (suc i, jp, omega (arith, place), got, found)
]

find_empty-some :
    (k r : ℕ) (ips : List Inode)
    → find_empty k ips ≡ some r
    → (i : ℕ) × (ip : Inode) × (r ≡ k + i) × (get_elem? ips i ≡ some ip) × (ip.ref ≡ 0)
unfolding find_empty
find_empty-some k r [] h = absurd (none-some h)
find_empty-some k r (ip ∷ ips) h = elim (Bool-cases (ip.ref == 0)) [
  | inl hit ↦ (0, ip, sym (some_inj (rw hit at h)) ∙ sym (add-zero k), refl, eqb→eq ip.ref 0 hit)
  | inr miss ↦
      let (i, jp, place, got, found) = find_empty-some (k + 1) r ips (rw miss at h) in
      (suc i, jp, omega (arith, place), got, found)
]

total-modify_at :
    (w : Inode → ℕ) (f : Inode → Inode) (i : ℕ) (ips : List Inode) (ip : Inode)
    → get_elem? ips i ≡ some ip
    → total w (modify_at i f ips) + w ip ≡ total w ips + w (f ip)
unfolding modify_at
total-modify_at w f i [] ip h = absurd (none-some h)
total-modify_at w f zero (jp ∷ ips) ip h = rw (some_inj h) (omega arith)
total-modify_at w f (suc i) (jp ∷ ips) ip h = omega (arith, total-modify_at w f i ips ip h)

get_elem?-modify_at :
    (f : Inode → Inode) (i : ℕ) (ips : List Inode) (ip : Inode)
    → get_elem? ips i ≡ some ip
    → get_elem? (modify_at i f ips) i ≡ some (f ip)
unfolding modify_at
get_elem?-modify_at f i [] ip h = absurd (none-some h)
get_elem?-modify_at f zero (jp ∷ ips) ip h = ap some (ap f (some_inj h))
get_elem?-modify_at f (suc i) (jp ∷ ips) ip h = get_elem?-modify_at f i ips ip h

-- What `iget` of an inode has done to the table.
pub record Got (dev inum : ℕ) (ips : List Inode) (r : ℕ × List Inode) : Type 0 where
  pub entry : (ip : Inode) × (get_elem? r.1 r.0 ≡ some ip) × (is_for dev inum ip ≡ true)
  pub unique : Unique r.1
  pub counted : (d n : ℕ) → refs d n r.1 ≡ (if d == dev && n == inum then 1 else 0) + refs d n ips

more_refs :
    (dev inum d n : ℕ) (ip : Inode)
    → is_for dev inum ip ≡ true
    → let jp = record ip { ref = ip.ref + 1 } in
      (is_for dev inum jp ≡ true)
      × (one_for d n jp ≡ one_for d n ip)
      × (refs_of d n jp ≡ (if d == dev && n == inum then 1 else 0) + refs_of d n ip)
more_refs dev inum d n ip h = (ground arith, ground arith, ground arith)

first_ref :
    (dev inum d n : ℕ) (ip : Inode)
    → ip.ref ≡ 0
    → (is_for dev inum (claim dev inum ip) ≡ true)
      × (one_for d n (claim dev inum ip) ≡ (if d == dev && n == inum then 1 else 0))
      × (refs_of d n (claim dev inum ip) ≡ (if d == dev && n == inum then 1 else 0))
      × (one_for d n ip ≡ 0)
      × (refs_of d n ip ≡ 0)
first_ref dev inum d n ip h = (ground arith, ground arith, ground arith, ground arith, ground arith)

iget_found :
    (dev inum : ℕ) (ips : List Inode) (i : ℕ) (ip : Inode)
    → get_elem? ips i ≡ some ip
    → is_for dev inum ip ≡ true
    → Unique ips
    → Got dev inum ips (i, idup i ips)
unfolding idup
iget_found dev inum ips i ip got hit u =
    let grow : Inode → Inode = λ jp. record jp { ref = jp.ref + 1 } in
    record {
      entry =
          (grow ip, get_elem?-modify_at grow i ips ip got, (more_refs dev inum dev inum ip hit).0);
      unique = λ d n. omega (
        arith,
        u d n,
        total-modify_at (one_for d n) grow i ips ip got,
        (more_refs dev inum d n ip hit).1,
      );
      counted = λ d n. omega (
        arith,
        total-modify_at (refs_of d n) grow i ips ip got,
        (more_refs dev inum d n ip hit).2,
      );
    }

iget_claimed :
    (dev inum : ℕ) (ips : List Inode) (i : ℕ) (ip : Inode)
    → get_elem? ips i ≡ some ip
    → ip.ref ≡ 0
    → total (one_for dev inum) ips ≡ 0
    → Unique ips
    → Got dev inum ips (i, modify_at i (claim dev inum) ips)
iget_claimed dev inum ips i ip got free away u = record {
  entry = (
    claim dev inum ip,
    get_elem?-modify_at (claim dev inum) i ips ip got,
    (first_ref dev inum dev inum ip free).0,
  );
  unique = λ d n.
      let moved = total-modify_at (one_for d n) (claim dev inum) i ips ip got in
      let (_, after, _, before, _) = first_ref dev inum d n ip free in
      elim (Bool-cases (d == dev && n == inum)) [
        | inl same ↦ omega (arith, none_before d n same, moved, before, rw same at after)
        | inr other ↦ omega (arith, u d n, moved, before, rw other at after)
      ];
  counted = λ d n. omega (
    arith,
    total-modify_at (refs_of d n) (claim dev inum) i ips ip got,
    (first_ref dev inum d n ip free).2,
    (first_ref dev inum d n ip free).4,
  );
}
  where
    none_before : (d n : ℕ) → (d == dev && n == inum) ≡ true → total (one_for d n) ips ≡ 0
    none_before d n same =
        let there : d ≡ dev = ground arith in
        let that : n ≡ inum = ground arith in rw (there, that) away

-- `iget` of an inode, on a table where no inode has two entries in use, gives the place of an entry
-- in use for that inode; still no inode has two; the references to that inode, over the whole
-- table, are one more, and those to every other inode as many as before. It panics only if every
-- entry is in use, and none for that inode.
pub iget_lem :
    (dev inum : ℕ) (ips : List Inode)
    → Unique ips
    → ((iget dev inum ips ≡ panic)
        × (total (one_for dev inum) ips ≡ 0)
        × ((i : ℕ) (ip : Inode) → get_elem? ips i ≡ some ip → 0 < ip.ref))
      ⊎ ((r : ℕ × List Inode) × (iget dev inum ips ≡ done r) × Got dev inum ips r)
unfolding iget
iget_lem dev inum ips u = elim (Option-cases (find_ref dev inum 0 ips)) [
  | inr (r, hit) ↦
      let (i, ip, place, got, found) = find_ref-some dev inum 0 r ips hit in
      inr (
        (r, idup r ips),
        rw (iget, hit) refl,
        subst (λ j. Got dev inum ips (j, idup j ips)) (sym (place ∙ zero-add i))
            (iget_found dev inum ips i ip got found u),
      )
  | inl miss ↦ elim (Option-cases (find_empty 0 ips)) [
    | inl full ↦
        inl (
          rw (iget, miss, full) refl,
          find_ref-none dev inum 0 ips miss,
          find_empty-none 0 ips full,
        )
    | inr (r, free) ↦
        let (i, ip, place, got, unused) = find_empty-some 0 r ips free in
        inr (
          (r, modify_at r (claim dev inum) ips),
          rw (iget, miss, free) refl,
          subst (λ j. Got dev inum ips (j, modify_at j (claim dev inum) ips))
              (sym (place ∙ zero-add i))
              (iget_claimed dev inum ips i ip got unused (find_ref-none dev inum 0 ips miss) u),
        )
  ]
]
