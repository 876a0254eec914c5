-- ===== src/Kernel/Blocks/Bitmap.antt =====
-- balloc and bfree against the bits of the blocks.
use proyecto_3_sistemas_oper.Base.{
  ℕ, zero, suc, ◌+◌, ◌*◌, ◌/◌, ◌%◌, ◌≤◌, ◌<◌, ◌≡◌, ◌⊎◌, ◌≢◌, refl, inl, inr, Bool, true, false,
  ◌==◌, ltb, if◌then◌else◌, ◌&&◌, none, some, done, arith, Bool-cases, sym, ap, ◌∙◌, eqb_refl,
  eqb→eq, Option-cases,
}
use proyecto_3_sistemas_oper.Kernel.Blocks.{
  Volume, bpb, bblock, scan_bits, take_block, bzero, balloc_from, balloc, bfree, log_block, set_bit,
}

-- Whether the bitmap has the block as in use.
abbrev pub in_use : Volume → ℕ → Bool
in_use v b = v.bits (bblock b v) (b % bpb)

-- The scan stops at the first clear bit of a block below the volume's size.
scan_bits-some :
    (v : Volume) (b : ℕ) (rounds bi r : ℕ)
    → scan_bits v b rounds bi ≡ some r
    → (bi ≤ r) × (r < bi + rounds) × (b + r < v.size) × (v.bits (bblock b v) r ≡ false)
unfolding scan_bits
scan_bits-some v b zero bi r h = cc
scan_bits-some v b (suc rounds) bi r h = elim (Bool-cases (ltb (b + bi) v.size)) [
  | inr out ↦ ground arith
  | inl inside ↦ elim (Bool-cases (v.bits (bblock b v) bi)) [
    | inr clear ↦ ground arith
    | inl taken ↦ ground (arith, scan_bits-some v b rounds (bi + 1) r)
  ]
]

scan_bits-none :
    (v : Volume) (b : ℕ) (rounds bi i : ℕ)
    → scan_bits v b rounds bi ≡ none
    → bi ≤ i
    → i < bi + rounds
    → b + i < v.size
    → v.bits (bblock b v) i ≡ true
unfolding scan_bits
scan_bits-none v b zero bi i h ge lt inside = absurd (omega arith)
scan_bits-none v b (suc rounds) bi i h ge lt inside = elim (Bool-cases (v.bits (bblock b v) bi)) [
  | inr clear ↦ ground arith
  | inl taken ↦ elim (Bool-cases (bi == i)) [
    | inl here ↦ rw (← eqb→eq bi i here) taken
    | inr on ↦
        scan_bits-none v b rounds (bi + 1) i (ground arith) (ground arith) (omega arith) inside
  ]
]

-- A block of the volume that is found free by `balloc`.
record Found (v : Volume) (b bi : ℕ) : Type 0 where
  aligned : b % bpb ≡ 0
  bit_of : bi < bpb
  inside : b + bi < v.size
  clear : v.bits (bblock b v) bi ≡ false

in_group :
    (v : Volume) (b c : ℕ)
    → b % bpb ≡ 0
    → scan_bits v b bpb 0 ≡ none
    → b ≤ c
    → c < b + bpb
    → c < v.size
    → in_use v c ≡ true
in_group v b c al full ge here lt =
    let group : c / bpb ≡ b / bpb = omega arith in
    rw (in_use, group)
      (scan_bits-none v b bpb 0 (c % bpb) full (omega arith) (omega arith) (omega arith))

eqb_false : (a b : ℕ) → (a == b) ≡ false → a ≢ b
eqb_false a b h e = ground arith

-- Two blocks with the same bit are the same block.
same_bit :
    (v : Volume) (b bi c : ℕ)
    → b % bpb ≡ 0
    → bi < bpb
    → (bblock c v == bblock b v && (c % bpb) == bi) ≡ (c == b + bi)
same_bit v b bi c al small = elim (Bool-cases (c == b + bi)) [
  | inl here ↦
      let group : c / bpb ≡ b / bpb = omega (arith, eqb→eq c (b + bi) here) in
      let place : c % bpb ≡ bi = omega (arith, eqb→eq c (b + bi) here) in
      rw (here, group, place, eqb_refl (b / bpb + v.bmapstart), eqb_refl bi) refl
  | inr away ↦ elim (Bool-cases (bblock c v == bblock b v)) [
    | inr other ↦ rw (other, away) refl
    | inl group ↦ elim (Bool-cases ((c % bpb) == bi)) [
      | inr other ↦ rw (group, other, away) refl
      | inl place ↦
          absurd (differ away (eqb→eq (c % bpb) bi place) (eqb→eq (bblock c v) (bblock b v) group))
    ]
  ]
]
  where
    differ : (c == b + bi) ≡ false → c % bpb ≡ bi → bblock c v ≡ bblock b v → ⊥
    differ away place group = eqb_false (c) (b + bi) away (omega (arith, place, group))

balloc_from_lem :
    (v : Volume) (fuel b : ℕ)
    → b % bpb ≡ 0
    → v.size ≤ b + fuel
    → ((balloc_from v fuel b ≡ (0, v)) × ((c : ℕ) → b ≤ c → c < v.size → in_use v c ≡ true))
      ⊎ ((b' bi : ℕ) × Found v b' bi × (balloc_from v fuel b ≡ (b' + bi, take_block v b' bi)))
unfolding balloc_from
balloc_from_lem v zero b al enough = inl (refl, λ c ge lt. absurd (omega arith))
balloc_from_lem v (suc fuel) b al enough = elim (Bool-cases (ltb b v.size)) [
  | inr over ↦ inl (rw over refl, λ c ge lt. absurd (ground arith))
  | inl inside ↦ elim (Option-cases (scan_bits v b bpb 0)) [
    | inr (bi, got) ↦
        let (_, small, below, clear) = scan_bits-some v b bpb 0 bi got in
        inr (
          b,
          bi,
          record { aligned = al; bit_of = small; inside = below; clear = clear },
          rw (inside, got) refl,
        )
    | inl full ↦ elim (balloc_from_lem v fuel (b + bpb) (omega arith) (omega arith)) [
      | inr (b', bi, found, eq) ↦ inr (b', bi, found, rw (inside, full) eq)
      | inl (eq, used) ↦ inl (
        rw (inside, full) eq,
        λ c ge lt. elim (Bool-cases (ltb c (b + bpb))) [
          | inr later ↦ used c (ground arith) lt
          | inl here ↦ in_group v b c al full ge (ground arith) lt
        ],
      )
    ]
  ]
]

-- The volume after block b is allocated from v.
pub record Allocated (v v' : Volume) (b : ℕ) : Type 0 where
  pub positive : 0 < b
  pub below : b < v.size
  pub free : in_use v b ≡ false
  pub used : (c : ℕ) → in_use v' c ≡ (if c == b then true else in_use v c)
  pub zeroed : (c i : ℕ) → v'.words c i ≡ (if c == b then 0 else v.words c i)
  pub same_size : v'.size ≡ v.size
  pub same_inodes : v'.dinodes ≡ v.dinodes
  pub blank : (c i : ℕ) → v'.bytes c i ≡ (if c == b then 0 else v.bytes c i)

Found-free : (v : Volume) (b bi : ℕ) → Found v b bi → in_use v (b + bi) ≡ false
Found-free v b bi f =
    let group : (b + bi) / bpb ≡ b / bpb = omega (arith, f.aligned, f.bit_of) in
    let place : (b + bi) % bpb ≡ bi = omega (arith, f.aligned, f.bit_of) in
    rw (in_use, group, place) f.clear

not_zero : (v : Volume) (c : ℕ) → in_use v 0 ≡ true → in_use v c ≡ false → 0 < c
not_zero v zero boot free = ground arith
not_zero v (suc c) boot free = omega arith

allocated :
    (v : Volume) (b bi : ℕ)
    → in_use v 0 ≡ true
    → Found v b bi
    → Allocated v (take_block v b bi) (b + bi)
unfolding take_block bzero
allocated v b bi boot f = record {
  positive = not_zero v (b + bi) boot (Found-free v b bi f);
  below = f.inside;
  free = Found-free v b bi f;
  used = λ c. rw (same_bit v b bi c f.aligned f.bit_of) refl;
  zeroed = λ c i. refl;
  same_size = refl;
  same_inodes = refl;
  blank = λ c i. refl;
}

-- On a volume whose block 0 is in use, `balloc` returns 0 and changes nothing only if every block is
-- in use. Otherwise it returns a block of the volume, not block 0, that was free; that block is now
-- in use and filled with zeros, and no other block's bit or content, and no inode, changes.
pub balloc_lem :
    (v : Volume)
    → in_use v 0 ≡ true
    → ((balloc v ≡ (0, v)) × ((c : ℕ) → c < v.size → in_use v c ≡ true))
      ⊎ ((b : ℕ) × (v' : Volume) × (balloc v ≡ (b, v')) × Allocated v v' b)
unfolding balloc
balloc_lem v boot = elim (balloc_from_lem v v.size 0 refl (omega arith)) [
  | inl (eq, used) ↦ inl (eq, λ c lt. used c (omega arith) lt)
  | inr (b, bi, f, eq) ↦ inr (b + bi, take_block v b bi, eq, allocated v b bi boot f)
]

same_block :
    (v : Volume) (b c : ℕ) → (bblock c v == bblock b v && (c % bpb) == (b % bpb)) ≡ (c == b)
same_block v b c =
    let group : (b / bpb * bpb) / bpb ≡ b / bpb = omega arith in
    let whole : b / bpb * bpb + b % bpb ≡ b = omega arith in
    rw (group, whole) at (same_bit v (b / bpb * bpb) (b % bpb) c (omega arith) (omega arith))

freed_lem :
    (b : ℕ) (v v' : Volume)
    → Allocated v v' b
    → (v'' : Volume) × (bfree b v' ≡ done v'') × ((c : ℕ) → in_use v'' c ≡ in_use v c)
unfolding bfree
freed_lem b v v' a =
    let taken : in_use v' b ≡ true = a.used b ∙ rw (eqb_refl b) refl in
    (
      log_block (bblock b v') (set_bit (bblock b v') (b % bpb) false v'),
      rw taken refl,
      λ c. rw (same_block v' b c) (back c),
    )
  where
    back : (c : ℕ) → (if c == b then false else in_use v' c) ≡ in_use v c
    back c = ground (arith, a.used c, a.free)

-- A block that `balloc` gave out can be freed without a panic, which gives back the bitmap as it
-- was.
pub bfree-balloc :
    (b : ℕ) (v v' : Volume)
    → in_use v 0 ≡ true
    → balloc v ≡ (b, v')
    → b ≢ 0
    → (v'' : Volume) × (bfree b v' ≡ done v'') × ((c : ℕ) → in_use v'' c ≡ in_use v c)
unfolding bfree
bfree-balloc b v v' boot got ne = elim (balloc_lem v boot) [
  | inl (eq, _) ↦ absurd (ne (sym (ap (λ (r : ℕ × Volume). r.0) (sym eq ∙ got))))
  | inr (c, w, eq, a) ↦
      let same : (c, w) ≡ (b, v') = sym eq ∙ got in
      freed_lem b v v'
        (rw (ap (λ (r : ℕ × Volume). r.0) same, ap (λ (r : ℕ × Volume). r.1) same) at a)
]
