-- ===== src/Kernel/Virtio/Descriptors.antt =====
-- The descriptors that are taken and given back.
use proyecto_3_sistemas_oper.Base.{
  ℕ, zero, suc, ◌+◌, ◌≤◌, ◌<◌, ◌≡◌, ◌≢◌, ◌⊎◌, refl, sym, ap, ◌∙◌, inl, inr, Bool, true, false, ◌==◌,
  leb, if◌then◌else◌, some, none, done, arith, Bool-cases, eqb→eq, eqb_of_ne, eqb_refl, Option,
}
use proyecto_3_sistemas_oper.Kernel.Virtio.{
  Disk, num, set_free, set_desc, no_desc, alloc_desc_from, alloc_desc, free_desc, after_first,
  after_second, after_third, alloc3_desc,
}

-- The first free descriptor from i on is taken, or none of them is free.
abbrev Search : ℕ → ℕ → Disk → Type 0
Search rounds i d =
    ((alloc_desc_from rounds i d ≡ (none, d))
      × ((c : ℕ) → i ≤ c → c < i + rounds → d.free c ≡ false))
    ⊎ ((c : ℕ) × (alloc_desc_from rounds i d ≡ (some c, set_free c false d))
        × (d.free c ≡ true)
        × (c < i + rounds))

alloc_desc_from_lem : (rounds i : ℕ) (d : Disk) → Search rounds i d
unfolding alloc_desc_from
alloc_desc_from_lem zero i d = inl (refl, λ c le lt. absurd (omega (arith, le, lt)))
alloc_desc_from_lem (suc rounds) i d = elim (Bool-cases (d.free i)) [
  | inl hit ↦ inr (i, rw hit refl, hit, omega arith)
  | inr miss ↦ elim (alloc_desc_from_lem rounds (i + 1) d) [
    | inl (ran, taken) ↦ inl (
      rw miss ran,
      λ c le lt. elim (Bool-cases (c == i)) [
        | inl here ↦ let e = eqb→eq c i here in rw e miss
        | inr away ↦ taken c (ground (arith, le, away)) (omega (arith, lt))
      ],
    )
    | inr (c, ran, hit, lt) ↦ inr (c, rw miss ran, hit, omega (arith, lt))
  ]
]

pub alloc_desc_lem :
    (d : Disk)
    → ((alloc_desc d ≡ (none, d)) × ((c : ℕ) → c < num → d.free c ≡ false))
      ⊎ ((c : ℕ) × (alloc_desc d ≡ (some c, set_free c false d)) × (d.free c ≡ true) × (c < num))
unfolding alloc_desc
alloc_desc_lem d = elim (alloc_desc_from_lem num 0 d) [
  | inl (ran, taken) ↦ inl (ran, λ c lt. taken c (omega arith) (omega (arith, lt)))
  | inr (c, ran, hit, lt) ↦ inr (c, ran, hit, omega (arith, lt))
]

-- A descriptor that is taken can be given back.
pub free_desc_lem :
    (i : ℕ) (d : Disk)
    → i < num
    → d.free i ≡ false
    → free_desc i d ≡ done (set_free i true (set_desc i no_desc d))
unfolding free_desc
free_desc_lem i d lt taken =
    let inside : leb num i ≡ false = ground (arith, lt) in rw (inside, taken) refl

-- Three descriptors that were free are taken.
pub record Taken (i j k : ℕ) (d d' : Disk) : Type 0 where
  pub first : (i < num) × (d.free i ≡ true)
  pub second : (j < num) × (d.free j ≡ true) × (j ≢ i)
  pub third : (k < num) × (d.free k ≡ true) × (k ≢ i) × (k ≢ j)
  pub rest : d' ≡ set_free k false (set_free j false (set_free i false d))

-- Too few are free: as many as before are free afterwards, and their number is at most two.
pub record TooFew (d d' : Disk) : Type 0 where
  pub same : (c : ℕ) → d'.free c ≡ d.free c
  pub few :
      (i j k : ℕ)
      → i < num
      → j < num
      → k < num
      → d.free i ≡ true
      → d.free j ≡ true
      → d.free k ≡ true
      → (i ≡ j) ⊎ (i ≡ k) ⊎ (j ≡ k)

abbrev pub AllOrNone : Disk → Type 0
AllOrNone d =
    ((d' : Disk) × (alloc3_desc d ≡ done (none, d')) × TooFew d d')
    ⊎ ((i : ℕ) × (j : ℕ) × (k : ℕ) × (d' : Disk) × (alloc3_desc d ≡ done (some (i, j, k), d'))
        × Taken i j k d d')

alloc3-first : (d : Disk) {r : Option ℕ × Disk} → alloc_desc d ≡ r → alloc3_desc d ≡ after_first r
unfolding alloc3_desc
alloc3-first d h = ap after_first h

second-none :
    (i : ℕ) (d d' : Disk) → free_desc i d ≡ done d' → after_second i (none, d) ≡ done (none, d')
second-none i d d' freed = rw freed refl

third-none :
    (i j : ℕ) (d d' d'' : Disk)
    → free_desc i d ≡ done d'
    → free_desc j d' ≡ done d''
    → after_third i j (none, d) ≡ done (none, d'')
third-none i j d d' d'' freed freed' = rw (freed, freed') refl

-- A descriptor that is not free once i is taken was not free, or is i.
only_one : (c i : ℕ) (b : Bool) → (if c == i then false else b) ≡ false → b ≡ true → c ≡ i
only_one c i b h t = ground arith

only_two :
    (c i j : ℕ) (b : Bool)
    → (if c == j then false else if c == i then false else b) ≡ false
    → b ≡ true
    → (c ≡ i) ⊎ (c ≡ j)
only_two c i j b h t = elim (Bool-cases (c == j)) [
  | inl z ↦ inr (eqb→eq c j z)
  | inr away ↦ inl (only_one c i b (rw away at h) t)
]

pigeons :
    (a b c i j : ℕ)
    → (a ≡ i) ⊎ (a ≡ j)
    → (b ≡ i) ⊎ (b ≡ j)
    → (c ≡ i) ⊎ (c ≡ j)
    → (a ≡ b) ⊎ (a ≡ c) ⊎ (b ≡ c)
pigeons a b c i j (inl x) (inl y) h = inl (x ∙ sym y)
pigeons a b c i j (inr x) (inr y) h = inl (x ∙ sym y)
pigeons a b c i j (inl x) (inr y) (inl z) = inr (inl (x ∙ sym z))
pigeons a b c i j (inl x) (inr y) (inr z) = inr (inr (y ∙ sym z))
pigeons a b c i j (inr x) (inl y) (inl z) = inr (inr (y ∙ sym z))
pigeons a b c i j (inr x) (inl y) (inr z) = inr (inl (x ∙ sym z))

back_one :
    (c i : ℕ) (f : ℕ → Bool)
    → f i ≡ true
    → (if c == i then true else if c == i then false else f c) ≡ f c
back_one c i f h = elim (Bool-cases (c == i)) [
  | inl here ↦ rw here (sym (ap f (eqb→eq c i here) ∙ h))
  | inr away ↦ rw away refl
]

back_two :
    (c i j : ℕ) (f : ℕ → Bool)
    → f i ≡ true
    → f j ≡ true
    → (if c == j
        then true
        else if c == i
        then true
        else if c == j
        then false
        else if c == i
        then false
        else f c)
      ≡ f c
back_two c i j f h h' = elim (Bool-cases (c == j)) [
  | inl here ↦ rw here (sym (ap f (eqb→eq c j here) ∙ h'))
  | inr away ↦ rw away (back_one c i f h)
]

-- `alloc3_desc` does not panic. It takes three different descriptors that were free and changes
-- nothing else, or it returns -1 where less than three are free, and then the same ones are free.
pub alloc3_desc_lem : (d : Disk) → AllOrNone d
alloc3_desc_lem d = elim (alloc_desc_lem d) [
  | inl (ran, taken) ↦ inl (
    d,
    alloc3-first d ran,
    record {
      same = λ c. refl;
      few = λ i j k hi hj hk fi fj fk. absurd (clash (sym (taken i hi) ∙ fi));
    },
  )
  | inr (i, ran, free_i, lt_i) ↦
      let d1 = set_free i false d in
      let taken_i : d1.free i ≡ false = rw (eqb_refl i) refl in
      elim (alloc_desc_lem d1) [
        | inl (ran1, taken) ↦ inl (
          set_free i true (set_desc i no_desc d1),
          alloc3-first d ran
              ∙ ap (after_second i) ran1
              ∙ second-none i d1 _ (free_desc_lem i d1 lt_i taken_i),
          record {
            same = λ c. back_one c i d.free free_i;
            few = λ a b c ha hb hc fa fb fc. inl (
                only_one a i (d.free a) (taken a ha) fa
                ∙ sym (only_one b i (d.free b) (taken b hb) fb));
          },
        )
        | inr (j, ran1, free_j, lt_j) ↦
            let d2 = set_free j false d1 in
            let apart_j : j ≢ i = λ e. clash (sym taken_i ∙ sym (ap d1.free e) ∙ free_j) in
            let old_j : d.free j ≡ true = rw (eqb_of_ne j i apart_j) at free_j in
            let taken_i2 : d2.free i ≡ false = rw (eqb_of_ne i j (λ e. apart_j (sym e))) taken_i in
            let d3 = set_free i true (set_desc i no_desc d2) in
            let taken_j : d3.free j ≡ false = rw (eqb_of_ne j i apart_j, eqb_refl j) refl in
            elim (alloc_desc_lem d2) [
              | inl (ran2, taken) ↦ inl (
                set_free j true (set_desc j no_desc d3),
                alloc3-first d ran
                    ∙ ap (after_second i) ran1
                    ∙ ap (after_third i j) ran2
                    ∙ third-none i j d2 d3 _ (free_desc_lem i d2 lt_i taken_i2)
                        (free_desc_lem j d3 lt_j taken_j),
                record {
                  same = λ c. back_two c i j d.free free_i old_j;
                  few = λ a b c ha hb hc fa fb fc.
                      pigeons a b c i j (only_two a i j (d.free a) (taken a ha) fa)
                        (only_two b i j (d.free b) (taken b hb) fb)
                        (only_two c i j (d.free c) (taken c hc) fc);
                },
              )
              | inr (k, ran2, free_k, lt_k) ↦
                  let apart_kj : k ≢ j =
                    λ e. clash (sym (own j d1) ∙ sym (ap d2.free e) ∙ free_k) in
                  let apart_ki : k ≢ i = λ e. clash (sym taken_i2 ∙ sym (ap d2.free e) ∙ free_k) in
                  inr (
                    i,
                    j,
                    k,
                    set_free k false d2,
                    alloc3-first d ran ∙ ap (after_second i) ran1 ∙ ap (after_third i j) ran2,
                    record {
                      first = (lt_i, free_i);
                      second = (lt_j, old_j, apart_j);
                      third = (
                        lt_k,
                        rw (eqb_of_ne k j apart_kj, eqb_of_ne k i apart_ki) at free_k,
                        apart_ki,
                        apart_kj,
                      );
                      rest = refl;
                    },
                  )
            ]
      ]
]
  where
    clash : false ≡ true → ⊥
    clash h = cc

    own : (j : ℕ) (d : Disk) → (set_free j false d).free j ≡ false
    own j d = rw (eqb_refl j) refl
