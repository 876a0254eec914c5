-- ===== src/Kernel/Blocks/Slots.antt =====
-- The slots of a file: its direct blocks, its indirect block, and the blocks that this one lists.
use proyecto_3_sistemas_oper.Base.{
  ℕ, suc, ◌+◌, ◌-◌, ◌<◌, ◌≡◌, ◌≢◌, refl, sym, ap, ◌∙◌, inl, inr, true, false, ◌==◌, leb,
  if◌then◌else◌, arith, Bool-cases, eqb_of_ne, eqb_refl,
}
use proyecto_3_sistemas_oper.Kernel.Blocks.{
  Dinode, Volume, ndirect, nindirect, set_addr, set_word, log_block,
}
use proyecto_3_sistemas_oper.Kernel.Blocks.Bitmap.{in_use, Allocated}

-- `NDIRECT + 1 + NINDIRECT`
abbrev pub max_slots : ℕ
max_slots = 269

abbrev pub slot : ℕ → Dinode → Volume → ℕ
slot k ip v =
    if leb k ndirect
    then ip.addrs k
    else if ip.addrs ndirect == 0
    then 0
    else v.words (ip.addrs ndirect) (k - suc ndirect)

-- Block 0 and the blocks of the file are in use, and no block is in two slots.
pub record Placed (ip : Dinode) (v : Volume) : Type 0 where
  pub boot : in_use v 0 ≡ true
  pub used : (k : ℕ) → k < max_slots → slot k ip v ≢ 0 → in_use v (slot k ip v) ≡ true
  pub distinct :
      (k l : ℕ)
      → k < max_slots
      → l < max_slots
      → slot k ip v ≢ 0
      → slot k ip v ≡ slot l ip v
      → k ≡ l

-- The empty slot k gets a block that was free, filled with zeros.
pub record Filled (k b : ℕ) (ip : Dinode) (v : Volume) (ip' : Dinode) (v' : Volume) : Type 0 where
  pub positive : b ≢ 0
  pub below : b < v.size
  pub free : in_use v b ≡ false
  pub gap : slot k ip v ≡ 0
  pub slots : (l : ℕ) → l < max_slots → slot l ip' v' ≡ (if l == k then b else slot l ip v)
  pub used : (c : ℕ) → in_use v' c ≡ (if c == b then true else in_use v c)
  pub blank : (c i : ℕ) → v'.bytes c i ≡ (if c == b then 0 else v.bytes c i)
  pub words : (c i : ℕ) → in_use v c ≡ true → c ≢ ip.addrs ndirect → v'.words c i ≡ v.words c i
  pub size : ip'.size ≡ ip.size
  pub volume : v'.size ≡ v.size
  pub inodes : v'.dinodes ≡ v.dinodes

pub ne_of_use : {x y : ℕ} (v : Volume) → in_use v x ≡ true → in_use v y ≡ false → x ≢ y
ne_of_use v hx hy e = true-false (sym hx ∙ ap (in_use v) e ∙ hy)
  where
    true-false : true ≡ false → ⊥
    true-false h = cc

-- The block of the indirect slot is not the one that is allocated.
table_apart :
    (ip : Dinode) (v v' : Volume) (b : ℕ)
    → Placed ip v
    → Allocated v v' b
    → ip.addrs ndirect ≢ 0
    → (ip.addrs ndirect == b) ≡ false
table_apart ip v v' b ok a there =
    eqb_of_ne (ip.addrs ndirect) b (ne_of_use v (ok.used ndirect (omega arith) there) a.free)

kept_word :
    (v v' : Volume) (b c i : ℕ) → Allocated v v' b → in_use v c ≡ true → v'.words c i ≡ v.words c i
kept_word v v' b c i a h = a.zeroed c i ∙ rw (eqb_of_ne c b (ne_of_use v h a.free)) refl

pub Filled-direct :
    (i b : ℕ) (ip : Dinode) (v v' : Volume)
    → i < ndirect
    → Placed ip v
    → ip.addrs i ≡ 0
    → Allocated v v' b
    → Filled i b ip v (set_addr i b ip) v'
Filled-direct i b ip v v' lt ok gap a = record {
  positive = λ z. omega (arith, a.positive, z);
  below = a.below;
  free = a.free;
  gap = let small : leb i ndirect ≡ true = ground (arith, lt) in rw small gap;
  slots = λ l hl. elim (Bool-cases (leb l ndirect)) [
    | inl direct_slot ↦ rw direct_slot refl
    | inr far ↦
        let apart : (l == i) ≡ false = ground (arith, far, lt) in
        let other_slot : (ndirect == i) ≡ false = ground (arith, lt) in
        elim (Bool-cases (ip.addrs ndirect == 0)) [
          | inl none_there ↦ rw (far, apart, other_slot, none_there) refl
          | inr there ↦
              let ne : ip.addrs ndirect ≢ 0 = ground (arith, there) in
              rw (far, apart, other_slot, there)
                (kept_word v v' b (ip.addrs ndirect) (l - suc ndirect) a
                  (ok.used ndirect (omega arith) ne))
        ]
  ];
  used = a.used;
  blank = a.blank;
  words = λ c i h ne. kept_word v v' b c i a h;
  size = refl;
  volume = a.same_size;
  inodes = a.same_inodes;
}

pub Filled-table :
    (b : ℕ) (ip : Dinode) (v v' : Volume)
    → Placed ip v
    → ip.addrs ndirect ≡ 0
    → Allocated v v' b
    → Filled ndirect b ip v (set_addr ndirect b ip) v'
Filled-table b ip v v' ok gap a = record {
  positive = λ z. omega (arith, a.positive, z);
  below = a.below;
  free = a.free;
  gap = gap;
  slots = λ l hl. elim (Bool-cases (leb l ndirect)) [
    | inl direct_slot ↦ rw direct_slot refl
    | inr far ↦
        let apart : (l == ndirect) ≡ false = ground (arith, far) in
        let there : (b == 0) ≡ false = eqb_of_ne b 0 (λ z. omega (arith, a.positive, z)) in
        rw (far, apart, there, gap) (a.zeroed b (l - suc ndirect) ∙ rw (eqb_refl b) refl)
  ];
  used = a.used;
  blank = a.blank;
  words = λ c i h ne. kept_word v v' b c i a h;
  size = refl;
  volume = a.same_size;
  inodes = a.same_inodes;
}

pub Filled-indirect :
    (i b : ℕ) (ip : Dinode) (v v' : Volume)
    → i < nindirect
    → Placed ip v
    → ip.addrs ndirect ≢ 0
    → v.words (ip.addrs ndirect) i ≡ 0
    → Allocated v v' b
    → Filled
        (suc ndirect + i)
        b
        ip
        v
        ip
        (log_block (ip.addrs ndirect) (set_word (ip.addrs ndirect) i b v'))
Filled-indirect i b ip v v' lt ok there gap a = record {
  positive = λ z. omega (arith, a.positive, z);
  below = a.below;
  free = a.free;
  gap =
      let far : leb (suc ndirect + i) ndirect ≡ false = ground arith in
      let place : suc ndirect + i - suc ndirect ≡ i = omega arith in
      rw (far, eqb_of_ne (ip.addrs ndirect) 0 there, place) gap;
  slots = λ l hl. elim (Bool-cases (leb l ndirect)) [
    | inl direct_slot ↦
        let apart : (l == suc ndirect + i) ≡ false = ground (arith, direct_slot) in
        rw (direct_slot, apart) refl
    | inr far ↦
        let place : (l - suc ndirect == i) ≡ (l == suc ndirect + i) = ground (arith, far) in
        rw (far, eqb_of_ne (ip.addrs ndirect) 0 there, eqb_refl (ip.addrs ndirect), place)
          (ap (λ (w : ℕ). if l == suc ndirect + i then b else w)
            (kept_word v v' b (ip.addrs ndirect) (l - suc ndirect) a
              (ok.used ndirect (omega arith) there)))
  ];
  used = a.used;
  blank = a.blank;
  words = λ c j h ne.
      let away : (c == ip.addrs ndirect) ≡ false = eqb_of_ne c (ip.addrs ndirect) ne in
      rw away (kept_word v v' b c j a h);
  size = refl;
  volume = a.same_size;
  inodes = a.same_inodes;
}
