-- ===== src/Kernel/FileData/Bytes.antt =====
-- What writing some bytes changes: those bytes of the file, and nothing else.
use proyecto_3_sistemas_oper.Base.{
  ℕ, ◌+◌, ◌-◌, ◌/◌, ◌%◌, ◌≤◌, ◌<◌, ◌≡◌, ◌≢◌, refl, sym, ap, ◌∙◌, inl, inr, true, false, ◌==◌,
  if◌then◌else◌, arith, Bool-cases, eqb→eq, eqb_of_ne, eqb_refl,
}
use proyecto_3_sistemas_oper.Kernel.Params.{bsize}
use proyecto_3_sistemas_oper.Kernel.Strings.{within}
use proyecto_3_sistemas_oper.Kernel.Blocks.{Dinode, Volume, ndirect, log_block}
use proyecto_3_sistemas_oper.Kernel.Blocks.Bitmap.{in_use}
use proyecto_3_sistemas_oper.Kernel.Blocks.Slots.{max_slots, slot, Placed}
use proyecto_3_sistemas_oper.Kernel.Blocks.Growth.{max_bytes, slot_of, content, Kept}
use proyecto_3_sistemas_oper.Kernel.FileData.{put_bytes}

-- The bytes of a file after n bytes from `src` on are put at off.
abbrev pub overwritten : ℕ → ℕ → (ℕ → ℕ) → (ℕ → ℕ) → ℕ → ℕ
overwritten off n src old p = if within off n p then src (p - off) else old p

-- After n bytes are written into the file at off: no block of another file changes, and the rest is
-- as `Kept` says.
pub record Wrote (off n : ℕ) (src : ℕ → ℕ) (ip : Dinode) (v : Volume) (ip' : Dinode) (v' : Volume)
    : Type 0 where
  pub placed : Placed ip' v'
  pub now : (p : ℕ) → p < max_bytes → content ip' v' p ≡ overwritten off n src (content ip v) p
  pub mapped :
      (p : ℕ) → p < max_bytes → within off n p ≡ true → slot (slot_of (p / bsize)) ip' v' ≢ 0
  pub stays : (k : ℕ) → k < max_slots → slot k ip v ≢ 0 → slot k ip' v' ≡ slot k ip v
  pub used : (c : ℕ) → in_use v c ≡ true → in_use v' c ≡ true
  pub old_slots :
      (k c : ℕ) → k < max_slots → in_use v c ≡ true → c ≢ 0 → slot k ip' v' ≡ c → slot k ip v ≡ c
  pub others :
      (c i : ℕ)
      → in_use v c ≡ true
      → c ≢ 0
      → ((k : ℕ) → k < max_slots → slot k ip v ≢ c)
      → (v'.bytes c i ≡ v.bytes c i) × (v'.words c i ≡ v.words c i)
  pub size : ip'.size ≡ ip.size
  pub volume : v'.size ≡ v.size
  pub inodes : v'.dinodes ≡ v.dinodes

pub Kept-Wrote :
    {off : ℕ} {src : ℕ → ℕ} {ip ip' : Dinode} {v v' : Volume}
    → Kept ip v ip' v'
    → Wrote off 0 src ip v ip' v'
Kept-Wrote {off} {src} {ip} {ip'} {v} {v'} k = record {
  placed = k.placed;
  now = λ p h. let nothing : within off 0 p ≡ false = ground arith in rw nothing (k.same p h);
  mapped = λ p h there z.
      let nothing : within off 0 p ≡ false = ground arith in false-true (sym nothing ∙ there);
  stays = k.stays;
  used = k.used;
  old_slots = k.old_slots;
  others = λ c i u nz apart.
      (k.bytes c i u, k.words c i u nz (λ e. apart ndirect (omega arith) (sym e)));
  size = k.size;
  volume = k.volume;
  inodes = k.inodes;
}
  where
    false-true : false ≡ true → ⊥
    false-true z = cc

-- A write after the allocation of blocks.
pub after_Kept :
    {off n : ℕ} {src : ℕ → ℕ} {ip ip1 ip2 : Dinode} {v v1 v2 : Volume}
    → Kept ip v ip1 v1
    → Wrote off n src ip1 v1 ip2 v2
    → Wrote off n src ip v ip2 v2
after_Kept {off} {n} {src} {ip} {ip1} {ip2} {v} {v1} {v2} f g = record {
  placed = g.placed;
  now = λ p h. g.now p h ∙ ap (λ (o : ℕ). if within off n p then src (p - off) else o) (f.same p h);
  mapped = g.mapped;
  stays = λ k h ne. let e = f.stays k h ne in g.stays k h (λ z. ne (sym e ∙ z)) ∙ e;
  used = λ c h. g.used c (f.used c h);
  old_slots = λ k c h u ne e. f.old_slots k c h u ne (g.old_slots k c h (f.used c u) ne e);
  others = λ c i u nz apart.
      let (b, w) = g.others c i (f.used c u) nz (λ k h e. apart k h (f.old_slots k c h u nz e)) in
      (b ∙ f.bytes c i u, w ∙ f.words c i u nz (λ e. apart ndirect (omega arith) (sym e)));
  size = g.size ∙ f.size;
  volume = g.volume ∙ f.volume;
  inodes = g.inodes ∙ f.inodes;
}

pub overwritten_step :
    (off n m p : ℕ) (src : ℕ → ℕ) (old : ℕ → ℕ)
    → overwritten (off + n) m (λ i. src (n + i)) (overwritten off n src old) p
      ≡ overwritten off (n + m) src old p
overwritten_step off n m p src old = elim (Bool-cases (within (off + n) m p)) [
  | inl later ↦
      let all : within off (n + m) p ≡ true = ground (arith, later) in
      let place : n + (p - (off + n)) ≡ p - off = ground (arith, later) in
      rw (later, all, place) refl
  | inr not_later ↦ elim (Bool-cases (within off n p)) [
    | inl early ↦
        let all : within off (n + m) p ≡ true = ground (arith, early) in
        rw (not_later, early, all) refl
    | inr out ↦
        let none_at : within off (n + m) p ≡ false = ground (arith, out, not_later) in
        rw (not_later, out, none_at) refl
  ]
]

-- Two writes, one behind the other.
pub Wrote-trans :
    {off n m : ℕ} {src : ℕ → ℕ} {ip ip1 ip2 : Dinode} {v v1 v2 : Volume}
    → Wrote off n src ip v ip1 v1
    → Wrote (off + n) m (λ i. src (n + i)) ip1 v1 ip2 v2
    → Wrote off (n + m) src ip v ip2 v2
Wrote-trans {off} {n} {m} {src} {ip} {ip1} {ip2} {v} {v1} {v2} f g = record {
  placed = g.placed;
  now = λ p h.
      g.now p h
      ∙ ap (λ (o : ℕ). if within (off + n) m p then src (n + (p - (off + n))) else o) (f.now p h)
      ∙ overwritten_step off n m p src (content ip v);
  mapped = λ p h there z. elim (Bool-cases (within (off + n) m p)) [
    | inl later ↦ g.mapped p h later z
    | inr not_later ↦
        let early : within off n p ≡ true = ground (arith, there, not_later) in
        let ne = f.mapped p h early in
        ne (sym (g.stays (slot_of (p / bsize)) (ground (arith, h)) ne) ∙ z)
  ];
  stays = λ k h ne. let e = f.stays k h ne in g.stays k h (λ z. ne (sym e ∙ z)) ∙ e;
  used = λ c h. g.used c (f.used c h);
  old_slots = λ k c h u ne e. f.old_slots k c h u ne (g.old_slots k c h (f.used c u) ne e);
  others = λ c i u nz apart.
      let (b1, w1) = f.others c i u nz apart in
      let (b2, w2) = g.others c i (f.used c u) nz (λ k h e. apart k h (f.old_slots k c h u nz e)) in
      (b2 ∙ b1, w2 ∙ w1);
  size = g.size ∙ f.size;
  volume = g.volume ∙ f.volume;
  inodes = g.inodes ∙ f.inodes;
}

slot_of_inj : (a b : ℕ) → slot_of a ≡ slot_of b → a ≡ b
slot_of_inj a b h = ground (arith, h)

-- The bytes put into the block at a slot.
pub put-Wrote :
    (off n a : ℕ) (src : ℕ → ℕ) (ip : Dinode) (v : Volume)
    → Placed ip v
    → off < max_bytes
    → off % bsize + n ≤ bsize
    → slot (slot_of (off / bsize)) ip v ≡ a
    → a ≢ 0
    → Wrote off n src ip v ip (log_block a (put_bytes a (off % bsize) n src v))
put-Wrote off n a src ip v ok lt fits at_a ne = record {
  placed = record { boot = ok.boot; used = ok.used; distinct = ok.distinct };
  now = λ p h. elim (Bool-cases (slot (slot_of (p / bsize)) ip v == a)) [
    | inl here ↦
        let e : slot (slot_of (p / bsize)) ip v ≡ a =
          eqb→eq (slot (slot_of (p / bsize)) ip v) a here in
        let same : slot_of (p / bsize) ≡ slot_of (off / bsize) =
          ok.distinct (slot_of (p / bsize)) (slot_of (off / bsize)) (ground (arith, h))
            (ground (arith, lt)) (λ z. ne (sym e ∙ z)) (e ∙ sym at_a) in
        let block : p / bsize ≡ off / bsize = slot_of_inj (p / bsize) (off / bsize) same in
        let range : within (off % bsize) n (p % bsize) ≡ within off n p =
          ground (arith, block, fits) in
        let place : p % bsize - off % bsize ≡ p - off = omega (arith, block) in
        rw (e, eqb_of_ne a 0 ne, eqb_refl a, range, place) refl
    | inr away ↦ elim (Bool-cases (within off n p)) [
      | inr out ↦ rw (away, out) refl
      | inl at_off ↦
          let block : p / bsize ≡ off / bsize = ground (arith, at_off, fits) in
          absurd (clash (sym away ∙ (rw (block, at_a) (eqb_refl a))))
    ]
  ];
  mapped = λ p h there z.
      let block : p / bsize ≡ off / bsize = ground (arith, there, fits) in
      ne (sym at_a ∙ ap (λ (b : ℕ). slot (slot_of b) ip v) (sym block) ∙ z);
  stays = λ k h nz. refl;
  used = λ c h. h;
  old_slots = λ k c h u nz e. e;
  others = λ c i u nz apart.
      let other_block : (c == a) ≡ false =
        eqb_of_ne c a (λ e. apart (slot_of (off / bsize)) (ground (arith, lt)) (at_a ∙ sym e)) in
      (rw other_block refl, refl);
  size = refl;
  volume = refl;
  inodes = refl;
}
  where
    clash : false ≡ true → ⊥
    clash z = cc
