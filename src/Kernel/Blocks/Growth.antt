-- ===== src/Kernel/Blocks/Growth.antt =====
-- The bytes of a file, and what a new block changes: nothing in them.
use proyecto_3_sistemas_oper.Base.{
  ℕ, suc, ◌*◌, ◌/◌, ◌%◌, ◌<◌, ◌≡◌, ◌≢◌, refl, sym, ap, ◌∙◌, inl, inr, true, false, ◌==◌, ltb,
  if◌then◌else◌, arith, Bool-cases, eqb→eq, eqb_of_ne, eqb_refl,
}
use proyecto_3_sistemas_oper.Kernel.Params.{bsize}
use proyecto_3_sistemas_oper.Kernel.Blocks.{Dinode, Volume, ndirect}
use proyecto_3_sistemas_oper.Kernel.Blocks.Bitmap.{in_use}
use proyecto_3_sistemas_oper.Kernel.Blocks.Slots.{max_slots, slot, Placed, Filled, ne_of_use}

-- `MAXFILE`, and the bytes of so many blocks
abbrev pub max_file : ℕ
max_file = 268

abbrev pub max_bytes : ℕ
max_bytes = max_file * bsize

-- The slot of a file's block bn.
abbrev pub slot_of : ℕ → ℕ
slot_of bn = if ltb bn ndirect then bn else suc bn

-- The byte of a file at an offset: 0 where there is no block.
abbrev pub byte_in : Volume → ℕ → ℕ → ℕ
byte_in v b i = if b == 0 then 0 else v.bytes b i

abbrev pub content : Dinode → Volume → ℕ → ℕ
content ip v off = byte_in v (slot (slot_of (off / bsize)) ip v) (off % bsize)

-- What the allocation of blocks for a file leaves: its bytes, the slots that had a block, every
-- block that was in use, the other files' indirect blocks, the inodes on disk.
pub record Kept (ip : Dinode) (v : Volume) (ip' : Dinode) (v' : Volume) : Type 0 where
  pub placed : Placed ip' v'
  pub same : (off : ℕ) → off < max_bytes → content ip' v' off ≡ content ip v off
  pub stays : (k : ℕ) → k < max_slots → slot k ip v ≢ 0 → slot k ip' v' ≡ slot k ip v
  pub used : (c : ℕ) → in_use v c ≡ true → in_use v' c ≡ true
  pub old_slots :
      (k c : ℕ) → k < max_slots → in_use v c ≡ true → c ≢ 0 → slot k ip' v' ≡ c → slot k ip v ≡ c
  pub bytes : (c i : ℕ) → in_use v c ≡ true → v'.bytes c i ≡ v.bytes c i
  pub words :
      (c i : ℕ) → in_use v c ≡ true → c ≢ 0 → c ≢ ip.addrs ndirect → v'.words c i ≡ v.words c i
  pub size : ip'.size ≡ ip.size
  pub volume : v'.size ≡ v.size
  pub inodes : v'.dinodes ≡ v.dinodes

pub Kept-refl : (ip : Dinode) (v : Volume) → Placed ip v → Kept ip v ip v
Kept-refl ip v ok = record {
  placed = ok;
  same = λ off h. refl;
  stays = λ k h ne. refl;
  used = λ c h. h;
  old_slots = λ k c h u ne e. e;
  bytes = λ c i h. refl;
  words = λ c i h nz ne. refl;
  size = refl;
  volume = refl;
  inodes = refl;
}

pub Kept-trans :
    {ip ip1 ip2 : Dinode} {v v1 v2 : Volume}
    → Kept ip v ip1 v1
    → Kept ip1 v1 ip2 v2
    → Kept ip v ip2 v2
Kept-trans {ip} {ip1} {ip2} {v} {v1} {v2} f g = record {
  placed = g.placed;
  same = λ off h. g.same off h ∙ f.same off h;
  stays = λ k h ne. let e = f.stays k h ne in g.stays k h (λ z. ne (sym e ∙ z)) ∙ e;
  used = λ c h. g.used c (f.used c h);
  old_slots = λ k c h u ne e. f.old_slots k c h u ne (g.old_slots k c h (f.used c u) ne e);
  bytes = λ c i h. g.bytes c i (f.used c h) ∙ f.bytes c i h;
  words = λ c i h nz ne.
      g.words c i (f.used c h) nz (λ e. ne (sym (f.old_slots ndirect c (omega arith) h nz (sym e))))
      ∙ f.words c i h nz ne;
  size = g.size ∙ f.size;
  volume = g.volume ∙ f.volume;
  inodes = g.inodes ∙ f.inodes;
}

module _ {k b : ℕ} {ip ip' : Dinode} {v v' : Volume} (ok : Placed ip v)
    (f : Filled k b ip v ip' v') where
  other_slot : (l : ℕ) → l < max_slots → (l == k) ≡ false → slot l ip' v' ≡ slot l ip v
  other_slot l h away = f.slots l h ∙ rw away refl

  new_slot : (l : ℕ) → l < max_slots → (l == k) ≡ true → slot l ip' v' ≡ b
  new_slot l h here = f.slots l h ∙ rw here refl

  old_used : (c : ℕ) → in_use v c ≡ true → in_use v' c ≡ true
  old_used c h = f.used c ∙ rw (eqb_of_ne c b (ne_of_use v h f.free)) h

  slot-ne-new : (l : ℕ) → l < max_slots → slot l ip v ≢ 0 → slot l ip v ≢ b
  slot-ne-new l h ne = ne_of_use v (ok.used l h ne) f.free

  Placed-fill : Placed ip' v'
  Placed-fill = record {
    boot = old_used 0 ok.boot;
    used = λ l h ne. elim (Bool-cases (l == k)) [
      | inl here ↦ rw (new_slot l h here) (f.used b ∙ rw (eqb_refl b) refl)
      | inr away ↦
          let e = other_slot l h away in
          rw e (old_used (slot l ip v) (ok.used l h (λ z. ne (e ∙ z))))
    ];
    distinct = λ l j hl hj ne e. elim (Bool-cases (l == k)) [
      | inl here ↦ elim (Bool-cases (j == k)) [
        | inl here' ↦ eqb→eq l k here ∙ sym (eqb→eq j k here')
        | inr away' ↦
            let same_block : b ≡ slot j ip v =
              sym (new_slot l hl here) ∙ e ∙ other_slot j hj away' in
            absurd (slot-ne-new j hj (λ z. f.positive (same_block ∙ z)) (sym same_block))
      ]
      | inr away ↦
          let old = other_slot l hl away in
          let there : slot l ip v ≢ 0 = λ z. ne (old ∙ z) in
          elim (Bool-cases (j == k)) [
            | inl here' ↦ absurd (slot-ne-new l hl there (sym old ∙ e ∙ new_slot j hj here'))
            | inr away' ↦ ok.distinct l j hl hj there (sym old ∙ e ∙ other_slot j hj away')
          ]
    ];
  }

  byte_kept : (l i : ℕ) → l < max_slots → byte_in v' (slot l ip' v') i ≡ byte_in v (slot l ip v) i
  byte_kept l i h = elim (Bool-cases (l == k)) [
    | inl here ↦
        let none_there : slot l ip v ≡ 0 = ap (λ (x : ℕ). slot x ip v) (eqb→eq l k here) ∙ f.gap in
        rw (new_slot l h here, none_there, eqb_of_ne b 0 f.positive)
          (f.blank b i ∙ rw (eqb_refl b) refl)
    | inr away ↦ elim (Bool-cases (slot l ip v == 0)) [
      | inl none_there ↦ rw (other_slot l h away, none_there) refl
      | inr there ↦
          let ne : slot l ip v ≢ 0 = λ z. zero_test (slot l ip v) there z in
          rw (other_slot l h away, there)
            (f.blank (slot l ip v) i ∙ rw (eqb_of_ne (slot l ip v) b (slot-ne-new l h ne)) refl)
    ]
  ]
    where
      zero_test : (x : ℕ) → (x == 0) ≡ false → x ≢ 0
      zero_test x h z = ground arith

  pub Filled-Kept : Kept ip v ip' v'
  Filled-Kept = record {
    placed = Placed-fill;
    same = λ off h. byte_kept (slot_of (off / bsize)) (off % bsize) (ground (arith, h));
    stays = λ l h ne. elim (Bool-cases (l == k)) [
      | inl here ↦ absurd (ne (ap (λ (x : ℕ). slot x ip v) (eqb→eq l k here) ∙ f.gap))
      | inr away ↦ other_slot l h away
    ];
    used = old_used;
    old_slots = λ l c h u ne e. elim (Bool-cases (l == k)) [
      | inl here ↦ absurd (ne_of_use v u f.free (sym e ∙ new_slot l h here))
      | inr away ↦ sym (other_slot l h away) ∙ e
    ];
    bytes = λ c i h. f.blank c i ∙ rw (eqb_of_ne c b (ne_of_use v h f.free)) refl;
    words = λ c i h nz ne. f.words c i h ne;
    size = f.size;
    volume = f.volume;
    inodes = f.inodes;
  }
