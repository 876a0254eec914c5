-- ===== src/Kernel/FileData/Written.antt =====
-- What `writei` changes: the written bytes of one file, and its size.
use proyecto_3_sistemas_oper.Base.{
  ℕ, ◌+◌, ◌-◌, ◌/◌, ◌<◌, ◌≡◌, ◌≢◌, sym, ap, ◌∙◌, inl, inr, true, false, ◌==◌, if◌then◌else◌, arith,
  Bool-cases, ltb,
}
use proyecto_3_sistemas_oper.Kernel.Params.{bsize}
use proyecto_3_sistemas_oper.Kernel.Strings.{within}
use proyecto_3_sistemas_oper.Kernel.Blocks.{Dinode, Volume}
use proyecto_3_sistemas_oper.Kernel.Blocks.Bitmap.{in_use}
use proyecto_3_sistemas_oper.Kernel.Blocks.Slots.{max_slots, slot, Placed}
use proyecto_3_sistemas_oper.Kernel.Blocks.Growth.{max_bytes, slot_of, content}
use proyecto_3_sistemas_oper.Kernel.FileData.Bytes.{overwritten, overwritten_step}

-- A write of k bytes from `src` at off, into the file with the number inum: its bytes, their
-- blocks and its size, its inode on disk, and what it leaves alone.
pub record Written (inum off k : ℕ) (src : ℕ → ℕ) (ip : Dinode) (v : Volume) (ip' : Dinode)
    (v' : Volume) : Type 0 where
  pub placed : Placed ip' v'
  pub now : (p : ℕ) → p < max_bytes → content ip' v' p ≡ overwritten off k src (content ip v) p
  pub mapped :
      (p : ℕ) → p < max_bytes → within off k p ≡ true → slot (slot_of (p / bsize)) ip' v' ≢ 0
  pub stays : (k : ℕ) → k < max_slots → slot k ip v ≢ 0 → slot k ip' v' ≡ slot k ip v
  pub old_slots :
      (k c : ℕ) → k < max_slots → in_use v c ≡ true → c ≢ 0 → slot k ip' v' ≡ c → slot k ip v ≡ c
  pub size : ip'.size ≡ (if ltb ip.size (off + k) then off + k else ip.size)
  pub disk : v'.dinodes inum ≡ ip'
  pub other_inodes : (i : ℕ) → (i == inum) ≡ false → v'.dinodes i ≡ v.dinodes i
  pub used : (c : ℕ) → in_use v c ≡ true → in_use v' c ≡ true
  pub others :
      (c i : ℕ)
      → in_use v c ≡ true
      → c ≢ 0
      → ((s : ℕ) → s < max_slots → slot s ip v ≢ c)
      → (v'.bytes c i ≡ v.bytes c i) × (v'.words c i ≡ v.words c i)

grown_grown :
    (size off k l : ℕ) (size1 : ℕ)
    → size1 ≡ (if ltb size (off + k) then off + k else size)
    → (if ltb size1 (off + k + l) then off + k + l else size1)
      ≡ (if ltb size (off + (k + l)) then off + (k + l) else size)
grown_grown size off k l size1 h = ground (arith, h)

-- Two writes, one behind the other.
pub Written-trans :
    {inum off k l : ℕ} {src : ℕ → ℕ} {ip ip1 ip2 : Dinode} {v v1 v2 : Volume}
    → Written inum off k src ip v ip1 v1
    → Written inum (off + k) l (λ i. src (k + i)) ip1 v1 ip2 v2
    → Written inum off (k + l) src ip v ip2 v2
Written-trans {inum} {off} {k} {l} {src} {ip} {ip1} {ip2} {v} {v1} {v2} f g = record {
  placed = g.placed;
  now = λ p h.
      g.now p h
      ∙ ap (λ (o : ℕ). if within (off + k) l p then src (k + (p - (off + k))) else o) (f.now p h)
      ∙ overwritten_step off k l p src (content ip v);
  mapped = λ p h there z. elim (Bool-cases (within (off + k) l p)) [
    | inl later ↦ g.mapped p h later z
    | inr not_later ↦
        let early : within off k p ≡ true = ground (arith, there, not_later) in
        let ne = f.mapped p h early in
        ne (sym (g.stays (slot_of (p / bsize)) (ground (arith, h)) ne) ∙ z)
  ];
  stays = λ j h ne. let e = f.stays j h ne in g.stays j h (λ z. ne (sym e ∙ z)) ∙ e;
  old_slots = λ j c h u ne e. f.old_slots j c h u ne (g.old_slots j c h (f.used c u) ne e);
  size = g.size ∙ grown_grown ip.size off k l ip1.size f.size;
  disk = g.disk;
  other_inodes = λ i away. g.other_inodes i away ∙ f.other_inodes i away;
  used = λ c h. g.used c (f.used c h);
  others = λ c i u nz apart.
      let (b1, w1) = f.others c i u nz apart in
      let (b2, w2) = g.others c i (f.used c u) nz (λ j h e. apart j h (f.old_slots j c h u nz e)) in
      (b2 ∙ b1, w2 ∙ w1);
}
