-- ===== src/Kernel/Blocks/Mapping.antt =====
-- bmap against the slots of a file.
use proyecto_3_sistemas_oper.Base.{
  ℕ, suc, ◌+◌, ◌-◌, ◌≤◌, ◌<◌, ◌≡◌, ◌≢◌, refl, sym, ap, ◌∙◌, inl, inr, true, false, ◌==◌, leb, ltb,
  done, arith, Bool-cases, eqb→eq, eqb_of_ne, eqb_refl,
}
use proyecto_3_sistemas_oper.Kernel.Blocks.{
  Dinode, Volume, ndirect, nindirect, balloc, direct, indirect, bmap, set_addr, set_word, log_block,
}
use proyecto_3_sistemas_oper.Kernel.Blocks.Bitmap.{in_use, balloc_lem}
use proyecto_3_sistemas_oper.Kernel.Blocks.Slots.{
  slot, Placed, Filled-direct, Filled-table, Filled-indirect,
}
use proyecto_3_sistemas_oper.Kernel.Blocks.Growth.{
  max_file, slot_of, Kept, Kept-refl, Kept-trans, Filled-Kept,
}

-- The volume has no block left.
abbrev pub Full : Volume → Type 0
Full v = (c : ℕ) → c < v.size → in_use v c ≡ true

-- The slot k has the block a, and it has none only if there is none left.
pub record Found (k : ℕ) (ip : Dinode) (v : Volume) (a : ℕ) (ip' : Dinode) (v' : Volume)
    : Type 0 where
  pub kept : Kept ip v ip' v'
  pub address : slot k ip' v' ≡ a
  pub full : a ≡ 0 → Full v'

direct-there :
    (i : ℕ) (ip : Dinode) (v : Volume) → ip.addrs i ≢ 0 → direct i ip v ≡ (ip.addrs i, ip, v)
unfolding direct
direct-there i ip v ne = rw (eqb_of_ne (ip.addrs i) 0 ne) refl

direct-full :
    (i : ℕ) (ip : Dinode) (v : Volume)
    → ip.addrs i ≡ 0
    → balloc v ≡ (0, v)
    → direct i ip v ≡ (0, ip, v)
unfolding direct
direct-full i ip v gap none_left = rw (gap, none_left) refl

direct-new :
    (i b : ℕ) (ip : Dinode) (v v' : Volume)
    → ip.addrs i ≡ 0
    → balloc v ≡ (b, v')
    → b ≢ 0
    → direct i ip v ≡ (b, set_addr i b ip, v')
unfolding direct
direct-new i b ip v v' gap got ne = rw (gap, got, eqb_of_ne b 0 ne) refl

direct_lem :
    (i : ℕ) (ip : Dinode) (v : Volume)
    → i ≤ ndirect
    → Placed ip v
    → (a : ℕ) × (ip' : Dinode) × (v' : Volume) × (direct i ip v ≡ (a, ip', v'))
      × Found i ip v a ip' v'
direct_lem i ip v le ok =
    let low : leb i ndirect ≡ true = ground (arith, le) in
    elim (Bool-cases (ip.addrs i == 0)) [
      | inr there ↦
          let ne : ip.addrs i ≢ 0 = ground (arith, there) in
          (
            ip.addrs i,
            ip,
            v,
            direct-there i ip v ne,
            record { kept = Kept-refl ip v ok; address = rw low refl; full = λ z. absurd (ne z) },
          )
      | inl gap_test ↦
          let gap : ip.addrs i ≡ 0 = eqb→eq (ip.addrs i) 0 gap_test in
          elim (balloc_lem v ok.boot) [
            | inl (none_left, full) ↦ (
              0,
              ip,
              v,
              direct-full i ip v gap none_left,
              record { kept = Kept-refl ip v ok; address = rw (low, gap) refl; full = λ z. full },
            )
            | inr (b, v', got, a) ↦ (
              b,
              set_addr i b ip,
              v',
              direct-new i b ip v v' gap got (λ z. omega (arith, a.positive, z)),
              record {
                kept = elim (Bool-cases (i == ndirect)) [
                  | inl table ↦
                      let e : i ≡ ndirect = eqb→eq i ndirect table in
                      rw e
                        (Filled-Kept ok (Filled-table b ip v v' ok (ap ip.addrs (sym e) ∙ gap) a))
                  | inr below ↦
                      Filled-Kept ok
                        (Filled-direct i b ip v v' (ground (arith, below, le)) ok gap a)
                ];
                address = rw (low, eqb_refl i) refl;
                full = λ z. absurd (omega (arith, a.positive, z));
              },
            )
          ]
    ]

indirect-there : (ib i : ℕ) (v : Volume) → v.words ib i ≢ 0 → indirect ib i v ≡ (v.words ib i, v)
unfolding indirect
indirect-there ib i v ne = rw (eqb_of_ne (v.words ib i) 0 ne) refl

indirect-full :
    (ib i : ℕ) (v : Volume) → v.words ib i ≡ 0 → balloc v ≡ (0, v) → indirect ib i v ≡ (0, v)
unfolding indirect
indirect-full ib i v gap none_left = rw (gap, none_left) refl

indirect-new :
    (ib i b : ℕ) (v v' : Volume)
    → v.words ib i ≡ 0
    → balloc v ≡ (b, v')
    → b ≢ 0
    → indirect ib i v ≡ (b, log_block ib (set_word ib i b v'))
unfolding indirect
indirect-new ib i b v v' gap got ne = rw (gap, got, eqb_of_ne b 0 ne) refl

indirect_slot :
    (i : ℕ) (ip : Dinode) (v : Volume)
    → ip.addrs ndirect ≢ 0
    → slot (suc ndirect + i) ip v ≡ v.words (ip.addrs ndirect) i
indirect_slot i ip v there =
    let far : leb (suc ndirect + i) ndirect ≡ false = ground arith in
    let place : suc ndirect + i - suc ndirect ≡ i = omega arith in
    rw (far, eqb_of_ne (ip.addrs ndirect) 0 there, place) refl

indirect_lem :
    (i : ℕ) (ip : Dinode) (v : Volume)
    → i < nindirect
    → ip.addrs ndirect ≢ 0
    → Placed ip v
    → (a : ℕ) × (v' : Volume) × (indirect (ip.addrs ndirect) i v ≡ (a, v'))
      × Found (suc ndirect + i) ip v a ip v'
indirect_lem i ip v lt there ok =
    let ib = ip.addrs ndirect in
    elim (Bool-cases (v.words ib i == 0)) [
      | inr word ↦
          let ne : v.words ib i ≢ 0 = ground (arith, word) in
          (
            v.words ib i,
            v,
            indirect-there ib i v ne,
            record {
              kept = Kept-refl ip v ok;
              address = indirect_slot i ip v there;
              full = λ z. absurd (ne z);
            },
          )
      | inl gap_test ↦
          let gap : v.words ib i ≡ 0 = eqb→eq (v.words ib i) 0 gap_test in
          elim (balloc_lem v ok.boot) [
            | inl (none_left, full) ↦ (
              0,
              v,
              indirect-full ib i v gap none_left,
              record {
                kept = Kept-refl ip v ok;
                address = indirect_slot i ip v there ∙ gap;
                full = λ z. full;
              },
            )
            | inr (b, v', got, a) ↦
                let v'' = log_block ib (set_word ib i b v') in
                (
                  b,
                  v'',
                  indirect-new ib i b v v' gap got (λ z. omega (arith, a.positive, z)),
                  record {
                    kept = Filled-Kept ok (Filled-indirect i b ip v v' lt ok there gap a);
                    address = indirect_slot i ip v'' there ∙ rw (eqb_refl ib, eqb_refl i) refl;
                    full = λ z. absurd (omega (arith, a.positive, z));
                  },
                )
          ]
    ]

bmap-direct :
    (bn : ℕ) (ip : Dinode) (v : Volume)
    → ltb bn ndirect ≡ true
    → bmap bn ip v ≡ done (direct bn ip v)
unfolding bmap
bmap-direct bn ip v small = rw small refl

bmap-no_table :
    (bn : ℕ) (ip ip' : Dinode) (v v' : Volume)
    → ltb bn ndirect ≡ false
    → ltb (bn - ndirect) nindirect ≡ true
    → direct ndirect ip v ≡ (0, ip', v')
    → bmap bn ip v ≡ done (0, ip', v')
unfolding bmap
bmap-no_table bn ip ip' v v' large fits none_left = rw (large, fits, none_left) refl

bmap-indirect :
    (bn ib a : ℕ) (ip ip' : Dinode) (v v' v'' : Volume)
    → ltb bn ndirect ≡ false
    → ltb (bn - ndirect) nindirect ≡ true
    → direct ndirect ip v ≡ (ib, ip', v')
    → ib ≢ 0
    → indirect ib (bn - ndirect) v' ≡ (a, v'')
    → bmap bn ip v ≡ done (a, ip', v'')
unfolding bmap
bmap-indirect bn ib a ip ip' v v' v'' large fits table ne word =
    rw (large, fits, table, word, eqb_of_ne ib 0 ne) refl

-- `bmap` of a block below MAXFILE, for a file whose blocks are in use and distinct, does not panic:
-- it gives the block in the file's slot for it, and gives 0 only if no block is left. The file's
-- bytes and the blocks that it had, the other blocks in use and the inodes on disk stay as they
-- were, and the file's blocks are still in use and distinct.
pub bmap_lem :
    (bn : ℕ) (ip : Dinode) (v : Volume)
    → bn < max_file
    → Placed ip v
    → (a : ℕ) × (ip' : Dinode) × (v' : Volume) × (bmap bn ip v ≡ done (a, ip', v'))
      × Found (slot_of bn) ip v a ip' v'
bmap_lem bn ip v lt ok = elim (Bool-cases (ltb bn ndirect)) [
  | inl small ↦
      let (a, ip', v', ran, found) = direct_lem bn ip v (ground (arith, small)) ok in
      (a, ip', v', bmap-direct bn ip v small ∙ ap done ran, rw small found)
  | inr large ↦
      let fits : ltb (bn - ndirect) nindirect ≡ true = ground (arith, large, lt) in
      let (ib, ip', v', ran, found) = direct_lem ndirect ip v (omega arith) ok in
      elim (Bool-cases (ib == 0)) [
        | inl none_left ↦
            let e : ib ≡ 0 = eqb→eq ib 0 none_left in
            let far : leb (suc bn) ndirect ≡ false = ground (arith, large) in
            let no_table : ip'.addrs ndirect ≡ 0 = found.address ∙ e in
            (
              0,
              ip',
              v',
              bmap-no_table bn ip ip' v v' large fits (ran ∙ ap (λ (x : ℕ). (x, ip', v')) e),
              rw large (record {
                kept = found.kept;
                address = rw (far, no_table) refl;
                full = λ z. found.full e;
              }),
            )
        | inr there ↦
            let ne : ib ≢ 0 = ground (arith, there) in
            let at_ib : ip'.addrs ndirect ≡ ib = found.address in
            let (a, v'', ran', found') =
              indirect_lem (bn - ndirect) ip' v' (ground (arith, large, lt))
                (λ z. ne (sym at_ib ∙ z)) found.kept.placed in
            let place : suc ndirect + (bn - ndirect) ≡ suc bn = ground (arith, large) in
            (
              a,
              ip',
              v'',
              bmap-indirect bn ib a ip ip' v v' v'' large fits ran ne
                  (ap (λ (x : ℕ). indirect x (bn - ndirect) v') (sym at_ib) ∙ ran'),
              rw large (record {
                kept = Kept-trans found.kept found'.kept;
                address = ap (λ (x : ℕ). slot x ip' v'') (sym place) ∙ found'.address;
                full = found'.full;
              }),
            )
      ]
]
