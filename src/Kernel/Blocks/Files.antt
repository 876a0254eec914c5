-- ===== src/Kernel/Blocks/Files.antt =====
-- The blocks of a file: bmap is stable.
use proyecto_3_sistemas_oper.Base.{
  ℕ, ◌-◌, ◌≡◌, ◌≢◌, refl, inl, inr, sym, ap, subst, true, false, ◌==◌, ltb, done, panic, arith,
  Bool-cases, eqb_refl, eqb_of_ne,
}
use proyecto_3_sistemas_oper.Kernel.Blocks.{
  Dinode, Volume, ndirect, nindirect, balloc, direct, indirect, bmap,
}

direct_kept :
    (i : ℕ) (ip : Dinode) (v : Volume)
    → (direct i ip v).0 ≢ 0
    → (direct i ip v).1.addrs i ≡ (direct i ip v).0
unfolding direct
direct_kept i ip v ne = elim (Bool-cases (ip.addrs i == 0)) [
  | inr there ↦ rw there refl
  | inl gap ↦ elim (Bool-cases ((balloc v).0 == 0)) [
    | inl full ↦ absurd (ne (rw (gap, full) refl))
    | inr got ↦ rw (gap, got, eqb_refl i) refl
  ]
]

direct_again :
    (i a : ℕ) (ip : Dinode) (v : Volume) → ip.addrs i ≡ a → a ≢ 0 → direct i ip v ≡ (a, ip, v)
unfolding direct
direct_again i a ip v h ne = rw (h, eqb_of_ne a 0 ne) refl

indirect_kept :
    (ib i : ℕ) (v : Volume)
    → (indirect ib i v).0 ≢ 0
    → (indirect ib i v).1.words ib i ≡ (indirect ib i v).0
unfolding indirect
indirect_kept ib i v ne = elim (Bool-cases (v.words ib i == 0)) [
  | inr there ↦ rw there refl
  | inl gap ↦ elim (Bool-cases ((balloc v).0 == 0)) [
    | inl full ↦ absurd (ne (rw (gap, full) refl))
    | inr got ↦ rw (gap, got, eqb_refl i, eqb_refl ib) refl
  ]
]

indirect_again : (ib i a : ℕ) (v : Volume) → v.words ib i ≡ a → a ≢ 0 → indirect ib i v ≡ (a, v)
unfolding indirect
indirect_again ib i a v h ne = rw (h, eqb_of_ne a 0 ne) refl

abbrev Stable : ℕ → ℕ × Dinode × Volume → Type 0
Stable bn r = r.0 ≢ 0 → bmap bn r.1 r.2 ≡ done r

done_inj {ℓ} : {A : Type ℓ} {a b : A} → done a ≡ done b → a ≡ b
done_inj h = cc

done_panic {ℓ} : {A : Type ℓ} {a : A} → panic ≡ done a → ⊥
done_panic h = cc

direct-Stable :
    (bn : ℕ) (ip : Dinode) (v : Volume) → ltb bn ndirect ≡ true → Stable bn (direct bn ip v)
unfolding bmap
direct-Stable bn ip v small ne = rw small (
    ap done (
      direct_again bn (direct bn ip v).0 (direct bn ip v).1 (direct bn ip v).2
        (direct_kept bn ip v ne) ne))

indirect-Stable :
    (bn : ℕ) (ip : Dinode) (v : Volume)
    → ltb bn ndirect ≡ false
    → ltb (bn - ndirect) nindirect ≡ true
    → (direct ndirect ip v).0 ≢ 0
    → let (ib, ip', v') = direct ndirect ip v in
      let (a, v'') = indirect ib (bn - ndirect) v' in Stable bn (a, ip', v'')
unfolding bmap
indirect-Stable bn ip v large fits there ne =
    let (ib, ip', v') = direct ndirect ip v in
    let (a, v'') = indirect ib (bn - ndirect) v' in
    let block : direct ndirect ip' v'' ≡ (ib, ip', v'') =
      direct_again ndirect ib ip' v'' (direct_kept ndirect ip v there) there in
    let word : indirect ib (bn - ndirect) v'' ≡ (a, v'') =
      indirect_again ib (bn - ndirect) a v'' (indirect_kept ib (bn - ndirect) v' ne) ne in
    rw (large, fits, block, word, eqb_of_ne ib 0 there) refl

-- Once `bmap` has given a block of a file its address, it gives the same address again, and changes
-- neither the inode nor the volume.
pub bmap-bmap :
    (bn a : ℕ) (ip ip' : Dinode) (v v' : Volume)
    → bmap bn ip v ≡ done (a, ip', v')
    → a ≢ 0
    → bmap bn ip' v' ≡ done (a, ip', v')
unfolding bmap
bmap-bmap bn a ip ip' v v' h = elim (Bool-cases (ltb bn ndirect)) [
  | inl small ↦ subst (Stable bn) (done_inj (rw (bmap, small) at h)) (direct-Stable bn ip v small)
  | inr large ↦ elim (Bool-cases (ltb (bn - ndirect) nindirect)) [
    | inr out ↦ absurd (done_panic (rw (bmap, large, out) at h))
    | inl fits ↦ elim (Bool-cases ((direct ndirect ip v).0 == 0)) [
      | inl full ↦ λ ne. absurd (
          ne (
            ap (λ (r : ℕ × Dinode × Volume). r.0)
              (sym (done_inj (rw (bmap, large, fits, full) at h)))))
      | inr there ↦
          subst (Stable bn) (done_inj (rw (bmap, large, fits, there) at h))
            (indirect-Stable bn ip v large fits (λ e. ground arith))
    ]
  ]
]
