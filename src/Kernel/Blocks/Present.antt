-- ===== src/Kernel/Blocks/Present.antt =====
-- bmap of a block that the file has.
use proyecto_3_sistemas_oper.Base.{
  ℕ, suc, ◌+◌, ◌-◌, ◌<◌, ◌≡◌, ◌≢◌, refl, inl, inr, true, false, ◌==◌, ltb, leb, done, arith,
  Bool-cases, eqb_of_ne,
}
use proyecto_3_sistemas_oper.Kernel.Blocks.{
  Dinode, Volume, ndirect, nindirect, direct, indirect, bmap,
}
use proyecto_3_sistemas_oper.Kernel.Blocks.Slots.{slot}
use proyecto_3_sistemas_oper.Kernel.Blocks.Growth.{slot_of}

pub bmap-there :
    (bn : ℕ) (ip : Dinode) (v : Volume)
    → bn < ndirect + nindirect
    → slot (slot_of bn) ip v ≢ 0
    → bmap bn ip v ≡ done (slot (slot_of bn) ip v, ip, v)
unfolding bmap direct indirect
bmap-there bn ip v inside ne = elim (Bool-cases (ltb bn ndirect)) [
  | inl low ↦
      let at_low : leb bn ndirect ≡ true = ground (arith, low) in
      let there : (ip.addrs bn == 0) ≡ false = eqb_of_ne (ip.addrs bn) 0 (rw (low, at_low) at ne) in
      rw (low, at_low, there) refl
  | inr high ↦
      let at_high : leb (suc bn) ndirect ≡ false = ground (arith, high) in
      let fits : ltb (bn - ndirect) nindirect ≡ true = ground (arith, high, inside) in
      let place : suc bn - suc ndirect ≡ bn - ndirect = omega arith in
      elim (Bool-cases (ip.addrs ndirect == 0)) [
        | inl no_table ↦ absurd (ne (rw (high, at_high, no_table) refl))
        | inr table ↦
            let there : (v.words (ip.addrs ndirect) (bn - ndirect) == 0) ≡ false =
              eqb_of_ne (v.words (ip.addrs ndirect) (bn - ndirect)) 0
                (rw (high, at_high, table, place) at ne) in
            rw (high, at_high, fits, table, place, there, table) refl
      ]
]
