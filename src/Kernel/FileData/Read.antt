-- ===== src/Kernel/FileData/Read.antt =====
-- readi against the bytes of the file.
use proyecto_3_sistemas_oper.Base.{
  ℕ, zero, suc, ◌+◌, ◌-◌, ◌/◌, ◌%◌, ◌^◌, ◌≤◌, ◌<◌, ◌≡◌, ◌≢◌, ◌⊎◌, refl, sym, ap, ◌∙◌, subst, inl,
  inr, false, ◌==◌, ltb, if◌then◌else◌, some, done, arith, Bool-cases, eqb→eq,
}
use proyecto_3_sistemas_oper.Kernel.Params.{bsize}
use proyecto_3_sistemas_oper.Kernel.Strings.{Memory}
use proyecto_3_sistemas_oper.Kernel.Blocks.{Dinode, Volume}
use proyecto_3_sistemas_oper.Kernel.Blocks.Slots.{Placed, slot}
use proyecto_3_sistemas_oper.Kernel.Blocks.Growth.{max_bytes, slot_of}
use proyecto_3_sistemas_oper.Kernel.Blocks.Mapping.{bmap_lem}
use proyecto_3_sistemas_oper.Kernel.FileData.{to_kernel, chunk, readi_from, readi}
use proyecto_3_sistemas_oper.Kernel.FileData.WriteRound.{chunk_bounds}
use proyecto_3_sistemas_oper.Kernel.FileData.ReadRound.{
  Kept-Got, copied, Found-Got, Got-trans, read_round, read_stop, Hole, Kept-gap, Reads, same_total,
  Reads-over, Got,
}

readi_from_lem :
    (fuel tot n off dst : ℕ) (mem : Memory) (ip : Dinode) (v : Volume)
    → n ≤ tot + fuel
    → tot ≤ n
    → off + (n - tot) ≤ max_bytes
    → Placed ip v
    → Reads fuel tot n off dst mem ip v
readi_from_lem zero tot n off dst mem ip v enough le fits ok =
    Reads-over zero tot n off dst mem ip v (omega (arith, enough)) le ok
readi_from_lem (suc fuel) tot n off dst mem ip v enough le fits ok = elim (Bool-cases (ltb tot n)) [
  | inr over ↦ Reads-over (suc fuel) tot n off dst mem ip v (ground (arith, over)) le ok
  | inl more ↦
      let lt : tot < n = ground (arith, more) in
      let (a, ip1, v1, got, found) = bmap_lem (off / bsize) ip v (omega (arith, fits, lt)) ok in
      let m = chunk (n - tot) off in
      let (small, some_bytes, in_block) = chunk_bounds (n - tot) off in
      elim (Bool-cases (a == 0)) [
        | inl none_left ↦
            let z : a ≡ 0 = eqb→eq a 0 none_left in
            (
              0,
              mem,
              ip1,
              v1,
              same_total tot mem ip1 v1 (
                  read_stop fuel tot n off dst mem ip ip1 v v1 lt
                    (got ∙ ap (λ (x : ℕ). done (x, ip1, v1)) z)),
              Kept-Got found.kept,
              omega (arith, le),
              let at_off : off + 0 ≡ off = omega arith in
                  inr (
                    rw at_off (
                        Kept-gap (slot_of (off / bsize)) (ground (arith, fits, lt)) found.kept
                          (found.address ∙ z)),
                    found.full z,
                  ),
            )
        | inr there ↦
            let ne : a ≢ 0 = ground (arith, there) in
            let bound : off + m ≤ max_bytes = omega (arith, fits, small, lt) in
            let g = Found-Got off dst m a mem ip ip1 v v1 bound in_block ne found in
            let (k, mem2, ip2, v2, ran, g2, short, why) =
              readi_from_lem fuel (tot + m) n (off + m) (dst + m) (copied off dst m a v1 mem) ip1 v1
                (omega (arith, enough, some_bytes (omega (arith, lt)))) (omega (arith, small, lt))
                (omega (arith, fits, small, lt)) found.kept.placed in
            let t : tot + m + k ≡ tot + (m + k) = omega arith in
            (
              m + k,
              mem2,
              ip2,
              v2,
              read_round fuel tot n off dst a mem ip ip1 v v1 lt got ne
                  ∙ ran
                  ∙ ap (λ (x : ℕ). done (some x, mem2, ip2, v2)) t,
              Got-trans (omega (arith, short, fits)) g g2,
              omega (arith, short),
              elim why [
                | inl all ↦ inl (sym t ∙ all)
                | inr hole ↦ elim (Bool-cases (ltb (tot + (m + k)) n)) [
                  | inr over ↦ inl (ground (arith, over, short))
                  | inl under ↦
                      let place : off + m + k ≡ off + (m + k) = omega arith in
                      inr (
                        Kept-gap (slot_of ((off + (m + k)) / bsize)) (ground (arith, under, fits))
                            found.kept
                            (ap (λ (x : ℕ). slot (slot_of (x / bsize)) ip1 v1) (sym place)
                              ∙ hole.0),
                        hole.1,
                      )
                ]
              ],
            )
      ]
]

-- The bytes that are left to read: n, or those up to the end of the file.
abbrev pub available : ℕ → ℕ → ℕ → ℕ
available size off n = if ltb size (off + n) then size - off else n

readi-checks :
    (dst off n : ℕ) (mem : Memory) (ip : Dinode) (v : Volume)
    → off ≤ ip.size
    → off + n < 2 ^ 32
    → readi to_kernel dst off n mem ip v
      ≡ readi_from to_kernel (available ip.size off n) 0 (available ip.size off n) off dst mem ip v
unfolding readi
readi-checks dst off n mem ip v le fits =
    let inside : ltb ip.size off ≡ false = ground (arith, le) in
    let no_wrap : ltb ((off + n) % 2 ^ 32) off ≡ false = ground (arith, fits) in
    rw (inside, no_wrap) refl

-- `readi` of n bytes to kernel memory, at an offset that is not beyond the file's end, where off + n
-- does not wrap around, for a file of MAXFILE blocks at most whose blocks are in use and distinct,
-- does not panic, the log aside. It returns the number k of bytes read, which is n or the number of bytes up to the
-- file's end if that is smaller, unless the block of the next byte is missing and none is left. The
-- bytes at dst are then those of the file at the offset, all other memory is unchanged, and so are
-- the file's bytes and size, the inodes on disk and the blocks that were in use.
pub readi_lem :
    (dst off n : ℕ) (mem : Memory) (ip : Dinode) (v : Volume)
    → off ≤ ip.size
    → ip.size ≤ max_bytes
    → off + n < 2 ^ 32
    → Placed ip v
    → (k : ℕ) × (mem' : Memory) × (ip' : Dinode) × (v' : Volume) × (readi to_kernel dst off n mem ip
          v
        ≡ done (some k, mem', ip', v'))
      × Got off k dst mem ip v mem' ip' v'
      × (k ≤ available ip.size off n)
      × ((k ≡ available ip.size off n) ⊎ Hole (off + k) ip v v')
readi_lem dst off n mem ip v le small fits ok =
    let n' = available ip.size off n in
    let bound : off + (n' - 0) ≤ max_bytes = ground (arith, le, small) in
    let (k, mem', ip', v', ran, g, short, why) =
      readi_from_lem n' 0 n' off dst mem ip v (omega arith) (omega arith) bound ok in
    let whole : 0 + k ≡ k = omega arith in
    (
      k,
      mem',
      ip',
      v',
      readi-checks dst off n mem ip v le fits
          ∙ ran
          ∙ ap (λ (x : ℕ). done (some x, mem', ip', v')) whole,
      g,
      subst (λ (x : ℕ). x ≤ n') whole short,
      elim why [ inl all ↦ inl (sym whole ∙ all) | inr hole ↦ inr hole ],
    )

-- All of the bytes that were written are there to be read.
pub whole_there :
    (size off k : ℕ) → available (if ltb size (off + k) then off + k else size) off k ≡ k
whole_there size off k = elim (Bool-cases (ltb size (off + k))) [
  | inl grown ↦ let over : ltb (off + k) (off + k) ≡ false = ground arith in rw (grown, over) refl
  | inr inside ↦ rw (inside, inside) refl
]
