-- ===== src/Kernel/FileData/Whole.antt =====
-- readi of a file all of whose bytes have a block.
use proyecto_3_sistemas_oper.Base.{
  ℕ, zero, suc, ◌+◌, ◌-◌, ◌*◌, ◌/◌, ◌%◌, ◌^◌, ◌≤◌, ◌<◌, ◌≡◌, ◌≢◌, ◌⊎◌, refl, ap, ◌∙◌, inl, inr,
  true, ltb, List, ◌++◌, some, done, arith, Bool-cases, eqb_of_ne, ◌||◌,
}
use proyecto_3_sistemas_oper.Kernel.Params.{bsize, log_blocks}
use proyecto_3_sistemas_oper.Kernel.Strings.{Memory, within}
use proyecto_3_sistemas_oper.Kernel.Log.{Log}
use proyecto_3_sistemas_oper.Kernel.Log.Replay.{replay}
use proyecto_3_sistemas_oper.Kernel.Blocks.{Dinode, Volume}
use proyecto_3_sistemas_oper.Kernel.Blocks.Slots.{Placed, slot}
use proyecto_3_sistemas_oper.Kernel.Blocks.Growth.{max_bytes, slot_of, content}
use proyecto_3_sistemas_oper.Kernel.Blocks.Mapping.{Full}
use proyecto_3_sistemas_oper.Kernel.Blocks.Logging.{Holds}
use proyecto_3_sistemas_oper.Kernel.Blocks.Present.{bmap-there}
use proyecto_3_sistemas_oper.Kernel.FileData.{
  CopyOut, ReadResult, to_kernel, from_kernel, chunk, readi_from, readi, writei,
}
use proyecto_3_sistemas_oper.Kernel.FileData.Bytes.{overwritten}
use proyecto_3_sistemas_oper.Kernel.FileData.WriteRound.{chunk_bounds}
use proyecto_3_sistemas_oper.Kernel.FileData.Logging.{blocks, writei-replay, Holds-result}
use proyecto_3_sistemas_oper.Kernel.FileData.Read.{available, readi_lem, whole_there}

-- The read has changed neither the inode nor the disk, which it would to allocate a block.
abbrev Still : {D : Type 0} → Dinode → Volume → ReadResult D → Type 0
Still ip v r = (r.2 ≡ ip) × (r.3 ≡ v)

-- The bytes from `off` up to `end` have a block.
abbrev pub Backed : ℕ → ℕ → Dinode → Volume → Type 0
Backed off end ip v = (p : ℕ) → off ≤ p → p < end → slot (slot_of (p / bsize)) ip v ≢ 0

readi_from-Still :
    {D : Type 0} (copy : CopyOut D) (fuel tot n off dst : ℕ) (d : D) (ip : Dinode) (v : Volume)
    → off + (n - tot) ≤ max_bytes
    → Backed off (off + (n - tot)) ip v
    → Holds (Still {D = D} ip v) (readi_from copy fuel tot n off dst d ip v)
unfolding readi_from
readi_from-Still copy zero tot n off dst d ip v fits all = (refl, refl)
readi_from-Still copy (suc fuel) tot n off dst d ip v fits all = elim (Bool-cases (ltb tot n)) [
  | inr over ↦ rw over (refl, refl)
  | inl more ↦
      let lt : tot < n = ground (arith, more) in
      let m = chunk (n - tot) off in
      let (small, some_bytes, in_block) = chunk_bounds (n - tot) off in
      let there = all off (omega arith) (omega (arith, lt)) in
      let found = bmap-there (off / bsize) ip v (omega (arith, fits, lt)) there in
      let b = slot (slot_of (off / bsize)) ip v in
      elim (Bool-cases (copy dst (λ i. v.bytes b (off % bsize + i)) m d).0) [
        | inr bad ↦ rw (more, found, eqb_of_ne b 0 there, bad) (refl, refl)
        | inl ok ↦
            rw (more, found, eqb_of_ne b 0 there, ok)
              (readi_from-Still copy fuel (tot + m) n (off + m) (dst + m) _ ip v
                (omega (arith, fits, small, lt))
                (λ p ge under. all p (omega (arith, ge)) (omega (arith, under, small, lt))))
      ]
]

readi-Still :
    {D : Type 0} (copy : CopyOut D) (dst off n : ℕ) (d : D) (ip : Dinode) (v : Volume)
    → ip.size ≤ max_bytes
    → Backed off (off + available ip.size off n) ip v
    → Holds (Still {D = D} ip v) (readi copy dst off n d ip v)
unfolding readi
readi-Still copy dst off n d ip v small all =
    elim (Bool-cases (ltb ip.size off || ltb ((off + n) % 2 ^ 32) off)) [
      | inl outside ↦ rw outside (refl, refl)
      | inr inside ↦
          let fits : off + (available ip.size off n - 0) ≤ max_bytes =
            ground (arith, small, inside) in
          rw inside (
            readi_from-Still copy (available ip.size off n) 0 (available ip.size off n) off dst d ip
              v fits (λ p ge lt. all p ge (omega (arith, lt))))
    ]

-- `readi` of n bytes to kernel memory, at an offset that is not beyond the file's end, where off + n
-- does not wrap around, for a file of MAXFILE blocks at most whose blocks are in use and distinct,
-- and in which each byte to be read has a block, does not panic. It returns n, or the number of
-- bytes up to the file's end if that is smaller. As many bytes at dst are then those of the file at
-- the offset, and all other memory is unchanged; so are the inode and the disk, and `log_write` is
-- not called.
pub readi_whole :
    (dst off n : ℕ) (mem : Memory) (ip : Dinode) (v : Volume)
    → off ≤ ip.size
    → ip.size ≤ max_bytes
    → off + n < 2 ^ 32
    → Placed ip v
    → Backed off (off + available ip.size off n) ip v
    → (mem' : Memory) × (readi to_kernel dst off n mem ip v
        ≡ done (some (available ip.size off n), mem', ip, v))
      × ((a : ℕ)
          → mem' a ≡ overwritten dst (available ip.size off n) (λ i. content ip v (off + i)) mem a)
readi_whole dst off n mem ip v le small fits ok all =
    let n' = available ip.size off n in
    let (k, mem', ip', v', ran, g, short, why) = readi_lem dst off n mem ip v le small fits ok in
    let (same_ip, same_v) =
      Holds-result (Still {D = Memory} ip v) (readi to_kernel dst off n mem ip v)
        (some k, mem', ip', v') (readi-Still to_kernel dst off n mem ip v small all) ran in
    let e : k ≡ n' = elim why [
      | inl whole ↦ whole
      | inr hole ↦ elim (Bool-cases (ltb k n')) [
        | inl under ↦ absurd (all (off + k) (omega arith) (ground (arith, under)) hole.0)
        | inr over ↦ ground (arith, over, short)
      ]
    ] in
    (
      mem',
      ran
          ∙ ap (λ (j : ℕ). done (some j, mem', ip', v')) e
          ∙ ap (λ (jp : Dinode). done (some n', mem', jp, v')) same_ip
          ∙ ap (λ (u : Volume). done (some n', mem', ip, u)) same_v,
      λ a. g.memory a ∙ ap (λ (j : ℕ). overwritten dst j (λ i. content ip v (off + i)) mem a) e,
    )

-- Let the log be in a transaction, with room for six blocks for each block that n bytes at the
-- offset are in, and for one more. `writei` of n bytes of kernel memory, at an offset that is not
-- beyond the file's end, within MAXFILE blocks, into a file of MAXFILE blocks at most whose blocks
-- are in use and distinct, writes a number k of bytes, all n unless no block is left, and neither it
-- nor its calls of `log_write` panic. `readi` of k bytes at this offset then returns k and gives
-- back the bytes that were written, and changes neither the inode nor the disk.
pub readi-writei :
    (inum src dst off n : ℕ) (mem : Memory) (ip : Dinode) (v : Volume) (l : Log)
    → off ≤ ip.size
    → ip.size ≤ max_bytes
    → off + n ≤ max_bytes
    → Placed ip v
    → 0 < l.outstanding
    → l.n + (6 * blocks off n + 1) ≤ log_blocks
    → (k : ℕ) × (ip' : Dinode) × (v' : Volume) × (writei from_kernel inum src off n mem ip v
        ≡ done (some k, mem, ip', v'))
      × ((k ≡ n) ⊎ Full v')
      × (calls : List ℕ) × (l' : Log) × (v'.logged ≡ calls ++ v.logged)
      × (replay calls l ≡ done l')
      × (mem' : Memory) × (readi to_kernel dst off k mem ip' v' ≡ done (some k, mem', ip', v'))
      × ((i : ℕ) → i < k → mem' (dst + i) ≡ mem (src + i))
readi-writei inum src dst off n mem ip v l le small fits ok open_op room =
    let (k, ip1, v1, wrote, w, short, why, calls, l', grown, took) =
      writei-replay inum src off n mem ip v l le fits ok open_op room in
    let bound : off + k ≤ max_bytes = omega (arith, fits, short) in
    let le' : off ≤ ip1.size = rw w.size (ground (arith, le)) in
    let small' : ip1.size ≤ max_bytes = rw w.size (ground (arith, small, bound)) in
    let no_wrap : off + k < 2 ^ 32 = omega (arith, bound) in
    let there : available ip1.size off k ≡ k = rw w.size (whole_there ip.size off k) in
    let backed : Backed off (off + available ip1.size off k) ip1 v1 =
      λ p ge lt. w.mapped p (omega (arith, lt, there, bound)) (ground (arith, ge, lt, there)) in
    let (mem', read, memory) =
      readi_whole dst off k mem ip1 v1 le' small' no_wrap w.placed backed in
    (
      k,
      ip1,
      v1,
      wrote,
      why,
      calls,
      l',
      grown,
      took,
      mem',
      read ∙ ap (λ (x : ℕ). done (some x, mem', ip1, v1)) there,
      λ i lt.
          let in_read : within dst (available ip1.size off k) (dst + i) ≡ true =
            ground (arith, lt, there) in
          let in_written : within off k (off + i) ≡ true = ground (arith, lt) in
          let place : dst + i - dst ≡ i = omega arith in
          let place' : off + i - off ≡ i = omega arith in
          memory (dst + i)
          ∙ rw (in_read, place)
              (w.now (off + i) (omega (arith, lt, bound)) ∙ rw (in_written, place') refl),
    )
