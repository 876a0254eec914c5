-- ===== src/Kernel/FileData/Write.antt =====
-- writei against the bytes of the file.
use proyecto_3_sistemas_oper.Base.{
  ℕ, zero, suc, ◌+◌, ◌-◌, ◌/◌, ◌%◌, ◌^◌, ◌≤◌, ◌<◌, ◌≡◌, ◌≢◌, ◌⊎◌, refl, ap, ◌∙◌, inl, inr, true,
  false, ◌==◌, ltb, ◌||◌, if◌then◌else◌, some, none, done, ◌>>=◌, arith, Bool-cases, eqb→eq,
  eqb_refl,
}
use proyecto_3_sistemas_oper.Kernel.Params.{bsize}
use proyecto_3_sistemas_oper.Kernel.Strings.{Memory}
use proyecto_3_sistemas_oper.Kernel.Blocks.{Dinode, Volume, iupdate, log_block}
use proyecto_3_sistemas_oper.Kernel.Blocks.Slots.{Placed}
use proyecto_3_sistemas_oper.Kernel.Blocks.Growth.{max_bytes}
use proyecto_3_sistemas_oper.Kernel.Blocks.Mapping.{Full, bmap_lem}
use proyecto_3_sistemas_oper.Kernel.FileData.{
  from_kernel, chunk, put_bytes, writei_from, writei, write_end,
}
use proyecto_3_sistemas_oper.Kernel.FileData.Bytes.{Wrote, Kept-Wrote, put-Wrote, after_Kept}
use proyecto_3_sistemas_oper.Kernel.FileData.Written.{Written}
use proyecto_3_sistemas_oper.Kernel.FileData.WriteRound.{
  chunk_bounds, write_round, write_stop, Runs, no_more, run_over, Ended-step, Ended,
}

writei_from_lem :
    (fuel tot n off src : ℕ) (mem : Memory) (ip : Dinode) (v : Volume)
    → n ≤ tot + fuel
    → tot ≤ n
    → off + (n - tot) ≤ max_bytes
    → Placed ip v
    → Runs fuel tot n off src mem ip v
writei_from_lem zero tot n off src mem ip v enough le fits ok =
    run_over zero tot n off src mem ip v (omega (arith, enough)) le ok
writei_from_lem (suc fuel) tot n off src mem ip v enough le fits ok =
    elim (Bool-cases (ltb tot n)) [
      | inr over ↦ run_over (suc fuel) tot n off src mem ip v (ground (arith, over)) le ok
      | inl more ↦
          let lt : tot < n = ground (arith, more) in
          let (a, ip1, v1, got, found) = bmap_lem (off / bsize) ip v (omega (arith, fits, lt)) ok in
          let m = chunk (n - tot) off in
          let (small, some_bytes, in_block) = chunk_bounds (n - tot) off in
          elim (Bool-cases (a == 0)) [
            | inl none_left ↦
                let z : a ≡ 0 = eqb→eq a 0 none_left in
                (
                  0,
                  ip1,
                  v1,
                  no_more tot off mem ip1 v1 (
                      write_stop fuel tot n off src mem ip ip1 v v1 lt
                        (got ∙ ap (λ (x : ℕ). done (x, ip1, v1)) z)),
                  record {
                    wrote = Kept-Wrote found.kept;
                    short = omega (arith, le);
                    why = inr (found.full z);
                  },
                )
            | inr there ↦
                let ne : a ≢ 0 = ground (arith, there) in
                let v2 = log_block a (put_bytes a (off % bsize) m (λ i. mem (src + i)) v1) in
                let w : Wrote off m (λ i. mem (src + i)) ip v ip1 v2 = after_Kept found.kept (
                  put-Wrote off m a (λ i. mem (src + i)) ip1 v1 found.kept.placed
                    (omega (arith, fits, lt)) in_block found.address ne) in
                let (k, ip3, v3, ran, e) =
                  writei_from_lem fuel (tot + m) n (off + m) (src + m) mem ip1 v2
                    (omega (arith, enough, some_bytes (omega (arith, lt))))
                    (omega (arith, small, lt)) (omega (arith, fits, small, lt)) w.placed in
                let t : tot + m + k ≡ tot + (m + k) = omega arith in
                let o : off + m + k ≡ off + (m + k) = omega arith in
                (
                  m + k,
                  ip3,
                  v3,
                  write_round fuel tot n off src a mem ip ip1 v v1 lt got ne
                      ∙ ran
                      ∙ ap (λ (x : ℕ). done (x, off + m + k, mem, ip3, v3)) t
                      ∙ ap (λ (x : ℕ). done (tot + (m + k), x, mem, ip3, v3)) o,
                  Ended-step w e,
                )
          ]
    ]

Written-end :
    (inum off n k src : ℕ) (mem : Memory) (ip ip1 ip2 : Dinode) (v v1 : Volume)
    → Ended 0 n off src k mem ip v ip1 v1
    → ip2.addrs ≡ ip1.addrs
    → ip2.size ≡ (if ltb ip.size (off + k) then off + k else ip.size)
    → Written inum off k (λ i. mem (src + i)) ip v ip2 (iupdate inum ip2 v1)
unfolding iupdate
Written-end inum off n k src mem ip ip1 ip2 v v1 e same size = record {
  placed = record {
    boot = e.wrote.placed.boot;
    used = rw same e.wrote.placed.used;
    distinct = rw same e.wrote.placed.distinct;
  };
  now = rw same e.wrote.now;
  mapped = rw same e.wrote.mapped;
  stays = rw same e.wrote.stays;
  old_slots = rw same e.wrote.old_slots;
  size = size;
  disk = rw (eqb_refl inum) refl;
  other_inodes = λ i away. rw away (ap (λ (d : ℕ → Dinode). d i) e.wrote.inodes);
  used = e.wrote.used;
  others = e.wrote.others;
}

Full-iupdate : (inum : ℕ) (ip : Dinode) (v : Volume) → Full v → Full (iupdate inum ip v)
unfolding iupdate
Full-iupdate inum ip v full = full

writei-checks :
    (inum src off n : ℕ) (mem : Memory) (ip : Dinode) (v : Volume)
    → off ≤ ip.size
    → off + n ≤ max_bytes
    → writei from_kernel inum src off n mem ip v
      ≡ (writei_from from_kernel n 0 n off src mem ip v >>= λ p. done (write_end inum p))
unfolding writei
writei-checks inum src off n mem ip v le fits =
    let inside : ltb ip.size off ≡ false = ground (arith, le) in
    let no_wrap : ltb ((off + n) % 2 ^ 32) off ≡ false = ground (arith, fits) in
    let room : ltb max_bytes (off + n) ≡ false = ground (arith, fits) in
    rw (inside, no_wrap, room) refl

-- `writei` of n bytes of kernel memory at an offset that is not beyond the file's end, within
-- MAXFILE blocks, for a file whose blocks are in use and distinct, does not panic, the log aside. It returns the
-- number k of bytes written, which is n unless no block is left. Then the file has these bytes at
-- the offset and its old ones everywhere else, its size has grown to the end of the write if that
-- lies behind it, each byte written has a block, and the inode on disk is the one in memory. The file's blocks are in use and
-- distinct, no other inode and no block in use that is not the file's has changed.
pub writei_lem :
    (inum src off n : ℕ) (mem : Memory) (ip : Dinode) (v : Volume)
    → off ≤ ip.size
    → off + n ≤ max_bytes
    → Placed ip v
    → (k : ℕ) × (ip' : Dinode) × (v' : Volume) × (writei from_kernel inum src off n mem ip v
        ≡ done (some k, mem, ip', v'))
      × Written inum off k (λ i. mem (src + i)) ip v ip' v'
      × (k ≤ n)
      × ((k ≡ n) ⊎ Full v')
writei_lem inum src off n mem ip v le fits ok =
    let (k, ip1, v1, ran, e) =
      writei_from_lem n 0 n off src mem ip v (omega arith) (omega arith) (omega (arith, fits)) ok in
    let ip2 = if ltb ip1.size (off + k) then record ip1 { size = off + k } else ip1 in
    let whole : 0 + k ≡ k = omega arith in
    (
      k,
      ip2,
      iupdate inum ip2 v1,
      writei-checks inum src off n mem ip v le fits
          ∙ ap (λ o. o >>= λ p. done (write_end inum p)) ran
          ∙ ap (λ (x : ℕ). done (some x, mem, ip2, iupdate inum ip2 v1)) whole,
      Written-end inum off n k src mem ip ip1 ip2 v v1 e (sized_addrs ip1 (off + k)) (
          sized_size ip1 (off + k)
          ∙ ap (λ (s : ℕ). if ltb s (off + k) then off + k else s) e.wrote.size),
      omega (arith, e.short),
      elim e.why [
        | inl all ↦ inl (omega (arith, all))
        | inr full ↦ inr (Full-iupdate inum ip2 v1 full)
      ],
    )
  where
    sized_addrs :
        (jp : Dinode) (s : ℕ)
        → (if ltb jp.size s then record jp { size = s } else jp).addrs ≡ jp.addrs
    sized_addrs jp s = elim (Bool-cases (ltb jp.size s)) [ inl t ↦ rw t refl | inr f ↦ rw f refl ]

    sized_size :
        (jp : Dinode) (s : ℕ)
        → (if ltb jp.size s then record jp { size = s } else jp).size
          ≡ (if ltb jp.size s then s else jp.size)
    sized_size jp s = elim (Bool-cases (ltb jp.size s)) [ inl t ↦ rw t refl | inr f ↦ rw f refl ]

-- `writei` beyond the file's end, or of more than MAXFILE blocks, returns -1 and changes nothing.
pub writei-none :
    (inum src off n : ℕ) (mem : Memory) (ip : Dinode) (v : Volume)
    → (ip.size < off) ⊎ (max_bytes < off + n)
    → writei from_kernel inum src off n mem ip v ≡ done (none, mem, ip, v)
unfolding writei
writei-none inum src off n mem ip v (inl beyond) =
    let t : ltb ip.size off ≡ true = ground (arith, beyond) in rw t refl
writei-none inum src off n mem ip v (inr long) =
    let t : ltb max_bytes (off + n) ≡ true = ground (arith, long) in
    elim (Bool-cases (ltb ip.size off || ltb ((off + n) % 2 ^ 32) off)) [
      | inl early ↦ rw early refl
      | inr inside ↦ rw (inside, t) refl
    ]
