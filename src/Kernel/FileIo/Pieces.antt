-- ===== src/Kernel/FileIo/Pieces.antt =====
-- filewrite in pieces against one write.
use proyecto_3_sistemas_oper.Base.{
  ℕ, zero, suc, ◌+◌, ◌-◌, List, ◌++◌, ◌≤◌, ◌<◌, ◌≡◌, ◌≢◌, ◌⊎◌, refl, ap, ◌∙◌, subst, inl, inr, true,
  false, ◌==◌, ltb, if◌then◌else◌, some, Outcome, fun_ext, done, ◌>>=◌, arith, Bool-cases, eqb→eq,
  eqb_of_ne, eqb_refl, ℤ, pos, minus_one,
}
use proyecto_3_sistemas_oper.Kernel.Strings.{Memory}
use proyecto_3_sistemas_oper.Kernel.Blocks.{Dinode, Volume}
use proyecto_3_sistemas_oper.Kernel.Blocks.Slots.{Placed}
use proyecto_3_sistemas_oper.Kernel.Blocks.Growth.{max_bytes}
use proyecto_3_sistemas_oper.Kernel.Blocks.Mapping.{Full}
use proyecto_3_sistemas_oper.Kernel.File.{File, fd_inode}
use proyecto_3_sistemas_oper.Kernel.FileData.{from_kernel, writei}
use proyecto_3_sistemas_oper.Kernel.FileData.Written.{Written, Written-trans}
use proyecto_3_sistemas_oper.Kernel.FileData.Write.{writei_lem}
use proyecto_3_sistemas_oper.Kernel.Log.{Log}
use proyecto_3_sistemas_oper.Kernel.Log.Replay.{replay}
use proyecto_3_sistemas_oper.Kernel.FileIo.{
  Others, Pieces, piece, after_piece, filewrite_from, write_inode, filewrite,
}

piece_bounds : (left : ℕ) → (piece left ≤ left) × (0 < left → 0 < piece left)
piece_bounds left = ground arith

first_piece :
    (inum fuel i n addr off : ℕ) (mem : Memory) (ip : Dinode) (v : Volume)
    → i < n
    → filewrite_from from_kernel inum (suc fuel) i n addr off mem ip v ≡ (
        writei from_kernel inum (addr + i) off (piece (n - i)) mem ip v >>= λ r.
        after_piece i off
          (piece (n - i))
          r
          (filewrite_from from_kernel inum fuel (i + piece (n - i)) n addr))
unfolding filewrite_from
first_piece inum fuel i n addr off mem ip v lt =
    let more : ltb i n ≡ true = ground (arith, lt) in rw more refl

no_piece :
    (inum fuel n addr off : ℕ) (mem : Memory) (ip : Dinode) (v : Volume)
    → filewrite_from from_kernel inum fuel n n addr off mem ip v ≡ done (n, off, mem, ip, v)
unfolding filewrite_from
no_piece inum zero n addr off mem ip v = refl
no_piece inum (suc fuel) n addr off mem ip v =
    let over : ltb n n ≡ false = ground arith in rw over refl

piece_whole :
    (i off n1 k : ℕ) (mem : Memory) (ip : Dinode) (v : Volume)
    (next : ℕ → Memory → Dinode → Volume → Outcome (Pieces Memory))
    → k ≡ n1
    → after_piece i off n1 (some k, mem, ip, v) next ≡ next (off + k) mem ip v
piece_whole i off n1 k mem ip v next e = let t : (k == n1) ≡ true = ground (arith, e) in rw t refl

piece_short :
    (i off n1 k : ℕ) (mem : Memory) (ip : Dinode) (v : Volume)
    (next : ℕ → Memory → Dinode → Volume → Outcome (Pieces Memory))
    → k ≢ n1
    → after_piece i off n1 (some k, mem, ip, v) next ≡ done (i, off + k, mem, ip, v)
piece_short i off n1 k mem ip v next ne = rw (eqb_of_ne k n1 ne) refl

-- The loop from i bytes on: j of them count as written, k are in the file.
abbrev WrotePieces : (inum fuel i n addr off : ℕ) → Memory → Dinode → Volume → Type 0
WrotePieces inum fuel i n addr off mem ip v =
    (j : ℕ) × (k : ℕ) × (ip' : Dinode) × (v' : Volume) × (filewrite_from from_kernel inum fuel i n
        addr off mem ip v
      ≡ done (j, off + k, mem, ip', v'))
    × Written inum off k (λ a. mem (addr + i + a)) ip v ip' v'
    × (((j ≡ n) × (i + k ≡ n)) ⊎ ((j < n) × (i + k < n) × Full v'))

pieces_lem :
    (inum fuel i n addr off : ℕ) (mem : Memory) (ip : Dinode) (v : Volume)
    → n ≤ i + fuel
    → i < n
    → off ≤ ip.size
    → off + (n - i) ≤ max_bytes
    → Placed ip v
    → WrotePieces inum fuel i n addr off mem ip v
pieces_lem inum zero i n addr off mem ip v enough lt le fits ok = absurd (omega (arith, enough, lt))
pieces_lem inum (suc fuel) i n addr off mem ip v enough lt le fits ok =
    let n1 = piece (n - i) in
    let (small, some_bytes) = piece_bounds (n - i) in
    let (k, ip1, v1, ran, w, short, why) =
      writei_lem inum (addr + i) off n1 mem ip v le (omega (arith, small, fits)) ok in
    let start =
      first_piece inum fuel i n addr off mem ip v lt
      ∙ ap
          (λ o. o >>= λ r.
            after_piece i off n1 r (filewrite_from from_kernel inum fuel (i + n1) n addr))
          ran in
    let next = filewrite_from from_kernel inum fuel (i + n1) n addr in
    elim (Bool-cases (k == n1)) [
      | inr missing ↦
          let ne : k ≢ n1 = ne_of_eqb k n1 missing in
          (
            i,
            k,
            ip1,
            v1,
            start ∙ piece_short i off n1 k mem ip1 v1 next ne,
            w,
            inr (
              lt,
              omega (arith, short, ne, small, lt),
              elim why [ inl e ↦ absurd (ne e) | inr full ↦ full ],
            ),
          )
      | inl whole ↦
          let e : k ≡ n1 = eqb→eq k n1 whole in
          let begun = start ∙ piece_whole i off n1 k mem ip1 v1 next e in
          elim (Bool-cases (i + n1 == n)) [
            | inl last ↦
                let at_end : i + n1 ≡ n = eqb→eq (i + n1) n last in
                (
                  n,
                  k,
                  ip1,
                  v1,
                  begun
                      ∙ ap
                          (λ (x : ℕ).
                            filewrite_from from_kernel inum fuel x n addr (off + k) mem ip1 v1)
                          at_end
                      ∙ no_piece inum fuel n addr (off + k) mem ip1 v1,
                  w,
                  inl (refl, omega (arith, at_end, e)),
                )
            | inr more ↦
                let ne : i + n1 ≢ n = ne_of_eqb (i + n1) n more in
                let (j, l, ip2, v2, ran2, w2, why2) =
                  pieces_lem inum fuel (i + n1) n addr (off + k) mem ip1 v1
                    (omega (arith, enough, some_bytes (omega (arith, lt))))
                    (omega (arith, small, lt, ne)) (rw w.size (ground arith))
                    (omega (arith, fits, small, e, lt)) w.placed in
                (
                  j,
                  k + l,
                  ip2,
                  v2,
                  begun ∙ ran2 ∙ ap (λ (x : ℕ). done (j, x, mem, ip2, v2)) (regroup off k l),
                  Written-trans w (
                      subst (λ (g : ℕ → ℕ). Written inum (off + k) l g ip1 v1 ip2 v2)
                        (fun_ext (shifted mem addr i k n1 e)) w2),
                  elim why2 [
                    | inl (all, total) ↦ inl (all, sum_eq i n1 k l n e total)
                    | inr (under, total, full) ↦ inr (under, sum_lt i n1 k l n e total, full)
                  ],
                )
          ]
    ]
  where
    ne_of_eqb : (a b : ℕ) → (a == b) ≡ false → a ≢ b
    ne_of_eqb a b h e = ground arith

    regroup : (a b c : ℕ) → a + b + c ≡ a + (b + c)
    regroup a b c = omega arith

    shifted :
        (mem : Memory) (addr i k n1 : ℕ)
        → k ≡ n1
        → (a : ℕ) → mem (addr + (i + n1) + a) ≡ mem (addr + i + (k + a))
    shifted mem addr i k n1 e a = ap mem (omega (arith, e))

    sum_eq : (i n1 k l n : ℕ) → k ≡ n1 → i + n1 + l ≡ n → i + (k + l) ≡ n
    sum_eq i n1 k l n e h = omega arith

    sum_lt : (i n1 k l n : ℕ) → k ≡ n1 → i + n1 + l < n → i + (k + l) < n
    sum_lt i n1 k l n e h = omega arith

filewrite_inode :
    (o : Others Memory) (inum addr n inode : ℕ) (f : File) (mem : Memory) (ip : Dinode) (v : Volume)
    → f.writable ≡ true
    → f.type_of ≡ fd_inode inode
    → filewrite o from_kernel inum addr (pos n) f mem ip v
      ≡ write_inode from_kernel inum addr (pos n) f mem ip v
unfolding filewrite
filewrite_inode o inum addr n inode f mem ip v may kind = simp (may, kind) refl

-- `filewrite` of n > 0 bytes of memory to a file on disk that is open for writing, at an offset that
-- is not beyond its end, within MAXFILE blocks, where the file's blocks are in use and distinct,
-- does not panic, the log aside. However many pieces it is done in, what it leaves is what one `writei` of some
-- number k of the bytes leaves, and the open file's offset is k further. It returns n if k is n;
-- otherwise no block is left, and it returns -1.
pub filewrite_lem :
    (o : Others Memory) (inum addr n inode : ℕ) (f : File) (mem : Memory) (ip : Dinode) (v : Volume)
    → f.writable ≡ true
    → f.type_of ≡ fd_inode inode
    → 0 < n
    → f.off ≤ ip.size
    → f.off + n ≤ max_bytes
    → Placed ip v
    → (r : ℤ) × (k : ℕ) × (ip' : Dinode) × (v' : Volume) × (filewrite o from_kernel inum addr
          (pos n)
          f
          mem
          ip
          v
        ≡ done (r, record f { off = f.off + k }, mem, ip', v'))
      × Written inum f.off k (λ a. mem (addr + a)) ip v ip' v'
      × (((r ≡ pos n) × (k ≡ n)) ⊎ ((r ≡ minus_one) × (k < n) × Full v'))
filewrite_lem o inum addr n inode f mem ip v may kind some_bytes le fits ok =
    let (j, k, ip', v', ran, w, why) =
      pieces_lem inum n 0 n addr f.off mem ip v (omega arith) some_bytes le (omega (arith, fits))
        ok in
    (
      (if j == n then pos n else minus_one),
      k,
      ip',
      v',
      filewrite_inode o inum addr n inode f mem ip v may kind
          ∙ ap
              (λ q. q >>= λ (i, off, s', jp, u).
                done ((if i == n then pos n else minus_one), record f { off = off }, s', jp, u))
              ran,
      subst (λ (g : ℕ → ℕ). Written inum f.off k g ip v ip' v') (fun_ext (from_start mem addr)) w,
      elim why [
        | inl (all, total) ↦ inl (rw (all, eqb_refl n) refl, total_eq k n total)
        | inr (under, total, full) ↦
            inr (rw (eqb_of_ne j n (λ e. omega (arith, under, e))) refl, total_lt k n total, full)
      ],
    )
  where
    from_start : (mem : Memory) (addr a : ℕ) → mem (addr + 0 + a) ≡ mem (addr + a)
    from_start mem addr a = ap mem (omega arith)

    total_eq : (k n : ℕ) → 0 + k ≡ n → k ≡ n
    total_eq k n h = omega arith

    total_lt : (k n : ℕ) → 0 + k < n → k < n
    total_lt k n h = omega arith

-- The log takes all that was logged from v to v'.
abbrev pub Taken : Log → Volume → Volume → Type 0
Taken l v v' =
    (calls : List ℕ) × (l' : Log) × (v'.logged ≡ calls ++ v.logged) × (replay calls l ≡ done l')
