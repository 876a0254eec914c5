-- ===== src/Kernel/FileData/Logging.antt =====
-- How many log_write calls writei makes, and the log they need.
use proyecto_3_sistemas_oper.Base.{
  ℕ, zero, suc, ◌+◌, ◌-◌, ◌*◌, ◌/◌, ◌%◌, ◌≤◌, ◌∷◌, ◌<◌, ◌≡◌, ◌⊎◌, ap, subst, inl, inr, true, ◌==◌,
  ltb, List, ◌++◌, some, Option, Outcome, done, arith, Bool-cases, ◌||◌, ◌^◌,
}
use proyecto_3_sistemas_oper.Kernel.Params.{bsize, log_blocks}
use proyecto_3_sistemas_oper.Kernel.Strings.{Memory}
use proyecto_3_sistemas_oper.Kernel.Blocks.{Dinode, Volume, bmap, log_block, iblock}
use proyecto_3_sistemas_oper.Kernel.Blocks.Slots.{Placed}
use proyecto_3_sistemas_oper.Kernel.Blocks.Growth.{max_bytes}
use proyecto_3_sistemas_oper.Kernel.Blocks.Mapping.{Full}
use proyecto_3_sistemas_oper.Kernel.Blocks.Logging.{
  Logs, Logs-refl, Logs-trans, Logs-more, log_one, Holds, Holds-bind, Holds-map, bmap-Logs,
}
use proyecto_3_sistemas_oper.Kernel.Log.{Log}
use proyecto_3_sistemas_oper.Kernel.Log.Replay.{replay, replay_lem}
use proyecto_3_sistemas_oper.Kernel.FileData.Written.{Written}
use proyecto_3_sistemas_oper.Kernel.FileData.Write.{writei_lem}
use proyecto_3_sistemas_oper.Kernel.FileData.{
  CopyIn, Progress, chunk, put_bytes, from_kernel, write_end, writei_from, writei,
}

put-Logs :
    {k : ℕ} {u v : Volume} (a at n : ℕ) (src : ℕ → ℕ)
    → Logs k u v
    → Logs k u (put_bytes a at n src v)
put-Logs a at n src h = record { calls = h.calls; grown = h.grown; few = h.few }

-- The bytes that are left end within k blocks.
abbrev Within : (k off left : ℕ) → Type 0
Within k off left = (left ≡ 0) ⊎ (off + left ≤ bsize * (off / bsize + k))

later_block :
    (k off left : ℕ)
    → off + left ≤ bsize * (off / bsize + suc k)
    → Within k (off + chunk left off) (left - chunk left off)
later_block k off left h = elim (Bool-cases (ltb left (bsize - off % bsize))) [
  | inl last ↦ inl (ground (arith, last))
  | inr whole ↦
      let next : (off + (bsize - off % bsize)) / bsize ≡ off / bsize + 1 = omega arith in
      inr (rw (whole, next) (omega (arith, h, whole)))
]

no_block : (off left : ℕ) → 0 < left → off + left ≤ bsize * (off / bsize + 0) → ⊥
no_block off left some_left h = omega (arith, some_left, h)

writei_from-Logs :
    {S : Type 0} (copy : CopyIn S) (fuel k tot n off src : ℕ) (s : S) (ip : Dinode) (v : Volume)
    → Within k off (n - tot)
    → Holds (λ (p : Progress S). Logs (6 * k) v p.4) (writei_from copy fuel tot n off src s ip v)
unfolding writei_from
writei_from-Logs copy zero k tot n off src s ip v h = Logs-refl (6 * k) v
writei_from-Logs {S} copy (suc fuel) zero tot n off src s ip v h = elim (Bool-cases (ltb tot n)) [
  | inr over ↦ rw over (Logs-refl 0 v)
  | inl more ↦
      let some_left : 0 < n - tot = ground (arith, more) in
      absurd (elim h [
        | inl none_left ↦ omega (arith, none_left, some_left)
        | inr fits ↦ no_block off (n - tot) some_left fits
      ])
]
writei_from-Logs {S} copy (suc fuel) (suc k) tot n off src s ip v h =
    elim (Bool-cases (ltb tot n)) [
      | inr over ↦ rw over (Logs-refl (6 * suc k) v)
      | inl more ↦
          let m = chunk (n - tot) off in
          rw more (
            Holds-bind (λ (r : ℕ × Dinode × Volume). Logs 5 v r.2)
              (λ (p : Progress S). Logs (6 * suc k) v p.4) (bmap (off / bsize) ip v) _
              (bmap-Logs (off / bsize) ip v)
              (λ (a, ip1, v1) five. elim (Bool-cases (a == 0)) [
                | inl full ↦ rw full (Logs-more (omega arith) five)
                | inr got ↦ elim (Bool-cases (ltb (copy src m s).0 m)) [
                  | inl short ↦
                      rw (got, short)
                        (put-Logs a (off % bsize) (copy src m s).0 (copy src m s).1
                          (Logs-more (omega arith) five))
                  | inr all ↦
                      let v2 = put_bytes a (off % bsize) (copy src m s).0 (copy src m s).1 v1 in
                      let next = later n tot off k more h in
                      rw (got, all)
                        (Holds-map (λ (p : Progress S). Logs (6 * k) (log_block a v2) p.4)
                          (λ (p : Progress S). Logs (6 * suc k) v p.4)
                          (writei_from copy fuel (tot + m) n (off + m) (src + m) (copy src m s).2
                            ip1 (log_block a v2))
                          (writei_from-Logs copy fuel k (tot + m) n (off + m) (src + m)
                            (copy src m s).2 ip1 (log_block a v2) next)
                          (λ p rest. Logs-more (omega arith) (
                            Logs-trans
                              (Logs-trans
                                (put-Logs a (off % bsize) (copy src m s).0 (copy src m s).1 five)
                                (log_one a v2))
                              rest)))
                ]
              ]))
    ]
  where
    later :
        (n tot off k : ℕ)
        → ltb tot n ≡ true
        → Within (suc k) off (n - tot)
        → Within k (off + chunk (n - tot) off) (n - (tot + chunk (n - tot) off))
    later n tot off k more h =
        let same : n - (tot + chunk (n - tot) off) ≡ n - tot - chunk (n - tot) off = omega arith in
        rw same (elim h [
          | inl none_left ↦ absurd (ground (arith, more, none_left))
          | inr fits ↦ later_block k off (n - tot) fits
        ])

-- How many blocks of a file n bytes from its byte `off` on are in.
abbrev pub blocks : ℕ → ℕ → ℕ
blocks off n = (off % bsize + n + (bsize - 1)) / bsize

pub writei-Logs :
    {S : Type 0} (copy : CopyIn S) (inum src off n : ℕ) (s : S) (ip : Dinode) (v : Volume)
    → Holds
        (λ (r : Option ℕ × S × Dinode × Volume). Logs (6 * blocks off n + 1) v r.3)
        (writei copy inum src off n s ip v)
unfolding writei
writei-Logs {S} copy inum src off n s ip v =
    elim (Bool-cases (ltb ip.size off || ltb ((off + n) % 2 ^ 32) off)) [
      | inl outside ↦ rw outside (Logs-refl (6 * blocks off n + 1) v)
      | inr inside ↦ elim (Bool-cases (ltb max_bytes (off + n))) [
        | inl long ↦ rw (inside, long) (Logs-refl (6 * blocks off n + 1) v)
        | inr fits ↦
            rw (inside, fits)
              (Holds-bind (λ (p : Progress S). Logs (6 * blocks off n) v p.4)
                (λ (r : Option ℕ × S × Dinode × Volume). Logs (6 * blocks off n + 1) v r.3)
                (writei_from copy n 0 n off src s ip v) (λ p. done (write_end inum p))
                (writei_from-Logs copy n (blocks off n) 0 n off src s ip v (inr (omega arith)))
                (λ p made. record {
                  calls = iblock inum p.4 ∷ made.calls;
                  grown = ap (λ c. iblock inum p.4 ∷ c) made.grown;
                  few = omega (arith, made.few);
                }))
      ]
    ]

-- What v' says was logged since v, a log with room for k more blocks takes in a transaction.
pub Logs-replay :
    {k : ℕ} {v v' : Volume} (l : Log)
    → Logs k v v'
    → 0 < l.outstanding
    → l.n + k ≤ log_blocks
    → (calls : List ℕ) × (l' : Log) × (v'.logged ≡ calls ++ v.logged) × (replay calls l ≡ done l')
Logs-replay l made open_op room =
    let (l', ran, same, few) = replay_lem made.calls l open_op (omega (arith, made.few, room)) in
    (made.calls, l', made.grown, ran)

-- What holds of a result that was computed.
pub Holds-result :
    {A : Type 0} (p : A → Type 0) (o : Outcome A) (x : A) → Holds p o → o ≡ done x → p x
Holds-result p o x h e = subst (Holds p) e h

pub writei-replay :
    (inum src off n : ℕ) (mem : Memory) (ip : Dinode) (v : Volume) (l : Log)
    → off ≤ ip.size
    → off + n ≤ max_bytes
    → Placed ip v
    → 0 < l.outstanding
    → l.n + (6 * blocks off n + 1) ≤ log_blocks
    → (k : ℕ) × (ip' : Dinode) × (v' : Volume) × (writei from_kernel inum src off n mem ip v
        ≡ done (some k, mem, ip', v'))
      × Written inum off k (λ i. mem (src + i)) ip v ip' v'
      × (k ≤ n)
      × ((k ≡ n) ⊎ Full v')
      × (calls : List ℕ) × (l' : Log) × (v'.logged ≡ calls ++ v.logged)
      × (replay calls l ≡ done l')
writei-replay inum src off n mem ip v l le fits ok open_op room =
    let (k, ip', v', ran, w, short, why) = writei_lem inum src off n mem ip v le fits ok in
    let made =
      Holds-result (λ (r : Option ℕ × Memory × Dinode × Volume). Logs (6 * blocks off n + 1) v r.3)
        (writei from_kernel inum src off n mem ip v) (some k, mem, ip', v')
        (writei-Logs from_kernel inum src off n mem ip v) ran in
    let (calls, l', grown, took) = Logs-replay l made open_op room in
    (k, ip', v', ran, w, short, why, calls, l', grown, took)
