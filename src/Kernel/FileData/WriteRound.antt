-- ===== src/Kernel/FileData/WriteRound.antt =====
-- The rounds of writei.
use proyecto_3_sistemas_oper.Base.{
  ℕ, zero, suc, ◌+◌, ◌-◌, ◌/◌, ◌%◌, ◌≤◌, ◌<◌, ◌≡◌, ◌≢◌, ◌⊎◌, refl, sym, ap, ◌∙◌, subst, inl, inr,
  true, false, ltb, Outcome, fun_ext, done, arith, eqb_of_ne,
}
use proyecto_3_sistemas_oper.Kernel.Params.{bsize}
use proyecto_3_sistemas_oper.Kernel.Strings.{Memory}
use proyecto_3_sistemas_oper.Kernel.Blocks.{Dinode, Volume, bmap, log_block}
use proyecto_3_sistemas_oper.Kernel.Blocks.Slots.{Placed}
use proyecto_3_sistemas_oper.Kernel.Blocks.Growth.{Kept-refl}
use proyecto_3_sistemas_oper.Kernel.Blocks.Mapping.{Full}
use proyecto_3_sistemas_oper.Kernel.FileData.{Progress, from_kernel, chunk, put_bytes, writei_from}
use proyecto_3_sistemas_oper.Kernel.FileData.Bytes.{Wrote, Kept-Wrote, Wrote-trans}

pub chunk_bounds :
    (left off : ℕ)
    → (chunk left off ≤ left)
      × (0 < left → 0 < chunk left off)
      × (off % bsize + chunk left off ≤ bsize)
chunk_bounds left off = ground arith

ltb_self : (a : ℕ) → ltb a a ≡ false
ltb_self a = ground arith

pub write_round :
    (fuel tot n off src a : ℕ) (mem : Memory) (ip ip' : Dinode) (v v' : Volume)
    → tot < n
    → bmap (off / bsize) ip v ≡ done (a, ip', v')
    → a ≢ 0
    → writei_from from_kernel (suc fuel) tot n off src mem ip v
      ≡ writei_from from_kernel fuel
          (tot + chunk (n - tot) off)
          n
          (off + chunk (n - tot) off)
          (src + chunk (n - tot) off)
          mem
          ip'
          (log_block a (put_bytes a (off % bsize) (chunk (n - tot) off) (λ i. mem (src + i)) v'))
unfolding writei_from
write_round fuel tot n off src a mem ip ip' v v' lt got ne =
    let more : ltb tot n ≡ true = ground (arith, lt) in
    rw (more, got, eqb_of_ne a 0 ne, ltb_self (chunk (n - tot) off)) refl

pub write_stop :
    (fuel tot n off src : ℕ) (mem : Memory) (ip ip' : Dinode) (v v' : Volume)
    → tot < n
    → bmap (off / bsize) ip v ≡ done (0, ip', v')
    → writei_from from_kernel (suc fuel) tot n off src mem ip v ≡ done (tot, off, mem, ip', v')
unfolding writei_from
write_stop fuel tot n off src mem ip ip' v v' lt got =
    let more : ltb tot n ≡ true = ground (arith, lt) in rw (more, got) refl

write_enough :
    (fuel tot n off src : ℕ) (mem : Memory) (ip : Dinode) (v : Volume)
    → n ≤ tot
    → writei_from from_kernel fuel tot n off src mem ip v ≡ done (tot, off, mem, ip, v)
unfolding writei_from
write_enough zero tot n off src mem ip v h = refl
write_enough (suc fuel) tot n off src mem ip v h =
    let over : ltb tot n ≡ false = ground (arith, h) in rw over refl

-- The end of the loop, k bytes further: all are written, or no block is left.
pub record Ended (tot n off src k : ℕ) (mem : Memory) (ip : Dinode) (v : Volume) (ip' : Dinode)
    (v' : Volume) : Type 0 where
  pub wrote : Wrote off k (λ i. mem (src + i)) ip v ip' v'
  pub short : tot + k ≤ n
  pub why : (tot + k ≡ n) ⊎ Full v'

-- What the loop comes to, from `tot` bytes on.
abbrev pub Runs : (fuel tot n off src : ℕ) → Memory → Dinode → Volume → Type 0
Runs fuel tot n off src mem ip v =
    (k : ℕ) × (ip' : Dinode) × (v' : Volume) × (writei_from from_kernel fuel tot n off src mem ip v
      ≡ done (tot + k, off + k, mem, ip', v'))
    × Ended tot n off src k mem ip v ip' v'

pub no_more :
    (tot off : ℕ) (mem : Memory) (ip : Dinode) (v : Volume) {o : Outcome (Progress Memory)}
    → o ≡ done (tot, off, mem, ip, v)
    → o ≡ done (tot + 0, off + 0, mem, ip, v)
no_more tot off mem ip v h =
    let t : tot ≡ tot + 0 = omega arith in
    let o : off ≡ off + 0 = omega arith in
    h
    ∙ ap (λ (x : ℕ). done (x, off, mem, ip, v)) t
    ∙ ap (λ (x : ℕ). done (tot + 0, x, mem, ip, v)) o

pub run_over :
    (fuel tot n off src : ℕ) (mem : Memory) (ip : Dinode) (v : Volume)
    → n ≤ tot
    → tot ≤ n
    → Placed ip v
    → Runs fuel tot n off src mem ip v
run_over fuel tot n off src mem ip v over le ok = (
  0,
  ip,
  v,
  no_more tot off mem ip v (write_enough fuel tot n off src mem ip v over),
  record {
    wrote = Kept-Wrote (Kept-refl ip v ok);
    short = omega (arith, le);
    why = inl (omega (arith, over, le));
  },
)

-- A round that wrote m bytes, and what comes behind it.
pub Ended-step :
    {tot n off src m k : ℕ} {mem : Memory} {ip ip1 ip2 : Dinode} {v v1 v2 : Volume}
    → Wrote off m (λ i. mem (src + i)) ip v ip1 v1
    → Ended (tot + m) n (off + m) (src + m) k mem ip1 v1 ip2 v2
    → Ended tot n off src (m + k) mem ip v ip2 v2
Ended-step {tot} {n} {off} {src} {m} {k} {mem} {ip} {ip1} {ip2} {v} {v1} {v2} w e =
    let regroup : tot + m + k ≡ tot + (m + k) = omega arith in
    record {
      wrote =
          Wrote-trans w
            (subst (λ (f : ℕ → ℕ). Wrote (off + m) k f ip1 v1 ip2 v2) (fun_ext shift) e.wrote);
      short = omega (arith, e.short);
      why = elim e.why [ inl all ↦ inl (sym regroup ∙ all) | inr full ↦ inr full ];
    }
  where
    shift : (i : ℕ) → mem (src + m + i) ≡ mem (src + (m + i))
    shift i = ap mem (omega arith)
