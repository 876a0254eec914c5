-- ===== src/Kernel/FileData/ReadRound.antt =====
-- The rounds of readi.
use proyecto_3_sistemas_oper.Base.{
  ℕ, zero, suc, ◌+◌, ◌-◌, ◌/◌, ◌%◌, ◌≤◌, ◌<◌, ◌≡◌, ◌≢◌, ◌⊎◌, refl, sym, ap, ◌∙◌, inl, inr, true,
  false, ◌==◌, ltb, if◌then◌else◌, some, Outcome, done, arith, Bool-cases, eqb→eq, eqb_of_ne,
}
use proyecto_3_sistemas_oper.Kernel.Params.{bsize}
use proyecto_3_sistemas_oper.Kernel.Strings.{Memory, within}
use proyecto_3_sistemas_oper.Kernel.Blocks.{Dinode, Volume, bmap}
use proyecto_3_sistemas_oper.Kernel.Blocks.Slots.{Placed, slot, max_slots}
use proyecto_3_sistemas_oper.Kernel.Blocks.Growth.{
  max_bytes, slot_of, content, Kept, Kept-refl, Kept-trans,
}
use proyecto_3_sistemas_oper.Kernel.Blocks.Mapping.{Full, Found}
use proyecto_3_sistemas_oper.Kernel.FileData.{ReadResult, to_kernel, chunk, readi_from}
use proyecto_3_sistemas_oper.Kernel.FileData.Bytes.{overwritten, overwritten_step}

-- The bytes of the block that bmap gives are bytes of the file.
block_content :
    (off j m a : ℕ) (ip : Dinode) (v : Volume)
    → off % bsize + m ≤ bsize
    → j < m
    → slot (slot_of (off / bsize)) ip v ≡ a
    → a ≢ 0
    → v.bytes a (off % bsize + j) ≡ content ip v (off + j)
block_content off j m a ip v fits lt at_a ne =
    let block : (off + j) / bsize ≡ off / bsize = omega (arith, fits, lt) in
    let place : (off + j) % bsize ≡ off % bsize + j = omega (arith, fits, lt) in
    rw (block, place, at_a, eqb_of_ne a 0 ne) refl

-- n bytes of the file, from off on, come to dst; only blocks are allocated.
pub record Got (off n dst : ℕ) (mem : Memory) (ip : Dinode) (v : Volume) (mem' : Memory)
    (ip' : Dinode) (v' : Volume) : Type 0 where
  pub kept : Kept ip v ip' v'
  pub memory : (a : ℕ) → mem' a ≡ overwritten dst n (λ i. content ip v (off + i)) mem a

pub Kept-Got :
    {off dst : ℕ} {mem : Memory} {ip ip' : Dinode} {v v' : Volume}
    → Kept ip v ip' v'
    → Got off 0 dst mem ip v mem ip' v'
Kept-Got {off} {dst} {mem} {ip} {ip'} {v} {v'} k = record {
  kept = k;
  memory = λ a. let nothing : within dst 0 a ≡ false = ground arith in rw nothing refl;
}

-- What the copy of one block puts into memory.
abbrev pub copied : (off dst m a : ℕ) → Volume → Memory → Memory
copied off dst m a v mem =
    λ p. if within dst m p then v.bytes a (off % bsize + (p - dst)) else mem p

pub Found-Got :
    (off dst m a : ℕ) (mem : Memory) (ip ip1 : Dinode) (v v1 : Volume)
    → off + m ≤ max_bytes
    → off % bsize + m ≤ bsize
    → a ≢ 0
    → Found (slot_of (off / bsize)) ip v a ip1 v1
    → Got off m dst mem ip v (copied off dst m a v1 mem) ip1 v1
Found-Got off dst m a mem ip ip1 v v1 bound fits ne f = record {
  kept = f.kept;
  memory = λ p. elim (Bool-cases (within dst m p)) [
    | inr out ↦ rw out refl
    | inl there ↦
        let lt : p - dst < m = ground (arith, there) in
        rw there (
          block_content off (p - dst) m a ip1 v1 fits lt f.address ne
          ∙ f.kept.same (off + (p - dst)) (omega (arith, bound, lt)))
  ];
}

pub Got-trans :
    {off n m dst : ℕ} {mem mem1 mem2 : Memory} {ip ip1 ip2 : Dinode} {v v1 v2 : Volume}
    → off + n + m ≤ max_bytes
    → Got off n dst mem ip v mem1 ip1 v1
    → Got (off + n) m (dst + n) mem1 ip1 v1 mem2 ip2 v2
    → Got off (n + m) dst mem ip v mem2 ip2 v2
Got-trans {off} {n} {m} {dst} {mem} {mem1} {mem2} {ip} {ip1} {ip2} {v} {v1} {v2} bound f g =
    record {
      kept = Kept-trans f.kept g.kept;
      memory = λ a.
          g.memory a
          ∙ later a
          ∙ ap
              (λ (o : ℕ).
                if within (dst + n) m a then content ip v (off + (n + (a - (dst + n)))) else o)
              (f.memory a)
          ∙ overwritten_step dst n m a (λ i. content ip v (off + i)) mem;
    }
  where
    later :
        (a : ℕ)
        → overwritten (dst + n) m (λ i. content ip1 v1 (off + n + i)) mem1 a
          ≡ overwritten (dst + n) m (λ i. content ip v (off + (n + i))) mem1 a
    later a = elim (Bool-cases (within (dst + n) m a)) [
      | inr out ↦ rw out refl
      | inl there ↦
          let place : off + n + (a - (dst + n)) ≡ off + (n + (a - (dst + n))) = omega arith in
          rw there (
            f.kept.same (off + n + (a - (dst + n))) (ground (arith, there, bound))
            ∙ ap (content ip v) place)
    ]

pub read_round :
    (fuel tot n off dst a : ℕ) (mem : Memory) (ip ip' : Dinode) (v v' : Volume)
    → tot < n
    → bmap (off / bsize) ip v ≡ done (a, ip', v')
    → a ≢ 0
    → readi_from to_kernel (suc fuel) tot n off dst mem ip v
      ≡ readi_from to_kernel fuel
          (tot + chunk (n - tot) off)
          n
          (off + chunk (n - tot) off)
          (dst + chunk (n - tot) off)
          (copied off dst (chunk (n - tot) off) a v' mem)
          ip'
          v'
unfolding readi_from
read_round fuel tot n off dst a mem ip ip' v v' lt got ne =
    let more : ltb tot n ≡ true = ground (arith, lt) in rw (more, got, eqb_of_ne a 0 ne) refl

pub read_stop :
    (fuel tot n off dst : ℕ) (mem : Memory) (ip ip' : Dinode) (v v' : Volume)
    → tot < n
    → bmap (off / bsize) ip v ≡ done (0, ip', v')
    → readi_from to_kernel (suc fuel) tot n off dst mem ip v ≡ done (some tot, mem, ip', v')
unfolding readi_from
read_stop fuel tot n off dst mem ip ip' v v' lt got =
    let more : ltb tot n ≡ true = ground (arith, lt) in rw (more, got) refl

read_enough :
    (fuel tot n off dst : ℕ) (mem : Memory) (ip : Dinode) (v : Volume)
    → n ≤ tot
    → readi_from to_kernel fuel tot n off dst mem ip v ≡ done (some tot, mem, ip, v)
unfolding readi_from
read_enough zero tot n off dst mem ip v h = refl
read_enough (suc fuel) tot n off dst mem ip v h =
    let over : ltb tot n ≡ false = ground (arith, h) in rw over refl

-- The byte at an offset has no block, and no block is left.
abbrev pub Hole : ℕ → Dinode → Volume → Volume → Type 0
Hole off ip v v' = (slot (slot_of (off / bsize)) ip v ≡ 0) × Full v'

-- A slot that is empty afterwards was empty before.
pub Kept-gap :
    {ip ip' : Dinode} {v v' : Volume} (k : ℕ)
    → k < max_slots
    → Kept ip v ip' v'
    → slot k ip' v' ≡ 0
    → slot k ip v ≡ 0
Kept-gap {ip} {ip'} {v} {v'} k lt kept z = elim (Bool-cases (slot k ip v == 0)) [
  | inl gap ↦ eqb→eq (slot k ip v) 0 gap
  | inr there ↦
      let ne : slot k ip v ≢ 0 = zero_test (slot k ip v) there in
      absurd (ne (sym (kept.stays k lt ne) ∙ z))
]
  where
    zero_test : (x : ℕ) → (x == 0) ≡ false → x ≢ 0
    zero_test x h z = ground arith

-- What the loop comes to, from `tot` bytes on.
abbrev pub Reads : (fuel tot n off dst : ℕ) → Memory → Dinode → Volume → Type 0
Reads fuel tot n off dst mem ip v =
    (k : ℕ) × (mem' : Memory) × (ip' : Dinode) × (v' : Volume) × (readi_from to_kernel fuel tot n
        off dst mem ip v
      ≡ done (some (tot + k), mem', ip', v'))
    × Got off k dst mem ip v mem' ip' v'
    × (tot + k ≤ n)
    × ((tot + k ≡ n) ⊎ Hole (off + k) ip v v')

pub same_total :
    (tot : ℕ) (mem : Memory) (ip : Dinode) (v : Volume) {o : Outcome (ReadResult Memory)}
    → o ≡ done (some tot, mem, ip, v)
    → o ≡ done (some (tot + 0), mem, ip, v)
same_total tot mem ip v h =
    let t : tot ≡ tot + 0 = omega arith in h ∙ ap (λ (x : ℕ). done (some x, mem, ip, v)) t

pub Reads-over :
    (fuel tot n off dst : ℕ) (mem : Memory) (ip : Dinode) (v : Volume)
    → n ≤ tot
    → tot ≤ n
    → Placed ip v
    → Reads fuel tot n off dst mem ip v
Reads-over fuel tot n off dst mem ip v over le ok = (
  0,
  mem,
  ip,
  v,
  same_total tot mem ip v (read_enough fuel tot n off dst mem ip v over),
  Kept-Got (Kept-refl ip v ok),
  omega (arith, le),
  inl (omega (arith, over, le)),
)
