-- ===== src/Kernel/Blocks/Logging.antt =====
-- How many log_write calls balloc and bmap make.
use proyecto_3_sistemas_oper.Base.{
  ℕ, zero, suc, ◌+◌, ◌-◌, ◌≤◌, ◌≡◌, refl, sym, ◌∙◌, ap, inl, inr, ◌==◌, ltb, List, [], ◌∷◌, ◌++◌,
  append_assoc, length, length-append, Outcome, done, panic, ◌>>=◌, arith, Bool-cases, Option-cases,
}
use proyecto_3_sistemas_oper.Kernel.Blocks.{
  Dinode, Volume, bblock, ndirect, nindirect, bpb, bzero, take_block, scan_bits, balloc_from,
  balloc, direct, indirect, bmap, log_block,
}

-- From v to v' there were at most k calls of `log_write`.
pub record Logs (k : ℕ) (v v' : Volume) : Type 0 where
  pub calls : List ℕ
  pub grown : v'.logged ≡ calls ++ v.logged
  pub few : length calls ≤ k

pub Logs-refl : (k : ℕ) (v : Volume) → Logs k v v
Logs-refl k v = record { calls = []; grown = refl; few = omega arith }

pub Logs-trans : {j k : ℕ} {u v w : Volume} → Logs j u v → Logs k v w → Logs (j + k) u w
Logs-trans {j} {k} {u} {v} {w} a b = record {
  calls = b.calls ++ a.calls;
  grown = b.grown ∙ ap (λ l. b.calls ++ l) a.grown ∙ sym (append_assoc b.calls a.calls u.logged);
  few = let both = length-append b.calls a.calls in omega (arith, a.few, b.few, both);
}

pub Logs-more : {j k : ℕ} {v w : Volume} → j ≤ k → Logs j v w → Logs k v w
Logs-more le h = record { calls = h.calls; grown = h.grown; few = omega (arith, le, h.few) }

take_block-Logs : (v : Volume) (b bi : ℕ) → Logs 2 v (take_block v b bi)
unfolding take_block bzero
take_block-Logs v b bi = record {
  calls = (b + bi) ∷ bblock b v ∷ [];
  grown = refl;
  few = omega arith;
}

balloc_from-Logs : (v : Volume) (fuel b : ℕ) → Logs 2 v (balloc_from v fuel b).1
unfolding balloc_from
balloc_from-Logs v zero b = Logs-refl 2 v
balloc_from-Logs v (suc fuel) b = elim (Bool-cases (ltb b v.size)) [
  | inr over ↦ rw over (Logs-refl 2 v)
  | inl inside ↦ elim (Option-cases (scan_bits v b bpb 0)) [
    | inl full ↦ rw (inside, full) (balloc_from-Logs v fuel (b + bpb))
    | inr (bi, found) ↦ rw (inside, found) (take_block-Logs v b bi)
  ]
]

balloc-Logs : (v : Volume) → Logs 2 v (balloc v).1
unfolding balloc
balloc-Logs v = balloc_from-Logs v v.size 0

direct-Logs : (i : ℕ) (ip : Dinode) (v : Volume) → Logs 2 v (direct i ip v).2
unfolding direct
direct-Logs i ip v = elim (Bool-cases (ip.addrs i == 0)) [
  | inr there ↦ rw there (Logs-refl 2 v)
  | inl gap ↦ elim (Bool-cases ((balloc v).0 == 0)) [
    | inl full ↦ rw (gap, full) (balloc-Logs v)
    | inr got ↦ rw (gap, got) (balloc-Logs v)
  ]
]

pub log_one : (b : ℕ) (v : Volume) → Logs 1 v (log_block b v)
log_one b v = record { calls = b ∷ []; grown = refl; few = omega arith }

indirect-Logs : (ib i : ℕ) (v : Volume) → Logs 3 v (indirect ib i v).1
unfolding indirect
indirect-Logs ib i v = elim (Bool-cases (v.words ib i == 0)) [
  | inr there ↦ rw there (Logs-refl 3 v)
  | inl gap ↦ elim (Bool-cases ((balloc v).0 == 0)) [
    | inl full ↦ rw (gap, full) (Logs-more (omega arith) (balloc-Logs v))
    | inr got ↦
        let taken = balloc-Logs v in
        rw (gap, got)
          record {
            calls = ib ∷ taken.calls;
            grown = ap (λ l. ib ∷ l) taken.grown;
            few = omega (arith, taken.few);
          }
  ]
]

-- What holds of the result, if there is one.
abbrev pub Holds : {A : Type 0} → (A → Type 0) → Outcome A → Type 0
Holds p (done x) = p x
Holds p panic = Unit

pub Holds-bind :
    {A B : Type 0} (p : A → Type 0) (q : B → Type 0) (o : Outcome A) (f : A → Outcome B)
    → Holds p o
    → ((x : A) → p x → Holds q (f x))
    → Holds q (o >>= f)
Holds-bind p q (done x) f h k = k x h
Holds-bind p q panic f h k = tt

pub Holds-map :
    {A : Type 0} (p q : A → Type 0) (o : Outcome A) → Holds p o → ((x : A) → p x → q x) → Holds q o
Holds-map p q (done x) h k = k x h
Holds-map p q panic h k = tt

pub bmap-Logs :
    (bn : ℕ) (ip : Dinode) (v : Volume)
    → Holds (λ (r : ℕ × Dinode × Volume). Logs 5 v r.2) (bmap bn ip v)
unfolding bmap
bmap-Logs bn ip v = elim (Bool-cases (ltb bn ndirect)) [
  | inl low ↦ rw low (Logs-more (omega arith) (direct-Logs bn ip v))
  | inr high ↦ elim (Bool-cases (ltb (bn - ndirect) nindirect)) [
    | inr beyond ↦ rw (high, beyond) tt
    | inl inside ↦ elim (Bool-cases ((direct ndirect ip v).0 == 0)) [
      | inl full ↦ rw (high, inside, full) (Logs-more (omega arith) (direct-Logs ndirect ip v))
      | inr got ↦
          rw (high, inside, got)
            (Logs-trans (direct-Logs ndirect ip v)
              (indirect-Logs (direct ndirect ip v).0 (bn - ndirect) (direct ndirect ip v).2))
    ]
  ]
]
