-- ===== src/Kernel/Log/Admit.antt =====
-- begin_op, log_write and end_op: what may be logged, and that admitted operations never overflow
-- the log.
use proyecto_3_sistemas_oper.Base.{
  ℕ, zero, suc, ◌+◌, ◌≤◌, ◌<◌, ◌≡◌, ◌≢◌, ◌⊎◌, inl, inr, refl, sym, ap, ap₂, ◌∙◌, List, [], ◌∷◌,
  ◌==◌, ltb, if◌then◌else◌, Bool-cases, arith, done,
}
use proyecto_3_sistemas_oper.Kernel.Params.{log_blocks}
use proyecto_3_sistemas_oper.Kernel.Log.{Log, update, find_block, log_write}
use proyecto_3_sistemas_oper.Kernel.Log.Recover.{update_self, Home, Listing}

-- The loop of `log_write` stops at the first place that holds b, or behind the last one.
find_block_lem :
    (block : ℕ → ℕ) (b rounds i : ℕ)
    → let j = find_block block b rounds i in
      i ≤ j × j ≤ i + rounds × ((j ≡ i + rounds) ⊎ (block j ≡ b))
unfolding find_block
find_block_lem block b zero i = omega arith
find_block_lem block b (suc rounds) i = ground (arith, find_block_lem block b rounds (i + 1))

find_block_first :
    (block : ℕ → ℕ) (b rounds i k : ℕ) → i ≤ k → k < find_block block b rounds i → block k ≢ b
unfolding find_block
find_block_first block b zero i k le lt = absurd (omega arith)
find_block_first block b (suc rounds) i k le lt = elim (Bool-cases (block i == b)) [
  | inl e ↦ absurd (ground arith)
  | inr e ↦ elim (Bool-cases (i == k)) [
    | inl q ↦ λ z. ground arith
    | inr q ↦ find_block_first block b rounds (i + 1) k (ground arith) (ground arith)
  ]
]

-- The place where `log_write` puts b, and the count after it.
pub place : Log → ℕ → ℕ
place s b = find_block s.block b s.n 0

-- `log_write` of b, if it does not panic, lists b at the place found, changes no other entry, and
-- counts one more block exactly if b was in none of the first n entries.
pub log_write_raw :
    (b : ℕ) (s s' : Log)
    → log_write b s ≡ done s'
    → (s'.start ≡ s.start)
      × (s'.block ≡ update s.block (place s b) b)
      × (s'.n ≡ (if place s b == s.n then s.n + 1 else s.n))
      × (s.n < log_blocks)
      × (s'.outstanding ≡ s.outstanding)
      × (s'.committing ≡ s.committing)
unfolding log_write place
log_write_raw b s s' h = ground arith

module _ (b : ℕ) (s s' : Log) (wrote : log_write b s ≡ done s') where
  -- An entry from before stays, and a further one is b, at a place where no entry before it is b.
  kept : (i : ℕ) → i < s.n → s'.block i ≡ s.block i
  unfolding place
  kept i lt = ap (λ f. f i) (log_write_raw b s s' wrote).1 ∙ elim (Bool-cases (place s b == i)) [
    | inl q ↦ ground (arith, find_block_lem s.block b s.n 0)
    | inr q ↦ ground arith
  ]

  entry :
      (i : ℕ)
      → i < s'.n
      → (i < s.n × s'.block i ≡ s.block i) ⊎ (i ≡ s.n × place s b ≡ s.n × s'.block i ≡ b)
  entry i lt = elim (Bool-cases (ltb i s.n)) [
    | inl old ↦ inl (ground arith, kept i (ground arith))
    | inr more ↦ inr (
      ground (arith, log_write_raw b s s' wrote),
      ground (arith, log_write_raw b s s' wrote),
      ap (λ f. f i) (log_write_raw b s s' wrote).1 ∙ ground (arith, log_write_raw b s s' wrote),
    )
  ]

  fresh : (i : ℕ) → i < s.n → place s b ≡ s.n → s'.block i ≡ b → ⊥
  unfolding place
  fresh i lt e q =
      find_block_first s.block b s.n 0 i (omega arith) (omega arith) (sym (kept i lt) ∙ q)

  distinct' :
      Listing s.start s.n s.block
      → (i j : ℕ) → i < s'.n
      → j < s'.n
      → s'.block i ≡ s'.block j
      → i ≡ j
  distinct' listing i j hi hj e = elim (entry i hi) [
    | inl (oi, ei) ↦ elim (entry j hj) [
      | inl (oj, ej) ↦ listing.distinct i j oi oj (sym ei ∙ e ∙ ej)
      | inr (nj, pj, ej) ↦ absurd (fresh i oi pj (e ∙ ej))
    ]
    | inr (ni, pi, ei) ↦ elim (entry j hj) [
      | inl (oj, ej) ↦ absurd (fresh j oj pi (sym e ∙ ei))
      | inr (nj, pj, ej) ↦ ni ∙ sym nj
    ]
  ]

  homes' :
      Listing s.start s.n s.block → Home s.start b → (i : ℕ) → i < s'.n → Home s.start (s'.block i)
  homes' listing home i hi = elim (entry i hi) [
    | inl (oi, ei) ↦ rw ei (listing.homes i oi)
    | inr (ni, pi, ei) ↦ rw ei home
  ]

-- The first n entries, the last one first.
abbrev pub entries : (ℕ → ℕ) → ℕ → List ℕ
entries block zero = []
entries block (suc n) = block n ∷ entries block n

entries-eq : (n : ℕ) (f g : ℕ → ℕ) → ((i : ℕ) → i < n → f i ≡ g i) → entries f n ≡ entries g n
entries-eq zero f g h = refl
entries-eq (suc n) f g h =
    ap₂ ◌∷◌ (h n (omega arith)) (entries-eq n f g (λ i lt. h i (omega arith)))

-- If the entries of the log are distinct blocks outside the log area and b is such a block too,
-- then after `log_write` of b, if it does not panic, the entries still are, b is the entry at some
-- place, and the entries from before are where they were.
pub log_write-Listing :
    (b : ℕ) (s s' : Log)
    → Listing s.start s.n s.block
    → Home s.start b
    → log_write b s ≡ done s'
    → Listing s'.start s'.n s'.block
      × ((j : ℕ) × j < s'.n × s'.block j ≡ b)
      × (entries s'.block s.n ≡ entries s.block s.n)
unfolding place
log_write-Listing b s s' listing home h =
    let (start', block', n', fits, _, _) = log_write_raw b s s' h in
    (
      rw start' record {
        fits = ground arith;
        homes = homes' b s s' h listing home;
        distinct = distinct' b s s' h listing;
      },
      (
        place s b,
        ground (arith, find_block_lem s.block b s.n 0),
        ap (λ f. f (place s b)) block' ∙ update_self s.block (place s b) b,
      ),
      entries-eq s.n s'.block s.block (kept b s s' h),
    )
