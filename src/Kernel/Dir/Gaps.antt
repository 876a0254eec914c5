-- ===== src/Kernel/Dir/Gaps.antt =====
-- The search of dirlink for an empty entry.
use proyecto_3_sistemas_oper.Base.{
  ℕ, zero, suc, ◌+◌, ◌%◌, ◌≤◌, ◌<◌, ◌≡◌, ◌⊎◌, refl, sym, ◌∙◌, inl, inr, true, false, ◌==◌, ltb,
  done, arith, Bool-cases, eqb→eq,
}
use proyecto_3_sistemas_oper.Kernel.Strings.{Memory, within}
use proyecto_3_sistemas_oper.Kernel.Blocks.{Dinode, Volume}
use proyecto_3_sistemas_oper.Kernel.Blocks.Growth.{Kept, Kept-refl, Kept-trans}
use proyecto_3_sistemas_oper.Kernel.Path.{dirsiz}
use proyecto_3_sistemas_oper.Kernel.Dir.{dirent_size, inum_at, read_entry, find_empty_entry}
use proyecto_3_sistemas_oper.Kernel.Dir.Entries.{entry_inum, read_entry_lem, inum_read, entry_fits}
use proyecto_3_sistemas_oper.Kernel.Dir.Answers.{
  SameBut, Looking, Looking-step, entry_bytes, SameBut-Got,
}

-- A place for a new entry, in a directory with the bytes c: an empty entry, or the end.
pub record GapAt (c : ℕ → ℕ) (size at : ℕ) : Type 0 where
  pub aligned : at % dirent_size ≡ 0
  pub within_size : at ≤ size
  pub empty : (at ≡ size) ⊎ (entry_inum c at ≡ 0)

abbrev pub Gapped :
    (fuel off name de size : ℕ) → (ℕ → ℕ) → (ℕ → ℕ) → Memory → Dinode → Volume → Type 0
Gapped fuel off name de size t c m dp v =
    (at : ℕ) × (m' : Memory) × (dp' : Dinode) × (v' : Volume) × (find_empty_entry fuel off de m dp v
      ≡ done (at, m', dp', v'))
    × GapAt c size at
    × Looking name de t c size m' dp' v'
    × Kept dp v dp' v'
    × SameBut de m m'

gap_over :
    (fuel off de : ℕ) (m : Memory) (dp : Dinode) (v : Volume)
    → dp.size ≤ off
    → find_empty_entry fuel off de m dp v ≡ done (off, m, dp, v)
unfolding find_empty_entry
gap_over zero off de m dp v h = refl
gap_over (suc fuel) off de m dp v h =
    let over : ltb off dp.size ≡ false = ground (arith, h) in rw over refl

module _ (fuel off de : ℕ) (m m' : Memory) (dp dp' : Dinode) (v v' : Volume) (lt : off < dp.size)
    (ran : read_entry de off m dp v ≡ done (m', dp', v')) where
  gap_on :
      (inum_at m' de == 0) ≡ false
      → find_empty_entry (suc fuel) off de m dp v
        ≡ find_empty_entry fuel (off + dirent_size) de m' dp' v'
  unfolding find_empty_entry
  gap_on h = let more : ltb off dp.size ≡ true = ground (arith, lt) in rw (more, ran, h) refl

  gap_hit :
      (inum_at m' de == 0) ≡ true
      → find_empty_entry (suc fuel) off de m dp v ≡ done (off, m', dp', v')
  unfolding find_empty_entry
  gap_hit h = let more : ltb off dp.size ≡ true = ground (arith, lt) in rw (more, ran, h) refl

gap_end :
    (fuel off name de size : ℕ) (t c : ℕ → ℕ) (m : Memory) (dp : Dinode) (v : Volume)
    → size ≤ off
    → off ≤ size
    → off % dirent_size ≡ 0
    → Looking name de t c size m dp v
    → Gapped fuel off name de size t c m dp v
gap_end fuel off name de size t c m dp v past le aligned k = (
  off,
  m,
  dp,
  v,
  gap_over fuel off de m dp v (rw k.sized past),
  record { aligned = aligned; within_size = le; empty = inl (omega (arith, past, le)) },
  k,
  Kept-refl dp v k.dense.placed,
  λ a out. refl,
)

pub gap_lem :
    (fuel off name de size : ℕ) (t c : ℕ → ℕ) (m : Memory) (dp : Dinode) (v : Volume)
    → ((i : ℕ) → i < dirsiz → within de dirent_size (name + i) ≡ false)
    → size ≤ off + fuel
    → off ≤ size
    → off % dirent_size ≡ 0
    → Looking name de t c size m dp v
    → Gapped fuel off name de size t c m dp v
gap_lem zero off name de size t c m dp v apart enough le aligned k =
    gap_end zero off name de size t c m dp v (omega (arith, enough)) le aligned k
gap_lem (suc fuel) off name de size t c m dp v apart enough le aligned k =
    elim (Bool-cases (ltb off size)) [
      | inr over ↦
          gap_end (suc fuel) off name de size t c m dp v (ground (arith, over)) le aligned k
      | inl more ↦
          let lt : off < dp.size = rw k.sized (below off size more) in
          let (m', dp', v', ran, g) = read_entry_lem de off m dp v k.dense lt aligned in
          let k' = Looking-step apart g k in
          let bound = entry_fits off dp.size lt aligned k.dense.whole k.dense.small in
          let number = inum_read name de off t c m' k'.held (entry_bytes bound g k) in
          elim (Bool-cases (inum_at m' de == 0)) [
            | inl hit ↦ (
              off,
              m',
              dp',
              v',
              gap_hit fuel off de m m' dp dp' v v' lt ran hit,
              record {
                aligned = aligned;
                within_size = le;
                empty = inr (sym number ∙ eqb→eq (inum_at m' de) 0 hit);
              },
              k',
              g.kept,
              SameBut-Got g,
            )
            | inr taken ↦
                let whole : size % dirent_size ≡ 0 = rw k.sized at k.dense.whole in
                let (at, m2, dp2, v2, ran2, gap, k2, kept, same) =
                  gap_lem fuel (off + dirent_size) name de size t c m' dp' v' apart
                    (omega (arith, enough)) (next_le off size more aligned whole)
                    (omega (arith, aligned)) k' in
                (
                  at,
                  m2,
                  dp2,
                  v2,
                  gap_on fuel off de m m' dp dp' v v' lt ran taken ∙ ran2,
                  gap,
                  k2,
                  Kept-trans g.kept kept,
                  λ a out. same a out ∙ SameBut-Got g a out,
                )
          ]
    ]
  where
    below : (off size : ℕ) → ltb off size ≡ true → off < size
    below off size h = ground arith

    next_le :
        (off size : ℕ)
        → ltb off size ≡ true
        → off % dirent_size ≡ 0
        → size % dirent_size ≡ 0
        → off + dirent_size ≤ size
    next_le off size h a b = ground arith
