-- ===== src/Kernel/Dir/Empty.antt =====
-- isdirempty against the entries of a directory.
use proyecto_3_sistemas_oper.Base.{
  ℕ, zero, suc, ◌+◌, ◌*◌, ◌%◌, ◌≤◌, ◌<◌, ◌≡◌, ◌≢◌, refl, sym, subst, ◌∙◌, inl, inr, Bool, true,
  false, ◌==◌, ltb, done, arith, Bool-cases, eqb→eq,
}
use proyecto_3_sistemas_oper.Kernel.Strings.{Memory, within}
use proyecto_3_sistemas_oper.Kernel.Blocks.{Dinode, Volume}
use proyecto_3_sistemas_oper.Kernel.Blocks.Growth.{content, Kept, Kept-refl, Kept-trans}
use proyecto_3_sistemas_oper.Kernel.Path.{dirsiz}
use proyecto_3_sistemas_oper.Kernel.Dir.{
  dirent_size, inum_at, read_entry, isdirempty_from, isdirempty,
}
use proyecto_3_sistemas_oper.Kernel.Dir.Entries.{
  IsDense, entry_inum, read_entry_lem, inum_read, entry_fits,
}
use proyecto_3_sistemas_oper.Kernel.Dir.Answers.{Looking, Looking-step, entry_bytes}

-- Whether no entry from `off` on is in use, or one is.
abbrev pub AllEmpty : (ℕ → ℕ) → ℕ → ℕ → Type 0
AllEmpty c off size = (e : ℕ) → off ≤ e → e < size → e % dirent_size ≡ 0 → entry_inum c e ≡ 0

abbrev pub Decided : (ℕ → ℕ) → ℕ → ℕ → Bool → Type 0
Decided c off size true = AllEmpty c off size
Decided c off size false =
    (e : ℕ) × (off ≤ e) × (e < size) × (e % dirent_size ≡ 0) × (entry_inum c e ≢ 0)

abbrev Looked : (fuel off de size : ℕ) → (ℕ → ℕ) → Memory → Dinode → Volume → Type 0
Looked fuel off de size c m dp v =
    (b : Bool) × (m' : Memory) × (dp' : Dinode) × (v' : Volume) × (isdirempty_from fuel off de m dp
        v
      ≡ done (b, m', dp', v'))
    × Decided c off size b
    × Kept dp v dp' v'

empty_over :
    (fuel off de : ℕ) (m : Memory) (dp : Dinode) (v : Volume)
    → dp.size ≤ off
    → isdirempty_from fuel off de m dp v ≡ done (true, m, dp, v)
unfolding isdirempty_from
empty_over zero off de m dp v h = refl
empty_over (suc fuel) off de m dp v h =
    let over : ltb off dp.size ≡ false = ground (arith, h) in rw over refl

module _ (fuel off de : ℕ) (m m' : Memory) (dp dp' : Dinode) (v v' : Volume) (lt : off < dp.size)
    (ran : read_entry de off m dp v ≡ done (m', dp', v')) where
  empty_on :
      (inum_at m' de == 0) ≡ true
      → isdirempty_from (suc fuel) off de m dp v
        ≡ isdirempty_from fuel (off + dirent_size) de m' dp' v'
  unfolding isdirempty_from
  empty_on h = let more : ltb off dp.size ≡ true = ground (arith, lt) in rw (more, ran, h) refl

  empty_used :
      (inum_at m' de == 0) ≡ false
      → isdirempty_from (suc fuel) off de m dp v ≡ done (false, m', dp', v')
  unfolding isdirempty_from
  empty_used h = let more : ltb off dp.size ≡ true = ground (arith, lt) in rw (more, ran, h) refl

AllEmpty-step :
    (c : ℕ → ℕ) (off size : ℕ)
    → off % dirent_size ≡ 0
    → entry_inum c off ≡ 0
    → AllEmpty c (off + dirent_size) size
    → AllEmpty c off size
AllEmpty-step c off size aligned empty rest e le lt at = elim (Bool-cases (e == off)) [
  | inl here ↦ subst (λ (x : ℕ). entry_inum c x ≡ 0) (sym (eqb→eq e off here)) empty
  | inr away ↦ rest e (next_entry off e aligned at le away) lt at
]
  where
    next_entry :
        (off e : ℕ)
        → off % dirent_size ≡ 0
        → e % dirent_size ≡ 0
        → off ≤ e
        → (e == off) ≡ false
        → off + dirent_size ≤ e
    next_entry off e a b le away = ground arith

Decided-step :
    (c : ℕ → ℕ) (off size : ℕ) (b : Bool)
    → off % dirent_size ≡ 0
    → entry_inum c off ≡ 0
    → Decided c (off + dirent_size) size b
    → Decided c off size b
Decided-step c off size true aligned empty rest = AllEmpty-step c off size aligned empty rest
Decided-step c off size false aligned empty (e, le, lt, at, used) =
    (e, omega (arith, le), lt, at, used)

nothing_left :
    (fuel off name de size : ℕ) (t c : ℕ → ℕ) (m : Memory) (dp : Dinode) (v : Volume)
    → size ≤ off
    → Looking name de t c size m dp v
    → Looked fuel off de size c m dp v
nothing_left fuel off name de size t c m dp v past k = (
  true,
  m,
  dp,
  v,
  empty_over fuel off de m dp v (rw k.sized past),
  λ e le lt at. absurd (omega (arith, past, le, lt)),
  Kept-refl dp v k.dense.placed,
)

isdirempty_from_lem :
    (fuel off name de size : ℕ) (t c : ℕ → ℕ) (m : Memory) (dp : Dinode) (v : Volume)
    → ((i : ℕ) → i < dirsiz → within de dirent_size (name + i) ≡ false)
    → size ≤ off + fuel
    → off % dirent_size ≡ 0
    → Looking name de t c size m dp v
    → Looked fuel off de size c m dp v
isdirempty_from_lem zero off name de size t c m dp v apart enough aligned k =
    nothing_left zero off name de size t c m dp v (omega (arith, enough)) k
isdirempty_from_lem (suc fuel) off name de size t c m dp v apart enough aligned k =
    elim (Bool-cases (ltb off size)) [
      | inr over ↦ nothing_left (suc fuel) off name de size t c m dp v (ground (arith, over)) k
      | inl more ↦
          let lt : off < dp.size = rw k.sized (below off size more) in
          let (m', dp', v', ran, g) = read_entry_lem de off m dp v k.dense lt aligned in
          let k' = Looking-step apart g k in
          let bound = entry_fits off dp.size lt aligned k.dense.whole k.dense.small in
          let number = inum_read name de off t c m' k'.held (entry_bytes bound g k) in
          elim (Bool-cases (inum_at m' de == 0)) [
            | inr used ↦ (
              false,
              m',
              dp',
              v',
              empty_used fuel off de m m' dp dp' v v' lt ran used,
              (
                off,
                omega arith,
                below off size more,
                aligned,
                λ z. nonzero (inum_at m' de) used (number ∙ z),
              ),
              g.kept,
            )
            | inl empty ↦
                let (b, m2, dp2, v2, ran2, decided, kept) =
                  isdirempty_from_lem fuel (off + dirent_size) name de size t c m' dp' v' apart
                    (omega (arith, enough)) (omega (arith, aligned)) k' in
                (
                  b,
                  m2,
                  dp2,
                  v2,
                  empty_on fuel off de m m' dp dp' v v' lt ran empty ∙ ran2,
                  Decided-step c off size b aligned (sym number ∙ eqb→eq (inum_at m' de) 0 empty)
                      decided,
                  Kept-trans g.kept kept,
                )
          ]
    ]
  where
    below : (off size : ℕ) → ltb off size ≡ true → off < size
    below off size h = ground arith

    nonzero : (x : ℕ) → (x == 0) ≡ false → x ≢ 0
    nonzero x h z = ground arith

-- `isdirempty` of a directory of whole entries that all have their blocks does not panic. It returns
-- 1 exactly if no entry behind the first two is in use, and leaves the directory's bytes as they
-- were.
pub isdirempty_lem :
    (de : ℕ) (m : Memory) (dp : Dinode) (v : Volume)
    → IsDense dp v
    → (b : Bool) × (m' : Memory) × (dp' : Dinode) × (v' : Volume) × (isdirempty de m dp v
        ≡ done (b, m', dp', v'))
      × Decided (content dp v) (2 * dirent_size) dp.size b
      × Kept dp v dp' v'
unfolding isdirempty
isdirempty_lem de m dp v d =
    isdirempty_from_lem dp.size (2 * dirent_size) (de + dirent_size) de dp.size
      (λ i. m (de + dirent_size + i)) (content dp v) m dp v (behind de) (omega arith) refl
      (record { dense = d; sized = refl; held = λ i lt. refl; bytes = λ p h. refl })
  where
    behind : (de i : ℕ) → i < dirsiz → within de dirent_size (de + dirent_size + i) ≡ false
    behind de i lt = ground arith
