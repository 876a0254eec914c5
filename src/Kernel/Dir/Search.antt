-- ===== src/Kernel/Dir/Search.antt =====
-- dirlookup against the entries of a directory.
use proyecto_3_sistemas_oper.Base.{
  ℕ, zero, suc, ◌+◌, ◌%◌, ◌≤◌, ◌<◌, ◌≡◌, ◌≢◌, refl, sym, ◌∙◌, inl, inr, true, false, ◌==◌, ltb,
  some, none, done, arith, Bool-cases, eqb→eq, eqb_of_ne,
}
use proyecto_3_sistemas_oper.Kernel.Strings.{Memory, within}
use proyecto_3_sistemas_oper.Kernel.Blocks.{Dinode, Volume}
use proyecto_3_sistemas_oper.Kernel.Blocks.Growth.{max_bytes, content, Kept-refl, Kept-trans}
use proyecto_3_sistemas_oper.Kernel.FileData.ReadRound.{Got}
use proyecto_3_sistemas_oper.Kernel.Path.{dirsiz}
use proyecto_3_sistemas_oper.Kernel.Dir.{dirent_size, inum_at, is_named, read_entry, dirlookup_from}
use proyecto_3_sistemas_oper.Kernel.Dir.Entries.{
  entry_fits, IsDense, read_entry_lem, inum_read, named, not_named,
}
use proyecto_3_sistemas_oper.Kernel.Dir.Answers.{
  Looking-step, entry_bytes, SameBut-Got, Misses, Answer-step, Searched, Looking,
}

search_over :
    (fuel off name de : ℕ) (m : Memory) (dp : Dinode) (v : Volume)
    → dp.size ≤ off
    → dirlookup_from fuel off name de m dp v ≡ done (none, m, dp, v)
unfolding dirlookup_from
search_over zero off name de m dp v h = refl
search_over (suc fuel) off name de m dp v h =
    let over : ltb off dp.size ≡ false = ground (arith, h) in rw over refl

module _ (fuel off name de : ℕ) (m m' : Memory) (dp dp' : Dinode) (v v' : Volume)
    (lt : off < dp.size) (ran : read_entry de off m dp v ≡ done (m', dp', v')) where
  search_empty :
      inum_at m' de ≡ 0
      → dirlookup_from (suc fuel) off name de m dp v
        ≡ dirlookup_from fuel (off + dirent_size) name de m' dp' v'
  unfolding dirlookup_from
  search_empty h = let more : ltb off dp.size ≡ true = ground (arith, lt) in rw (more, ran, h) refl

  search_other :
      is_named name de m' ≡ false
      → dirlookup_from (suc fuel) off name de m dp v
        ≡ dirlookup_from fuel (off + dirent_size) name de m' dp' v'
  unfolding dirlookup_from
  search_other h =
      let more : ltb off dp.size ≡ true = ground (arith, lt) in
      elim (Bool-cases (inum_at m' de == 0)) [
        | inl empty ↦ rw (more, ran, empty) refl
        | inr there ↦ rw (more, ran, there, h) refl
      ]

  search_hit :
      inum_at m' de ≢ 0
      → is_named name de m' ≡ true
      → dirlookup_from (suc fuel) off name de m dp v ≡ done (some (off, inum_at m' de), m', dp', v')
  unfolding dirlookup_from
  search_hit ne h =
      let more : ltb off dp.size ≡ true = ground (arith, lt) in
      rw (more, ran, eqb_of_ne (inum_at m' de) 0 ne, h) refl

search_done :
    (fuel off name de size : ℕ) (t c : ℕ → ℕ) (m : Memory) (dp : Dinode) (v : Volume)
    → size ≤ off
    → Looking name de t c size m dp v
    → Searched fuel off name de size t c m dp v
search_done fuel off name de size t c m dp v past k = (
  none,
  m,
  dp,
  v,
  search_over fuel off name de m dp v (rw k.sized past),
  λ e le lt at. absurd (omega (arith, past, le, lt)),
  Kept-refl dp v k.dense.placed,
  λ a out. refl,
)

-- The search goes on behind an entry that it passes over.
search_on :
    (fuel name : ℕ) {off de size : ℕ} {t c : ℕ → ℕ} {m m' : Memory} {dp dp' : Dinode}
    {v v' : Volume}
    → off % dirent_size ≡ 0
    → Misses t c off
    → Got off dirent_size de m dp v m' dp' v'
    → dirlookup_from (suc fuel) off name de m dp v
      ≡ dirlookup_from fuel (off + dirent_size) name de m' dp' v'
    → Searched fuel (off + dirent_size) name de size t c m' dp' v'
    → Searched (suc fuel) off name de size t c m dp v
search_on fuel name {off = off} {size = size} {t = t} {c = c} aligned miss g step
      (o, m2, dp2, v2, ran, answer, kept, same) =
    (
      o,
      m2,
      dp2,
      v2,
      step ∙ ran,
      Answer-step t c off size o aligned miss answer,
      Kept-trans g.kept kept,
      λ a out. same a out ∙ SameBut-Got g a out,
    )

pub search_lem :
    (fuel off name de size : ℕ) (t c : ℕ → ℕ) (m : Memory) (dp : Dinode) (v : Volume)
    → ((i : ℕ) → i < dirsiz → within de dirent_size (name + i) ≡ false)
    → size ≤ off + fuel
    → off % dirent_size ≡ 0
    → Looking name de t c size m dp v
    → Searched fuel off name de size t c m dp v
search_lem zero off name de size t c m dp v apart enough aligned k =
    search_done zero off name de size t c m dp v (omega (arith, enough)) k
search_lem (suc fuel) off name de size t c m dp v apart enough aligned k =
    elim (Bool-cases (ltb off size)) [
      | inr over ↦ search_done (suc fuel) off name de size t c m dp v (ground (arith, over)) k
      | inl more ↦
          let lt : off < dp.size = rw k.sized (below off size more) in
          let (m', dp', v', ran, g) = read_entry_lem de off m dp v k.dense lt aligned in
          let k' = Looking-step apart g k in
          let bound : off + dirent_size ≤ max_bytes =
            entry_fits off dp.size lt aligned k.dense.whole k.dense.small in
          let read = entry_bytes bound g k in
          let number = inum_read name de off t c m' k'.held read in
          let rest =
            search_lem fuel (off + dirent_size) name de size t c m' dp' v' apart
              (omega (arith, enough)) (omega (arith, aligned)) k' in
          elim (Bool-cases (inum_at m' de == 0)) [
            | inl empty ↦
                let z = eqb→eq (inum_at m' de) 0 empty in
                search_on fuel name aligned (inl (sym number ∙ z)) g
                  (search_empty fuel off name de m m' dp dp' v v' lt ran z) rest
            | inr there ↦ elim (Bool-cases (is_named name de m')) [
              | inr other ↦
                  search_on fuel name aligned
                    (inr (not_named name de off t c m' k'.held read other)) g
                    (search_other fuel off name de m m' dp dp' v v' lt ran other) rest
              | inl hit ↦
                  let ne : inum_at m' de ≢ 0 = nonzero (inum_at m' de) there in
                  (
                    some (off, inum_at m' de),
                    m',
                    dp',
                    v',
                    search_hit fuel off name de m m' dp dp' v v' lt ran ne hit,
                    record {
                      from = omega arith;
                      below = below off size more;
                      aligned = aligned;
                      number = sym number;
                      used = ne;
                      name = named name de off t c m' k'.held read hit;
                      first = λ e le before at. absurd (omega (arith, le, before));
                    },
                    g.kept,
                    SameBut-Got g,
                  )
            ]
          ]
    ]
  where
    below : (off size : ℕ) → ltb off size ≡ true → off < size
    below off size h = ground arith

    nonzero : (x : ℕ) → (x == 0) ≡ false → x ≢ 0
    nonzero x h z = ground arith

-- The loop of `dirlookup`, in a directory of whole entries that all have their blocks, for a name
-- whose 14 bytes are apart from the local entry, does not panic. It gives the offset and the number
-- of the first entry that is in use and has the name, or nothing, and then no entry that is in use
-- has it. The memory outside the local entry and the directory's bytes are as before.
pub dirlookup_from_lem :
    (name de : ℕ) (m : Memory) (dp : Dinode) (v : Volume)
    → ((i : ℕ) → i < dirsiz → within de dirent_size (name + i) ≡ false)
    → IsDense dp v
    → Searched dp.size 0 name de dp.size (λ i. m (name + i)) (content dp v) m dp v
dirlookup_from_lem name de m dp v apart d =
    search_lem dp.size 0 name de dp.size (λ i. m (name + i)) (content dp v) m dp v apart
      (omega arith) refl
      (record { dense = d; sized = refl; held = λ i lt. refl; bytes = λ p h. refl })
