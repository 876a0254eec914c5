-- ===== src/Kernel/Dir/Answers.antt =====
-- What a search of a directory comes to.
use proyecto_3_sistemas_oper.Base.{
  ℕ, ◌+◌, ◌-◌, ◌%◌, ◌≤◌, ◌<◌, ◌≡◌, ◌≢◌, ◌⊎◌, refl, sym, subst, ◌∙◌, inl, inr, true, false, ◌==◌,
  Option, some, none, done, arith, Bool-cases, eqb→eq,
}
use proyecto_3_sistemas_oper.Kernel.Strings.{Memory, within}
use proyecto_3_sistemas_oper.Kernel.Blocks.{Dinode, Volume}
use proyecto_3_sistemas_oper.Kernel.Blocks.Growth.{max_bytes, content, Kept}
use proyecto_3_sistemas_oper.Kernel.FileData.ReadRound.{Got}
use proyecto_3_sistemas_oper.Kernel.Path.{dirsiz}
use proyecto_3_sistemas_oper.Kernel.Dir.{dirent_size, dirlookup_from}
use proyecto_3_sistemas_oper.Kernel.Dir.Entries.{IsDense, Kept-IsDense, entry_inum, HasName}

-- What a search from `off` on comes to, in a directory with the bytes c: the first entry that is in
-- use and has the name, or none.
abbrev pub Misses : (ℕ → ℕ) → (ℕ → ℕ) → ℕ → Type 0
Misses t c e = (entry_inum c e ≡ 0) ⊎ (HasName t c e → ⊥)

abbrev pub AllMiss : (ℕ → ℕ) → (ℕ → ℕ) → ℕ → ℕ → Type 0
AllMiss t c off end = (e : ℕ) → off ≤ e → e < end → e % dirent_size ≡ 0 → Misses t c e

pub record FirstAt (t c : ℕ → ℕ) (off size at inum : ℕ) : Type 0 where
  pub from : off ≤ at
  pub below : at < size
  pub aligned : at % dirent_size ≡ 0
  pub number : entry_inum c at ≡ inum
  pub used : inum ≢ 0
  pub name : HasName t c at
  pub first : AllMiss t c off at

abbrev pub Answer : (t c : ℕ → ℕ) → ℕ → ℕ → Option (ℕ × ℕ) → Type 0
Answer t c off size none = AllMiss t c off size
Answer t c off size (some (at, inum)) = FirstAt t c off size at inum

AllMiss-step :
    (t c : ℕ → ℕ) (off end : ℕ)
    → off % dirent_size ≡ 0
    → Misses t c off
    → AllMiss t c (off + dirent_size) end
    → AllMiss t c off end
AllMiss-step t c off end aligned miss rest e le lt at = elim (Bool-cases (e == off)) [
  | inl here ↦ subst (λ (x : ℕ). Misses t c x) (sym (eqb→eq e off here)) miss
  | inr away ↦ rest e (next_entry off e aligned at le away) lt at
]
  where
    next_entry :
        (off e : ℕ)
        → off % dirent_size ≡ 0
        → e % dirent_size ≡ 0
        → off ≤ e
        → (e == off) ≡ false
        → off + dirent_size ≤ e
    next_entry off e a b le away = ground arith

pub Answer-step :
    (t c : ℕ → ℕ) (off size : ℕ) (o : Option (ℕ × ℕ))
    → off % dirent_size ≡ 0
    → Misses t c off
    → Answer t c (off + dirent_size) size o
    → Answer t c off size o
Answer-step t c off size none aligned miss rest = AllMiss-step t c off size aligned miss rest
Answer-step t c off size (some (at, inum)) aligned miss rest = record {
  from = let h = rest.from in omega (arith, h);
  below = rest.below;
  aligned = rest.aligned;
  number = rest.number;
  used = rest.used;
  name = rest.name;
  first = AllMiss-step t c off at aligned miss rest.first;
}

-- The search with the name's bytes t and the directory's bytes c.
pub record Looking (name de : ℕ) (t c : ℕ → ℕ) (size : ℕ) (m : Memory) (dp : Dinode) (v : Volume)
    : Type 0 where
  pub dense : IsDense dp v
  pub sized : dp.size ≡ size
  pub held : (i : ℕ) → i < dirsiz → m (name + i) ≡ t i
  pub bytes : (p : ℕ) → p < max_bytes → content dp v p ≡ c p

-- The memory outside the entry's local is as before.
abbrev pub SameBut : ℕ → Memory → Memory → Type 0
SameBut de m m' = (a : ℕ) → within de dirent_size a ≡ false → m' a ≡ m a

abbrev pub Searched :
    (fuel off name de size : ℕ) → (ℕ → ℕ) → (ℕ → ℕ) → Memory → Dinode → Volume → Type 0
Searched fuel off name de size t c m dp v =
    (o : Option (ℕ × ℕ)) × (m' : Memory) × (dp' : Dinode) × (v' : Volume) × (dirlookup_from fuel off
        name de m dp v
      ≡ done (o, m', dp', v'))
    × Answer t c off size o
    × Kept dp v dp' v'
    × SameBut de m m'

pub Looking-step :
    {name de off size : ℕ} {t c : ℕ → ℕ} {m m' : Memory} {dp dp' : Dinode} {v v' : Volume}
    → ((i : ℕ) → i < dirsiz → within de dirent_size (name + i) ≡ false)
    → Got off dirent_size de m dp v m' dp' v'
    → Looking name de t c size m dp v
    → Looking name de t c size m' dp' v'
Looking-step {name} {de} {off} apart g k = record {
  dense = Kept-IsDense g.kept k.dense;
  sized = g.kept.size ∙ k.sized;
  held = λ i lt. g.memory (name + i) ∙ rw (apart i lt) (k.held i lt);
  bytes = λ p h. g.kept.same p h ∙ k.bytes p h;
}

-- Its bytes are those of the directory.
pub entry_bytes :
    {name de off size : ℕ} {t c : ℕ → ℕ} {m m' : Memory} {dp dp' : Dinode} {v v' : Volume}
    → off + dirent_size ≤ max_bytes
    → Got off dirent_size de m dp v m' dp' v'
    → Looking name de t c size m dp v
    → (i : ℕ) → i < dirent_size
    → m' (de + i) ≡ c (off + i)
entry_bytes {name} {de} {off} bound g k i lt =
    let there : within de dirent_size (de + i) ≡ true = ground (arith, lt) in
    let place : de + i - de ≡ i = omega arith in
    g.memory (de + i) ∙ rw (there, place) (k.bytes (off + i) (omega (arith, lt, bound)))

pub SameBut-Got :
    {de off : ℕ} {m m' : Memory} {dp dp' : Dinode} {v v' : Volume}
    → Got off dirent_size de m dp v m' dp' v'
    → SameBut de m m'
SameBut-Got g a out = g.memory a ∙ rw out refl
