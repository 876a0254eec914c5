-- ===== src/Kernel/Dir/Link.antt =====
-- dirlookup after dirlink.
use native.Mathlib.Nat.{add-zero}
use proyecto_3_sistemas_oper.Base.{
  ℕ, ◌+◌, ◌*◌, ◌%◌, ◌^◌, ◌≤◌, ◌<◌, ◌≡◌, ◌≢◌, ◌⊎◌, refl, sym, ap, ap₂, ◌∙◌, inl, inr, false, ◌==◌,
  ltb, if◌then◌else◌, Option, some, none, done, arith, Bool-cases, eqb→eq, ℤ, pos, minus_one,
}
use proyecto_3_sistemas_oper.Kernel.Strings.{Memory, within}
use proyecto_3_sistemas_oper.Kernel.Blocks.{Dinode, Volume}
use proyecto_3_sistemas_oper.Kernel.Blocks.Growth.{max_bytes, content}
use proyecto_3_sistemas_oper.Kernel.Blocks.Mapping.{Full}
use proyecto_3_sistemas_oper.Kernel.Path.{dirsiz}
use proyecto_3_sistemas_oper.Kernel.Dir.{dirent_size, add_entry, dirlookup_from}
use proyecto_3_sistemas_oper.Kernel.Dir.Entries.{IsDense, entry_inum, HasName}
use proyecto_3_sistemas_oper.Kernel.Dir.Answers.{Misses, AllMiss, Answer}
use proyecto_3_sistemas_oper.Kernel.Dir.Adding.{Added, add_entry_lem}
use proyecto_3_sistemas_oper.Kernel.Dir.Search.{search_lem}

-- The bytes of another entry are not those of the new one.
other_byte :
    {t : ℕ → ℕ} {inum at : ℕ} {dp dp' : Dinode} {v v' : Volume} (e i : ℕ)
    → Added t inum dp v dp' v' at
    → e < dp'.size
    → e % dirent_size ≡ 0
    → e ≢ at
    → i < dirent_size
    → content dp' v' (e + i) ≡ content dp v (e + i)
other_byte {at = at} {dp' = dp'} e i a lt aligned ne li =
    a.others (e + i) (bound e i dp'.size lt aligned a.dense.whole a.dense.small li)
      (apart_entry at e i a.gap.aligned aligned ne li)
  where
    apart_entry :
        (at e i : ℕ)
        → at % dirent_size ≡ 0
        → e % dirent_size ≡ 0
        → e ≢ at
        → i < dirent_size
        → within at dirent_size (e + i) ≡ false
    apart_entry at e i a b ne lt = ground arith

    bound :
        (e i size : ℕ)
        → e < size
        → e % dirent_size ≡ 0
        → size % dirent_size ≡ 0
        → size ≤ max_bytes
        → i < dirent_size
        → e + i < max_bytes
    bound e i size lt a b small li = omega arith

-- An entry that has the name and is not the new one was there before.
old_entry :
    {t : ℕ → ℕ} {inum at : ℕ} {dp dp' : Dinode} {v v' : Volume} (e : ℕ)
    → Added t inum dp v dp' v' at
    → e < dp'.size
    → e % dirent_size ≡ 0
    → e ≢ at
    → entry_inum (content dp' v') e ≢ 0
    → HasName t (content dp' v') e
    → (e < dp.size) × (Misses t (content dp v) e → ⊥)
old_entry {t} {inum} {at} {dp} {dp'} {v} {v'} e a lt aligned ne used has = (
  before e at dp.size dp'.size lt aligned a.gap.aligned ne a.gap.within_size a.size,
  λ miss. elim miss [
    | inl z ↦ used (same_number ∙ z)
    | inr f ↦ f (λ i li clean.
        has i li clean
        ∙ ap (content dp' v') (regroup e i)
        ∙ other_byte e (2 + i) a lt aligned ne (omega (arith, li))
        ∙ ap (content dp v) (sym (regroup e i)))
  ],
)
  where
    before :
        (e at size size' : ℕ)
        → e < size'
        → e % dirent_size ≡ 0
        → at % dirent_size ≡ 0
        → e ≢ at
        → at ≤ size
        → size' ≡ (if ltb size (at + dirent_size) then at + dirent_size else size)
        → e < size
    before e at size size' lt a b ne le s = ground arith

    regroup : (a i : ℕ) → a + 2 + i ≡ a + (2 + i)
    regroup a i = omega arith

    same_number : entry_inum (content dp' v') e ≡ entry_inum (content dp v) e
    same_number =
        ap₂ (λ (a b : ℕ). a + 256 * b)
          (ap (content dp' v') (sym (add-zero e))
            ∙ other_byte e 0 a lt aligned ne (omega arith)
            ∙ ap (content dp v) (add-zero e))
          (other_byte e 1 a lt aligned ne (omega arith))

-- A lookup of the name in the directory with the new entry, wherever the name is in memory.
abbrev pub FindsIt : (t : ℕ → ℕ) (inum at : ℕ) → Dinode → Volume → Type 0
FindsIt t inum at dp v =
    (name de : ℕ) (m : Memory)
    → ((i : ℕ) → i < dirsiz → m (name + i) ≡ t i)
    → ((i : ℕ) → i < dirsiz → within de dirent_size (name + i) ≡ false)
    → (m' : Memory) × (dp' : Dinode) × (v' : Volume) × (dirlookup_from dp.size 0 name de m dp v
        ≡ done (some (at, inum), m', dp', v'))

Added-FindsIt :
    {t : ℕ → ℕ} {inum at : ℕ} {dp dp' : Dinode} {v v' : Volume}
    → Added t inum dp v dp' v' at
    → inum ≢ 0
    → AllMiss t (content dp v) 0 dp.size
    → FindsIt t inum at dp' v'
Added-FindsIt {t} {inum} {at} {dp} {dp'} {v} {v'} a ne miss name de m held apart =
    let (o, m', dp2, v2, ran, answer, kept, same) =
      search_lem dp'.size 0 name de dp'.size t (content dp' v') m dp' v' apart (omega arith) refl
        (record { dense = a.dense; sized = refl; held = held; bytes = λ p h. refl }) in
    (m', dp2, v2, ran ∙ ap (λ (x : Option (ℕ × ℕ)). done (x, m', dp2, v2)) (is_new o answer))
  where
    ne_of_test : (a b : ℕ) → (a == b) ≡ false → a ≢ b
    ne_of_test a b h e = ground arith

    at_end :
        (at size size' : ℕ)
        → size' ≡ (if ltb size (at + dirent_size) then at + dirent_size else size)
        → at < size'
    at_end at size size' h = ground arith

    is_new : (o : Option (ℕ × ℕ)) → Answer t (content dp' v') 0 dp'.size o → o ≡ some (at, inum)
    is_new none none_has =
        elim (none_has at (omega arith) (at_end at dp.size dp'.size a.size) a.gap.aligned) [
          | inl z ↦ absurd (ne (sym a.number ∙ z))
          | inr f ↦ absurd (f a.name)
        ]
    is_new (some (e, n)) found = elim (Bool-cases (e == at)) [
      | inl here ↦
          let place = eqb→eq e at here in
          let number : n ≡ inum =
            sym found.number ∙ ap (entry_inum (content dp' v')) place ∙ a.number in
          ap₂ (λ (x y : ℕ). some (x, y)) place number
      | inr away ↦
          let (lt, hit) =
            old_entry e a found.below found.aligned (ne_of_test e at away)
              (λ z. found.used (sym found.number ∙ z)) found.name in
          absurd (hit (miss e (omega arith) lt found.aligned))
    ]

-- `dirlink` behind its test of a name that no entry in use has, under the conditions of
-- `add_entry_lem` and with a number that is not 0: it returns -1 and no block is left, or it returns
-- 0, and then the loop of `dirlookup` finds the number under the name, wherever in memory the name is
-- asked for.
pub dirlookup-add_entry :
    (dir name inum de : ℕ) (m : Memory) (dp : Dinode) (v : Volume)
    → ((i : ℕ) → i < dirsiz → within de dirent_size (name + i) ≡ false)
    → inum ≢ 0
    → inum < 2 ^ 16
    → IsDense dp v
    → dp.size + dirent_size ≤ max_bytes
    → AllMiss (λ i. m (name + i)) (content dp v) 0 dp.size
    → (r : ℤ) × (at : ℕ) × (m' : Memory) × (dp' : Dinode) × (v' : Volume) × (add_entry dir name inum
          de m dp v
        ≡ done (r, m', dp', v'))
      × (((r ≡ pos 0) × FindsIt (λ i. m (name + i)) inum at dp' v') ⊎ ((r ≡ minus_one) × Full v'))
dirlookup-add_entry dir name inum de m dp v apart ne low d room miss =
    let (r, at, m', dp', v', ran, result) =
      add_entry_lem dir name inum de m dp v apart low d room in
    (
      r,
      at,
      m',
      dp',
      v',
      ran,
      elim result [
        | inl (zero_result, a) ↦ inl (zero_result, Added-FindsIt a ne miss)
        | inr full ↦ inr full
      ],
    )
