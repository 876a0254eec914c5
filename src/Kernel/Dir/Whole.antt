-- ===== src/Kernel/Dir/Whole.antt =====
-- The whole of dirlink, with its test, and dirlookup after it.
use proyecto_3_sistemas_oper.Base.{
  ℕ, ◌+◌, ◌*◌, ◌<◌, ◌≤◌, ◌^◌, ◌≡◌, ◌≢◌, ◌⊎◌, refl, sym, ap, ap₂, ◌∙◌, inl, inr, true, false, ◌==◌,
  List, Option, some, none, done, ◌>>=◌, arith, ℤ, pos, minus_one,
}
use proyecto_3_sistemas_oper.Kernel.Strings.{Memory, within}
use proyecto_3_sistemas_oper.Kernel.Blocks.{Dinode, Volume}
use proyecto_3_sistemas_oper.Kernel.Blocks.Growth.{max_bytes, content}
use proyecto_3_sistemas_oper.Kernel.Blocks.Mapping.{Full}
use proyecto_3_sistemas_oper.Kernel.Path.{dirsiz}
use proyecto_3_sistemas_oper.Kernel.Inode.{Inode}
use proyecto_3_sistemas_oper.Kernel.Dir.{
  dirent_size, t_dir, add_entry, dirlookup_from, dirlookup, dirlink,
}
use proyecto_3_sistemas_oper.Kernel.Dir.Entries.{IsDense, Kept-IsDense, entry_fits}
use proyecto_3_sistemas_oper.Kernel.Dir.Answers.{Misses, AllMiss, Answer}
use proyecto_3_sistemas_oper.Kernel.Dir.Search.{dirlookup_from_lem}
use proyecto_3_sistemas_oper.Kernel.Dir.Link.{FindsIt, dirlookup-add_entry}

dirlookup-none :
    (dev name de : ℕ) (m m' : Memory) (dp dp' : Dinode) (v v' : Volume) (ips : List Inode)
    → dp.type_of ≡ t_dir
    → dirlookup_from dp.size 0 name de m dp v ≡ done (none, m', dp', v')
    → dirlookup dev name de m dp v ips ≡ done (none, ips, m', dp', v')
unfolding dirlookup
dirlookup-none dev name de m m' dp dp' v v' ips kind ran =
    let test : (dp.type_of == t_dir) ≡ true = ap (λ (x : ℕ). x == t_dir) kind in rw (test, ran) refl

dirlink-run :
    (dev dir name inum de : ℕ) (m m' : Memory) (dp dp' : Dinode) (v v' : Volume) (ips : List Inode)
    → dirlookup dev name de m dp v ips ≡ done (none, ips, m', dp', v')
    → dirlink dev dir name inum de m dp v ips
      ≡ (add_entry dir name inum de m' dp' v' >>= λ q. done (q.0, ips, q.1, q.2, q.3))
unfolding dirlink
dirlink-run dev dir name inum de m m' dp dp' v v' ips h = rw h refl

-- The same bytes have the same entries.
Misses-same :
    {t t' c c' : ℕ → ℕ} (e : ℕ)
    → ((i : ℕ) → i < dirsiz → t' i ≡ t i)
    → ((p : ℕ) → p < max_bytes → c' p ≡ c p)
    → e + dirent_size ≤ max_bytes
    → Misses t c e
    → Misses t' c' e
Misses-same {t} {t'} {c} {c'} e texts bytes fits (inl z) = inl (
    ap₂ (λ (a b : ℕ). a + 256 * b) (bytes e (omega (arith, fits)))
      (bytes (e + 1) (omega (arith, fits)))
    ∙ z)
Misses-same {t} {t'} {c} {c'} e texts bytes fits (inr f) = inr (λ has. f (λ i lt clean.
    sym (texts i lt)
    ∙ has i lt (λ j jl z. clean j jl (sym (texts j (omega (arith, jl, lt))) ∙ z))
    ∙ bytes (e + 2 + i) (omega (arith, lt, fits))))

none_found :
    (t c : ℕ → ℕ) (size : ℕ) (o : Option (ℕ × ℕ))
    → Answer t c 0 size o
    → AllMiss t c 0 size
    → o ≡ none
none_found t c size none answer miss = refl
none_found t c size (some (at, n)) found miss =
    absurd (elim (miss at (omega arith) found.below found.aligned) [
      | inl z ↦ found.used (sym found.number ∙ z)
      | inr f ↦ f found.name
    ])

FindsIt-same :
    {t t' : ℕ → ℕ} {inum at : ℕ} (dp : Dinode) (v : Volume)
    → ((i : ℕ) → i < dirsiz → t' i ≡ t i)
    → FindsIt t' inum at dp v
    → FindsIt t inum at dp v
FindsIt-same dp v texts finds name de m held apart =
    finds name de m (λ i lt. held i lt ∙ sym (texts i lt)) apart

-- `dirlink` of a name that no entry in use has and of a number from 1 to 2^16 - 1, in a directory of
-- whole entries that all have their blocks, and with room for one more within MAXFILE blocks, for a
-- name whose 14 bytes are apart from the local entry, does not panic and leaves the table of inodes
-- as it was. It returns -1 and no block is left, or it returns 0, and then the loop of `dirlookup`
-- finds the number under the name, wherever in memory the name is asked for.
pub dirlookup-dirlink :
    (dev dir name inum de : ℕ) (m : Memory) (dp : Dinode) (v : Volume) (ips : List Inode)
    → ((i : ℕ) → i < dirsiz → within de dirent_size (name + i) ≡ false)
    → inum ≢ 0
    → inum < 2 ^ 16
    → dp.type_of ≡ t_dir
    → IsDense dp v
    → dp.size + dirent_size ≤ max_bytes
    → AllMiss (λ i. m (name + i)) (content dp v) 0 dp.size
    → (r : ℤ) × (at : ℕ) × (m' : Memory) × (dp' : Dinode) × (v' : Volume) × (dirlink dev dir name
          inum de m dp v ips
        ≡ done (r, ips, m', dp', v'))
      × (((r ≡ pos 0) × FindsIt (λ i. m (name + i)) inum at dp' v') ⊎ ((r ≡ minus_one) × Full v'))
dirlookup-dirlink dev dir name inum de m dp v ips apart ne low kind d room miss =
    let (o, m1, dp1, v1, ran, answer, kept, same) = dirlookup_from_lem name de m dp v apart d in
    let searched =
      ran
      ∙ ap (λ (x : Option (ℕ × ℕ)). done (x, m1, dp1, v1))
          (none_found (λ i. m (name + i)) (content dp v) dp.size o answer miss) in
    let texts : (i : ℕ) → i < dirsiz → m1 (name + i) ≡ m (name + i) =
      λ i lt. same (name + i) (apart i lt) in
    let d1 = Kept-IsDense kept d in
    let (r, at, m', dp', v', added, result) =
      dirlookup-add_entry dir name inum de m1 dp1 v1 apart ne low d1 (rw kept.size room)
        (λ e from below aligned.
          let lt : e < dp.size = rw kept.size at below in
          Misses-same e texts kept.same (entry_fits e dp.size lt aligned d.whole d.small)
            (miss e from lt aligned)) in
    (
      r,
      at,
      m',
      dp',
      v',
      dirlink-run dev dir name inum de m m1 dp dp1 v v1 ips
            (dirlookup-none dev name de m m1 dp dp1 v v1 ips kind searched)
          ∙ ap (λ o. o >>= λ q. done (q.0, ips, q.1, q.2, q.3)) added,
      elim result [
        | inl (zero_result, finds) ↦ inl (zero_result, FindsIt-same dp' v' texts finds)
        | inr full ↦ inr full
      ],
    )
