-- ===== src/Kernel/Uvm/Unmap.antt =====
-- uvmunmap of pages whose memory it frees.
use mathlib.Core.List.{Memᴰ}
use proyecto_3_sistemas_oper.Base.{
  ℕ, zero, suc, ◌+◌, ◌*◌, ◌/◌, ◌%◌, ◌≤◌, ◌<◌, ◌≡◌, ◌≢◌, refl, sym, ap, ◌∙◌, inl, inr, true, false,
  ◌==◌, leb, if◌then◌else◌, Option, none, some, List, ◌∷◌, done, ◌>>=◌, arith, Bool-cases, some_inj,
  >>=_assoc,
}
use proyecto_3_sistemas_oper.Kernel.Params.{pgsize, max_va}
use proyecto_3_sistemas_oper.Kernel.Pagetable.{
  Machine, set_entry, walk, kfree_page, pte_v, pte2pa, px,
}
use proyecto_3_sistemas_oper.Kernel.Pagetable.Owners.{
  Role, frame, free, root, middle, bottom, Owner, own_page, lookup3,
}
use proyecto_3_sistemas_oper.Kernel.Pagetable.Growing.{Sound, lookup}
use proyecto_3_sistemas_oper.Kernel.Pagetable.Walk.{Path3}
use proyecto_3_sistemas_oper.Kernel.Pagetable.Entering.{Sound-set_bottom, lookup-set, some-none}
use proyecto_3_sistemas_oper.Kernel.Pagetable.Address.{walk_fixed}
use proyecto_3_sistemas_oper.Kernel.Uvm.{unmap_at, unmap_from, uvmunmap}
use proyecto_3_sistemas_oper.Kernel.Uvm.Memory.{Framed, own_page_other, release_frame}
use proyecto_3_sistemas_oper.Kernel.Uvm.Unmapping.{
  in_page, Unmapped-refl, Unmapped-trans, lookup_same, same_page, Unmapped-gap, Unmapped,
}

unmap_at-gap :
    (end a p : ℕ) (m : Machine)
    → pte_v (m.entries p (px 0 a)) ≡ false
    → unmap_at end true a (some p) m ≡ done m
unfolding unmap_at
unmap_at-gap end a p m gap = rw gap refl

unmap_at-entry :
    (end a p : ℕ) (m m1 : Machine)
    → pte_v (m.entries p (px 0 a)) ≡ true
    → kfree_page end (pte2pa (m.entries p (px 0 a))) m ≡ done m1
    → unmap_at end true a (some p) m ≡ done (set_entry p (px 0 a) 0 m1)
unfolding unmap_at
unmap_at-entry end a p m m1 valid ran = rw (valid, ran) refl

pub entry_of :
    (pt a p : ℕ) (m : Machine)
    → Path3 pt a p m
    → lookup pt a m ≡ (if pte_v (m.entries p (px 0 a)) then some (m.entries p (px 0 a)) else none)
entry_of pt a p m h = rw (h.top, h.low, h.last) refl

frames_apart : {x y : ℕ} → x ≢ y → frame x ≢ frame y
frames_apart ne e = ne cc

-- The frees of the page behind an address leave the path to its entry.
path_kept :
    {end pt a n : ℕ} {own : Owner} {m m1 : Machine} {ps : List ℕ} {p : ℕ}
    → Sound end own pt m ps
    → ((p j : ℕ) (s : Role) → own p ≡ s → s ≢ frame n → m1.entries p j ≡ m.entries p j)
    → Path3 pt a p m
    → Path3 pt a p m1
path_kept {end} {pt} {a} {n} {own} {m} {m1} so words h =
    let top : m1.entries pt (px 2 a) ≡ m.entries pt (px 2 a) =
      words pt (px 2 a) root so.tree.root_at (λ z. cc) in
    let mid : own (pte2pa (m.entries pt (px 2 a))) ≡ middle (px 2 a) =
      so.tree.middles (px 2 a) h.top in
    let low : m1.entries (pte2pa (m.entries pt (px 2 a))) (px 1 a)
        ≡ m.entries (pte2pa (m.entries pt (px 2 a))) (px 1 a) =
      words (pte2pa (m.entries pt (px 2 a))) (px 1 a) (middle (px 2 a)) mid (λ z. cc) in
    record { top = rw top h.top; low = rw (top, low) h.low; last = rw (top, low) h.last }

module _ (end top : ℕ) (own : Owner) (pt a p : ℕ) (m : Machine) (ps : List ℕ) (pos : 0 < end)
    (al : a % pgsize ≡ 0) (below : a < max_va) (under : a < top) (so : Sound end own pt m ps)
    (fr : Framed end top own pt m) (bot : own p ≡ bottom (px 2 a) (px 1 a)) (path : Path3 pt a p m)
    (valid : pte_v (m.entries p (px 0 a)) ≡ true) where
  abbrev e : ℕ
  e = m.entries p (px 0 a)

  abbrev q : ℕ
  q = pte2pa e

  found : lookup pt a m ≡ some e
  found = entry_of pt a p m path ∙ rw valid refl

  unmap_entry :
      (m1 : Machine)
      → Sound end (own_page own q free) pt m1 (q ∷ ps)
      → ((a b c : ℕ) → lookup3 m1.entries pt a b c ≡ lookup3 m.entries pt a b c)
      → ((p j : ℕ) (s : Role) → own p ≡ s → s ≢ frame (a / pgsize) → m1.entries p j ≡ m.entries p j)
      → Unmapped end top pt a 1 m ps (set_entry p (px 0 a) 0 m1)
  unmap_entry m1 so1 kept words =
      let fq : own q ≡ frame (a / pgsize) = (fr a e below under found).0 in
      let bot1 : own_page own q free p ≡ bottom (px 2 a) (px 1 a) =
        own_page_other own q p free fq bot (λ z. cc) in
      let path1 : Path3 pt a p m1 = path_kept so words path in
      let after : (va : ℕ)
          → va < max_va
          → lookup pt va (set_entry p (px 0 a) 0 m1)
            ≡ (if va / pgsize == a / pgsize then none else lookup pt va m) =
        λ va hv.
          lookup-set end (own_page own q free) pt a p 0 va m1 (q ∷ ps) so1 bot1 path1 hv below
          ∙ ap (λ (o : Option ℕ). if va / pgsize == a / pgsize then none else o)
              (kept (px 2 va) (px 1 va) (px 0 va)) in
      record {
        own' = own_page own q free;
        ps' = q ∷ ps;
        sound = Sound-set_bottom (px 2 a) (px 1 a) p (px 0 a) 0 so1 bot1;
        framed = λ va f hv ht h. elim (Bool-cases (va / pgsize == a / pgsize)) [
          | inl here ↦ absurd (some-none (sym h ∙ after va hv ∙ rw here refl))
          | inr away ↦
              let old : lookup pt va m ≡ some f = sym (after va hv ∙ rw away refl) ∙ h in
              let (role, page) = fr va f hv ht old in
              (
                own_page_other own q (pte2pa f) free fq role
                    (frames_apart (λ z. differ (va / pgsize) (a / pgsize) away z)),
                page,
              )
        ];
        view = λ va hv. after va hv ∙ rw (in_page a va al) refl;
        older = λ r h. Memᴰ.tail h;
        freed = λ va f ge lt h.
            let same : some f ≡ some e =
              sym h ∙ lookup_same pt a va m (same_page a va al ge lt) ∙ found in
            Memᴰ.head (ap (λ (x : ℕ). pte2pa x) (some_inj same));
      }
    where
      differ : (x y : ℕ) → (x == y) ≡ false → x ≢ y
      differ x y h z = ground arith

  unmap_here :
      (m' : Machine) × (unmap_at end true a (some p) m ≡ done m') × Unmapped end top pt a 1 m ps m'
  unmap_here =
      let (fq, page) = fr a e below under found in
      let (m1, ran, so1, kept, words) =
        release_frame end own pt (a / pgsize) q m ps pos so fq page in
      (
        set_entry p (px 0 a) 0 m1,
        unmap_at-entry end a p m m1 valid ran,
        unmap_entry m1 so1 kept words,
      )

-- A round of `uvmunmap`.
unmap_round :
    (end top : ℕ) (own : Owner) (pt a : ℕ) (m : Machine) (ps : List ℕ)
    → 0 < end
    → a % pgsize ≡ 0
    → a < max_va
    → a < top
    → Sound end own pt m ps
    → Framed end top own pt m
    → (m' : Machine) × ((walk false pt a m >>= λ w. unmap_at end true a w.0 w.1) ≡ done m')
      × Unmapped end top pt a 1 m ps m'
unfolding walk unmap_at
unmap_round end top own pt a m ps pos al below under so fr =
    let low : leb max_va a ≡ false = ground arith in
    elim (walk_fixed end own pt a m ps so) [
      | inl (missing, gap) ↦
          (m, rw (low, missing) refl, Unmapped-gap end top own pt a m ps al so fr gap)
      | inr (p, got, bot, path) ↦ elim (Bool-cases (pte_v (m.entries p (px 0 a)))) [
        | inr gap ↦ (
          m,
          rw (low, got) (unmap_at-gap end a p m gap),
          Unmapped-gap end top own pt a m ps al so fr (entry_of pt a p m path ∙ rw gap refl),
        )
        | inl valid ↦
            let (m', ran, u) =
              unmap_here end top own pt a p m ps pos al below under so fr bot path valid in
            (m', rw (low, got) ran, u)
      ]
    ]

split_round :
    (end rounds pt a : ℕ) (m m1 : Machine)
    → (walk false pt a m >>= λ w. unmap_at end true a w.0 w.1) ≡ done m1
    → unmap_from end true (suc rounds) pt a m ≡ unmap_from end true rounds pt (a + pgsize) m1
unfolding unmap_from
split_round end rounds pt a m m1 ran =
    sym (
      >>=_assoc (walk false pt a m) (λ w. unmap_at end true a w.0 w.1)
        (unmap_from end true rounds pt (a + pgsize)))
    ∙ ap (λ o. o >>= unmap_from end true rounds pt (a + pgsize)) ran

unmap_from_lem :
    (end top : ℕ) (own : Owner) (rounds pt a : ℕ) (m : Machine) (ps : List ℕ)
    → 0 < end
    → a % pgsize ≡ 0
    → a + rounds * pgsize ≤ max_va
    → a + rounds * pgsize ≤ top
    → Sound end own pt m ps
    → Framed end top own pt m
    → (m' : Machine) × (unmap_from end true rounds pt a m ≡ done m')
      × Unmapped end top pt a rounds m ps m'
unfolding unmap_from
unmap_from_lem end top own zero pt a m ps pos al fits low so fr =
    (m, refl, Unmapped-refl end top own pt a m ps so fr)
unmap_from_lem end top own (suc rounds) pt a m ps pos al fits low so fr =
    let (m1, ran1, u) =
      unmap_round end top own pt a m ps pos al (omega (arith, fits)) (omega (arith, low)) so fr in
    let (m2, ran2, w) =
      unmap_from_lem end top u.own' rounds pt (a + pgsize) m1 u.ps' pos (omega arith)
        (omega (arith, fits)) (omega (arith, low)) u.sound u.framed in
    (m2, split_round end rounds pt a m m1 ran1 ∙ ran2, Unmapped-trans fits u w)

-- Let each valid entry of a page table that is for an address below `top` have a page of its own;
-- `top` may be MAXVA, or the address of the trapframe's page. `uvmunmap` with `do_free` of n pages
-- from a page-aligned address on, which end at `top` and at MAXVA at the latest, does not panic.
-- Then no address of the range has an entry, and the pages they had are free, besides those that
-- were free before. No other address changes its meaning; every valid entry below `top` still has a
-- page of its own, and the table's pages are still a tree.
pub uvmunmap_lem :
    (end top : ℕ) (own : Owner) (n pt va : ℕ) (m : Machine) (ps : List ℕ)
    → 0 < end
    → va % pgsize ≡ 0
    → va + n * pgsize ≤ max_va
    → va + n * pgsize ≤ top
    → Sound end own pt m ps
    → Framed end top own pt m
    → (m' : Machine) × (uvmunmap end pt va n true m ≡ done m') × Unmapped end top pt va n m ps m'
unfolding uvmunmap
uvmunmap_lem end top own n pt va m ps pos al fits low so fr =
    let (m', ran, u) = unmap_from_lem end top own n pt va m ps pos al fits low so fr in
    (m', rw al ran, u)
