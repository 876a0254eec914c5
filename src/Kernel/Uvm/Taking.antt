-- ===== src/Kernel/Uvm/Taking.antt =====
-- A page fresh from kalloc and zeroed, and what it is to have got pages.
use proyecto_3_sistemas_oper.Base.{
  ℕ, length, ◌+◌, ◌*◌, ◌%◌, ◌^◌, ◌≤◌, ◌<◌, ◌≡◌, ◌≢◌, false, ◌==◌, leb, ltb, ◌&&◌, some, List, ◌∷◌,
  NotIn, arith, eqb_of_ne, fun_ext,
}
use proyecto_3_sistemas_oper.Kernel.Params.{pgsize, max_va}
use proyecto_3_sistemas_oper.Kernel.Kalloc.Pages.{Free, Page, kalloc_lem}
use proyecto_3_sistemas_oper.Kernel.Pagetable.{
  Machine, fill_entries, kalloc_page, zero_page, or_valid,
}
use proyecto_3_sistemas_oper.Kernel.Pagetable.Owners.{frame, Owner, own_page, lookup3}
use proyecto_3_sistemas_oper.Kernel.Pagetable.Growing.{Sound, lookup, own_page-unowned}
use proyecto_3_sistemas_oper.Kernel.Uvm.Memory.{
  Framed, lookup3-fill, Tree-fill, free-Outside, frame-Outside,
}

-- `mem = kalloc(); memset(mem, 0, PGSIZE);`
abbrev pub zeroed : ℕ → Machine → Machine
zeroed q m = zero_page q (kalloc_page m).1

zeroed_entries :
    (q : ℕ) (m : Machine)
    → (kalloc_page m).0 ≡ q
    → (zeroed q m).entries ≡ fill_entries q 0 m.entries
unfolding kalloc_page zero_page
zeroed_entries q m h = fun_ext λ r. fun_ext λ j. ground (arith, h)

taken-Page :
    (end q : ℕ) (m : Machine) (ps : List ℕ)
    → Free end m.kmem (q ∷ ps)
    → ((kalloc_page m).0 ≡ q) × Page end q × Free end (zeroed q m).kmem ps × NotIn q ps
unfolding kalloc_page zero_page
taken-Page end q m ps f =
    let (first, rest, apart, page, _) = kalloc_lem end q m.kmem ps f in
    let nonzero : (q == 0) ≡ false = eqb_of_ne q 0 f.chain.1 in
    (
      first,
      page,
      rw (first, nonzero)
          (record { chain = rest.chain; pages = rest.pages; distinct = rest.distinct }),
      apart,
    )

pub take_frame :
    (end : ℕ) (own : Owner) (pt n q : ℕ) (m : Machine) (ps : List ℕ)
    → Sound end own pt m (q ∷ ps)
    → ((kalloc_page m).0 ≡ q)
      × (q ≢ 0)
      × Page end q
      × Sound end (own_page own q (frame n)) pt (zeroed q m) ps
      × ((a b c : ℕ) → lookup3 (zeroed q m).entries pt a b c ≡ lookup3 m.entries pt a b c)
take_frame end own pt n q m ps so =
    let (first, page, rest, apart) = taken-Page end q m ps so.pages in
    let same : (zeroed q m).entries ≡ fill_entries q 0 m.entries = zeroed_entries q m first in
    (
      first,
      so.pages.chain.1,
      page,
      record {
        pages = rest;
        unowned = own_page-unowned own q (frame n) ps apart so.unowned.1;
        tree = rw same (Tree-fill q 0 so.tree so.unowned.0 free-Outside (frame-Outside n));
      },
      λ a b c. rw same (lookup3-fill q 0 a b c so.tree so.unowned.0 free-Outside),
    )

-- n pages from a on got pages of their own, at most three free pages were used for each, and no
-- other address changes its meaning.
pub record Allocated (end top pt a n perm : ℕ) (m : Machine) (ps : List ℕ) (m' : Machine)
    : Type 0 where
  pub own' : Owner
  pub ps' : List ℕ
  pub sound : Sound end own' pt m' ps'
  pub framed : Framed end top own' pt m'
  pub used : length ps ≤ 3 * n + length ps'
  pub outside :
      (va : ℕ)
      → va < max_va
      → (leb a va && ltb va (a + n * pgsize)) ≡ false
      → lookup pt va m' ≡ lookup pt va m
  pub inside :
      (va : ℕ)
      → a ≤ va
      → va < a + n * pgsize
      → (e : ℕ) × (lookup pt va m' ≡ some e) × (e % 2 ^ 10 ≡ or_valid perm)

-- No address changed its meaning, and the memory is well-formed.
pub record Kept (end top pt : ℕ) (m m' : Machine) : Type 0 where
  pub own' : Owner
  pub ps' : List ℕ
  pub sound : Sound end own' pt m' ps'
  pub framed : Framed end top own' pt m'
  pub same : (va : ℕ) → va < max_va → lookup pt va m' ≡ lookup pt va m
