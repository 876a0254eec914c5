-- ===== src/Kernel/Pagetable/Growing.antt =====
-- What a walk may do to the tree of page tables.
use proyecto_3_sistemas_oper.Base.{
  ℕ, ◌≤◌, length, ◌+◌, ◌%◌, ◌≡◌, ◌≢◌, ◌⊎◌, refl, sym, ◌∙◌, Bool, true, false, ◌==◌, Option, none,
  some, List, [], ◌∷◌, All, NotIn, arith, eqb_of_ne, fun_ext,
}
use proyecto_3_sistemas_oper.Kernel.Params.{pgsize}
use proyecto_3_sistemas_oper.Kernel.Kalloc.Pages.{Free, kalloc_lem, kalloc-empty}
use proyecto_3_sistemas_oper.Kernel.Pagetable.{
  Machine, pte_v, pte2pa, pa2pte, px, set_entry, kalloc_page, zero_page,
}
use proyecto_3_sistemas_oper.Kernel.Pagetable.Owners.{
  Role, free, Owner, own_page, Tree, graft, lookup3,
}

-- The free pages are those of the allocator's list, and the page table at pt is a tree of pages.
pub record Sound (end : ℕ) (own : Owner) (pt : ℕ) (m : Machine) (ps : List ℕ) : Type 0 where
  pub pages : Free end m.kmem ps
  pub unowned : All (λ p. own p ≡ free) ps
  pub tree : Tree own pt m.entries

-- The valid entry that the page table at pt has for an address.
abbrev pub lookup : ℕ → ℕ → Machine → Option ℕ
lookup pt va m = lookup3 m.entries pt (px 2 va) (px 1 va) (px 0 va)

-- The first free page becomes a page table below entry i of the page at p.
unfoldable pub grafted : ℕ → ℕ → ℕ → Machine → Machine
grafted p i q m = set_entry p i (pa2pte q + 1) (zero_page q (kalloc_page m).1)

pub grafted_entries :
    (p i q : ℕ) (m : Machine)
    → (kalloc_page m).0 ≡ q
    → (grafted p i q m).entries ≡ graft m.entries p i q
unfolding grafted kalloc_page zero_page
grafted_entries p i q m h = fun_ext λ r. fun_ext λ j. ground (arith, h)

pub grafted_pages :
    (end p i q : ℕ) (m : Machine) (ps : List ℕ)
    → Free end m.kmem (q ∷ ps)
    → ((kalloc_page m).0 ≡ q)
      × Free end (grafted p i q m).kmem ps
      × (q % pgsize ≡ 0)
      × NotIn q ps
      × (q ≢ 0)
unfolding grafted kalloc_page zero_page
grafted_pages end p i q m ps f =
    let (first, rest, apart, page, _) = kalloc_lem end q m.kmem ps f in
    let nonzero : (q == 0) ≡ false = eqb_of_ne q 0 f.chain.1 in
    (
      first,
      rw (first, nonzero)
          (record { chain = rest.chain; pages = rest.pages; distinct = rest.distinct }),
      page.0,
      apart,
      f.chain.1,
    )

pub no_page : (end : ℕ) (m : Machine) → Free end m.kmem [] → kalloc_page m ≡ (0, m)
unfolding kalloc_page
no_page end m f = rw (kalloc-empty end m.kmem f) refl

-- What a walk may do: it takes free pages into the tree, and no lookup, no role and no valid entry
-- of an owned page changes.
pub record Grown (end : ℕ) (own own' : Owner) (pt : ℕ) (m m' : Machine) (ps' : List ℕ)
    : Type 0 where
  pub sound : Sound end own' pt m' ps'
  pub kept : (a b c : ℕ) → lookup3 m'.entries pt a b c ≡ lookup3 m.entries pt a b c
  pub roles : (p : ℕ) (s : Role) → own p ≡ s → s ≢ free → own' p ≡ s
  pub words :
      (p j : ℕ) (s : Role)
      → own p ≡ s
      → s ≢ free
      → pte_v (m.entries p j) ≡ true
      → m'.entries p j ≡ m.entries p j

pub Grown-refl :
    (end : ℕ) (own : Owner) (pt : ℕ) (m : Machine) (ps : List ℕ)
    → Sound end own pt m ps
    → Grown end own own pt m m ps
Grown-refl end own pt m ps s = record {
  sound = s;
  kept = λ a b c. refl;
  roles = λ p r h ne. h;
  words = λ p j r h ne v. refl;
}

pub Grown-trans :
    {end : ℕ} {own own' own'' : Owner} {pt : ℕ} {m m' m'' : Machine} {ps' ps'' : List ℕ}
    → Grown end own own' pt m m' ps'
    → Grown end own' own'' pt m' m'' ps''
    → Grown end own own'' pt m m'' ps''
Grown-trans {m} {m'} g h = record {
  sound = h.sound;
  kept = λ a b c. h.kept a b c ∙ g.kept a b c;
  roles = λ p r o ne. h.roles p r (g.roles p r o ne) ne;
  words = λ p j r o ne v.
      let same = g.words p j r o ne v in h.words p j r (g.roles p r o ne) ne (rw same v) ∙ same;
}

-- A round of `walk` at entry i of the page p, whose child has or gets the role `new`: it finds or
-- makes the child, or fails, and with pages left only if it is not to allocate.
pub record Stepped (end : ℕ) (own : Owner) (pt : ℕ) (m : Machine) (ps : List ℕ) (alloc : Bool)
    (p i : ℕ) (new : Role) (r : Option ℕ × Machine) : Type 0 where
  pub own' : Owner
  pub ps' : List ℕ
  pub grown : Grown end own own' pt m r.1 ps'
  pub used : length ps ≤ 1 + length ps'
  pub found :
      ((r.0 ≡ none) × ((alloc ≡ false) ⊎ (ps' ≡ [])))
      ⊎ ((q : ℕ) × (r.0 ≡ some q)
          × (own' q ≡ new)
          × (pte_v (r.1.entries p i) ≡ true)
          × (pte2pa (r.1.entries p i) ≡ q))

pub own_page-unowned :
    (own : Owner) (q : ℕ) (new : Role) (ps : List ℕ)
    → NotIn q ps
    → All (λ p. own p ≡ free) ps
    → All (λ p. own_page own q new p ≡ free) ps
own_page-unowned own q new [] apart h = tt
own_page-unowned own q new (p ∷ ps) apart h =
    (rw (eqb_of_ne p q (λ e. apart.0 (sym e))) h.0, own_page-unowned own q new ps apart.1 h.1)
