-- ===== src/Kernel/Uvm/Memory.antt =====
-- The memory behind a page table's addresses: the valid entries below an address each have a page
-- of their own.
use proyecto_3_sistemas_oper.Base.{
  ℕ, ◌/◌, ◌<◌, ◌≡◌, ◌≢◌, refl, sym, ap, ◌∙◌, subst, inl, inr, Bool, true, false, ◌==◌,
  if◌then◌else◌, some, List, [], ◌∷◌, All, NotIn, done, Bool-cases,
}
use proyecto_3_sistemas_oper.Kernel.Params.{pgsize, max_va}
use proyecto_3_sistemas_oper.Kernel.Kalloc.Pages.{Page, kfree_lem}
use proyecto_3_sistemas_oper.Kernel.Pagetable.{Machine, fill_entries, kfree_page, pte_v, pte2pa}
use proyecto_3_sistemas_oper.Kernel.Pagetable.Owners.{
  Role, free, root, middle, frame, bottom, Entries, Owner, own_page, Tree, lookup3, lookup3_agree,
  ne_of_roles,
}
use proyecto_3_sistemas_oper.Kernel.Pagetable.Grafts.{own_page_self}
use proyecto_3_sistemas_oper.Kernel.Pagetable.Growing.{Sound, lookup}

-- The page of a valid entry for an address below `top` belongs to the page of addresses that the
-- entry is for. In the page table of a process `top` is the address of the trapframe's page; the
-- entry of the trampoline, above it, is for a page of the kernel's own code.
abbrev pub Framed : (end top : ℕ) → Owner → ℕ → Machine → Type 0
Framed end top own pt m =
    (va e : ℕ)
    → va < max_va
    → va < top
    → lookup pt va m ≡ some e
    → (own (pte2pa e) ≡ frame (va / pgsize)) × Page end (pte2pa e)

pub own_page_other :
    {s t : Role} (own : Owner) (q p : ℕ) (r : Role)
    → own q ≡ t
    → own p ≡ s
    → s ≢ t
    → own_page own q r p ≡ s
own_page_other own q p r hq hp ne = rw (ne_of_roles own p q hp hq ne) hp

fill_other :
    {s t : Role} (own : Owner) (entries : Entries) (q v p j : ℕ)
    → own q ≡ t
    → own p ≡ s
    → s ≢ t
    → fill_entries q v entries p j ≡ entries p j
fill_other own entries q v p j hq hp ne = rw (ne_of_roles own p q hp hq ne) refl

-- The role of a page that is no page table.
pub record Outside (r : Role) : Type 0 where
  pub no_root : root ≢ r
  pub no_middle : (i : ℕ) → middle i ≢ r
  pub no_bottom : (i j : ℕ) → bottom i j ≢ r

pub free-Outside : Outside free
free-Outside = record { no_root = λ z. cc; no_middle = λ i z. cc; no_bottom = λ i j z. cc }

pub frame-Outside : (n : ℕ) → Outside (frame n)
frame-Outside n = record { no_root = λ z. cc; no_middle = λ i z. cc; no_bottom = λ i j z. cc }

-- What a page outside of the tree holds is no matter for the lookups.
pub lookup3-fill :
    {own : Owner} {pt : ℕ} {entries : Entries} {s : Role} (q v a b c : ℕ)
    → Tree own pt entries
    → own q ≡ s
    → Outside s
    → lookup3 (fill_entries q v entries) pt a b c ≡ lookup3 entries pt a b c
lookup3-fill {own} {pt} {entries} q v a b c t fq out =
    lookup3_agree (fill_entries q v entries) entries pt a b c
      (fill_other own entries q v pt a fq t.root_at out.no_root)
      (λ va.
        fill_other own entries q v (pte2pa (entries pt a)) b fq (t.middles a va) (out.no_middle a))
      (λ va vb.
        fill_other own entries q v (pte2pa (entries (pte2pa (entries pt a)) b)) c fq
          (t.bottoms (pte2pa (entries pt a)) a b (t.middles a va) vb) (out.no_bottom a b))

own_page-middle :
    {r : Role} (own : Owner) (q p i : ℕ)
    → Outside r
    → own_page own q r p ≡ middle i
    → own p ≡ middle i
own_page-middle {r} own q p i out h = elim (Bool-cases (p == q)) [
  | inl same ↦ absurd (out.no_middle i (sym (rw same at h)))
  | inr apart ↦ rw apart at h
]

-- A page outside of the tree may be filled and pass to another role outside of it.
pub Tree-fill :
    {own : Owner} {pt : ℕ} {entries : Entries} {s r : Role} (q v : ℕ)
    → Tree own pt entries
    → own q ≡ s
    → Outside s
    → Outside r
    → Tree (own_page own q r) pt (fill_entries q v entries)
Tree-fill {own} {pt} {entries} {s} {r} q v t fq out new = record {
  root_at = own_page_other own q pt r fq t.root_at out.no_root;
  middles = λ i valid.
      let same = fill_other own entries q v pt i fq t.root_at out.no_root in
      let valid' : pte_v (entries pt i) ≡ true = subst (λ e. pte_v e ≡ true) same valid in
      rw same
        (own_page_other own q (pte2pa (entries pt i)) r fq (t.middles i valid') (out.no_middle i));
  bottoms = λ p i j mid valid.
      let mid' = own_page-middle own q p i new mid in
      let same = fill_other own entries q v p j fq mid' (out.no_middle i) in
      let valid' : pte_v (entries p j) ≡ true = subst (λ e. pte_v e ≡ true) same valid in
      rw same (
        own_page_other own q (pte2pa (entries p j)) r fq (t.bottoms p i j mid' valid')
          (out.no_bottom i j));
}

apart_of_free :
    {n : ℕ} (own : Owner) (q : ℕ) (ps : List ℕ)
    → own q ≡ frame n
    → All (λ p. own p ≡ free) ps
    → NotIn q ps
apart_of_free own q [] fq h = tt
apart_of_free own q (p ∷ ps) fq h =
    ((λ e. clash (sym fq ∙ ap own e ∙ h.0)), apart_of_free own q ps fq h.1)
  where
    clash : {n : ℕ} → frame n ≡ free → ⊥
    clash e = cc

still_free :
    (own : Owner) (q : ℕ) (ps : List ℕ)
    → All (λ p. own p ≡ free) ps
    → All (λ p. own_page own q free p ≡ free) ps
still_free own q [] h = tt
still_free own q (p ∷ ps) h = (one (p == q) h.0, still_free own q ps h.1)
  where
    one : (b : Bool) → own p ≡ free → (if b then free else own p) ≡ free
    one true e = refl
    one false e = e

-- `kfree` of the page behind an address returns it to the free pages and leaves the tree alone.
pub release_frame :
    (end : ℕ) (own : Owner) (pt n q : ℕ) (m : Machine) (ps : List ℕ)
    → 0 < end
    → Sound end own pt m ps
    → own q ≡ frame n
    → Page end q
    → (m' : Machine) × (kfree_page end q m ≡ done m')
      × Sound end (own_page own q free) pt m' (q ∷ ps)
      × ((a b c : ℕ) → lookup3 m'.entries pt a b c ≡ lookup3 m.entries pt a b c)
      × ((p j : ℕ) (s : Role) → own p ≡ s → s ≢ frame n → m'.entries p j ≡ m.entries p j)
unfolding kfree_page
release_frame end own pt n q m ps pos so fq page =
    let (k, ran, pages, _) =
      kfree_lem end q m.kmem ps pos so.pages page (apart_of_free own q ps fq so.unowned) in
    let filled = fill_entries q 0x0101010101010101 m.entries in
    (
      record { kmem = k; entries = filled },
      rw ran refl,
      record {
        pages = record { chain = pages.chain; pages = pages.pages; distinct = pages.distinct };
        unowned = (own_page_self own q free, still_free own q ps so.unowned);
        tree = Tree-fill q 0x0101010101010101 so.tree fq (frame-Outside n) free-Outside;
      },
      λ a b c. lookup3-fill q 0x0101010101010101 a b c so.tree fq (frame-Outside n),
      λ p j s h ne. fill_other own m.entries q 0x0101010101010101 p j fq h ne,
    )
