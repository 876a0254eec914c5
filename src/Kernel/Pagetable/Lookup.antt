-- ===== src/Kernel/Pagetable/Lookup.antt =====
-- A round of walk keeps the tree, changes no lookup, and finds or makes the next page table.
use proyecto_3_sistemas_oper.Base.{
  ℕ, ◌+◌, ◌%◌, ◌≡◌, ◌≢◌, refl, sym, ◌∙◌, inl, inr, Bool, true, false, ◌==◌, ◌&&◌, if◌then◌else◌,
  Option, none, some, List, [], ◌∷◌, arith, Bool-cases, eqb_of_ne,
}
use proyecto_3_sistemas_oper.Kernel.Pagetable.{
  Machine, pte_v, pte2pa, pa2pte, px, set_entry, kalloc_page, zero_page, walk_level,
}
use proyecto_3_sistemas_oper.Kernel.Pagetable.Owners.{
  page_of_entry, valid_entry, Role, free, Entries, Owner, own_page, Tree, graft, lookup3,
}
use proyecto_3_sistemas_oper.Kernel.Pagetable.Grafts.{
  own_page_keep, own_page_self, graft_old, graft_new,
}
use proyecto_3_sistemas_oper.Kernel.Pagetable.Growing.{
  grafted, grafted_entries, grafted_pages, no_page, Grown-refl, own_page-unowned, Sound, Grown,
  Stepped,
}

pub true-false : true ≡ false → ⊥
true-false h = cc

no_slot :
    (entries : Entries) (p i r j : ℕ)
    → pte_v (entries p i) ≡ false
    → pte_v (entries r j) ≡ true
    → (r == p && j == i) ≡ false
no_slot entries p i r j gap v = elim (Bool-cases (r == p && j == i)) [
  | inr away ↦ away
  | inl slot ↦
      let at_p : r ≡ p = ground arith in
      let at_i : j ≡ i = ground arith in absurd (true-false (sym v ∙ rw (at_p, at_i) gap))
]

abbrev made : ℕ → ℕ → Machine → Option ℕ × Machine
made p i m =
    let (q, m') = kalloc_page m in
    if q == 0 then (none, m') else (some q, set_entry p i (pa2pte q + 1) (zero_page q m'))

made-grafted :
    (p i q : ℕ) (m : Machine)
    → (kalloc_page m).0 ≡ q
    → q ≢ 0
    → made p i m ≡ (some q, grafted p i q m)
unfolding grafted
made-grafted p i q m first ne = rw (first, eqb_of_ne q 0 ne) refl

module _ (end : ℕ) (own : Owner) (pt : ℕ) (m : Machine) (level va p : ℕ) (new : Role)
    (child : pte_v (m.entries p (px level va)) ≡ true
      → own (pte2pa (m.entries p (px level va))) ≡ new)
    (graft_tree : (q : ℕ)
      → own q ≡ free
      → q % 4096 ≡ 0
      → pte_v (m.entries p (px level va)) ≡ false
      → Tree (own_page own q new) pt (graft m.entries p (px level va) q)
        × ((a b c : ℕ)
            → lookup3 (graft m.entries p (px level va) q) pt a b c
              ≡ lookup3 m.entries pt a b c)) where
  graft-Grown :
      (q : ℕ) (ps : List ℕ)
      → Sound end own pt m (q ∷ ps)
      → pte_v (m.entries p (px level va)) ≡ false
      → Grown end own (own_page own q new) pt m (grafted p (px level va) q m) ps
  graft-Grown q ps so gap =
      let i = px level va in
      let (first, rest, al, apart, ne) = grafted_pages end p i q m ps so.pages in
      let same : (grafted p i q m).entries ≡ graft m.entries p i q =
        grafted_entries p i q m first in
      let (tree, kept) = graft_tree q so.unowned.0 al gap in
      record {
        sound = record {
          pages = rest;
          unowned = own_page-unowned own q new ps apart so.unowned.1;
          tree = rw same tree;
        };
        kept = λ a b c. rw same (kept a b c);
        roles = λ r t h ne'. own_page_keep own q r new so.unowned.0 h ne';
        words = λ r j t h ne' v. rw same (
            graft_old own m.entries p i q r j so.unowned.0 h ne' (no_slot m.entries p i r j gap v));
      }

  level_grow :
      (ps : List ℕ)
      → Sound end own pt m ps
      → pte_v (m.entries p (px level va)) ≡ false
      → Stepped end own pt m ps true p (px level va) new (made p (px level va) m)
  level_grow [] so gap = rw (no_page end m so.pages) (record {
    own' = own;
    ps' = [];
    grown = Grown-refl end own pt m [] so;
    used = omega arith;
    found = inl (refl, inr refl);
  })
  level_grow (q ∷ ps) so gap =
      let i = px level va in
      let (first, _, al, _, ne) = grafted_pages end p i q m ps so.pages in
      let new_entry : (grafted p i q m).entries p i ≡ pa2pte q + 1 =
        rw (grafted_entries p i q m first) (graft_new m.entries p i q) in
      rw (made-grafted p i q m first ne) (record {
        own' = own_page own q new;
        ps' = ps;
        grown = graft-Grown q ps so gap;
        used = omega arith;
        found = inr (
          q,
          refl,
          own_page_self own q new,
          rw new_entry (valid_entry q),
          rw new_entry (page_of_entry q al),
        );
      })

  pub walk_level_lem :
      (alloc : Bool) (ps : List ℕ)
      → Sound end own pt m ps
      → Stepped end own pt m ps alloc p (px level va) new (walk_level alloc level va p m)
  unfolding walk_level
  walk_level_lem alloc ps so = elim (Bool-cases (pte_v (m.entries p (px level va)))) [
    | inl valid ↦ rw valid (record {
      own' = own;
      ps' = ps;
      grown = Grown-refl end own pt m ps so;
      used = omega arith;
      found = inr (pte2pa (m.entries p (px level va)), refl, child valid, valid, refl);
    })
    | inr gap ↦ elim (Bool-cases alloc) [
      | inr fixed ↦
          rw (gap, fixed)
            (record {
              own' = own;
              ps' = ps;
              grown = Grown-refl end own pt m ps so;
              used = omega arith;
              found = inl (refl, inl refl);
            })
      | inl grow ↦ rw (gap, grow) (level_grow ps so gap)
    ]
  ]
