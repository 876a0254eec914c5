-- ===== src/Kernel/Pagetable/Grafts.antt =====
-- The tree of a page table stays a tree when a free page is grafted into it.
use proyecto_3_sistemas_oper.Base.{
  ℕ, ◌+◌, ◌%◌, ◌≡◌, ◌≢◌, refl, sym, ap, subst, ◌∙◌, inl, inr, true, false, ◌==◌, ◌&&◌, arith,
  Bool-cases, eqb→eq, eqb_refl,
}
use proyecto_3_sistemas_oper.Kernel.Pagetable.{pte_v, pte2pa, pa2pte}
use proyecto_3_sistemas_oper.Kernel.Pagetable.Owners.{
  Role, free, middle, bottom, Entries, Owner, own_page, Tree, graft, page_of_entry, ne_of_roles,
  graft_keep, and_false, false_and,
}

pub own_page_self : (own : Owner) (q : ℕ) (r : Role) → own_page own q r q ≡ r
own_page_self own q r = rw (eqb_refl q) refl

pub own_page_keep :
    {s : Role} (own : Owner) (q p : ℕ) (r : Role)
    → own q ≡ free
    → own p ≡ s
    → s ≢ free
    → own_page own q r p ≡ s
own_page_keep own q p r fq h ne = rw (ne_of_roles own p q h fq ne) h

pub graft_new : (entries : Entries) (p i q : ℕ) → graft entries p i q p i ≡ pa2pte q + 1
graft_new entries p i q = rw (eqb_refl p, eqb_refl i) refl

graft_zero : (entries : Entries) (p i q j : ℕ) → (q == p) ≡ false → graft entries p i q q j ≡ 0
graft_zero entries p i q j ne = rw (ne, eqb_refl q) refl

zero_invalid : {e : ℕ} → e ≡ 0 → pte_v e ≡ true → ⊥
zero_invalid h v = ground arith

-- A page of the tree after a free page q is grafted into entry (p, i): the entries of the pages
-- that were there before are as they were, but that one.
pub graft_old :
    {s : Role} (own : Owner) (entries : Entries) (p i q r j : ℕ)
    → own q ≡ free
    → own r ≡ s
    → s ≢ free
    → (r == p && j == i) ≡ false
    → graft entries p i q r j ≡ entries r j
graft_old own entries p i q r j fq h ne away =
    graft_keep entries p i q r j away (ne_of_roles own r q h fq ne)

new_child :
    (own : Owner) (entries : Entries) (p i q : ℕ) (r : Role)
    → q % 4096 ≡ 0
    → own_page own q r (pte2pa (graft entries p i q p i)) ≡ r
new_child own entries p i q r al =
    rw (graft_new entries p i q, page_of_entry q al) (own_page_self own q r)

-- The child of an entry that the graft leaves alone keeps its role.
old_child :
    {s : Role} (own : Owner) (entries : Entries) (p i q r j : ℕ) (new : Role)
    → own q ≡ free
    → graft entries p i q r j ≡ entries r j
    → s ≢ free
    → (pte_v (entries r j) ≡ true → own (pte2pa (entries r j)) ≡ s)
    → pte_v (graft entries p i q r j) ≡ true
    → own_page own q new (pte2pa (graft entries p i q r j)) ≡ s
old_child own entries p i q r j new fq same ne child v =
    let v' : pte_v (entries r j) ≡ true = subst (λ e. pte_v e ≡ true) same v in
    rw same (own_page_keep own q (pte2pa (entries r j)) new fq (child v') ne)

-- A page with a role in the new tree is the grafted one, or had the role.
role_before :
    {s : Role} (own : Owner) (q r : ℕ) (new : Role)
    → (r == q) ≡ false
    → own_page own q new r ≡ s
    → own r ≡ s
role_before own q r new away h = rw away at h

grafted_no_child :
    (entries : Entries) (p i q r j : ℕ)
    → (r == q) ≡ true
    → (q == p) ≡ false
    → pte_v (graft entries p i q r j) ≡ true
    → ⊥
grafted_no_child entries p i q r j here ne v =
    zero_invalid {e = graft entries p i q q j} (graft_zero entries p i q j ne)
      (rw (eqb→eq r q here) at v)

pub Tree-graft_root :
    {own : Owner} {pt : ℕ} {entries : Entries} (i q : ℕ)
    → Tree own pt entries
    → own q ≡ free
    → q % 4096 ≡ 0
    → Tree (own_page own q (middle i)) pt (graft entries pt i q)
Tree-graft_root {own} {pt} {entries} i q t fq al = record {
  root_at = own_page_keep own q pt (middle i) fq t.root_at (λ z. cc);
  middles = λ a v. elim (Bool-cases (a == i)) [
    | inl here ↦ rw (eqb→eq a i here) (new_child own entries pt i q (middle i) al)
    | inr away ↦
        old_child own entries pt i q pt a (middle i) fq
          (graft_old own entries pt i q pt a fq t.root_at (λ z. cc) (and_false (pt == pt) away))
          (λ z. cc) (t.middles a) v
  ];
  bottoms = λ r a j mid v. elim (Bool-cases (r == q)) [
    | inl here ↦ absurd (grafted_no_child entries pt i q r j here qpt v)
    | inr away ↦
        let before : own r ≡ middle a = role_before own q r (middle i) away mid in
        old_child own entries pt i q r j (middle i) fq
          (graft_old own entries pt i q r j fq before (λ z. cc)
            (false_and (j == i) (ne_of_roles own r pt before t.root_at (λ z. cc))))
          (λ z. cc) (t.bottoms r a j before) v
  ];
}
  where
    qpt : (q == pt) ≡ false
    qpt = ne_of_roles own q pt fq t.root_at (λ z. cc)

pub Tree-graft_middle :
    {own : Owner} {pt : ℕ} {entries : Entries} (i j p q : ℕ)
    → Tree own pt entries
    → own p ≡ middle i
    → own q ≡ free
    → q % 4096 ≡ 0
    → Tree (own_page own q (bottom i j)) pt (graft entries p j q)
Tree-graft_middle {own} {pt} {entries} i j p q t mp fq al = record {
  root_at = own_page_keep own q pt (bottom i j) fq t.root_at (λ z. cc);
  middles = λ a v.
      old_child own entries p j q pt a (bottom i j) fq
        (graft_old own entries p j q pt a fq t.root_at (λ z. cc)
          (false_and (a == j) (ne_of_roles own pt p t.root_at mp (λ z. cc))))
        (λ z. cc) (t.middles a) v;
  bottoms = λ r a l mid v. elim (Bool-cases (r == q)) [
    | inl here ↦ absurd (grafted_no_child entries p j q r l here qp v)
    | inr away ↦
        let before : own r ≡ middle a = role_before own q r (bottom i j) away mid in
        elim (Bool-cases (r == p && l == j)) [
          | inr apart ↦
              old_child own entries p j q r l (bottom i j) fq
                (graft_old own entries p j q r l fq before (λ z. cc) apart) (λ z. cc)
                (t.bottoms r a l before) v
          | inl slot ↦
              let at_p : r ≡ p = ground arith in
              let at_j : l ≡ j = ground arith in
              let same : middle a ≡ middle i = sym before ∙ ap own at_p ∙ mp in
              let at_i : a ≡ i = cc in
              rw (at_p, at_j, at_i) (new_child own entries p j q (bottom i j) al)
        ]
  ];
}
  where
    qp : (q == p) ≡ false
    qp = ne_of_roles own q p fq mp (λ z. cc)
