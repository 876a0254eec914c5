-- ===== src/Kernel/Uvm/Fresh.antt =====
-- A page put behind an address, by mappages and back.
use proyecto_3_sistemas_oper.Base.{
  ℕ, length, ◌+◌, ◌-◌, ◌*◌, ◌/◌, ◌%◌, ◌^◌, ◌≤◌, ◌<◌, ◌≡◌, refl, sym, ap, ◌∙◌, inl, inr, Bool, true,
  false, leb, ltb, ◌&&◌, Option, some, List, [], ◌∷◌, done, arith, Bool-cases, some_inj,
}
use proyecto_3_sistemas_oper.Kernel.Params.{pgsize, max_va}
use proyecto_3_sistemas_oper.Kernel.Kalloc.Pages.{Page}
use proyecto_3_sistemas_oper.Kernel.Pagetable.{Machine, px, kfree_page, pte2pa, pa2pte, or_valid}
use proyecto_3_sistemas_oper.Kernel.Pagetable.Owners.{
  free, frame, Owner, own_page, lookup3, ne_of_roles,
}
use proyecto_3_sistemas_oper.Kernel.Pagetable.Grafts.{own_page_self, own_page_keep}
use proyecto_3_sistemas_oper.Kernel.Pagetable.Growing.{lookup}
use proyecto_3_sistemas_oper.Kernel.Pagetable.Lookup.{true-false}
use proyecto_3_sistemas_oper.Kernel.Pagetable.Entering.{mapped_none, Mapped, mapped}
use proyecto_3_sistemas_oper.Kernel.Uvm.Memory.{Framed, release_frame}
use proyecto_3_sistemas_oper.Kernel.Uvm.Unmapping.{same_page}
use proyecto_3_sistemas_oper.Kernel.Uvm.Taking.{Allocated, Kept}

mapped_out :
    (a q perm va : ℕ) (old : Option ℕ)
    → (leb a va && ltb va (a + 1 * pgsize)) ≡ false
    → mapped a q perm 1 old va ≡ old
mapped_out a q perm va old h = rw h refl

mapped_in :
    (a q perm va : ℕ) (old : Option ℕ)
    → a ≤ va
    → va < a + 1 * pgsize
    → mapped a q perm 1 old va ≡ some (pa2pte q + or_valid perm)
mapped_in a q perm va old ge lt =
    let one : (va - a) / pgsize ≡ 0 = omega (arith, ge, lt) in
    let here : (leb a va && ltb va (a + 1 * pgsize)) ≡ true = ground (arith, ge, lt) in
    let same : q + 0 * pgsize ≡ q = omega arith in rw (here, one, same) refl

entry_page : (q perm : ℕ) → q % pgsize ≡ 0 → perm < 2 ^ 10 → pte2pa (pa2pte q + or_valid perm) ≡ q
entry_page q perm al few = omega (arith, al, few)

entry_flags : (q perm : ℕ) → perm < 2 ^ 10 → (pa2pte q + or_valid perm) % 2 ^ 10 ≡ or_valid perm
entry_flags q perm few = omega (arith, few)

module _ (end top : ℕ) (own : Owner) (pt a q perm : ℕ) (m m1 : Machine) (ps rest : List ℕ)
    (al : a % pgsize ≡ 0) (below : a + pgsize ≤ max_va) (few : perm < 2 ^ 10) (page : Page end q)
    (was_free : own q ≡ free) (fr : Framed end top own pt m)
    (kept : (b c d : ℕ) → lookup3 m1.entries pt b c d ≡ lookup3 m.entries pt b c d)
    (counted : length ps ≤ 1 + length rest) where
  abbrev own1 : Owner
  own1 = own_page own q (frame (a / pgsize))

  still_framed :
      (va e : ℕ)
      → va < max_va
      → va < top
      → lookup pt va m ≡ some e
      → (own1 (pte2pa e) ≡ frame (va / pgsize)) × Page end (pte2pa e)
  still_framed va e hv ht h =
      let (role, ok) = fr va e hv ht h in
      (own_page_keep own q (pte2pa e) (frame (a / pgsize)) was_free role (λ z. cc), ok)

  pub page-Mapped :
      (r : Bool × Machine)
      → Mapped end own1 pt a q perm 1 m1 rest r
      → r.0 ≡ true
      → Allocated end top pt a 1 perm m ps r.1
  page-Mapped r st ok =
      let one : st.count ≡ 1 = elim st.outcome [
        | inl (t, c) ↦ c
        | inr (f, c, none_left) ↦ absurd (true-false (sym ok ∙ f))
      ] in
      let view : (va : ℕ) → va < max_va → lookup pt va r.1 ≡ mapped a q perm 1 (lookup pt va m) va =
        λ va hv. st.view va hv ∙ rw (one, kept (px 2 va) (px 1 va) (px 0 va)) refl in
      let entry : (va : ℕ)
          → a ≤ va
          → va < a + 1 * pgsize
          → lookup pt va r.1 ≡ some (pa2pte q + or_valid perm) =
        λ va ge lt.
          view va (omega (arith, below, lt)) ∙ mapped_in a q perm va (lookup pt va m) ge lt in
      let at_q : st.own' q ≡ frame (a / pgsize) =
        st.roles q (frame (a / pgsize)) (own_page_self own q (frame (a / pgsize))) (λ z. cc) in
      record {
        own' = st.own';
        ps' = st.ps';
        sound = st.sound;
        framed = λ va e hv ht h. elim (Bool-cases (leb a va && ltb va (a + 1 * pgsize))) [
          | inl here ↦
              let ge : a ≤ va = ground (arith, here) in
              let lt : va < a + 1 * pgsize = ground (arith, here) in
              let is_q : pte2pa e ≡ q =
                ap (λ (x : ℕ). pte2pa x) (some_inj (sym h ∙ entry va ge lt))
                ∙ entry_page q perm page.0 few in
              rw (is_q, same_page a va al ge lt) (at_q, page)
          | inr away ↦
              let old = sym (view va hv ∙ mapped_out a q perm va (lookup pt va m) away) ∙ h in
              let (role, ok') = still_framed va e hv ht old in
              (st.roles (pte2pa e) (frame (va / pgsize)) role (λ z. cc), ok')
        ];
        used = omega (arith, counted, st.used);
        outside = λ va hv away. view va hv ∙ mapped_out a q perm va (lookup pt va m) away;
        inside = λ va ge lt. (pa2pte q + or_valid perm, entry va ge lt, entry_flags q perm few);
      }

  pub page_entry :
      (r : Bool × Machine)
      → Mapped end own1 pt a q perm 1 m1 rest r
      → r.0 ≡ true
      → lookup pt a r.1 ≡ some (pa2pte q + or_valid perm)
  page_entry r st ok =
      let one : st.count ≡ 1 = elim st.outcome [
        | inl (t, c) ↦ c
        | inr (f, c, none_left) ↦ absurd (true-false (sym ok ∙ f))
      ] in
      st.view a (omega (arith, below))
      ∙ rw one (mapped_in a q perm a (lookup pt a m1) (omega arith) (omega arith))

  pub page_returned :
      (r : Bool × Machine)
      → 0 < end
      → Mapped end own1 pt a q perm 1 m1 rest r
      → r.0 ≡ false
      → (m2 : Machine) × (kfree_page end q r.1 ≡ done m2) × Kept end top pt m m2 × (length ps ≤ 3)
  page_returned r pos st bad =
      let (zero_pages, none_left) : (st.count ≡ 0) × (st.ps' ≡ []) = elim st.outcome [
        | inl (t, c) ↦ absurd (true-false (sym t ∙ bad))
        | inr (f, c, none_left) ↦ (omega (arith, c), none_left)
      ] in
      let at_q : st.own' q ≡ frame (a / pgsize) =
        st.roles q (frame (a / pgsize)) (own_page_self own q (frame (a / pgsize))) (λ z. cc) in
      let (m2, ran, so2, same, words) =
        release_frame end st.own' pt (a / pgsize) q r.1 st.ps' pos st.sound at_q page in
      let view : (va : ℕ) → va < max_va → lookup pt va m2 ≡ lookup pt va m = λ va hv.
        same (px 2 va) (px 1 va) (px 0 va)
        ∙ st.view va hv
        ∙ rw (zero_pages, kept (px 2 va) (px 1 va) (px 0 va))
            (mapped_none a q perm va (lookup pt va m)) in
      (
        m2,
        ran,
        record {
          own' = own_page st.own' q free;
          ps' = q ∷ st.ps';
          sound = so2;
          framed = λ va e hv ht h.
              let old = sym (view va hv) ∙ h in
              let (role, ok) = fr va e hv ht old in
              let role' =
                st.roles (pte2pa e) (frame (va / pgsize)) (still_framed va e hv ht old).0
                  (λ z. cc) in
              (rw (ne_of_roles own (pte2pa e) q role was_free (λ z. cc)) role', ok);
          same = view;
        },
        omega (arith, counted, st.used, ap (λ (l : List ℕ). length l) none_left),
      )
