-- ===== src/Kernel/Uvm/Unmapping.antt =====
-- What is left of the memory after some pages are unmapped.
use mathlib.Core.List.{Memᴰ}
use proyecto_3_sistemas_oper.Base.{
  ℕ, suc, ◌+◌, ◌*◌, ◌/◌, ◌%◌, ◌≤◌, ◌<◌, ◌≡◌, refl, sym, ap, ◌∙◌, inl, inr, ◌==◌, leb, ltb, ◌&&◌,
  if◌then◌else◌, Option, none, some, List, arith, Bool-cases, eqb→eq,
}
use proyecto_3_sistemas_oper.Kernel.Params.{pgsize, max_va}
use proyecto_3_sistemas_oper.Kernel.Pagetable.{Machine, pte2pa, px}
use proyecto_3_sistemas_oper.Kernel.Pagetable.Owners.{Owner}
use proyecto_3_sistemas_oper.Kernel.Pagetable.Growing.{Sound, lookup}
use proyecto_3_sistemas_oper.Kernel.Uvm.Memory.{Framed}

-- What a lookup of va gives after n pages from a on are unmapped.
abbrev pub unmapped : ℕ → ℕ → Option ℕ → ℕ → Option ℕ
unmapped a n old va = if leb a va && ltb va (a + n * pgsize) then none else old

unmapped_step :
    (a k va : ℕ) (old : Option ℕ)
    → unmapped (a + pgsize) k (unmapped a 1 old va) va ≡ unmapped a (suc k) old va
unmapped_step a k va old = ground arith

unmapped_none : (a va : ℕ) (old : Option ℕ) → unmapped a 0 old va ≡ old
unmapped_none a va old = ground arith

pub unmapped_later : (a k va : ℕ) (old : Option ℕ) → a + k * pgsize ≤ va → unmapped a k old va ≡ old
unmapped_later a k va old h = ground arith

pub in_page :
    (a va : ℕ)
    → a % pgsize ≡ 0
    → (leb a va && ltb va (a + 1 * pgsize)) ≡ (va / pgsize == a / pgsize)
in_page a va al = ground arith

-- The memory after n pages from a on are unmapped: their pages are free, no other address
-- changes its meaning, and every valid entry below `top` still has a page of its own.
pub record Unmapped (end top pt a n : ℕ) (m : Machine) (ps : List ℕ) (m' : Machine) : Type 0 where
  pub own' : Owner
  pub ps' : List ℕ
  pub sound : Sound end own' pt m' ps'
  pub framed : Framed end top own' pt m'
  pub view : (va : ℕ) → va < max_va → lookup pt va m' ≡ unmapped a n (lookup pt va m) va
  pub older : (p : ℕ) → Memᴰ p ps → Memᴰ p ps'
  pub freed :
      (va e : ℕ) → a ≤ va → va < a + n * pgsize → lookup pt va m ≡ some e → Memᴰ (pte2pa e) ps'

pub Unmapped-refl :
    (end top : ℕ) (own : Owner) (pt a : ℕ) (m : Machine) (ps : List ℕ)
    → Sound end own pt m ps
    → Framed end top own pt m
    → Unmapped end top pt a 0 m ps m
Unmapped-refl end top own pt a m ps so fr = record {
  own' = own;
  ps' = ps;
  sound = so;
  framed = fr;
  view = λ va hv. sym (unmapped_none a va (lookup pt va m));
  older = λ p h. h;
  freed = λ va e ge lt h. absurd (nothing ge lt);
}
  where
    nothing : {va : ℕ} → a ≤ va → va < a + 0 * pgsize → ⊥
    nothing ge lt = omega arith

pub Unmapped-trans :
    {end top pt a n : ℕ} {m m1 m2 : Machine} {ps : List ℕ}
    → a + suc n * pgsize ≤ max_va
    → (u : Unmapped end top pt a 1 m ps m1) → Unmapped end top pt (a + pgsize) n m1 u.ps' m2
    → Unmapped end top pt a (suc n) m ps m2
Unmapped-trans {end} {top} {pt} {a} {n} {m} {m1} {m2} {ps} fits u w = record {
  own' = w.own';
  ps' = w.ps';
  sound = w.sound;
  framed = w.framed;
  view = λ va hv.
      w.view va hv
      ∙ ap (λ (o : Option ℕ). unmapped (a + pgsize) n o va) (u.view va hv)
      ∙ unmapped_step a n va (lookup pt va m);
  older = λ p h. w.older p (u.older p h);
  freed = λ va e ge lt found. elim (Bool-cases (ltb va (a + 1 * pgsize))) [
    | inl now ↦ w.older (pte2pa e) (u.freed va e ge (ground (arith, now)) found)
    | inr later ↦
        let past : a + 1 * pgsize ≤ va = ground (arith, later) in
        w.freed va e (omega (arith, past)) (omega (arith, lt)) (
          u.view va (omega (arith, fits, lt)) ∙ unmapped_later a 1 va (lookup pt va m) past ∙ found)
  ];
}

pub lookup_same :
    (pt a va : ℕ) (m : Machine) → va / pgsize ≡ a / pgsize → lookup pt va m ≡ lookup pt a m
lookup_same pt a va m e =
    let e2 : px 2 va ≡ px 2 a = omega (arith, e) in
    let e1 : px 1 va ≡ px 1 a = omega (arith, e) in
    let e0 : px 0 va ≡ px 0 a = omega (arith, e) in rw (e2, e1, e0) refl

pub same_page :
    (a va : ℕ) → a % pgsize ≡ 0 → a ≤ va → va < a + 1 * pgsize → va / pgsize ≡ a / pgsize
same_page a va al ge lt = omega arith

-- A page without an entry is unmapped as it is.
pub Unmapped-gap :
    (end top : ℕ) (own : Owner) (pt a : ℕ) (m : Machine) (ps : List ℕ)
    → a % pgsize ≡ 0
    → Sound end own pt m ps
    → Framed end top own pt m
    → lookup pt a m ≡ none
    → Unmapped end top pt a 1 m ps m
Unmapped-gap end top own pt a m ps al so fr gap = record {
  own' = own;
  ps' = ps;
  sound = so;
  framed = fr;
  view = λ va hv. elim (Bool-cases (va / pgsize == a / pgsize)) [
    | inl here ↦
        rw (in_page a va al, here)
          (lookup_same pt a va m (eqb→eq (va / pgsize) (a / pgsize) here) ∙ gap)
    | inr away ↦ rw (in_page a va al, away) refl
  ];
  older = λ p h. h;
  freed = λ va e ge lt found.
      absurd (no_entry (sym (sym (lookup_same pt a va m (same_page a va al ge lt)) ∙ found) ∙ gap));
}
  where
    no_entry : {e : ℕ} → some e ≡ none → ⊥
    no_entry h = cc
