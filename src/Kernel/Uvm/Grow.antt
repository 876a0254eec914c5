-- ===== src/Kernel/Uvm/Grow.antt =====
-- Pages one after the other: the ranges of uvmalloc.
use proyecto_3_sistemas_oper.Base.{
  ℕ, suc, ◌+◌, ◌*◌, ◌≤◌, ◌<◌, ◌≡◌, refl, ◌∙◌, inl, inr, false, leb, ltb, ◌&&◌, List, arith,
  Bool-cases,
}
use proyecto_3_sistemas_oper.Kernel.Params.{pgsize, max_va}
use proyecto_3_sistemas_oper.Kernel.Pagetable.{Machine}
use proyecto_3_sistemas_oper.Kernel.Pagetable.Owners.{Owner}
use proyecto_3_sistemas_oper.Kernel.Pagetable.Growing.{Sound}
use proyecto_3_sistemas_oper.Kernel.Uvm.Memory.{Framed}
use proyecto_3_sistemas_oper.Kernel.Uvm.Taking.{Allocated}

pub Allocated-none :
    (end top : ℕ) (own : Owner) (pt a perm : ℕ) (m : Machine) (ps : List ℕ)
    → Sound end own pt m ps
    → Framed end top own pt m
    → Allocated end top pt a 0 perm m ps m
Allocated-none end top own pt a perm m ps so fr = record {
  own' = own;
  ps' = ps;
  sound = so;
  framed = fr;
  used = omega arith;
  outside = λ va hv away. refl;
  inside = λ va ge lt. absurd (nothing ge lt);
}
  where
    nothing : {va : ℕ} → a ≤ va → va < a + 0 * pgsize → ⊥
    nothing ge lt = omega arith

beyond :
    (a va n : ℕ)
    → (leb a va && ltb va (a + suc n * pgsize)) ≡ false
    → (leb a va && ltb va (a + n * pgsize)) ≡ false
beyond a va n h = ground (arith, h)

beyond_last :
    (a va n : ℕ)
    → (leb a va && ltb va (a + suc n * pgsize)) ≡ false
    → (leb (a + n * pgsize) va && ltb va (a + n * pgsize + 1 * pgsize)) ≡ false
beyond_last a va n h = ground (arith, h)

before :
    (a va n : ℕ)
    → va < a + n * pgsize
    → (leb (a + n * pgsize) va && ltb va (a + n * pgsize + 1 * pgsize)) ≡ false
before a va n h = ground (arith, h)

-- One page more.
pub Allocated-suc :
    {end top pt a n perm : ℕ} {m m1 m2 : Machine} {ps : List ℕ}
    → a + suc n * pgsize ≤ max_va
    → (u : Allocated end top pt a n perm m ps m1)
    → Allocated end top pt (a + n * pgsize) 1 perm m1 u.ps' m2
    → Allocated end top pt a (suc n) perm m ps m2
Allocated-suc {end} {top} {pt} {a} {n} {perm} {m} {m1} {m2} {ps} fits u w = record {
  own' = w.own';
  ps' = w.ps';
  sound = w.sound;
  framed = w.framed;
  used = omega (arith, u.used, w.used);
  outside = λ va hv away.
      w.outside va hv (beyond_last a va n away) ∙ u.outside va hv (beyond a va n away);
  inside = λ va ge lt. elim (Bool-cases (ltb va (a + n * pgsize))) [
    | inl old ↦
        let under : va < a + n * pgsize = ground (arith, old) in
        let (e, found, flags) = u.inside va ge under in
        (e, w.outside va (omega (arith, fits, lt)) (before a va n under) ∙ found, flags)
    | inr new ↦ w.inside va (ground (arith, new)) (omega (arith, lt))
  ];
}
