-- ===== src/Kernel/Uvm/Example.antt =====
-- A process with one page at address 0, above a kernel that ends at 0x80001000, and two free pages.
use proyecto_3_sistemas_oper.Kernel.Params.{trap_frame}
use proyecto_3_sistemas_oper.Base.{
  ℕ, ◌/◌, ◌≡◌, ◌<◌, refl, List, [], ◌∷◌, arith, if◌then◌else◌, ◌==◌, ◌&&◌, true, false, some, none,
  inl, inr, Bool-cases, sym, subst, ◌∙◌, eqb→eq, some_inj, leb, ◌≤◌,
}
use proyecto_3_sistemas_oper.Kernel.Params.{pgsize, max_va}
use proyecto_3_sistemas_oper.Kernel.Pagetable.{Machine, pte_v, pte2pa, px}
use proyecto_3_sistemas_oper.Kernel.Pagetable.Owners.{
  root, middle, bottom, frame, free, Owner, lookup3,
}
use proyecto_3_sistemas_oper.Kernel.Pagetable.Growing.{Sound, lookup}
use proyecto_3_sistemas_oper.Kernel.Uvm.Memory.{Framed}

abbrev pub end : ℕ
end = 0x80001000

abbrev pub pt : ℕ
pt = 0x80005000

abbrev pub one_page : Machine
one_page = record {
  kmem = record {
    bytes = λ _. 0;
    next = λ p. if p == 0x80003000 then 0x80002000 else 0;
    freelist = 0x80003000;
  };
  entries = λ p i.
      if p == 0x80005000 && i == 0
      then 0x20001801
      else if p == 0x80006000 && i == 0
      then 0x20001c01
      else if p == 0x80007000 && i == 0
      then 0x20002017
      else 0;
}

abbrev pub free_pages : List ℕ
free_pages = 0x80003000 ∷ 0x80002000 ∷ []

abbrev pub owners : Owner
owners p =
    if p == 0x80005000
    then root
    else if p == 0x80006000
    then middle 0
    else if p == 0x80007000
    then bottom 0 0
    else if p == 0x80008000
    then frame 0
    else free

false-true : false ≡ true → ⊥
false-true h = cc

none-some : {e : ℕ} → none ≡ some e → ⊥
none-some h = cc

one_page-middles :
    (i : ℕ)
    → pte_v (one_page.entries pt i) ≡ true
    → owners (pte2pa (one_page.entries pt i)) ≡ middle i
one_page-middles i v = elim (Bool-cases (i == 0)) [
  | inr no_entry ↦ absurd (false-true (rw no_entry at v))
  | inl here ↦
      subst (λ k. owners (pte2pa (one_page.entries pt k)) ≡ middle k) (sym (eqb→eq i 0 here)) refl
]

owner-middle : (p i : ℕ) → owners p ≡ middle i → (p ≡ 0x80006000) × (i ≡ 0)
owner-middle p i h = elim (Bool-cases (p == 0x80005000)) [
  | inl a ↦ absurd (clash_root (rw a at h))
  | inr a ↦ elim (Bool-cases (p == 0x80006000)) [
    | inl b ↦ (eqb→eq p 0x80006000 b, same (rw (a, b) at h))
    | inr b ↦ elim (Bool-cases (p == 0x80007000)) [
      | inl c ↦ absurd (clash_bottom (rw (a, b, c) at h))
      | inr c ↦ elim (Bool-cases (p == 0x80008000)) [
        | inl d ↦ absurd (clash_frame (rw (a, b, c, d) at h))
        | inr d ↦ absurd (clash_free (rw (a, b, c, d) at h))
      ]
    ]
  ]
]
  where
    clash_root : root ≡ middle i → ⊥
    clash_root e = cc

    clash_bottom : bottom 0 0 ≡ middle i → ⊥
    clash_bottom e = cc

    clash_frame : frame 0 ≡ middle i → ⊥
    clash_frame e = cc

    clash_free : free ≡ middle i → ⊥
    clash_free e = cc

    same : middle 0 ≡ middle i → i ≡ 0
    same e = cc

one_page-bottoms :
    (p i j : ℕ)
    → owners p ≡ middle i
    → pte_v (one_page.entries p j) ≡ true
    → owners (pte2pa (one_page.entries p j)) ≡ bottom i j
one_page-bottoms p i j h v =
    let (at_p, at_i) = owner-middle p i h in
    subst (λ q. owners (pte2pa (one_page.entries q j)) ≡ bottom i j) (sym at_p)
      (subst (λ k. owners (pte2pa (one_page.entries 0x80006000 j)) ≡ bottom k j) (sym at_i)
        (at_zero (rw at_p at v)))
  where
    at_zero :
        pte_v (one_page.entries 0x80006000 j) ≡ true
        → owners (pte2pa (one_page.entries 0x80006000 j)) ≡ bottom 0 j
    at_zero v' = elim (Bool-cases (j == 0)) [
      | inr no_entry ↦ absurd (false-true (rw no_entry at v'))
      | inl here ↦
          subst (λ k. owners (pte2pa (one_page.entries 0x80006000 k)) ≡ bottom 0 k)
            (sym (eqb→eq j 0 here)) refl
    ]

pub one_page-Sound : Sound end owners pt one_page free_pages
one_page-Sound = record {
  pages = record {
    chain = (refl, omega arith, (refl, omega arith, refl));
    pages = omega arith;
    distinct = ((omega arith, tt), (tt, tt));
  };
  unowned = (refl, (refl, tt));
  tree = record { root_at = refl; middles = one_page-middles; bottoms = one_page-bottoms };
}

one_page-lookup :
    (a b c : ℕ)
    → lookup3 one_page.entries pt a b c
      ≡ (if a == 0 && (b == 0 && c == 0) then some 0x20002017 else none)
one_page-lookup a b c = elim (Bool-cases (a == 0)) [
  | inr away ↦ rw away refl
  | inl at_a ↦ elim (Bool-cases (b == 0)) [
    | inr away ↦ rw (at_a, away) refl
    | inl at_b ↦ elim (Bool-cases (c == 0)) [
      | inr away ↦ rw (at_a, at_b, away) refl
      | inl at_c ↦ rw (at_a, at_b, at_c) refl
    ]
  ]
]

pub one_page-unmapped : (va : ℕ) → 4096 ≤ va → va < max_va → lookup pt va one_page ≡ none
one_page-unmapped va ge lt = one_page-lookup (px 2 va) (px 1 va) (px 0 va) ∙ ground (arith, ge, lt)

pub one_page-Framed : Framed end trap_frame owners pt one_page
one_page-Framed va e hv ht h = elim (Bool-cases (leb 4096 va)) [
  | inl above ↦ absurd (none-some (sym (one_page-unmapped va (ground (arith, above)) hv) ∙ h))
  | inr first ↦
      let below : va < 4096 = ground (arith, first) in
      let same : some 0x20002017 ≡ some e = sym (here below) ∙ h in
      let page : va / pgsize ≡ 0 = omega (arith, below) in
      rw (sym (some_inj same), page) (refl, omega arith)
]
  where
    here : va < 4096 → lookup pt va one_page ≡ some 0x20002017
    here lt = one_page-lookup (px 2 va) (px 1 va) (px 0 va) ∙ ground (arith, lt)
