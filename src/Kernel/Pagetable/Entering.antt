-- ===== src/Kernel/Pagetable/Entering.antt =====
-- What the writing of an entry does to the lookups, and the rounds of mappages.
use proyecto_3_sistemas_oper.Base.{
  ℕ, suc, length, ◌+◌, ◌-◌, ◌*◌, ◌/◌, ◌%◌, ◌<◌, ◌≤◌, ◌≡◌, ◌≢◌, ◌⊎◌, refl, ap, ◌∙◌, inl, inr, Bool,
  true, false, ◌==◌, ◌&&◌, if◌then◌else◌, Option, none, some, List, [], arith, Bool-cases, eqb→eq,
  eqb_refl, done, leb, ltb, some_inj,
}
use proyecto_3_sistemas_oper.Kernel.Params.{pgsize, max_va}
use proyecto_3_sistemas_oper.Kernel.Pagetable.{
  Machine, pte_v, pa2pte, or_valid, px, set_entry, map_at,
}
use proyecto_3_sistemas_oper.Kernel.Pagetable.Owners.{
  and3, false_and, Role, free, bottom, Owner, lookup3-set_bottom, ne_of_roles,
}
use proyecto_3_sistemas_oper.Kernel.Pagetable.Growing.{Sound, lookup}
use proyecto_3_sistemas_oper.Kernel.Pagetable.Walk.{Path3}

eqb_false : (a b : ℕ) → (a == b) ≡ false → a ≢ b
eqb_false a b h e = ground arith

px_same :
    (va a : ℕ)
    → va < max_va
    → a < max_va
    → (px 2 va == px 2 a && (px 1 va == px 1 a && px 0 va == px 0 a)) ≡ (va / pgsize == a / pgsize)
px_same va a hv ha = elim (Bool-cases (va / pgsize == a / pgsize)) [
  | inl same ↦
      let e : va / pgsize ≡ a / pgsize = eqb→eq (va / pgsize) (a / pgsize) same in
      let e2 : px 2 va ≡ px 2 a = omega (arith, e) in
      let e1 : px 1 va ≡ px 1 a = omega (arith, e) in
      let e0 : px 0 va ≡ px 0 a = omega (arith, e) in
      rw (same, e2, e1, e0, eqb_refl (px 2 a), eqb_refl (px 1 a), eqb_refl (px 0 a)) refl
  | inr apart ↦ rw apart (all_apart (λ e2 e1 e0. differ e2 e1 e0 apart))
]
  where
    differ :
        px 2 va ≡ px 2 a
        → px 1 va ≡ px 1 a
        → px 0 va ≡ px 0 a
        → (va / pgsize == a / pgsize) ≡ false
        → ⊥
    differ e2 e1 e0 apart =
        absurd (eqb_false (va / pgsize) (a / pgsize) apart (omega (arith, hv, ha, e2, e1, e0)))

    all_apart :
        (px 2 va ≡ px 2 a → px 1 va ≡ px 1 a → px 0 va ≡ px 0 a → ⊥)
        → (px 2 va == px 2 a && (px 1 va == px 1 a && px 0 va == px 0 a)) ≡ false
    all_apart no_way =
        elim (Bool-cases (px 2 va == px 2 a && (px 1 va == px 1 a && px 0 va == px 0 a))) [
          | inr f ↦ f
          | inl t ↦
              let (t2, t1, t0) =
                and3 (px 2 va == px 2 a) (px 1 va == px 1 a) (px 0 va == px 0 a) t in
              absurd (
                no_way (eqb→eq (px 2 va) (px 2 a) t2) (eqb→eq (px 1 va) (px 1 a) t1)
                  (eqb→eq (px 0 va) (px 0 a) t0))
        ]

-- What a lookup of va gives after n pages are mapped from a on to those from pa on.
abbrev pub mapped : ℕ → ℕ → ℕ → ℕ → Option ℕ → ℕ → Option ℕ
mapped a pa perm n old va =
    if leb a va && ltb va (a + n * pgsize)
    then some (pa2pte (pa + (va - a) / pgsize * pgsize) + or_valid perm)
    else old

pub mapped_step :
    (a pa perm k va : ℕ) (old : Option ℕ)
    → a % pgsize ≡ 0
    → pa % pgsize ≡ 0
    → mapped
        (a + pgsize)
        (pa + pgsize)
        perm
        k
        (if va / pgsize == a / pgsize then some (pa2pte pa + or_valid perm) else old)
        va
      ≡ mapped a pa perm (suc k) old va
mapped_step a pa perm k va old al pal = ground arith

pub mapped_none : (a pa perm va : ℕ) (old : Option ℕ) → mapped a pa perm 0 old va ≡ old
mapped_none a pa perm va old = ground arith

pub Sound-set_bottom :
    {end : ℕ} {own : Owner} {pt : ℕ} {m : Machine} {ps : List ℕ} (i j p k e : ℕ)
    → Sound end own pt m ps
    → own p ≡ bottom i j
    → Sound end own pt (set_entry p k e m) ps
Sound-set_bottom {end} {own} {pt} {m} {ps} i j p k e so bp = record {
  pages = so.pages;
  unowned = so.unowned;
  tree = record {
    root_at = so.tree.root_at;
    middles = λ a.
        rw (false_and (a == k) (ne_of_roles own pt p so.tree.root_at bp (λ z. cc)))
          (so.tree.middles a);
    bottoms = λ r a l mid.
        rw (false_and (l == k) (ne_of_roles own r p mid bp (λ z. cc))) (so.tree.bottoms r a l mid);
  };
}

pub map_at-none :
    (a pa perm : ℕ) (w : Option ℕ × Machine) → w.0 ≡ none → map_at a pa perm w ≡ done (false, w.1)
unfolding map_at
map_at-none a pa perm (none, m) h = refl
map_at-none a pa perm (some p, m) h = cc

pub map_at-some :
    (a pa perm p : ℕ) (w : Option ℕ × Machine)
    → w.0 ≡ some p
    → pte_v (w.1.entries p (px 0 a)) ≡ false
    → map_at a pa perm w ≡ done (true, set_entry p (px 0 a) (pa2pte pa + or_valid perm) w.1)
unfolding map_at
map_at-some a pa perm p (none, m) h gap = cc
map_at-some a pa perm p (some q, m) h gap = let same : q ≡ p = some_inj h in rw (same, gap) refl

pub some-none {ℓ} : {A : Type ℓ} {a : A} → some a ≡ none → ⊥
some-none h = cc

-- Without a lookup there is no valid entry at the end of the path.
pub gap_at :
    (pt va p : ℕ) (m : Machine)
    → Path3 pt va p m
    → lookup pt va m ≡ none
    → pte_v (m.entries p (px 0 va)) ≡ false
gap_at pt va p m h miss = elim (Bool-cases (pte_v (m.entries p (px 0 va)))) [
  | inr gap ↦ gap
  | inl valid ↦ absurd (some-none (rw (h.top, h.low, h.last, valid) at miss))
]

pub lookup-set :
    (end : ℕ) (own : Owner) (pt a p e va : ℕ) (m : Machine) (ps : List ℕ)
    → Sound end own pt m ps
    → own p ≡ bottom (px 2 a) (px 1 a)
    → Path3 pt a p m
    → va < max_va
    → a < max_va
    → lookup pt va (set_entry p (px 0 a) e m)
      ≡ (if va / pgsize == a / pgsize then (if pte_v e then some e else none) else lookup pt va m)
lookup-set end own pt a p e va m ps so bp h hv ha =
    lookup3-set_bottom (px 2 a) (px 1 a) (px 0 a) p e (px 2 va) (px 1 va) (px 0 va) so.tree bp h.top
      h.low h.last
    ∙ ap (λ (b : Bool). if b then (if pte_v e then some e else none) else lookup pt va m)
        (px_same va a hv ha)

pub valid_perm : (pa perm : ℕ) → pte_v (pa2pte pa + or_valid perm) ≡ true
valid_perm pa perm = ground arith

pub one_mapped :
    (same : Bool) (e : ℕ) {old new : Option ℕ}
    → pte_v e ≡ true
    → new ≡ old
    → (if same then (if pte_v e then some e else none) else new) ≡ (if same then some e else old)
one_mapped same e v eq = rw (v, eq) refl

pub next_page : (a va : ℕ) → a % pgsize ≡ 0 → a + pgsize ≤ va → (va / pgsize == a / pgsize) ≡ false
next_page a va al h = ground arith

-- The end of a run of `mappages` that was to map `rounds` pages: `count` of them are mapped, and
-- no address changes its meaning but those, and no page in use gets another role; a failure means
-- that memory ran out, and at most two pages a round are used.
pub record Mapped (end : ℕ) (own : Owner) (pt a pa perm rounds : ℕ) (m : Machine) (ps : List ℕ)
    (r : Bool × Machine) : Type 0 where
  pub own' : Owner
  pub ps' : List ℕ
  pub sound : Sound end own' pt r.1 ps'
  pub roles : (p : ℕ) (s : Role) → own p ≡ s → s ≢ free → own' p ≡ s
  pub used : length ps ≤ 2 * rounds + length ps'
  pub count : ℕ
  pub view : (va : ℕ) → va < max_va → lookup pt va r.1 ≡ mapped a pa perm count (lookup pt va m) va
  pub outcome : ((r.0 ≡ true) × (count ≡ rounds)) ⊎ ((r.0 ≡ false) × (count < rounds) × (ps' ≡ []))
