-- ===== src/Kernel/Pagetable/Walk.antt =====
-- walk as a whole: where it ends, and what it leaves as it was.
use proyecto_3_sistemas_oper.Base.{
  ℕ, length, ◌+◌, ◌≤◌, ◌≡◌, ◌⊎◌, refl, ap, inl, inr, Bool, true, false, Option, none, some, List,
  [], arith, some_inj,
}
use proyecto_3_sistemas_oper.Kernel.Pagetable.{
  Machine, pte_v, pte2pa, px, walk_level, then_at, walk_levels,
}
use proyecto_3_sistemas_oper.Kernel.Pagetable.Owners.{
  root, middle, bottom, Owner, lookup3-graft_root, lookup3-graft_middle,
}
use proyecto_3_sistemas_oper.Kernel.Pagetable.Grafts.{Tree-graft_root, Tree-graft_middle}
use proyecto_3_sistemas_oper.Kernel.Pagetable.Growing.{Sound, Grown, Grown-trans, Stepped}
use proyecto_3_sistemas_oper.Kernel.Pagetable.Lookup.{walk_level_lem}

then_at-none :
    (x : Option ℕ × Machine) (f : ℕ → Machine → Option ℕ × Machine)
    → x.0 ≡ none
    → then_at x f ≡ (none, x.1)
then_at-none (none, m) f h = refl
then_at-none (some p, m) f h = cc

then_at-some :
    (x : Option ℕ × Machine) (f : ℕ → Machine → Option ℕ × Machine) (p : ℕ)
    → x.0 ≡ some p
    → then_at x f ≡ f p x.1
then_at-some (none, m) f p h = cc
then_at-some (some q, m) f p h = ap (λ r. f r m) (some_inj h)

-- The page p of level 0 that the tree has for an address.
pub record Path3 (pt va p : ℕ) (m : Machine) : Type 0 where
  pub top : pte_v (m.entries pt (px 2 va)) ≡ true
  pub low : pte_v (m.entries (pte2pa (m.entries pt (px 2 va))) (px 1 va)) ≡ true
  pub last : pte2pa (m.entries (pte2pa (m.entries pt (px 2 va))) (px 1 va)) ≡ p

-- What `walk` may end with: the page for the entry, or a null pointer, which with `alloc` means
-- that no page was left.
pub record Placed (end : ℕ) (own : Owner) (pt : ℕ) (m : Machine) (ps : List ℕ) (alloc : Bool)
    (va : ℕ) (r : Option ℕ × Machine) : Type 0 where
  pub own' : Owner
  pub ps' : List ℕ
  pub grown : Grown end own own' pt m r.1 ps'
  pub used : length ps ≤ 2 + length ps'
  pub found :
      ((r.0 ≡ none) × ((alloc ≡ false) ⊎ (ps' ≡ [])))
      ⊎ ((p : ℕ) × (r.0 ≡ some p) × (own' p ≡ bottom (px 2 va) (px 1 va)) × Path3 pt va p r.1)

step_root :
    (end : ℕ) (own : Owner) (pt : ℕ) (m : Machine) (ps : List ℕ) (alloc : Bool) (va : ℕ)
    → Sound end own pt m ps
    → Stepped end own pt m ps alloc pt (px 2 va) (middle (px 2 va)) (walk_level alloc 2 va pt m)
step_root end own pt m ps alloc va so =
    walk_level_lem end own pt m 2 va pt (middle (px 2 va)) (so.tree.middles (px 2 va))
      (λ q fq al gap. (
        Tree-graft_root (px 2 va) q so.tree fq al,
        λ a b c. lookup3-graft_root (px 2 va) q a b c so.tree fq al gap,
      ))
      alloc ps so

step_middle :
    (end : ℕ) (own : Owner) (pt p : ℕ) (m : Machine) (ps : List ℕ) (alloc : Bool) (va : ℕ)
    → Sound end own pt m ps
    → own p ≡ middle (px 2 va)
    → Stepped end own pt m ps alloc p
        (px 1 va)
        (bottom (px 2 va) (px 1 va))
        (walk_level alloc 1 va p m)
step_middle end own pt p m ps alloc va so mid =
    walk_level_lem end own pt m 1 va p (bottom (px 2 va) (px 1 va))
      (so.tree.bottoms p (px 2 va) (px 1 va) mid)
      (λ q fq al gap. (
        Tree-graft_middle (px 2 va) (px 1 va) p q so.tree mid fq al,
        λ a b c. lookup3-graft_middle (px 2 va) (px 1 va) p q a b c so.tree mid fq al gap,
      ))
      alloc ps so

walk_second :
    (end : ℕ) (own own' : Owner) (pt q : ℕ) (m m' : Machine) (ps ps' : List ℕ) (alloc : Bool)
    (va : ℕ)
    → length ps ≤ 1 + length ps'
    → Grown end own own' pt m m' ps'
    → own' q ≡ middle (px 2 va)
    → pte_v (m'.entries pt (px 2 va)) ≡ true
    → pte2pa (m'.entries pt (px 2 va)) ≡ q
    → Placed end own pt m ps alloc va (walk_levels 1 alloc va q m')
unfolding walk_levels
walk_second end own own' pt q m m' ps ps' alloc va few g mid top is_q =
    let st = step_middle end own' pt q m' ps' alloc va g.sound mid in
    let second = walk_level alloc 1 va q m' in
    elim st.found [
      | inl (missing, why) ↦ rw (then_at-none second (walk_levels 0 alloc va) missing) (record {
        own' = st.own';
        ps' = st.ps';
        grown = Grown-trans g st.grown;
        used = omega (arith, few, st.used);
        found = inl (refl, why);
      })
      | inr (p, got, bot, low, is_p) ↦
          let same : second.1.entries pt (px 2 va) ≡ m'.entries pt (px 2 va) =
            st.grown.words pt (px 2 va) root g.sound.tree.root_at (λ z. cc) top in
          rw (then_at-some second (walk_levels 0 alloc va) p got) (record {
            own' = st.own';
            ps' = st.ps';
            grown = Grown-trans g st.grown;
            used = omega (arith, few, st.used);
            found = inr (
              p,
              refl,
              bot,
              record { top = rw same top; low = rw (same, is_q) low; last = rw (same, is_q) is_p },
            );
          })
    ]

pub walk_lem :
    (end : ℕ) (own : Owner) (pt : ℕ) (m : Machine) (ps : List ℕ) (alloc : Bool) (va : ℕ)
    → Sound end own pt m ps
    → Placed end own pt m ps alloc va (walk_levels 2 alloc va pt m)
unfolding walk_levels
walk_lem end own pt m ps alloc va so =
    let st = step_root end own pt m ps alloc va so in
    let first = walk_level alloc 2 va pt m in
    elim st.found [
      | inl (missing, why) ↦ rw (then_at-none first (walk_levels 1 alloc va) missing) (record {
        own' = st.own';
        ps' = st.ps';
        grown = st.grown;
        used = omega (arith, st.used);
        found = inl (refl, why);
      })
      | inr (q, got, mid, top, is_q) ↦ rw (then_at-some first (walk_levels 1 alloc va) q got) (
          walk_second end own st.own' pt q m first.1 ps st.ps' alloc va st.used st.grown mid top
            is_q)
    ]
