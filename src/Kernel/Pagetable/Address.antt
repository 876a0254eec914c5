-- ===== src/Kernel/Pagetable/Address.antt =====
-- walkaddr against the lookup of addresses.
use proyecto_3_sistemas_oper.Base.{
  ℕ, List, ◌⊎◌, ◌≡◌, refl, ap, ◌∙◌, inl, inr, true, false, if◌then◌else◌, Option, none, some, arith,
  Bool-cases, leb, ltb,
}
use proyecto_3_sistemas_oper.Kernel.Params.{max_va}
use proyecto_3_sistemas_oper.Kernel.Pagetable.{
  Machine, pte_v, pte_u, pte2pa, px, then_at, walk_level, walk_levels, entry_in, find_entry, usable,
  walkaddr,
}
use proyecto_3_sistemas_oper.Kernel.Pagetable.Growing.{Sound, lookup}
use proyecto_3_sistemas_oper.Kernel.Pagetable.Owners.{Owner, bottom}
use proyecto_3_sistemas_oper.Kernel.Pagetable.Walk.{Path3}

-- The page that a valid entry gives the user.
abbrev pub user_page : Option ℕ → ℕ
user_page none = 0
user_page (some e) = if pte_u e then pte2pa e else 0

usable_entry : (e : ℕ) → usable (some e) ≡ user_page (if pte_v e then some e else none)
usable_entry e = elim (Bool-cases (pte_v e)) [ inl valid ↦ ground arith | inr gap ↦ ground arith ]

level_here :
    (level va p : ℕ) (m : Machine)
    → pte_v (m.entries p (px level va)) ≡ true
    → walk_level false level va p m ≡ (some (pte2pa (m.entries p (px level va))), m)
unfolding walk_level
level_here level va p m v = rw v refl

level_gap :
    (level va p : ℕ) (m : Machine)
    → pte_v (m.entries p (px level va)) ≡ false
    → walk_level false level va p m ≡ (none, m)
unfolding walk_level
level_gap level va p m v = rw v refl

walk-no_top :
    (pt va : ℕ) (m : Machine)
    → pte_v (m.entries pt (px 2 va)) ≡ false
    → walk_levels 2 false va pt m ≡ (none, m)
unfolding walk_levels
walk-no_top pt va m gap = ap (λ w. then_at w (walk_levels 1 false va)) (level_gap 2 va pt m gap)

walk-no_low :
    (pt va : ℕ) (m : Machine)
    → pte_v (m.entries pt (px 2 va)) ≡ true
    → pte_v (m.entries (pte2pa (m.entries pt (px 2 va))) (px 1 va)) ≡ false
    → walk_levels 2 false va pt m ≡ (none, m)
unfolding walk_levels
walk-no_low pt va m top gap =
    ap (λ w. then_at w (walk_levels 1 false va)) (level_here 2 va pt m top)
    ∙ ap (λ w. then_at w (walk_levels 0 false va))
        (level_gap 1 va (pte2pa (m.entries pt (px 2 va))) m gap)

-- Along a path of valid entries `walk` finds the page and changes nothing.
pub walk-path :
    (pt va p : ℕ) (m : Machine) → Path3 pt va p m → walk_levels 2 false va pt m ≡ (some p, m)
unfolding walk_levels
walk-path pt va p m h =
    ap (λ w. then_at w (walk_levels 1 false va)) (level_here 2 va pt m h.top)
    ∙ ap (λ w. then_at w (walk_levels 0 false va))
        (level_here 1 va (pte2pa (m.entries pt (px 2 va))) m h.low)
    ∙ ap (λ q. (some q, m)) h.last

-- Without allocation `walk` changes nothing: it finds the page of level 0, or the address has no
-- lookup.
pub walk_fixed :
    (end : ℕ) (own : Owner) (pt va : ℕ) (m : Machine) (ps : List ℕ)
    → Sound end own pt m ps
    → ((walk_levels 2 false va pt m ≡ (none, m)) × (lookup pt va m ≡ none))
      ⊎ ((p : ℕ) × (walk_levels 2 false va pt m ≡ (some p, m))
          × (own p ≡ bottom (px 2 va) (px 1 va))
          × Path3 pt va p m)
walk_fixed end own pt va m ps so = elim (Bool-cases (pte_v (m.entries pt (px 2 va)))) [
  | inr gap ↦ inl (walk-no_top pt va m gap, rw gap refl)
  | inl top ↦
      let q = pte2pa (m.entries pt (px 2 va)) in
      elim (Bool-cases (pte_v (m.entries q (px 1 va)))) [
        | inr gap ↦ inl (walk-no_low pt va m top gap, rw (top, gap) refl)
        | inl low ↦
            let p = pte2pa (m.entries q (px 1 va)) in
            let path : Path3 pt va p m = record { top = top; low = low; last = refl } in
            inr (
              p,
              walk-path pt va p m path,
              so.tree.bottoms q (px 2 va) (px 1 va) (so.tree.middles (px 2 va) top) low,
              path,
            )
      ]
]

pub of_walk :
    (pt va : ℕ) (m : Machine) (w : Option ℕ × Machine)
    → walk_levels 2 false va pt m ≡ w
    → find_entry pt va m ≡ entry_in va m w.0
unfolding find_entry
of_walk pt va m w e = ap (λ (x : Option ℕ × Machine). entry_in va m x.0) e

usable-find_entry :
    (pt va : ℕ) (m : Machine) → usable (find_entry pt va m) ≡ user_page (lookup pt va m)
usable-find_entry pt va m = elim (Bool-cases (pte_v (m.entries pt (px 2 va)))) [
  | inr gap ↦ rw (of_walk pt va m (none, m) (walk-no_top pt va m gap), gap) refl
  | inl top ↦
      let q = pte2pa (m.entries pt (px 2 va)) in
      elim (Bool-cases (pte_v (m.entries q (px 1 va)))) [
        | inr gap ↦ rw (of_walk pt va m (none, m) (walk-no_low pt va m top gap), top, gap) refl
        | inl low ↦
            let p = pte2pa (m.entries q (px 1 va)) in
            rw
              (
                of_walk pt va m (some p, m)
                    (walk-path pt va p m (record { top = top; low = low; last = refl })),
                top,
                low,
              )
              (usable_entry (m.entries p (px 0 va)))
      ]
]

-- `walkaddr` of an address below MAXVA gives the page of its valid entry, if the user may use it,
-- and 0 otherwise; beyond MAXVA it gives 0.
pub walkaddr_lem :
    (pt va : ℕ) (m : Machine)
    → walkaddr pt va m ≡ (if ltb va max_va then user_page (lookup pt va m) else 0)
unfolding walkaddr
walkaddr_lem pt va m = elim (Bool-cases (ltb va max_va)) [
  | inr high ↦ let over : leb max_va va ≡ true = ground arith in rw (high, over) refl
  | inl low ↦
      let under : leb max_va va ≡ false = ground arith in
      rw (low, under) (usable-find_entry pt va m)
]
