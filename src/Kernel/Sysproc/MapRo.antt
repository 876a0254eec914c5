-- ===== src/Kernel/Sysproc/MapRo.antt =====
-- sys_map_ro against the lookup of addresses.
use proyecto_3_sistemas_oper.Base.{
  ℕ, length, ◌+◌, ◌/◌, ◌%◌, ◌≤◌, ◌<◌, ◌≡◌, ◌≢◌, ◌⊎◌, refl, sym, ap, ◌∙◌, subst, inl, inr, Bool,
  true, false, ◌==◌, if◌then◌else◌, Option, some, none, List, [], ◌∷◌, done, arith, eqb_of_ne,
}
use proyecto_3_sistemas_oper.Kernel.Params.{pgsize, max_va, pg_round_down}
use proyecto_3_sistemas_oper.Kernel.Pagetable.{Machine, kalloc_page, zero_page, ismapped}
use proyecto_3_sistemas_oper.Kernel.Pagetable.Owners.{Owner}
use proyecto_3_sistemas_oper.Kernel.Pagetable.Growing.{Sound, lookup, no_page}
use proyecto_3_sistemas_oper.Kernel.Uvm.{map_page}
use proyecto_3_sistemas_oper.Kernel.Uvm.Memory.{Framed}
use proyecto_3_sistemas_oper.Kernel.Uvm.Taking.{zeroed, take_frame, Allocated, Kept}
use proyecto_3_sistemas_oper.Kernel.Uvm.Rounds.{Round, map_page-Round}
use proyecto_3_sistemas_oper.Kernel.Uvm.Present.{has_entry, entry_cases, ismapped_lem}
use proyecto_3_sistemas_oper.Kernel.Space.{Space}
use proyecto_3_sistemas_oper.Kernel.Sysproc.{greet, map_greeting, sys_map_ro}

map_greeting-no_page :
    (end msg pt va : ℕ) (m : Machine)
    → kalloc_page m ≡ (0, m)
    → map_greeting end msg pt va m ≡ done (false, m)
unfolding map_greeting
map_greeting-no_page end msg pt va m h =
    ap
      (λ (r : ℕ × Machine).
        if r.0 == 0
        then done (false, r.1)
        else map_page end pt va r.0 18 (greet msg r.0 (zero_page r.0 r.1)))
      h

map_greeting-page :
    (end msg pt va q : ℕ) (m : Machine)
    → (kalloc_page m).0 ≡ q
    → q ≢ 0
    → map_greeting end msg pt va m ≡ map_page end pt va q 18 (greet msg q (zeroed q m))
unfolding map_greeting
map_greeting-page end msg pt va q m first ne = rw (first, eqb_of_ne q 0 ne) refl

-- The bytes of the greeting are in no page table and in no link of the free list.
greet-Sound :
    {end : ℕ} {own : Owner} {pt : ℕ} {m : Machine} {ps : List ℕ} (msg q : ℕ)
    → Sound end own pt m ps
    → Sound end own pt (greet msg q m) ps
greet-Sound msg q so = record {
  pages = record { chain = so.pages.chain; pages = so.pages.pages; distinct = so.pages.distinct };
  unowned = so.unowned;
  tree = record { root_at = so.tree.root_at; middles = so.tree.middles; bottoms = so.tree.bottoms };
}

map_greeting-Round :
    (end top msg : ℕ) (own : Owner) (pt a : ℕ) (m : Machine) (ps : List ℕ)
    → 0 < end
    → a % pgsize ≡ 0
    → a + pgsize ≤ max_va
    → Sound end own pt m ps
    → Framed end top own pt m
    → lookup pt a m ≡ none
    → (r : Bool × Machine) × (map_greeting end msg pt a m ≡ done r)
      × Round end top pt a (kalloc_page m).0 18 m ps r
map_greeting-Round end top msg own pt a m [] pos al below so fr gap = (
  (false, m),
  map_greeting-no_page end msg pt a m (no_page end m so.pages),
  inr (
    refl,
    record { own' = own; ps' = []; sound = so; framed = fr; same = λ va hv. refl },
    omega arith,
  ),
)
map_greeting-Round end top msg own pt a m (q ∷ ps) pos al below so fr gap =
    let (first, ne, page, so1, kept) = take_frame end own pt (a / pgsize) q m ps so in
    let (r, ran, round) =
      map_page-Round end top own pt a q 18 m (greet msg q (zeroed q m)) (q ∷ ps) ps pos al below
        (omega arith) page so.unowned.0 fr kept (omega arith) (greet-Sound msg q so1) gap in
    (
      r,
      map_greeting-page end msg pt a q m first ne ∙ ran,
      subst (λ (x : ℕ). Round end top pt a x 18 m (q ∷ ps) r) (sym first) round,
    )

-- What `sys_map_ro` does at a page: with an entry there, nothing; else it maps the page read-only and
-- notes its address, or fails and no address changes its meaning, with at most three free pages.
abbrev pub ReadOnly :
    (end top va0 : ℕ) → Space → Machine → List ℕ → Option ℕ × Space × Machine → Type 0
ReadOnly end top va0 p m ps r =
    ((has_entry (lookup p.pagetable va0 m) ≡ true) × (r ≡ (none, p, m)))
    ⊎ (((r.0 ≡ some 0)
          × (r.1 ≡ record p { map_ro_va = va0 })
          × Allocated end top p.pagetable va0 1 18 m ps r.2)
        ⊎ ((r.0 ≡ none) × (r.1 ≡ p) × Kept end top p.pagetable m r.2 × (length ps ≤ 3)))

sys_map_ro-present :
    (end msg va : ℕ) (p : Space) (m : Machine)
    → ismapped p.pagetable (pg_round_down va) m ≡ done true
    → sys_map_ro end msg va p m ≡ done (none, p, m)
unfolding sys_map_ro
sys_map_ro-present end msg va p m h = rw h refl

sys_map_ro-failed :
    (end msg va : ℕ) (p : Space) (m : Machine) (r : Bool × Machine)
    → ismapped p.pagetable (pg_round_down va) m ≡ done false
    → map_greeting end msg p.pagetable (pg_round_down va) m ≡ done r
    → r.0 ≡ false
    → sys_map_ro end msg va p m ≡ done (none, p, r.1)
unfolding sys_map_ro
sys_map_ro-failed end msg va p m r h ran bad = rw (h, ran, bad) refl

sys_map_ro-mapped :
    (end msg va : ℕ) (p : Space) (m : Machine) (r : Bool × Machine)
    → ismapped p.pagetable (pg_round_down va) m ≡ done false
    → map_greeting end msg p.pagetable (pg_round_down va) m ≡ done r
    → r.0 ≡ true
    → sys_map_ro end msg va p m ≡ done (some 0, record p { map_ro_va = pg_round_down va }, r.1)
unfolding sys_map_ro
sys_map_ro-mapped end msg va p m r h ran ok = rw (h, ran, ok) refl

-- Let the pages of the process's page table be a tree, apart from the free pages, and let each of
-- its valid entries that is for an address below `top`, such as that of the trapframe's page, have
-- a page of its own. Then `map_ro` of an address below MAXVA does not
-- panic. If the address has an entry it returns -1 and changes nothing. Otherwise it
-- returns 0, and the page has entries that are readable and the user's but not writable, with a
-- memory page of its own, no other address changes its meaning, and the page's address is noted; or
-- it returns -1, no address has changed its meaning, and there were at most three free pages.
pub sys_map_ro_lem :
    (end top msg : ℕ) (own : Owner) (va : ℕ) (p : Space) (m : Machine) (ps : List ℕ)
    → 0 < end
    → va < max_va
    → Sound end own p.pagetable m ps
    → Framed end top own p.pagetable m
    → (r : Option ℕ × Space × Machine) × (sys_map_ro end msg va p m ≡ done r)
      × ReadOnly end top (pg_round_down va) p m ps r
sys_map_ro_lem end top msg own va p m ps pos lt so fr =
    let va0 = pg_round_down va in
    let asked = ismapped_lem end own p.pagetable va0 m ps (omega (arith, lt)) so in
    elim (entry_cases (lookup p.pagetable va0 m)) [
      | inl there ↦ (
        (none, p, m),
        sys_map_ro-present end msg va p m (asked ∙ ap done there),
        inl (there, refl),
      )
      | inr gap ↦
          let absent = asked ∙ ap (λ (o : Option ℕ). done (has_entry o)) gap in
          let (r, ran, round) =
            map_greeting-Round end top msg own p.pagetable va0 m ps pos (omega arith)
              (omega (arith, lt)) so fr gap in
          elim round [
            | inl (ok, mapped, _, _) ↦ (
              (some 0, record p { map_ro_va = va0 }, r.1),
              sys_map_ro-mapped end msg va p m r absent ran ok,
              inr (inl (refl, refl, mapped)),
            )
            | inr (bad, kept, few) ↦ (
              (none, p, r.1),
              sys_map_ro-failed end msg va p m r absent ran bad,
              inr (inr (refl, refl, kept, few)),
            )
          ]
    ]
