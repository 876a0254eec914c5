-- ===== src/Kernel/Transfer/Fault.antt =====
-- vmfault: the page behind an address that was not mapped yet.
use proyecto_3_sistemas_oper.Base.{
  ℕ, length, ◌+◌, ◌%◌, ◌≤◌, ◌<◌, ◌≡◌, ◌≢◌, ◌⊎◌, refl, ap, ◌∙◌, inl, inr, Bool, true, false, leb,
  if◌then◌else◌, Option, some, List, done, arith,
}
use proyecto_3_sistemas_oper.Kernel.Params.{pgsize, max_va, pg_round_down}
use proyecto_3_sistemas_oper.Kernel.Pagetable.{Machine, kalloc_page, ismapped}
use proyecto_3_sistemas_oper.Kernel.Pagetable.Owners.{Owner}
use proyecto_3_sistemas_oper.Kernel.Pagetable.Growing.{Sound, lookup}
use proyecto_3_sistemas_oper.Kernel.Pagetable.Address.{user_page}
use proyecto_3_sistemas_oper.Kernel.Pagetable.{pa2pte, or_valid}
use proyecto_3_sistemas_oper.Kernel.Uvm.{alloc_at}
use proyecto_3_sistemas_oper.Kernel.Uvm.Memory.{Framed}
use proyecto_3_sistemas_oper.Kernel.Uvm.Present.{has_entry, entry_cases, ismapped_lem}
use proyecto_3_sistemas_oper.Kernel.Uvm.Taking.{Allocated, Kept}
use proyecto_3_sistemas_oper.Kernel.Uvm.Rounds.{alloc-Round}
use proyecto_3_sistemas_oper.Kernel.Transfer.{vmfault}

-- What `vmfault` of an address below the process's size does: nothing if it has an entry; else it
-- gives the page that it puts behind it, or 0, and no address changes its meaning, with at most
-- three free pages.
abbrev pub Faulted : (end top pt va0 : ℕ) → Machine → List ℕ → ℕ × Machine → Type 0
Faulted end top pt va0 m ps r =
    ((has_entry (lookup pt va0 m) ≡ true) × (r ≡ (0, m)))
    ⊎ (((r.0 ≢ 0) × (user_page (lookup pt va0 r.1) ≡ r.0) × Allocated end top pt va0 1 22 m ps r.1)
        ⊎ ((r.0 ≡ 0) × Kept end top pt m r.1 × (length ps ≤ 3)))

fault-user_page : (q : ℕ) → q % pgsize ≡ 0 → user_page (some (pa2pte q + or_valid 22)) ≡ q
fault-user_page q al = ground (arith, al)

vmfault-beyond :
    (end sz own_pt pt va : ℕ) (m : Machine) → sz ≤ va → vmfault end sz own_pt pt va m ≡ done (0, m)
unfolding vmfault
vmfault-beyond end sz own_pt pt va m ge =
    let over : leb sz va ≡ true = ground (arith, ge) in rw over refl

vmfault-present :
    (end sz own_pt pt va : ℕ) (m : Machine)
    → va < sz
    → ismapped pt (pg_round_down va) m ≡ done true
    → vmfault end sz own_pt pt va m ≡ done (0, m)
unfolding vmfault
vmfault-present end sz own_pt pt va m lt h =
    let low : leb sz va ≡ false = ground (arith, lt) in rw (low, h) refl

vmfault-absent :
    (end sz own_pt pt va : ℕ) (m : Machine) (r : Bool × Machine)
    → va < sz
    → ismapped pt (pg_round_down va) m ≡ done false
    → alloc_at end own_pt (pg_round_down va) 22 m ≡ done r
    → vmfault end sz own_pt pt va m ≡ done ((if r.0 then (kalloc_page m).0 else 0), r.1)
unfolding vmfault
vmfault-absent end sz own_pt pt va m r lt h ran =
    let low : leb sz va ≡ false = ground (arith, lt) in rw (low, h, ran) refl

-- Let the pages of the running process's page table be a tree, apart from the free pages, and let
-- each of its valid entries that is for an address below `top`, such as that of the trapframe's
-- page, have a page of its own. Then `vmfault` in that table, of an
-- address below the process's size, which is at most MAXVA, does not panic. If the address has an entry it gives
-- 0 and changes nothing. Otherwise it gives the physical page that the user's address is in from
-- now on, its entry readable and writable, and no other address changes its meaning; or it gives 0, no
-- address has changed its meaning, and there were at most three free pages.
pub vmfault_lem :
    (end top sz : ℕ) (own : Owner) (pt va : ℕ) (m : Machine) (ps : List ℕ)
    → 0 < end
    → va < sz
    → sz ≤ max_va
    → Sound end own pt m ps
    → Framed end top own pt m
    → (r : ℕ × Machine) × (vmfault end sz pt pt va m ≡ done r)
      × Faulted end top pt (pg_round_down va) m ps r
vmfault_lem end top sz own pt va m ps pos lt sized so fr =
    let va0 = pg_round_down va in
    let asked = ismapped_lem end own pt va0 m ps (omega (arith, lt, sized)) so in
    elim (entry_cases (lookup pt va0 m)) [
      | inl there ↦
          ((0, m), vmfault-present end sz pt pt va m lt (asked ∙ ap done there), inl (there, refl))
      | inr gap ↦
          let absent = asked ∙ ap (λ (o : Option ℕ). done (has_entry o)) gap in
          let (r, ran, round) =
            alloc-Round end top own pt va0 22 m ps pos (omega arith) (omega (arith, lt, sized))
              (omega arith) so fr gap in
          elim round [
            | inl (ok, mapped, entry, page) ↦ (
              ((kalloc_page m).0, r.1),
              vmfault-absent end sz pt pt va m r lt absent ran ∙ rw ok refl,
              inr (
                  inl (
                    (λ z. omega (arith, z, page)),
                    ap user_page entry ∙ fault-user_page (kalloc_page m).0 page.0,
                    mapped,
                  )),
            )
            | inr (bad, kept, few) ↦ (
              (0, r.1),
              vmfault-absent end sz pt pt va m r lt absent ran ∙ rw bad refl,
              inr (inr (refl, kept, few)),
            )
          ]
    ]
