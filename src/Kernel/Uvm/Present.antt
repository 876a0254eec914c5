-- ===== src/Kernel/Uvm/Present.antt =====
-- ismapped against the lookup of addresses.
use proyecto_3_sistemas_oper.Base.{
  ℕ, ◌<◌, ◌≡◌, ◌⊎◌, refl, sym, ap, ◌∙◌, inl, inr, Bool, true, false, leb, if◌then◌else◌, Option,
  some, none, List, done, arith, Bool-cases,
}
use proyecto_3_sistemas_oper.Kernel.Params.{max_va}
use proyecto_3_sistemas_oper.Kernel.Pagetable.{
  walk, find_entry, Machine, ismapped, is_valid, find_entry, px, pte_v,
}
use proyecto_3_sistemas_oper.Kernel.Pagetable.Owners.{Owner}
use proyecto_3_sistemas_oper.Kernel.Pagetable.Growing.{Sound, lookup}
use proyecto_3_sistemas_oper.Kernel.Pagetable.Address.{walk_fixed, of_walk}
use proyecto_3_sistemas_oper.Kernel.Uvm.Unmap.{entry_of}

-- Whether there is an entry.
abbrev pub has_entry : Option ℕ → Bool
has_entry none = false
has_entry (some e) = true

has_entry-pte_v : (e : ℕ) → has_entry (if pte_v e then some e else none) ≡ pte_v e
has_entry-pte_v e = elim (Bool-cases (pte_v e)) [ inl v ↦ rw v refl | inr gap ↦ rw gap refl ]

-- `ismapped` says whether an address below MAXVA has an entry.
pub ismapped_lem :
    (end : ℕ) (own : Owner) (pt va : ℕ) (m : Machine) (ps : List ℕ)
    → va < max_va
    → Sound end own pt m ps
    → ismapped pt va m ≡ done (has_entry (lookup pt va m))
unfolding ismapped walk find_entry
ismapped_lem end own pt va m ps lt so =
    let low : leb max_va va ≡ false = ground (arith, lt) in rw low (ap done found)
  where
    found : is_valid (find_entry pt va m) ≡ has_entry (lookup pt va m)
    found = elim (walk_fixed end own pt va m ps so) [
      | inl (missing, gap) ↦
          ap is_valid (of_walk pt va m (none, m) missing) ∙ ap has_entry (sym gap)
      | inr (p, got, _, path) ↦
          ap is_valid (of_walk pt va m (some p, m) got)
          ∙ sym (has_entry-pte_v (m.entries p (px 0 va)))
          ∙ ap has_entry (sym (entry_of pt va p m path))
    ]

pub entry_cases : (o : Option ℕ) → (has_entry o ≡ true) ⊎ (o ≡ none)
entry_cases none = inr refl
entry_cases (some e) = inl refl
