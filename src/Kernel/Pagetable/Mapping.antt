-- ===== src/Kernel/Pagetable/Mapping.antt =====
-- mappages against the lookup of addresses.
use proyecto_3_sistemas_oper.Base.{
  ℕ, zero, suc, ◌+◌, ◌*◌, ◌/◌, ◌%◌, ◌<◌, ◌≤◌, ◌≡◌, refl, sym, ap, ◌∙◌, inl, inr, Bool, true, false,
  ◌==◌, if◌then◌else◌, Option, none, some, List, arith, eqb_of_ne, done, leb,
}
use proyecto_3_sistemas_oper.Kernel.Params.{pgsize, max_va}
use proyecto_3_sistemas_oper.Kernel.Pagetable.{
  Machine, pa2pte, or_valid, px, set_entry, walk_levels, walk, map_from, mappages,
}
use proyecto_3_sistemas_oper.Kernel.Pagetable.Owners.{Owner}
use proyecto_3_sistemas_oper.Kernel.Pagetable.Growing.{Sound, lookup}
use proyecto_3_sistemas_oper.Kernel.Pagetable.Lookup.{true-false}
use proyecto_3_sistemas_oper.Kernel.Pagetable.Walk.{walk_lem}
use proyecto_3_sistemas_oper.Kernel.Pagetable.Entering.{
  mapped, mapped_step, mapped_none, Sound-set_bottom, map_at-none, map_at-some, gap_at, lookup-set,
  valid_perm, one_mapped, next_page, Mapped,
}

map_from_lem :
    (end : ℕ) (own : Owner) (rounds pt a pa perm : ℕ) (m : Machine) (ps : List ℕ)
    → a % pgsize ≡ 0
    → pa % pgsize ≡ 0
    → a + rounds * pgsize ≤ max_va
    → Sound end own pt m ps
    → ((va : ℕ) → a ≤ va → va < a + rounds * pgsize → lookup pt va m ≡ none)
    → (r : Bool × Machine) × (map_from rounds pt a pa perm m ≡ done r)
      × Mapped end own pt a pa perm rounds m ps r
unfolding map_from walk
map_from_lem end own zero pt a pa perm m ps al pal fits so empty = (
  (true, m),
  refl,
  record {
    own' = own;
    ps' = ps;
    sound = so;
    roles = λ p r h ne. h;
    used = omega arith;
    count = 0;
    view = λ va hv. sym (mapped_none a pa perm va (lookup pt va m));
    outcome = inl (refl, refl);
  },
)
map_from_lem end own (suc rounds) pt a pa perm m ps al pal fits so empty =
    let low : leb max_va a ≡ false = ground arith in
    let w = walk_levels 2 true a pt m in
    let pl = walk_lem end own pt m ps true a so in
    let kept : (va : ℕ) → lookup pt va w.1 ≡ lookup pt va m =
      λ va. pl.grown.kept (px 2 va) (px 1 va) (px 0 va) in
    elim pl.found [
      | inl (missing, why) ↦ (
        (false, w.1),
        rw (low, map_at-none a pa perm w missing) refl,
        record {
          own' = pl.own';
          ps' = pl.ps';
          sound = pl.grown.sound;
          roles = pl.grown.roles;
          used = omega (arith, pl.used);
          count = 0;
          view = λ va hv. kept va ∙ sym (mapped_none a pa perm va (lookup pt va m));
          outcome = inr (refl, omega arith, elim why [ inl f ↦ absurd (true-false f) | inr e ↦ e ]);
        },
      )
      | inr (p, got, bot, path) ↦
          let gap = gap_at pt a p w.1 path (kept a ∙ empty a (omega arith) (omega arith)) in
          let e = pa2pte pa + or_valid perm in
          let m' = set_entry p (px 0 a) e w.1 in
          let after : (va : ℕ)
              → va < max_va
              → lookup pt va m' ≡ (if va / pgsize == a / pgsize then some e else lookup pt va m) =
            λ va hv.
              lookup-set end pl.own' pt a p e va w.1 pl.ps' pl.grown.sound bot path hv (omega arith)
              ∙ one_mapped (va / pgsize == a / pgsize) e (valid_perm pa perm) (kept va) in
          let (r, ran, end_state) =
            map_from_lem end pl.own' rounds pt (a + pgsize) (pa + pgsize) perm m' pl.ps'
              (omega arith) (omega arith) (omega arith)
              (Sound-set_bottom (px 2 a) (px 1 a) p (px 0 a) e pl.grown.sound bot)
              (λ va ge lt.
                after va (omega arith)
                ∙ rw (next_page a va al ge) (empty va (omega arith) (omega arith))) in
          (
            r,
            rw (low, map_at-some a pa perm p w got gap) ran,
            record {
              own' = end_state.own';
              ps' = end_state.ps';
              sound = end_state.sound;
              roles = λ p r h ne. end_state.roles p r (pl.grown.roles p r h ne) ne;
              used = omega (arith, pl.used, end_state.used);
              count = suc end_state.count;
              view = λ va hv.
                  end_state.view va hv
                  ∙ ap
                      (λ (o : Option ℕ).
                        mapped (a + pgsize) (pa + pgsize) perm end_state.count o va)
                      (after va hv)
                  ∙ mapped_step a pa perm end_state.count va (lookup pt va m) al pal;
              outcome = elim end_state.outcome [
                | inl (t, c) ↦ inl (t, omega (arith, c))
                | inr (f, c, none_left) ↦ inr (f, omega (arith, c), none_left)
              ];
            },
          )
    ]

mappages_checks :
    (pt va size pa perm : ℕ) (m : Machine)
    → va % pgsize ≡ 0
    → size % pgsize ≡ 0
    → 0 < size
    → mappages pt va size pa perm m ≡ map_from (size / pgsize) pt va pa perm m
unfolding mappages
mappages_checks pt va size pa perm m al sal some_size =
    rw (al, sal, eqb_of_ne size 0 (λ z. omega (arith, z))) refl

-- `mappages` of a range of page-aligned addresses below MAXVA none of which is mapped, in a page
-- table whose pages form a tree apart from the free pages, does not panic. If it succeeds, every
-- address of the range has an entry for its place in the pages from pa on, with the permissions
-- and the valid bit; it fails only when memory has run out, with some of the first pages mapped.
-- At most two free pages are used for each page to map. No other address changes its meaning, no
-- page in use gets another role, and the table's pages are still a tree.
pub mappages_lem :
    (end : ℕ) (own : Owner) (pt va size pa perm : ℕ) (m : Machine) (ps : List ℕ)
    → va % pgsize ≡ 0
    → size % pgsize ≡ 0
    → 0 < size
    → va + size ≤ max_va
    → pa % pgsize ≡ 0
    → Sound end own pt m ps
    → ((a : ℕ) → va ≤ a → a < va + size → lookup pt a m ≡ none)
    → (r : Bool × Machine) × (mappages pt va size pa perm m ≡ done r)
      × Mapped end own pt va pa perm (size / pgsize) m ps r
mappages_lem end own pt va size pa perm m ps al sal some_size fits pal so empty =
    let whole : size / pgsize * pgsize ≡ size = omega arith in
    let (r, ran, end_state) =
      map_from_lem end own (size / pgsize) pt va pa perm m ps al pal (omega (arith, whole)) so
        (λ a ge lt. empty a ge (omega (arith, whole))) in
    (r, mappages_checks pt va size pa perm m al sal some_size ∙ ran, end_state)
