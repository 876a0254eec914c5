-- ===== src/Kernel/Uvm/Alloc.antt =====
-- uvmalloc: a process's memory grows by all its new pages or by none.
use Prim.Native.Nat.{bit_or}
use proyecto_3_sistemas_oper.Base.{
  ℕ, zero, suc, length, ◌+◌, ◌-◌, ◌*◌, ◌/◌, ◌%◌, ◌^◌, ◌≤◌, ◌<◌, ◌≡◌, ◌⊎◌, refl, sym, ◌∙◌, subst,
  inl, inr, Bool, true, false, leb, ltb, ◌&&◌, Option, none, List, done, arith, Bool-cases,
}
use proyecto_3_sistemas_oper.Kernel.Params.{pgsize, max_va, pg_round_up}
use proyecto_3_sistemas_oper.Kernel.Pagetable.{Machine}
use proyecto_3_sistemas_oper.Kernel.Pagetable.Owners.{Owner}
use proyecto_3_sistemas_oper.Kernel.Pagetable.Growing.{Sound, lookup}
use proyecto_3_sistemas_oper.Kernel.Uvm.{alloc_at, alloc_from, uvmalloc, uvmdealloc}
use proyecto_3_sistemas_oper.Kernel.Uvm.Memory.{Framed}
use proyecto_3_sistemas_oper.Kernel.Uvm.Unmapping.{Unmapped, unmapped}
use proyecto_3_sistemas_oper.Kernel.Uvm.Taking.{Allocated, Kept}
use proyecto_3_sistemas_oper.Kernel.Uvm.Rounds.{alloc-Round, uvmdealloc_lem}
use proyecto_3_sistemas_oper.Kernel.Uvm.Grow.{Allocated-none, Allocated-suc}

-- The end of `uvmalloc` of n pages: they are there, or the return value is 0, no address has
-- changed its meaning, and there were at most three free pages for each.
abbrev pub Grew : (end top pt start n newsz perm : ℕ) → Machine → List ℕ → ℕ × Machine → Type 0
Grew end top pt start n newsz perm m ps r =
    ((r.0 ≡ newsz) × Allocated end top pt start n perm m ps r.1)
    ⊎ ((r.0 ≡ 0) × Kept end top pt m r.1 × (length ps ≤ 3 * n))

alloc_from-done :
    (end fuel pt start a newsz perm : ℕ) (m : Machine)
    → ltb a newsz ≡ false
    → alloc_from end fuel pt start a newsz perm m ≡ done (newsz, m)
unfolding alloc_from
alloc_from-done end zero pt start a newsz perm m h = refl
alloc_from-done end (suc fuel) pt start a newsz perm m h = rw h refl

alloc_from-round :
    (end fuel pt start a newsz perm : ℕ) (m : Machine) (r : Bool × Machine)
    → ltb a newsz ≡ true
    → alloc_at end pt a perm m ≡ done r
    → r.0 ≡ true
    → alloc_from end (suc fuel) pt start a newsz perm m
      ≡ alloc_from end fuel pt start (a + pgsize) newsz perm r.1
unfolding alloc_from
alloc_from-round end fuel pt start a newsz perm m r lt ran ok = rw (lt, ran, ok) refl

alloc_from-failed :
    (end fuel pt start a newsz perm : ℕ) (m m2 : Machine) (r : Bool × Machine)
    → ltb a newsz ≡ true
    → alloc_at end pt a perm m ≡ done r
    → r.0 ≡ false
    → uvmdealloc end pt a start r.1 ≡ done (start, m2)
    → alloc_from end (suc fuel) pt start a newsz perm m ≡ done (0, m2)
unfolding alloc_from
alloc_from-failed end fuel pt start a newsz perm m m2 r lt ran bad back =
    rw (lt, ran, bad, back) refl

pg_round_up_aligned : (a : ℕ) → a % pgsize ≡ 0 → a ≤ max_va → pg_round_up a ≡ a
pg_round_up_aligned a al h = omega (arith, al, h)

unmapped_in :
    (a n va : ℕ) (old : Option ℕ)
    → (leb a va && ltb va (a + n * pgsize)) ≡ true
    → unmapped a n old va ≡ none
unmapped_in a n va old h = rw h refl

unmapped_out :
    (a n va : ℕ) (old : Option ℕ)
    → (leb a va && ltb va (a + n * pgsize)) ≡ false
    → unmapped a n old va ≡ old
unmapped_out a n va old h = rw h refl

module _ (end top pt start newsz perm : ℕ) (m0 : Machine) (ps0 : List ℕ) (pos : 0 < end)
    (al : start % pgsize ≡ 0) (few : perm < 2 ^ 10) (high : pg_round_up newsz ≤ max_va)
    (small : newsz ≤ max_va) (low : pg_round_up newsz ≤ top)
    (empty : (va : ℕ) → start ≤ va → va < pg_round_up newsz → lookup pt va m0 ≡ none) where
  -- The pages given back, the memory is as it was.
  give_back_lem :
      (k : ℕ) (m m1 : Machine)
      → start + k * pgsize ≤ pg_round_up newsz
      → Allocated end top pt start k perm m0 ps0 m
      → Kept end top pt m m1
      → (m2 : Machine) × (uvmdealloc end pt (start + k * pgsize) start m1 ≡ done (start, m2))
        × Kept end top pt m0 m2
  give_back_lem k m m1 fits u same =
      let a = start + k * pgsize in
      let down_k : pg_round_up a ≡ a =
        pg_round_up_aligned a (omega (arith, al)) (omega (arith, fits, high)) in
      let (m2, ran, back) =
        uvmdealloc_lem end top same.own' pt a start m1 same.ps' pos (omega arith)
          (omega (arith, fits, high)) (omega (arith, down_k, fits, low)) same.sound same.framed in
      let down : pg_round_up start ≡ start =
        pg_round_up_aligned start al (omega (arith, fits, high)) in
      let pages : (pg_round_up a - pg_round_up start) / pgsize ≡ k =
        rw (pg_round_up_aligned a (omega (arith, al)) (omega (arith, fits, high)), down)
          (omega arith) in
      let back' : Unmapped end top pt start k m1 same.ps' m2 =
        subst (λ (n : ℕ). Unmapped end top pt start n m1 same.ps' m2) pages
          (subst
            (λ (s : ℕ).
              Unmapped end top pt s ((pg_round_up a - pg_round_up start) / pgsize) m1 same.ps' m2)
            down back) in
      (
        m2,
        ran,
        record {
          own' = back'.own';
          ps' = back'.ps';
          sound = back'.sound;
          framed = back'.framed;
          same = λ va hv. elim (Bool-cases (leb start va && ltb va (start + k * pgsize))) [
            | inl here ↦
                back'.view va hv
                ∙ unmapped_in start k va (lookup pt va m1) here
                ∙ sym (empty va (ground (arith, here)) (ground (arith, here, fits)))
            | inr away ↦
                back'.view va hv
                ∙ unmapped_out start k va (lookup pt va m1) away
                ∙ same.same va hv
                ∙ u.outside va hv away
          ];
        },
      )

  alloc_from_lem :
      (fuel j k : ℕ) (m : Machine)
      → start + (k + j) * pgsize ≡ pg_round_up newsz
      → j ≤ fuel
      → Allocated end top pt start k perm m0 ps0 m
      → (r : ℕ × Machine) × (alloc_from end fuel pt start (start + k * pgsize) newsz perm m
          ≡ done r)
        × Grew end top pt start (k + j) newsz perm m0 ps0 r
  alloc_from_lem fuel zero k m whole enough u =
      let over : ltb (start + k * pgsize) newsz ≡ false = ground (arith, whole, small) in
      let all_pages : k ≡ k + 0 = omega arith in
      (
        (newsz, m),
        alloc_from-done end fuel pt start (start + k * pgsize) newsz perm m over,
        inl (refl, subst (λ (n : ℕ). Allocated end top pt start n perm m0 ps0 m) all_pages u),
      )
  alloc_from_lem zero (suc j) k m whole enough u = absurd (short enough)
    where
      short : suc j ≤ 0 → ⊥
      short h = omega arith
  alloc_from_lem (suc fuel) (suc j) k m whole enough u =
      let a = start + k * pgsize in
      let fits : a + pgsize ≤ pg_round_up newsz = omega (arith, whole) in
      let more : ltb a newsz ≡ true = ground (arith, fits, small) in
      let inside : (leb start a && ltb a (start + k * pgsize)) ≡ false = ground arith in
      let gap : lookup pt a m ≡ none =
        u.outside a (omega (arith, fits, high)) inside
        ∙ empty a (omega arith) (omega (arith, fits)) in
      let (r, ran, end_state) =
        alloc-Round end top u.own' pt a perm m u.ps' pos (omega (arith, al))
          (omega (arith, fits, high)) few u.sound u.framed gap in
      elim end_state [
        | inl (ok, w, _, _) ↦
            let next : start + suc k * pgsize ≡ a + pgsize = omega arith in
            let counts : suc k + j ≡ k + suc j = omega arith in
            let (r', ran', grew) =
              alloc_from_lem fuel j (suc k) r.1 (rw counts whole) (omega (arith, enough))
                (Allocated-suc (omega (arith, fits, high)) u w) in
            (
              r',
              alloc_from-round end fuel pt start a newsz perm m r more ran ok
                  ∙ subst (λ (b : ℕ). alloc_from end fuel pt start b newsz perm r.1 ≡ done r') next
                      ran',
              subst (λ (n : ℕ). Grew end top pt start n newsz perm m0 ps0 r') counts grew,
            )
        | inr (bad, same, left) ↦
            let (m2, back, kept) = give_back_lem k m r.1 (omega (arith, fits)) u same in
            (
              (0, m2),
              alloc_from-failed end fuel pt start a newsz perm m m2 r more ran bad back,
              inr (refl, kept, omega (arith, u.used, left)),
            )
      ]

  alloc_all :
      (fuel n : ℕ) (own : Owner)
      → start + n * pgsize ≡ pg_round_up newsz
      → n ≤ fuel
      → Sound end own pt m0 ps0
      → Framed end top own pt m0
      → (r : ℕ × Machine) × (alloc_from end fuel pt start start newsz perm m0 ≡ done r)
        × Grew end top pt start n newsz perm m0 ps0 r
  alloc_all fuel n own whole enough so fr =
      let at_start : start + 0 * pgsize ≡ start = omega arith in
      let counts : 0 + n ≡ n = omega arith in
      let (r, ran, grew) =
        alloc_from_lem fuel n 0 m0 (rw counts whole) enough
          (Allocated-none end top own pt start perm m0 ps0 so fr) in
      (
        r,
        subst (λ (a : ℕ). alloc_from end fuel pt start a newsz perm m0 ≡ done r) at_start ran,
        subst (λ (k : ℕ). Grew end top pt start k newsz perm m0 ps0 r) counts grew,
      )

-- Let the pages of a page table be a tree, apart from the free pages, and let each of its valid
-- entries that is for an address below `top`, such as that of the trapframe's page, have a page of
-- its own. `uvmalloc` from a size to one that is not smaller and
-- at most MAXVA, with the new pages below `top` and none of them mapped yet, and with permissions
-- that are flags of an entry, does not panic. Either it returns the new size, and every address of
-- the new pages has an entry with the permissions asked for, PTE_R and PTE_U; or it returns 0, no
-- address has changed its meaning, and there were at most three free pages for each new one. In
-- both cases every valid entry below `top` has a page of its own, apart from the free pages and
-- from the table's, and no other address changes its meaning.
pub uvmalloc_lem :
    (end top : ℕ) (own : Owner) (pt oldsz newsz xperm : ℕ) (m : Machine) (ps : List ℕ)
    → 0 < end
    → oldsz ≤ newsz
    → newsz ≤ max_va
    → pg_round_up newsz ≤ top
    → bit_or 18 xperm < 2 ^ 10
    → Sound end own pt m ps
    → Framed end top own pt m
    → ((va : ℕ) → pg_round_up oldsz ≤ va → va < pg_round_up newsz → lookup pt va m ≡ none)
    → (r : ℕ × Machine) × (uvmalloc end pt oldsz newsz xperm m ≡ done r)
      × Grew end top pt
          (pg_round_up oldsz)
          ((pg_round_up newsz - pg_round_up oldsz) / pgsize)
          newsz
          (bit_or 18 xperm)
          m
          ps
          r
unfolding uvmalloc
uvmalloc_lem end top own pt oldsz newsz xperm m ps pos le small low few so fr empty =
    let start = pg_round_up oldsz in
    let not_less : ltb newsz oldsz ≡ false = ground (arith, le) in
    let high : pg_round_up newsz ≤ max_va = omega (arith, small) in
    let n = (pg_round_up newsz - start) / pgsize in
    let whole : start + n * pgsize ≡ pg_round_up newsz = omega (arith, le, small) in
    let (r, ran, grew) =
      alloc_all end top pt start newsz (bit_or 18 xperm) m ps pos (omega arith) few high small low
        empty (newsz / pgsize + 1) n own whole (omega (arith, small, le)) so fr in
    (r, rw not_less ran, grew)
