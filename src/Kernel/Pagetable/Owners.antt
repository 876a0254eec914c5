-- ===== src/Kernel/Pagetable/Owners.antt =====
-- Who owns each page, so that the pages of a page table are distinct: a page table is the tree of
-- pages with the roles root, middle and bottom.
use proyecto_3_sistemas_oper.Base.{
  ℕ, ◌+◌, ◌%◌, ◌≡◌, ◌≢◌, refl, sym, ap, ◌∙◌, inl, inr, Bool, true, false, ◌==◌, ◌&&◌, if◌then◌else◌,
  Option, none, some, arith, Bool-cases, eqb→eq, eqb_of_ne, eqb_refl,
}
use proyecto_3_sistemas_oper.Kernel.Pagetable.{pte_v, pte2pa, pa2pte}

-- `middle i`: the page of level 1 that entry i of the root stands for; `bottom i j`: the page of
-- level 0 that entry j of that one stands for; `frame n`: the memory behind page n of the addresses.
pub data Role : Type 0 where
  free root : Role
  middle : ℕ → Role
  frame : ℕ → Role
  bottom : ℕ → ℕ → Role

abbrev pub Entries : Type 0
Entries = ℕ → ℕ → ℕ

abbrev pub Owner : Type 0
Owner = ℕ → Role

abbrev pub own_page : Owner → ℕ → Role → Owner
own_page own q r p = if p == q then r else own p

pub record Tree (own : Owner) (pt : ℕ) (entries : Entries) : Type 0 where
  pub root_at : own pt ≡ root
  pub middles : (i : ℕ) → pte_v (entries pt i) ≡ true → own (pte2pa (entries pt i)) ≡ middle i
  pub bottoms :
      (p i j : ℕ)
      → own p ≡ middle i
      → pte_v (entries p j) ≡ true
      → own (pte2pa (entries p j)) ≡ bottom i j

-- The valid entry that the table has for the indices of an address.
abbrev pub entry_at : Entries → ℕ → ℕ → Option ℕ
entry_at entries p i = if pte_v (entries p i) then some (entries p i) else none

abbrev pub under : Entries → ℕ → ℕ → (ℕ → Option ℕ) → Option ℕ
under entries p i k = if pte_v (entries p i) then k (pte2pa (entries p i)) else none

abbrev pub lookup3 : Entries → ℕ → ℕ → ℕ → ℕ → Option ℕ
lookup3 entries pt i j k = under entries pt i (λ p. under entries p j (λ q. entry_at entries q k))

-- A page that gets zeros, and an entry (p, i) that gets the page.
abbrev pub graft : Entries → ℕ → ℕ → ℕ → Entries
graft entries p i q r j =
    if r == p && j == i then pa2pte q + 1 else if r == q then 0 else entries r j

pub page_of_entry : (q : ℕ) → q % 4096 ≡ 0 → pte2pa (pa2pte q + 1) ≡ q
page_of_entry q al = omega arith

pub valid_entry : (q : ℕ) → pte_v (pa2pte q + 1) ≡ true
valid_entry q = ground arith

pub ne_of_roles :
    {r s : Role} (own : Owner) (p q : ℕ) → own p ≡ r → own q ≡ s → r ≢ s → (p == q) ≡ false
ne_of_roles own p q hp hq ne = eqb_of_ne p q (λ e. ne (sym hp ∙ ap own e ∙ hq))

-- Entries that agree along the path of a lookup give the same lookup.
pub lookup3_agree :
    (new old : Entries) (pt a b c : ℕ)
    → new pt a ≡ old pt a
    → (pte_v (old pt a) ≡ true → new (pte2pa (old pt a)) b ≡ old (pte2pa (old pt a)) b)
    → (pte_v (old pt a) ≡ true
        → pte_v (old (pte2pa (old pt a)) b) ≡ true
        → new (pte2pa (old (pte2pa (old pt a)) b)) c ≡ old (pte2pa (old (pte2pa (old pt a)) b)) c)
    → lookup3 new pt a b c ≡ lookup3 old pt a b c
lookup3_agree new old pt a b c h2 h1 h0 = elim (Bool-cases (pte_v (old pt a))) [
  | inr gap ↦ rw (h2, gap) refl
  | inl valid ↦ elim (Bool-cases (pte_v (old (pte2pa (old pt a)) b))) [
    | inr gap ↦ rw (h2, valid, h1 valid, gap) refl
    | inl valid' ↦ rw (h2, valid, h1 valid, valid', h0 valid valid') refl
  ]
]

pub graft_keep :
    (entries : Entries) (p i q r j : ℕ)
    → (r == p && j == i) ≡ false
    → (r == q) ≡ false
    → graft entries p i q r j ≡ entries r j
graft_keep entries p i q r j ne nq = rw (ne, nq) refl

pub and_false : (a : Bool) {b : Bool} → b ≡ false → (a && b) ≡ false
and_false true h = h
and_false false h = refl

pub false_and : {a : Bool} (b : Bool) → a ≡ false → (a && b) ≡ false
false_and b h = rw h refl

pub and3 : (a b c : Bool) → (a && (b && c)) ≡ true → (a ≡ true) × (b ≡ true) × (c ≡ true)
and3 a b c h = ground arith

-- Grafting a free page below the root changes no lookup.
pub lookup3-graft_root :
    {own : Owner} {pt : ℕ} {entries : Entries} (i q a b c : ℕ)
    → Tree own pt entries
    → own q ≡ free
    → q % 4096 ≡ 0
    → pte_v (entries pt i) ≡ false
    → lookup3 (graft entries pt i q) pt a b c ≡ lookup3 entries pt a b c
lookup3-graft_root {own} {pt} {entries} i q a b c t fq al gap = elim (Bool-cases (a == i)) [
  | inl here ↦
      let e : a ≡ i = eqb→eq a i here in
      let qpt : (q == pt) ≡ false = ne_of_roles own q pt fq t.root_at (λ z. cc) in
      rw (e, eqb_refl pt, eqb_refl i, valid_entry q, page_of_entry q al, qpt, eqb_refl q, gap) refl
  | inr away ↦
      lookup3_agree (graft entries pt i q) entries pt a b c
        (graft_keep entries pt i q pt a (and_false (pt == pt) away)
          (ne_of_roles own pt q t.root_at fq (λ z. cc)))
        (λ v.
          let mid = t.middles a v in
          graft_keep entries pt i q (pte2pa (entries pt a)) b
            (false_and (b == i)
              (ne_of_roles own (pte2pa (entries pt a)) pt mid t.root_at (λ z. cc)))
            (ne_of_roles own (pte2pa (entries pt a)) q mid fq (λ z. cc)))
        (λ v v'.
          let low = t.bottoms (pte2pa (entries pt a)) a b (t.middles a v) v' in
          let r = pte2pa (entries (pte2pa (entries pt a)) b) in
          graft_keep entries pt i q r c
            (false_and (c == i) (ne_of_roles own r pt low t.root_at (λ z. cc)))
            (ne_of_roles own r q low fq (λ z. cc)))
]

-- Grafting a free page below the page that entry i of the root stands for changes no lookup.
pub lookup3-graft_middle :
    {own : Owner} {pt : ℕ} {entries : Entries} (i j p q a b c : ℕ)
    → Tree own pt entries
    → own p ≡ middle i
    → own q ≡ free
    → q % 4096 ≡ 0
    → pte_v (entries p j) ≡ false
    → lookup3 (graft entries p j q) pt a b c ≡ lookup3 entries pt a b c
lookup3-graft_middle {own} {pt} {entries} i j p q a b c t mp fq al gap =
    let ptp : (pt == p) ≡ false = ne_of_roles own pt p t.root_at mp (λ z. cc) in
    let ptq : (pt == q) ≡ false = ne_of_roles own pt q t.root_at fq (λ z. cc) in
    let top : graft entries p j q pt a ≡ entries pt a =
      graft_keep entries p j q pt a (false_and (a == j) ptp) ptq in
    elim (Bool-cases (pte_v (entries pt a) && (pte2pa (entries pt a) == p && b == j))) [
      | inl here ↦
          let (v, at_p, at_j) =
            and3 (pte_v (entries pt a)) (pte2pa (entries pt a) == p) (b == j) here in
          let same : b ≡ j = eqb→eq b j at_j in
          let page : pte2pa (entries pt a) ≡ p = eqb→eq (pte2pa (entries pt a)) p at_p in
          let qp : (q == p) ≡ false = ne_of_roles own q p fq mp (λ z. cc) in
          rw
            (
              ptp,
              ptq,
              v,
              page,
              eqb_refl p,
              same,
              eqb_refl j,
              valid_entry q,
              page_of_entry q al,
              qp,
              eqb_refl q,
              gap,
            )
            refl
      | inr away ↦
          lookup3_agree (graft entries p j q) entries pt a b c top
            (λ v.
              graft_keep entries p j q (pte2pa (entries pt a)) b (rw v at away)
                (ne_of_roles own (pte2pa (entries pt a)) q (t.middles a v) fq (λ z. cc)))
            (λ v v'.
              let low = t.bottoms (pte2pa (entries pt a)) a b (t.middles a v) v' in
              let r = pte2pa (entries (pte2pa (entries pt a)) b) in
              graft_keep entries p j q r c
                (false_and (c == j) (ne_of_roles own r p low mp (λ z. cc)))
                (ne_of_roles own r q low fq (λ z. cc)))
    ]

-- A write to an entry of a page of level 0 changes the lookup for its indices and no other.
pub lookup3-set_bottom :
    {own : Owner} {pt : ℕ} {entries : Entries} (i j k p e a b c : ℕ)
    → Tree own pt entries
    → own p ≡ bottom i j
    → pte_v (entries pt i) ≡ true
    → pte_v (entries (pte2pa (entries pt i)) j) ≡ true
    → pte2pa (entries (pte2pa (entries pt i)) j) ≡ p
    → lookup3 (λ r l. if r == p && l == k then e else entries r l) pt a b c ≡ (
        if a == i && (b == j && c == k)
        then (if pte_v e then some e else none)
        else lookup3 entries pt a b c)
lookup3-set_bottom {own} {pt} {entries} i j k p e a b c t bp v v' at_p =
    elim (Bool-cases (a == i && (b == j && c == k))) [
      | inl here ↦
          let (at_i, at_j, at_k) = and3 (a == i) (b == j) (c == k) here in
          let ei : a ≡ i = eqb→eq a i at_i in
          let ej : b ≡ j = eqb→eq b j at_j in
          let ek : c ≡ k = eqb→eq c k at_k in
          let mid = ne_of_roles own (pte2pa (entries pt i)) p (t.middles i v) bp (λ z. cc) in
          rw (ei, ej, ek, eqb_refl i, eqb_refl j, eqb_refl k, top, v, mid, v', at_p, eqb_refl p)
            refl
      | inr away ↦ rw away (
          lookup3_agree (λ r l. if r == p && l == k then e else entries r l) entries pt a b c
            (rw (false_and (a == k) top) refl)
            (λ va.
              rw
                (false_and (b == k)
                  (ne_of_roles own (pte2pa (entries pt a)) p (t.middles a va) bp (λ z. cc)))
                refl)
            (λ va vb.
              rw
                (last (pte2pa (entries (pte2pa (entries pt a)) b)) away
                  (t.bottoms (pte2pa (entries pt a)) a b (t.middles a va) vb))
                refl))
    ]
  where
    top : (pt == p) ≡ false
    top = ne_of_roles own pt p t.root_at bp (λ z. cc)

    last :
        (r : ℕ)
        → (a == i && (b == j && c == k)) ≡ false
        → own r ≡ bottom a b
        → (r == p && c == k) ≡ false
    last r away at_r = elim (Bool-cases (r == p)) [
      | inr apart ↦ false_and (c == k) apart
      | inl same ↦
          let roles : bottom a b ≡ bottom i j = sym at_r ∙ ap own (eqb→eq r p same) ∙ bp in
          let ei : a ≡ i = cc in
          let ej : b ≡ j = cc in and_false (r == p) (rw (ei, ej, eqb_refl i, eqb_refl j) at away)
    ]
