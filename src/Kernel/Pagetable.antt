-- ===== src/Kernel/Pagetable.antt =====
-- kernel/vm.c: Sv39 page tables. The machine's memory is the allocator's, with a second view of it
-- as page-table entries: entry i of the page at pa is the 64-bit word at pa + 8 * i. A page serves
-- as a page table or holds bytes, never both at a time, so a write goes to one view; what the
-- allocator fills pages with, and the zeroing of a whole page, go to both.
pub mod Owners
pub mod Grafts
pub mod Growing
pub mod Lookup
pub mod Walk
pub mod Entering
pub mod Mapping
pub mod Address
use proyecto_3_sistemas_oper.Base.{
  ℕ, zero, suc, ◌+◌, ◌-◌, ◌*◌, ◌/◌, ◌%◌, ◌^◌, Bool, true, false, not, ◌==◌, ltb, leb, ◌&&◌,
  if◌then◌else◌, Option, none, some, Outcome, done, panic, ◌>>=◌, ◌>>◌, check,
}
use proyecto_3_sistemas_oper.Kernel.Params.{pgsize, max_va}
use proyecto_3_sistemas_oper.Kernel.Strings.{memset}
use proyecto_3_sistemas_oper.Kernel.Kalloc.{Kmem, kalloc, kfree}

pub record Machine : Type 0 where
  pub kmem : Kmem
  pub entries : ℕ → ℕ → ℕ

-- The page at pa with all its words the same.
abbrev pub fill_entries : ℕ → ℕ → (ℕ → ℕ → ℕ) → ℕ → ℕ → ℕ
fill_entries pa v entries p i = if p == pa then v else entries p i

-- `*pte = e`
abbrev pub set_entry : ℕ → ℕ → ℕ → Machine → Machine
set_entry pa i e m = record m { entries = λ p j. if p == pa && j == i then e else m.entries p j }

-- `kalloc()`: the page is full of fives.
unfoldable pub kalloc_page : Machine → ℕ × Machine
kalloc_page m =
    let (pa, k) = kalloc m.kmem in
    let filled = fill_entries pa 0x0505050505050505 m.entries in
    (pa, (if pa == 0 then record m { kmem = k } else record { kmem = k; entries = filled }))

-- `kfree(pa)`: the page is filled with ones.
unfoldable pub kfree_page : ℕ → ℕ → Machine → Outcome Machine
kfree_page end pa m = kfree end pa m.kmem >>= λ k.
    done (record { kmem = k; entries = fill_entries pa 0x0101010101010101 m.entries })

-- `memset(pa, 0, PGSIZE)`
unfoldable pub zero_page : ℕ → Machine → Machine
zero_page pa m = record {
  kmem = record m.kmem { bytes = memset m.kmem.bytes pa 0 pgsize };
  entries = fill_entries pa 0 m.entries;
}

-- `PTE_V`, `PTE_R`, `PTE_W`, `PTE_X` and `PTE_U` as tests of an entry.
abbrev pub pte_v : ℕ → Bool
pte_v e = e % 2 == 1

abbrev pub pte_r : ℕ → Bool
pte_r e = e / 2 % 2 == 1

abbrev pub pte_w : ℕ → Bool
pte_w e = e / 4 % 2 == 1

abbrev pub pte_x : ℕ → Bool
pte_x e = e / 8 % 2 == 1

abbrev pub pte_u : ℕ → Bool
pte_u e = e / 16 % 2 == 1

abbrev pub pa2pte : ℕ → ℕ
pa2pte pa = pa / 2 ^ 12 * 2 ^ 10

abbrev pub pte2pa : ℕ → ℕ
pte2pa e = e / 2 ^ 10 * 2 ^ 12

abbrev pub pte_flags : ℕ → ℕ
pte_flags e = e % 2 ^ 10

-- `perm | PTE_V`; as an address has no bits below the tenth, or-ing this to it adds it.
abbrev pub or_valid : ℕ → ℕ
or_valid perm = perm / 2 * 2 + 1

-- `PX(level, va)`
abbrev pub px : ℕ → ℕ → ℕ
px level va = va / 2 ^ (12 + 9 * level) % 512

-- One round of the loop of `walk`, at a level above 0: the next page table, or a null pointer.
pub walk_level : Bool → ℕ → ℕ → ℕ → Machine → Option ℕ × Machine
unfolding kalloc_page zero_page
walk_level alloc level va pt m =
    let e = m.entries pt (px level va) in
    let (q, m') = kalloc_page m in
    let made = set_entry pt (px level va) (pa2pte q + 1) (zero_page q m') in
    if pte_v e
    then (some (pte2pa e), m)
    else if not alloc
    then (none, m)
    else if q == 0
    then (none, m')
    else (some q, made)

abbrev pub then_at : Option ℕ × Machine → (ℕ → Machine → Option ℕ × Machine) → Option ℕ × Machine
then_at (none, m) f = (none, m)
then_at (some p, m) f = f p m

-- The loop of `walk` with `levels` rounds left: the page table of level 0.
unfoldable pub walk_levels : ℕ → Bool → ℕ → ℕ → Machine → Option ℕ × Machine
unfolding walk_level
walk_levels zero alloc va pt m = (some pt, m)
walk_levels (suc levels) alloc va pt m =
    then_at (walk_level alloc (suc levels) va pt m) (walk_levels levels alloc va)

-- `walk`: the entry's page table, of which it is the entry `px 0 va`.
unfoldable pub walk : Bool → ℕ → ℕ → Machine → Outcome (Option ℕ × Machine)
unfolding walk_levels
walk alloc pt va m = if leb max_va va then panic else done (walk_levels 2 alloc va pt m)

-- The entry for va in the page that `walk` found.
abbrev pub entry_in : ℕ → Machine → Option ℕ → Option ℕ
entry_in va m none = none
entry_in va m (some p) = some (m.entries p (px 0 va))

-- The entry for va, if there is a place for it.
unfoldable pub find_entry : ℕ → ℕ → Machine → Option ℕ
unfolding walk_levels
find_entry pt va m = entry_in va m (walk_levels 2 false va pt m).0

-- The address in an entry that `walk` found, if it is valid and the user's, or 0.
abbrev pub usable : Option ℕ → ℕ
usable none = 0
usable (some e) = if not (pte_v e) then 0 else if not (pte_u e) then 0 else pte2pa e

unfoldable pub walkaddr : ℕ → ℕ → Machine → ℕ
unfolding find_entry
walkaddr pt va m = if leb max_va va then 0 else usable (find_entry pt va m)

-- The round of `mappages` at a, with the result of `walk`; false: `walk` failed.
pub map_at : ℕ → ℕ → ℕ → Option ℕ × Machine → Outcome (Bool × Machine)
map_at a pa perm (none, m) = done (false, m)
map_at a pa perm (some p, m) =
    if pte_v (m.entries p (px 0 a))
    then panic
    else done (true, set_entry p (px 0 a) (pa2pte pa + or_valid perm) m)

-- The loop of `mappages`: `rounds` pages are left to map.
unfoldable pub map_from : ℕ → ℕ → ℕ → ℕ → ℕ → Machine → Outcome (Bool × Machine)
unfolding walk map_at
map_from zero pt a pa perm m = done (true, m)
map_from (suc rounds) pt a pa perm m = do
  w ← walk true pt a m
  r ← map_at a pa perm w
  if r.0 then map_from rounds pt (a + pgsize) (pa + pgsize) perm r.1 else done r

-- Whether `mappages` returns 0 (true) or -1, if it does not panic.
unfoldable pub mappages : ℕ → ℕ → ℕ → ℕ → ℕ → Machine → Outcome (Bool × Machine)
unfolding map_from
mappages pt va size pa perm m = do
  check (va % pgsize == 0)
  check (size % pgsize == 0)
  check (not (size == 0))
  map_from (size / pgsize) pt va pa perm m

pub kvmmap : ℕ → ℕ → ℕ → ℕ → ℕ → Machine → Outcome Machine
unfolding mappages
kvmmap pt va pa size perm m = do r ← mappages pt va size pa perm m; check r.0; done r.1

-- The new page table, or 0.
unfoldable pub uvmcreate : Machine → ℕ × Machine
unfolding kalloc_page zero_page
uvmcreate m = let (pt, m') = kalloc_page m in if pt == 0 then (0, m') else (pt, zero_page pt m')

-- Whether the entry that `walk` found is valid; a null pointer has none.
abbrev pub is_valid : Option ℕ → Bool
is_valid none = false
is_valid (some e) = pte_v e

-- `walk` panics from MAXVA on; it changes no memory where it allocates nothing.
unfoldable pub ismapped : ℕ → ℕ → Machine → Outcome Bool
unfolding walk
ismapped pt va m = walk false pt va m >>= λ r. done (is_valid (entry_in va m r.0))

pub uvmclear : ℕ → ℕ → Machine → Outcome Machine
uvmclear pt va m =
    let cleared : Outcome Machine = elim (walk_levels 2 false va pt m).0 [
      | none ↦ panic
      | some p ↦
          let e = m.entries p (px 0 va) in
          done (set_entry p (px 0 va) (if pte_u e then e - 2 ^ 4 else e) m)
    ] in
    if leb max_va va then panic else cleared
