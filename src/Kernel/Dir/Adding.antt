-- ===== src/Kernel/Dir/Adding.antt =====
-- dirlink's new entry, and dirlookup after it.
use native.Mathlib.Nat.{add-zero}
use proyecto_3_sistemas_oper.Base.{
  ℕ, zero, suc, ◌+◌, ◌-◌, ◌*◌, ◌/◌, ◌%◌, ◌^◌, ◌≤◌, ◌<◌, ◌≡◌, ◌≢◌, ◌⊎◌, refl, sym, ap, ap₂, subst,
  ◌∙◌, inl, inr, true, false, ◌==◌, ltb, if◌then◌else◌, some, done, arith, Bool-cases, eqb→eq,
  eqb_of_ne, ℤ, pos, minus_one,
}
use proyecto_3_sistemas_oper.Kernel.Params.{bsize}
use proyecto_3_sistemas_oper.Kernel.Strings.{Memory, within}
use proyecto_3_sistemas_oper.Kernel.Strings.Copy.{Apart, no_nul, strncpy_lem}
use proyecto_3_sistemas_oper.Kernel.Blocks.{Dinode, Volume}
use proyecto_3_sistemas_oper.Kernel.Blocks.Slots.{slot, max_slots}
use proyecto_3_sistemas_oper.Kernel.Blocks.Growth.{max_bytes, slot_of, content}
use proyecto_3_sistemas_oper.Kernel.Blocks.Mapping.{Full}
use proyecto_3_sistemas_oper.Kernel.FileData.{from_kernel, writei}
use proyecto_3_sistemas_oper.Kernel.FileData.Written.{Written}
use proyecto_3_sistemas_oper.Kernel.FileData.Write.{writei_lem}
use proyecto_3_sistemas_oper.Kernel.Path.{dirsiz}
use proyecto_3_sistemas_oper.Kernel.Dir.{
  dirent_size, name_at, fill_entry, full_write, find_empty_entry, add_entry,
}
use proyecto_3_sistemas_oper.Kernel.Dir.Entries.{IsDense, entry_inum, HasName}
use proyecto_3_sistemas_oper.Kernel.Dir.Answers.{Looking}
use proyecto_3_sistemas_oper.Kernel.Dir.Gaps.{GapAt, gap_lem}

no_nul-clean :
    (i : ℕ) (m : Memory) (t : ℕ) → ((j : ℕ) → j < i → m (t + j) ≢ 0) → no_nul m t i ≡ true
no_nul-clean zero m t clean = refl
no_nul-clean (suc i) m t clean =
    let first : (m t == 0) ≡ false =
      eqb_of_ne (m t) 0 (λ z. clean 0 (omega arith) (ap m (add-zero t) ∙ z)) in
    rw first (
      no_nul-clean i m (t + 1) (λ j lt z. clean (suc j) (omega (arith, lt)) (ap m (shift t j) ∙ z)))
  where
    shift : (t j : ℕ) → t + suc j ≡ t + 1 + j
    shift t j = omega arith

-- The bytes of the entry that is filled in: its number, and the name up to its first NUL.
filled_inum :
    (name inum de : ℕ) (m : Memory)
    → inum < 2 ^ 16
    → entry_inum (λ i. fill_entry name inum de m (de + i)) 0 ≡ inum
filled_inum name inum de m lt =
    let here : de + 0 ≡ de = omega arith in
    let apart : (de + 1 == de) ≡ false = ground arith in
    let low : fill_entry name inum de m (de + 0) ≡ inum % 256 = ground arith in
    let high : fill_entry name inum de m (de + 1) ≡ inum / 256 % 256 = ground arith in
    ap₂ (λ (a b : ℕ). a + 256 * b) low high ∙ omega (arith, lt)

filled_name :
    (name inum de i : ℕ) (m : Memory)
    → Apart (name_at de) name dirsiz
    → i < dirsiz
    → ((j : ℕ) → j < i → m (name + j) ≢ 0)
    → fill_entry name inum de m (de + (2 + i)) ≡ m (name + i)
filled_name name inum de i m apart lt clean =
    let a = de + (2 + i) in
    let not_low : (de == a) ≡ false = ground arith in
    let not_high : (de + 1 == a) ≡ false = ground arith in
    let there : within (name_at de) dirsiz a ≡ true = ground (arith, lt) in
    let place : a - name_at de ≡ i = omega arith in
    rw (not_high, not_low)
      (strncpy_lem m (name_at de) name dirsiz a apart
        ∙ rw (there, place, no_nul-clean i m name clean) refl)

-- The directory with a new entry for the name with the bytes t: nothing else in it has changed.
pub record Added (t : ℕ → ℕ) (inum : ℕ) (dp : Dinode) (v : Volume) (dp' : Dinode) (v' : Volume)
    (at : ℕ) : Type 0 where
  pub dense : IsDense dp' v'
  pub gap : GapAt (content dp v) dp.size at
  pub number : entry_inum (content dp' v') at ≡ inum
  pub name : HasName t (content dp' v') at
  pub others :
      (p : ℕ) → p < max_bytes → within at dirent_size p ≡ false → content dp' v' p ≡ content dp v p
  pub size : dp'.size ≡ (if ltb dp.size (at + dirent_size) then at + dirent_size else dp.size)
  pub grown : dp.size ≤ dp'.size

ranges-Apart :
    (name de : ℕ)
    → ((i : ℕ) → i < dirsiz → within de dirent_size (name + i) ≡ false)
    → Apart (name_at de) name dirsiz
ranges-Apart name de h = elim (Bool-cases (ltb name de)) [
  | inl below ↦ elim (Bool-cases (ltb (de - name) dirsiz)) [
    | inl near ↦ absurd (meets name de below (h (de - name) (ground (arith, near))))
    | inr far ↦ inr (ground (arith, below, far))
  ]
  | inr above ↦ inl (behind name de above (h 0 (omega arith)))
]
  where
    meets :
        (name de : ℕ) → ltb name de ≡ true → within de dirent_size (name + (de - name)) ≡ false → ⊥
    meets name de b h = ground arith

    behind :
        (name de : ℕ)
        → ltb name de ≡ false
        → within de dirent_size (name + 0) ≡ false
        → name_at de + dirsiz ≤ name
    behind name de a h = ground arith

-- The entry at `at` is written whole.
module _ {dir name inum de at : ℕ} {t : ℕ → ℕ} {dp1 dp2 : Dinode} {v1 v2 : Volume} (dp : Dinode)
    (v : Volume) (m : Memory) (apart : Apart (name_at de) name dirsiz) (low : inum < 2 ^ 16)
    (room : dp.size + dirent_size ≤ max_bytes) (gap : GapAt (content dp v) dp.size at)
    (k : Looking name de t (content dp v) dp.size m dp1 v1)
    (w : Written dir at dirent_size (λ i. fill_entry name inum de m (de + i)) dp1 v1 dp2 v2) where
  in_bounds : at + dirent_size ≤ max_bytes
  in_bounds = let h = gap.within_size in omega (arith, room, h)

  new_byte :
      (i : ℕ) → i < dirent_size → content dp2 v2 (at + i) ≡ fill_entry name inum de m (de + i)
  new_byte i lt =
      let there : within at dirent_size (at + i) ≡ true = ground (arith, lt) in
      let place : at + i - at ≡ i = omega arith in
      w.now (at + i) (omega (arith, lt, in_bounds)) ∙ rw (there, place) refl

  new_number : entry_inum (content dp2 v2) at ≡ inum
  new_number =
      ap₂ (λ (a b : ℕ). a + 256 * b)
        (ap (content dp2 v2) (sym (add-zero at)) ∙ new_byte 0 (omega arith))
        (new_byte 1 (omega arith))
      ∙ filled_inum name inum de m low

  new_name : HasName t (content dp2 v2) at
  new_name i lt clean =
      let place : at + (2 + i) ≡ at + 2 + i = omega arith in
      sym (k.held i lt)
      ∙ sym (
          filled_name name inum de i m apart lt
            (λ j jl z. clean j jl (sym (k.held j (omega (arith, jl, lt))) ∙ z)))
      ∙ sym (new_byte (2 + i) (omega (arith, lt)))
      ∙ ap (content dp2 v2) place

  new_size : dp2.size ≡ (if ltb dp.size (at + dirent_size) then at + dirent_size else dp.size)
  new_size =
      w.size ∙ ap (λ (s : ℕ). if ltb s (at + dirent_size) then at + dirent_size else s) k.sized

  whole_entries :
      (size : ℕ)
      → size % dirent_size ≡ 0
      → at % dirent_size ≡ 0
      → (if ltb size (at + dirent_size) then at + dirent_size else size) % dirent_size ≡ 0
  whole_entries size a b = ground arith

  below_end :
      (p size : ℕ)
      → p < (if ltb size (at + dirent_size) then at + dirent_size else size)
      → within at dirent_size p ≡ false
      → at ≤ size
      → p < size
  below_end p size h out le = ground arith

  all_mapped : (p : ℕ) → p < dp2.size → slot (slot_of (p / bsize)) dp2 v2 ≢ 0
  all_mapped p h z =
      let h' : p < (if ltb dp.size (at + dirent_size) then at + dirent_size else dp.size) =
        rw new_size at h in
      let within_max : p < max_bytes = small_enough p dp.size h' gap.within_size room in
      elim (Bool-cases (within at dirent_size p)) [
        | inl new ↦ w.mapped p within_max new z
        | inr old ↦
            let lt : p < dp1.size = rw k.sized (below_end p dp.size h' old gap.within_size) in
            let ne = k.dense.mapped p lt in
            ne (sym (w.stays (slot_of (p / bsize)) (slot_bound p within_max) ne) ∙ z)
      ]
    where
      small_enough :
          (p size : ℕ)
          → p < (if ltb size (at + dirent_size) then at + dirent_size else size)
          → at ≤ size
          → size + dirent_size ≤ max_bytes
          → p < max_bytes
      small_enough p size h le room = ground arith

      slot_bound : (p : ℕ) → p < max_bytes → slot_of (p / bsize) < max_slots
      slot_bound p h = ground arith

  pub written-Added : Added t inum dp v dp2 v2 at
  written-Added = record {
    dense = record {
      placed = w.placed;
      small = rw new_size (fits dp.size gap.within_size room);
      whole = rw new_size (whole_entries dp.size (rw k.sized at k.dense.whole) gap.aligned);
      mapped = all_mapped;
    };
    gap = gap;
    number = new_number;
    name = new_name;
    others = λ p h out. w.now p h ∙ rw out (k.bytes p h);
    size = new_size;
    grown = rw new_size (no_less dp.size);
  }
    where
      fits :
          (size : ℕ)
          → at ≤ size
          → size + dirent_size ≤ max_bytes
          → (if ltb size (at + dirent_size) then at + dirent_size else size) ≤ max_bytes
      fits size le room = ground arith

      no_less : (size : ℕ) → size ≤ (if ltb size (at + dirent_size) then at + dirent_size else size)
      no_less size = ground arith

add_entry-run :
    (dir name inum de at n : ℕ) (m m1 : Memory) (dp dp1 dp2 : Dinode) (v v1 v2 : Volume)
    → find_empty_entry dp.size 0 de m dp v ≡ done (at, m1, dp1, v1)
    → writei from_kernel dir de at dirent_size (fill_entry name inum de m1) dp1 v1
      ≡ done (some n, fill_entry name inum de m1, dp2, v2)
    → add_entry dir name inum de m dp v
      ≡ done (full_write (some n, fill_entry name inum de m1, dp2, v2))
unfolding add_entry
add_entry-run dir name inum de at n m m1 dp dp1 dp2 v v1 v2 found wrote = rw (found, wrote) refl

-- `dirlink` behind its test, for a number below 2^16, for a name whose 14 bytes are apart from the
-- 16 bytes of the local entry, in a directory of whole entries that all have their blocks, and that
-- has room for one more within MAXFILE blocks, does not panic, given that the log takes its calls of
-- `log_write`. It
-- returns 0, and the directory is as before but for one entry, an empty one or a new one at the end,
-- which has the number and the name; or it returns -1 and no block is left.
pub add_entry_lem :
    (dir name inum de : ℕ) (m : Memory) (dp : Dinode) (v : Volume)
    → ((i : ℕ) → i < dirsiz → within de dirent_size (name + i) ≡ false)
    → inum < 2 ^ 16
    → IsDense dp v
    → dp.size + dirent_size ≤ max_bytes
    → (r : ℤ) × (at : ℕ) × (m' : Memory) × (dp' : Dinode) × (v' : Volume) × (add_entry dir name inum
          de m dp v
        ≡ done (r, m', dp', v'))
      × (((r ≡ pos 0) × Added (λ i. m (name + i)) inum dp v dp' v' at)
          ⊎ ((r ≡ minus_one) × Full v'))
add_entry_lem dir name inum de m dp v apart low d room =
    let start : Looking name de (λ i. m (name + i)) (content dp v) dp.size m dp v = record {
      dense = d;
      sized = refl;
      held = λ i lt. refl;
      bytes = λ p h. refl;
    } in
    let (at, m1, dp1, v1, ran, gap, k, kept, same) =
      gap_lem dp.size 0 name de dp.size (λ i. m (name + i)) (content dp v) m dp v apart
        (omega arith) (omega arith) refl start in
    let m2 = fill_entry name inum de m1 in
    let (n, dp2, v2, wrote, w, short, why) =
      writei_lem dir de at dirent_size m2 dp1 v1 (rw k.sized gap.within_size)
        (end_fits at dp.size gap.within_size room) k.dense.placed in
    elim (Bool-cases (n == dirent_size)) [
      | inl all ↦
          let e = eqb→eq n dirent_size all in
          (
            pos 0,
            at,
            m2,
            dp2,
            v2,
            add_entry-run dir name inum de at n m m1 dp dp1 dp2 v v1 v2 ran wrote
                ∙ written n m2 dp2 v2 all,
            inl (
              refl,
              written-Added dp v m1 (ranges-Apart name de apart) low room gap k
                  (subst (λ (x : ℕ). Written dir at x (λ i. m2 (de + i)) dp1 v1 dp2 v2) e w),
            ),
          )
      | inr some_left ↦ (
        minus_one,
        at,
        m2,
        dp2,
        v2,
        add_entry-run dir name inum de at n m m1 dp dp1 dp2 v v1 v2 ran wrote
            ∙ not_written n m2 dp2 v2 some_left,
        inr (refl, elim why [ inl e ↦ absurd (differ n some_left e) | inr full ↦ full ]),
      )
    ]
  where
    end_fits :
        (at size : ℕ) → at ≤ size → size + dirent_size ≤ max_bytes → at + dirent_size ≤ max_bytes
    end_fits at size a b = omega arith

    written :
        (n : ℕ) (m : Memory) (dp : Dinode) (v : Volume)
        → (n == dirent_size) ≡ true
        → done (full_write (some n, m, dp, v)) ≡ done (pos 0, m, dp, v)
    written n m dp v h = rw h refl

    not_written :
        (n : ℕ) (m : Memory) (dp : Dinode) (v : Volume)
        → (n == dirent_size) ≡ false
        → done (full_write (some n, m, dp, v)) ≡ done (minus_one, m, dp, v)
    not_written n m dp v h = rw h refl

    differ : (n : ℕ) → (n == dirent_size) ≡ false → n ≡ dirent_size → ⊥
    differ n h e = ground arith
