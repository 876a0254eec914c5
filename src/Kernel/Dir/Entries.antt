-- ===== src/Kernel/Dir/Entries.antt =====
-- One entry of a directory, read into memory.
use native.Mathlib.Nat.{add-zero}
use proyecto_3_sistemas_oper.Base.{
  ℕ, ◌+◌, ◌*◌, ◌/◌, ◌%◌, ◌≤◌, ◌<◌, ◌≡◌, ◌≢◌, refl, sym, ap, ap₂, ◌∙◌, inl, inr, Bool, true, false,
  ◌==◌, ltb, some, done, ◌>>=◌, arith, Bool-cases, eqb→eq, ℤ, pos, negsuc,
}
use proyecto_3_sistemas_oper.Kernel.Params.{bsize}
use proyecto_3_sistemas_oper.Kernel.Strings.{Memory}
use proyecto_3_sistemas_oper.Kernel.Strings.Compare.{strncmp_iff}
use proyecto_3_sistemas_oper.Kernel.Blocks.{Dinode, Volume}
use proyecto_3_sistemas_oper.Kernel.Blocks.Slots.{Placed, slot, max_slots}
use proyecto_3_sistemas_oper.Kernel.Blocks.Growth.{max_bytes, slot_of, Kept}
use proyecto_3_sistemas_oper.Kernel.FileData.ReadRound.{Got}
use proyecto_3_sistemas_oper.Kernel.FileData.Read.{available, readi_lem}
use proyecto_3_sistemas_oper.Kernel.Path.{dirsiz}
use proyecto_3_sistemas_oper.Kernel.Dir.{
  dirent_size, inum_at, name_at, namecmp, is_named, full_read, read_entry,
}

-- A directory of whole entries that all have their blocks.
pub record IsDense (dp : Dinode) (v : Volume) : Type 0 where
  pub placed : Placed dp v
  pub small : dp.size ≤ max_bytes
  pub whole : dp.size % dirent_size ≡ 0
  pub mapped : (p : ℕ) → p < dp.size → slot (slot_of (p / bsize)) dp v ≢ 0

pub Kept-IsDense :
    {dp dp' : Dinode} {v v' : Volume} → Kept dp v dp' v' → IsDense dp v → IsDense dp' v'
Kept-IsDense {dp} {dp'} {v} {v'} k d = record {
  placed = k.placed;
  small = rw k.size d.small;
  whole = rw k.size d.whole;
  mapped = λ p h z.
      let lt : p < dp.size = rw k.size at h in
      let ne = d.mapped p lt in
      ne (sym (k.stays (slot_of (p / bsize)) (slot_bound p dp.size lt d.small) ne) ∙ z);
}
  where
    slot_bound : (p size : ℕ) → p < size → size ≤ max_bytes → slot_of (p / bsize) < max_slots
    slot_bound p size lt small = ground arith

-- An entry of a directory with these bytes: its number, and whether it has the name with the bytes t.
abbrev pub entry_inum : (ℕ → ℕ) → ℕ → ℕ
entry_inum c off = c off + 256 * c (off + 1)

abbrev pub HasName : (ℕ → ℕ) → (ℕ → ℕ) → ℕ → Type 0
HasName t c off = (i : ℕ) → i < dirsiz → ((j : ℕ) → j < i → t j ≢ 0) → t i ≡ c (off + 2 + i)

pub read_entry_lem :
    (de off : ℕ) (m : Memory) (dp : Dinode) (v : Volume)
    → IsDense dp v
    → off < dp.size
    → off % dirent_size ≡ 0
    → (m' : Memory) × (dp' : Dinode) × (v' : Volume) × (read_entry de off m dp v
        ≡ done (m', dp', v'))
      × Got off dirent_size de m dp v m' dp' v'
read_entry_lem de off m dp v d lt aligned =
    let room : off + dirent_size ≤ dp.size = whole_room off dp.size lt aligned d.whole in
    let (k, m', dp', v', ran, g, short, why) =
      readi_lem de off dirent_size m dp v (omega (arith, lt)) d.small (omega (arith, room, d.small))
        d.placed in
    let all_left : available dp.size off dirent_size ≡ dirent_size = inside off dp.size room in
    let whole : k ≡ dirent_size = elim why [
      | inl e ↦ e ∙ all_left
      | inr hole ↦ elim (Bool-cases (ltb k dirent_size)) [
        | inl under ↦ absurd (d.mapped (off + k) (before off k dp.size under room) hole.0)
        | inr over ↦ not_under k (available dp.size off dirent_size) over short all_left
      ]
    ] in
    (
      m',
      dp',
      v',
      ap (λ o. o >>= full_read) (ran ∙ ap (λ (x : ℕ). done (some x, m', dp', v')) whole),
      rw whole at g,
    )
  where
    whole_room :
        (off size : ℕ)
        → off < size
        → off % dirent_size ≡ 0
        → size % dirent_size ≡ 0
        → off + dirent_size ≤ size
    whole_room off size h a b = omega arith

    inside :
        (off size : ℕ) → off + dirent_size ≤ size → available size off dirent_size ≡ dirent_size
    inside off size h = ground arith

    before : (off k size : ℕ) → ltb k dirent_size ≡ true → off + dirent_size ≤ size → off + k < size
    before off k size h room = ground arith

    not_under : (k l : ℕ) → ltb k dirent_size ≡ false → k ≤ l → l ≡ dirent_size → k ≡ dirent_size
    not_under k l h a b = ground arith

abbrev is_zero : ℤ → Bool
is_zero z = elim z [ pos n ↦ n == 0 | negsuc n ↦ false ]

pos-is_zero : (z : ℤ) → is_zero z ≡ true → z ≡ pos 0
pos-is_zero (pos n) h = ap pos (eqb→eq n 0 h)
pos-is_zero (negsuc n) h = absurd (clash h)
  where
    clash : false ≡ true → ⊥
    clash h = cc

is_named-is_zero :
    (name de : ℕ) (m : Memory) → is_named name de m ≡ is_zero (namecmp m name (name_at de))
is_named-is_zero name de m = refl

-- The entry at `off` of the bytes c, after it is read to `de`, which is apart from the name.
module _ (name de off : ℕ) (t c : ℕ → ℕ) (m : Memory)
    (held : (i : ℕ) → i < dirsiz → m (name + i) ≡ t i)
    (read : (i : ℕ) → i < dirent_size → m (de + i) ≡ c (off + i)) where
  pub inum_read : inum_at m de ≡ entry_inum c off
  inum_read =
      let low : m de ≡ c off =
        ap m (sym (add-zero de)) ∙ read 0 (omega arith) ∙ ap c (add-zero off) in
      ap₂ (λ (a b : ℕ). a + 256 * b) low (read 1 (omega arith))

  name_byte : (i : ℕ) → i < dirsiz → m (name_at de + i) ≡ c (off + 2 + i)
  name_byte i lt =
      ap m (regroup de i) ∙ read (2 + i) (omega (arith, lt)) ∙ ap c (sym (regroup off i))
    where
      regroup : (a i : ℕ) → a + 2 + i ≡ a + (2 + i)
      regroup a i = omega arith

  pub named : is_named name de m ≡ true → HasName t c off
  named h i lt clean =
      let equal =
        pos-is_zero (namecmp m name (name_at de)) (sym (is_named-is_zero name de m) ∙ h) in
      sym (held i lt)
      ∙ (strncmp_iff m name (name_at de) dirsiz).0 equal i lt
          (λ j jl z. clean j jl (sym (held j (omega (arith, jl, lt))) ∙ z))
      ∙ name_byte i lt

  pub not_named : is_named name de m ≡ false → HasName t c off → ⊥
  not_named h has =
      let equal = (strncmp_iff m name (name_at de) dirsiz).1 (λ i lt clean.
        held i lt
        ∙ has i lt (λ j jl z. clean j jl (held j (omega (arith, jl, lt)) ∙ z))
        ∙ sym (name_byte i lt)) in
      clash (sym h ∙ is_named-is_zero name de m ∙ ap is_zero equal)
    where
      clash : false ≡ true → ⊥
      clash h = cc

pub entry_fits :
    (off size : ℕ)
    → off < size
    → off % dirent_size ≡ 0
    → size % dirent_size ≡ 0
    → size ≤ max_bytes
    → off + dirent_size ≤ max_bytes
entry_fits off size lt a b small = omega arith
