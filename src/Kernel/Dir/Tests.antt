-- ===== src/Kernel/Dir/Tests.antt =====
-- A directory of two entries, one empty and one with the number 4 and the name `ab`, in block 10.
use proyecto_3_sistemas_oper.Base.{
  ℕ, ◌+◌, ◌<◌, ◌≡◌, ◌≢◌, ◌⊎◌, refl, sym, inl, inr, ◌∙◌, [], false, ltb, done, arith, ◌&&◌, ◌==◌,
  if◌then◌else◌, ℤ, pos, minus_one, Bool-cases, eqb→eq,
}
use proyecto_3_sistemas_oper.Kernel.Strings.{Memory, within}
use proyecto_3_sistemas_oper.Kernel.Blocks.{Dinode, Volume, fresh_inode}
use proyecto_3_sistemas_oper.Kernel.Blocks.Slots.{slot}
use proyecto_3_sistemas_oper.Kernel.Blocks.Growth.{content}
use proyecto_3_sistemas_oper.Kernel.Blocks.Mapping.{Full}
use proyecto_3_sistemas_oper.Kernel.Dir.{add_entry, t_dir, dirlink}
use proyecto_3_sistemas_oper.Kernel.Path.{dirsiz}
use proyecto_3_sistemas_oper.Kernel.Dir.Entries.{IsDense}
use proyecto_3_sistemas_oper.Kernel.Dir.Answers.{Searched, AllMiss}
use proyecto_3_sistemas_oper.Kernel.Dir.Search.{dirlookup_from_lem}
use proyecto_3_sistemas_oper.Kernel.Dir.Adding.{Added, add_entry_lem}
use proyecto_3_sistemas_oper.Kernel.Dir.Link.{FindsIt}
use proyecto_3_sistemas_oper.Kernel.Dir.Whole.{dirlookup-dirlink}

abbrev volume : Volume
volume = record {
  size = 20;
  ninodes = 8;
  inodestart = 5;
  bmapstart = 7;
  bits = λ b bi. b == 7 && ltb bi 11;
  words = λ _ _. 0;
  bytes = λ b i.
      if b == 10
      then (if i == 16 then 4 else if i == 18 then 97 else if i == 19 then 98 else 0)
      else 0;
  dinodes = λ _. fresh_inode 0;
  logged = [];
}

abbrev dir : Dinode
dir = record (fresh_inode t_dir) { addrs = λ i. if i == 0 then 10 else 0; size = 32 }

-- The name `xy` at 100.
abbrev memory : Memory
memory a = if a == 100 then 120 else if a == 101 then 121 else 0

only_slot : (k : ℕ) → slot k dir volume ≢ 0 → k ≡ 0
only_slot k ne = elim (Bool-cases (k == 0)) [
  | inl z ↦ eqb→eq k 0 z
  | inr more ↦ absurd (ne (ground (arith, more)))
]

dir-IsDense : IsDense dir volume
dir-IsDense = record {
  placed = record {
    boot = refl;
    used = λ k h ne. let z = only_slot k ne in rw z refl;
    distinct = λ k l hk hl ne e. only_slot k ne ∙ sym (only_slot l (λ z. ne (e ∙ z)));
  };
  small = omega arith;
  whole = refl;
  mapped = λ p h z. ground arith;
}

name_apart : (i : ℕ) → i < dirsiz → within 200 16 (100 + i) ≡ false
name_apart i lt = ground arith

dirlookup_from_example :
    Searched 32 0 100 200 32 (λ i. memory (100 + i)) (content dir volume) memory dir volume
dirlookup_from_example = dirlookup_from_lem 100 200 memory dir volume name_apart dir-IsDense

add_entry_example :
    (r : ℤ) × (at : ℕ) × (m' : Memory) × (dp' : Dinode) × (v' : Volume) × (add_entry 1 100 5 200
        memory dir volume
      ≡ done (r, m', dp', v'))
    × (((r ≡ pos 0) × Added (λ i. memory (100 + i)) 5 dir volume dp' v' at)
        ⊎ ((r ≡ minus_one) × Full v'))
add_entry_example =
    add_entry_lem 1 100 5 200 memory dir volume name_apart (omega arith) dir-IsDense (omega arith)

-- The entry at 0 is empty, and the one at 16 has another name.
no_xy : AllMiss (λ i. memory (100 + i)) (content dir volume) 0 32
no_xy e le lt aligned = elim (Bool-cases (e == 0)) [
  | inl z ↦ let here = eqb→eq e 0 z in rw here (inl refl)
  | inr more ↦
      let here : e ≡ 16 = ground (arith, more, lt, aligned) in
      rw here
        (inr (λ has. differ 120 refl (has 0 (omega arith) (λ j jl. absurd (omega (arith, jl))))))
]
  where
    differ : (x : ℕ) → x ≡ 120 → x ≡ 97 → ⊥
    differ x h h' = omega arith

dirlookup-dirlink_example :
    (r : ℤ) × (at : ℕ) × (m' : Memory) × (dp' : Dinode) × (v' : Volume) × (dirlink 1 1 100 5 200
        memory dir volume []
      ≡ done (r, [], m', dp', v'))
    × (((r ≡ pos 0) × FindsIt (λ i. memory (100 + i)) 5 at dp' v') ⊎ ((r ≡ minus_one) × Full v'))
dirlookup-dirlink_example =
    dirlookup-dirlink 1 1 100 5 200 memory dir volume [] name_apart (λ z. omega (arith, z))
      (omega arith) refl dir-IsDense (omega arith) no_xy
