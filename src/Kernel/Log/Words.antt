-- ===== src/Kernel/Log/Words.antt =====
-- The header block: what read_head and write_head copy, word by word.
use proyecto_3_sistemas_oper.Base.{
  ℕ, zero, suc, ◌+◌, ◌-◌, ◌≡◌, ltb, leb, ◌&&◌, if◌then◌else◌, arith,
}
use proyecto_3_sistemas_oper.Kernel.Log.{Block, update, read_entries, write_entries}

pub read_entries_lem :
    (hd : Block) (rounds i : ℕ) (block : ℕ → ℕ) (j : ℕ)
    → read_entries hd rounds i block j
      ≡ (if leb i j && ltb j (i + rounds) then hd (j + 1) else block j)
unfolding read_entries
read_entries_lem hd zero i block j = ground arith
read_entries_lem hd (suc rounds) i block j =
    ground (arith, read_entries_lem hd rounds (i + 1) (update block i (hd (i + 1))) j)

pub write_entries_lem :
    (block : ℕ → ℕ) (rounds i : ℕ) (hb : Block) (j : ℕ)
    → write_entries block rounds i hb j
      ≡ (if ltb i j && leb j (i + rounds) then block (j - 1) else hb j)
unfolding write_entries
write_entries_lem block zero i hb j = ground arith
write_entries_lem block (suc rounds) i hb j =
    ground (arith, write_entries_lem block rounds (i + 1) (update hb (i + 1) (block i)) j)
