-- ===== src/Kernel/FileData/Tests.antt =====
-- A file without blocks on a volume of 20 blocks of which the first ten are in use.
use proyecto_3_sistemas_oper.Base.{
  ℕ, ◌+◌, ◌≤◌, ◌<◌, ◌≡◌, ◌⊎◌, refl, [], some, ltb, done, arith, ◌&&◌, ◌==◌, ◌/◌, ◌≢◌, List, ◌++◌,
  false, if◌then◌else◌, Bool-cases, inl, inr, eqb→eq, sym, ◌∙◌,
}
use proyecto_3_sistemas_oper.Kernel.Strings.{Memory}
use proyecto_3_sistemas_oper.Kernel.Blocks.{Dinode, Volume, fresh_inode, bmap}
use proyecto_3_sistemas_oper.Kernel.Blocks.Slots.{Placed, slot}
use proyecto_3_sistemas_oper.Kernel.Blocks.Growth.{slot_of, content}
use proyecto_3_sistemas_oper.Kernel.Blocks.Mapping.{Full, Found, bmap_lem}
use proyecto_3_sistemas_oper.Kernel.FileData.{to_kernel, from_kernel, readi, writei}
use proyecto_3_sistemas_oper.Kernel.FileData.Read.{available}
use proyecto_3_sistemas_oper.Kernel.FileData.Bytes.{overwritten}
use proyecto_3_sistemas_oper.Kernel.FileData.Whole.{Backed, readi_whole, readi-writei}
use proyecto_3_sistemas_oper.Kernel.Log.{Log}
use proyecto_3_sistemas_oper.Kernel.Log.Replay.{replay}
use proyecto_3_sistemas_oper.Kernel.FileData.Written.{Written}

abbrev volume : Volume
volume = record {
  size = 20;
  ninodes = 8;
  inodestart = 5;
  bmapstart = 7;
  bits = λ b bi. b == 7 && ltb bi 10;
  words = λ _ _. 0;
  bytes = λ _ _. 0;
  dinodes = λ _. fresh_inode 0;
  logged = [];
}

abbrev file : Dinode
file = fresh_inode 2

abbrev memory : Memory
memory a = a + 7

no_slot : (k : ℕ) → slot k file volume ≡ 0
no_slot k = ground arith

volume-Placed : Placed file volume
volume-Placed = record {
  boot = refl;
  used = λ k h ne. absurd (ne (no_slot k));
  distinct = λ k l hk hl ne e. absurd (ne (no_slot k));
}

bmap_example :
    (a : ℕ) × (ip' : Dinode) × (v' : Volume) × (bmap 40 file volume ≡ done (a, ip', v'))
    × Found (slot_of 40) file volume a ip' v'
bmap_example = bmap_lem 40 file volume (omega arith) volume-Placed

-- A log in a transaction, with nothing logged yet.
abbrev open_log : Log
open_log = record {
  start = 2;
  outstanding = 1;
  committing = false;
  n = 0;
  block = λ _. 0;
  cache = λ _ _. 0;
  pins = λ _. 0;
  disk = λ _ _. 0;
  seen = [];
}

-- A file of 100 bytes, in block 8.
abbrev short_file : Dinode
short_file = record (fresh_inode 2) { size = 100; addrs = λ i. if i == 0 then 8 else 0 }

first_slot : (k : ℕ) → slot k short_file volume ≢ 0 → k ≡ 0
first_slot k ne = elim (Bool-cases (k == 0)) [
  | inl z ↦ eqb→eq k 0 z
  | inr away ↦ absurd (ne (ground (arith, away)))
]

short_file-Placed : Placed short_file volume
short_file-Placed = record {
  boot = refl;
  used = λ k h ne. rw (first_slot k ne) refl;
  distinct = λ k l hk hl ne e. first_slot k ne ∙ sym (first_slot l (λ z. ne (e ∙ z)));
}

short_file-Backed : (end : ℕ) → end ≤ 100 → Backed 0 end short_file volume
short_file-Backed end le p ge lt z =
    let first : p / 1024 ≡ 0 = omega (arith, lt, le) in no_block (rw first at z)
  where
    no_block : ◌≡◌ {A = ℕ} 8 0 → ⊥
    no_block e = omega (arith, e)

readi_whole_example :
    (mem' : Memory) × (readi to_kernel 100 0 1500 memory short_file volume
      ≡ done (some 100, mem', short_file, volume))
    × ((a : ℕ) → mem' a ≡ overwritten 100 100 (λ i. content short_file volume (0 + i)) memory a)
readi_whole_example =
    readi_whole 100 0 1500 memory short_file volume (omega arith) (omega arith) (omega arith)
      short_file-Placed (short_file-Backed (0 + available 100 0 1500) (omega arith))

readi-writei_example :
    (k : ℕ) × (ip' : Dinode) × (v' : Volume) × (writei from_kernel 3 100 0 1500 memory file volume
      ≡ done (some k, memory, ip', v'))
    × ((k ≡ 1500) ⊎ Full v')
    × (calls : List ℕ) × (l' : Log) × (v'.logged ≡ calls ++ [])
    × (replay calls open_log ≡ done l')
    × (mem' : Memory) × (readi to_kernel 9000 0 k memory ip' v' ≡ done (some k, mem', ip', v'))
    × ((i : ℕ) → i < k → mem' (9000 + i) ≡ memory (100 + i))
readi-writei_example =
    readi-writei 3 100 9000 0 1500 memory file volume open_log (omega arith) (omega arith)
      (omega arith) volume-Placed (omega arith) (omega arith)
