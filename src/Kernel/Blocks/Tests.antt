-- ===== src/Kernel/Blocks/Tests.antt =====
-- A volume of 20 blocks of which the first ten are in use, and an inode with no blocks.
use proyecto_3_sistemas_oper.Base.{ℕ, ◌<◌, ◌≡◌, ◌⊎◌, refl, [], true, ltb, done, arith, ◌&&◌, ◌==◌}
use proyecto_3_sistemas_oper.Kernel.Blocks.{
  Dinode, Volume, fresh_inode, scan_bits, take_block, balloc_from, balloc, bfree,
}
use proyecto_3_sistemas_oper.Kernel.Blocks.Bitmap.{in_use, Allocated, balloc_lem, bfree-balloc}

abbrev small_volume : Volume
small_volume = record {
  size = 20;
  ninodes = 8;
  inodestart = 5;
  bmapstart = 7;
  bits = λ b bi. b == 7 && ltb bi 10;
  words = λ _ _. 0;
  bytes = λ _ _. 0;
  dinodes = λ _. fresh_inode 0;
  logged = [];
}

abbrev file : Dinode
file = fresh_inode 2

balloc_example :
    ((balloc small_volume ≡ (0, small_volume)) × ((c : ℕ) → c < 20 → in_use small_volume c ≡ true))
    ⊎ ((b : ℕ) × (v' : Volume) × (balloc small_volume ≡ (b, v')) × Allocated small_volume v' b)
balloc_example = balloc_lem small_volume refl

after_ten : balloc small_volume ≡ (10, take_block small_volume 0 10)
unfolding balloc balloc_from scan_bits
after_ten = refl

bfree-balloc_example :
    (v'' : Volume) × (bfree 10 (take_block small_volume 0 10) ≡ done v'')
    × ((c : ℕ) → in_use v'' c ≡ in_use small_volume c)
bfree-balloc_example =
    bfree-balloc 10 small_volume (take_block small_volume 0 10) refl after_ten (omega arith)
