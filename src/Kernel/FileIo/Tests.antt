-- ===== src/Kernel/FileIo/Tests.antt =====
-- A file without blocks on a volume of 20 blocks, open for writing.
use proyecto_3_sistemas_oper.Base.{false, ◌+◌, [], ltb, ◌&&◌, ◌==◌}
use proyecto_3_sistemas_oper.Kernel.Strings.{Memory}
use proyecto_3_sistemas_oper.Kernel.Log.{Log}
use proyecto_3_sistemas_oper.Kernel.Blocks.{Dinode, Volume, fresh_inode}
use proyecto_3_sistemas_oper.Kernel.FileData.{CopyIn}

abbrev volume : Volume
volume = record {
  size = 20;
  ninodes = 8;
  inodestart = 5;
  bmapstart = 7;
  bits = λ b bi. b == 7 && ltb bi 10;
  words = λ _ _. 0;
  bytes = λ _ _. 0;
  dinodes = λ _. fresh_inode 0;
  logged = [];
}

abbrev file : Dinode
file = fresh_inode 2

abbrev memory : Memory
memory a = a + 7

-- A copy from the user that fails after 100 bytes.
abbrev faulty : CopyIn Memory
faulty src len m = (100, (λ i. m (src + i)), m)

abbrev open_log : Log
open_log = record {
  start = 2;
  outstanding = 1;
  committing = false;
  n = 5;
  block = λ i. 11 + i;
  disk = λ _ _. 0;
  cache = λ _ _. 0;
  pins = λ _. 1;
  seen = [];
}
