-- ===== src/Kernel/Virtio.antt =====
-- kernel/virtio_disk.c: the descriptors of the disk's queue and the requests made of them. The
-- device's registers are not in it, and what the device has put into its used ring since the last
-- interrupt is an argument. `vdisk_lock` is held throughout; a process that waits gives it up, so a
-- request is two operations, `submit` and `finish`.
pub mod Descriptors
pub mod Requests
mod Tests
use proyecto_3_sistemas_oper.Base.{
  ℕ, zero, suc, ◌+◌, ◌*◌, ◌/◌, ◌%◌, ◌^◌, ◌==◌, leb, Bool, true, false, if◌then◌else◌, Option, none,
  some, List, [], ◌∷◌, Outcome, done, panic, ◌>>=◌,
}
use proyecto_3_sistemas_oper.Kernel.Params.{bsize}

-- `NUM`
abbrev pub num : ℕ
num = 8

-- `VRING_DESC_F_NEXT`, `VRING_DESC_F_WRITE` and both
abbrev pub f_next : ℕ
f_next = 1

abbrev pub f_write : ℕ
f_write = 2

abbrev pub f_write_next : ℕ
f_write_next = 3

pub record Desc : Type 0 where
  pub addr : ℕ
  pub len : ℕ
  pub flags : ℕ
  pub next : ℕ

abbrev pub no_desc : Desc
no_desc = record { addr = 0; len = 0; flags = 0; next = 0 }

-- `struct virtio_blk_req`
pub record Request : Type 0 where
  pub type_of : ℕ
  pub reserved : ℕ
  pub sector : ℕ

-- `struct disk` and the available ring. A buffer is its address; `busy` is its member `disk`.
-- `ops_at` and `status_at` are the addresses of `disk.ops[i]` and of `disk.info[i].status`.
pub record Disk : Type 0 where
  pub desc : ℕ → Desc
  pub free : ℕ → Bool
  pub ring : ℕ → ℕ
  pub idx : ℕ
  pub used_idx : ℕ
  pub status : ℕ → ℕ
  pub buf_of : ℕ → ℕ
  pub ops : ℕ → Request
  pub busy : ℕ → Bool
  pub ops_at : ℕ → ℕ
  pub status_at : ℕ → ℕ

abbrev pub set_free : ℕ → Bool → Disk → Disk
set_free i on d = record d { free = λ c. if c == i then on else d.free c }

abbrev pub set_desc : ℕ → Desc → Disk → Disk
set_desc i e d = record d { desc = λ c. if c == i then e else d.desc c }

-- The loop of `alloc_desc` from i on.
pub alloc_desc_from : ℕ → ℕ → Disk → Option ℕ × Disk
alloc_desc_from zero i d = (none, d)
alloc_desc_from (suc rounds) i d =
    let rest = alloc_desc_from rounds (i + 1) d in
    if d.free i then (some i, set_free i false d) else rest

pub alloc_desc : Disk → Option ℕ × Disk
unfolding alloc_desc_from
alloc_desc d = alloc_desc_from num 0 d

pub free_desc : ℕ → Disk → Outcome Disk
free_desc i d =
    if leb num i
    then panic
    else if d.free i
    then panic
    else done (set_free i true (set_desc i no_desc d))

-- The fuel bounds the length of the chain; a chain frees NUM descriptors at most, or panics.
pub free_chain : ℕ → ℕ → Disk → Outcome Disk
unfolding free_desc
free_chain zero i d = panic
free_chain (suc fuel) i d =
    let e = d.desc i in
    let rest = free_desc i d >>= free_chain fuel e.next in
    if e.flags % 2 == 1 then rest else free_desc i d

-- The three rounds of `alloc3_desc`, each after its `alloc_desc`: those taken before are given back
-- if there is no other.
abbrev pub after_third : ℕ → ℕ → Option ℕ × Disk → Outcome (Option (ℕ × ℕ × ℕ) × Disk)
after_third i j (none, d) = free_desc i d >>= free_desc j >>= λ d'. done (none, d')
after_third i j (some k, d) = done (some (i, j, k), d)

abbrev pub after_second : ℕ → Option ℕ × Disk → Outcome (Option (ℕ × ℕ × ℕ) × Disk)
after_second i (none, d) = free_desc i d >>= λ d'. done (none, d')
after_second i (some j, d) = after_third i j (alloc_desc d)

abbrev pub after_first : Option ℕ × Disk → Outcome (Option (ℕ × ℕ × ℕ) × Disk)
after_first (none, d) = done (none, d)
after_first (some i, d) = after_second i (alloc_desc d)

-- `alloc3_desc`: the members of `idx`, or `none` for -1.
pub alloc3_desc : Disk → Outcome (Option (ℕ × ℕ × ℕ) × Disk)
alloc3_desc d = after_first (alloc_desc d)

-- The three descriptors of a request for the block blockno, whose data is at `data`.
abbrev pub format : ℕ → ℕ → ℕ → ℕ → ℕ → Bool → Disk → Disk
format i j k blockno buf_data write d =
    let req : Request = record {
      type_of = if write then 1 else 0;
      reserved = 0;
      sector = blockno * (bsize / 512);
    } in
    let first : Desc = record { addr = d.ops_at i; len = 16; flags = f_next; next = j } in
    let second : Desc = record {
      addr = buf_data;
      len = bsize;
      flags = if write then f_next else f_write_next;
      next = k;
    } in
    let third : Desc = record { addr = d.status_at i; len = 1; flags = f_write; next = 0 } in
    let d' = set_desc k third (set_desc j second (set_desc i first d)) in
    record d' {
      ops = λ c. if c == i then req else d.ops c;
      status = λ c. if c == i then 0xff else d.status c;
    }

-- `b->disk = 1;` up to `disk.avail->idx += 1;`
abbrev pub announce : ℕ → ℕ → Disk → Disk
announce i b d = record d {
  busy = λ c. if c == b then true else d.busy c;
  buf_of = λ c. if c == i then b else d.buf_of c;
  ring = λ c. if c == d.idx % num then i else d.ring c;
  idx = (d.idx + 1) % 2 ^ 16;
}

abbrev pub after_alloc : ℕ → ℕ → ℕ → Bool → Option (ℕ × ℕ × ℕ) × Disk → Option ℕ × Disk
after_alloc b blockno buf_data write (none, d) = (none, d)
after_alloc b blockno buf_data write (some (i, j, k), d) =
    (some i, announce i b (format i j k blockno buf_data write d))

-- `virtio_disk_rw` of the buffer b up to its wait: the first descriptor, or `none` where it sleeps
-- because fewer than three are free.
pub submit : ℕ → ℕ → ℕ → Bool → Disk → Outcome (Option ℕ × Disk)
submit b blockno buf_data write d =
    alloc3_desc d >>= λ r. done (after_alloc b blockno buf_data write r)

-- The rest of `virtio_disk_rw`, once `b->disk` is 0.
pub finish : ℕ → Disk → Outcome Disk
finish i d = free_chain num i (record d { buf_of = λ c. if c == i then 0 else d.buf_of c })

-- One round of `virtio_disk_intr`, for the chain that begins with id.
abbrev pub completed : ℕ → Disk → Disk
completed id d = record d {
  busy = λ c. if c == d.buf_of id then false else d.busy c;
  used_idx = (d.used_idx + 1) % 2 ^ 16;
}

-- `virtio_disk_intr` with the entries of the used ring that it has not looked at.
pub virtio_disk_intr : List ℕ → Disk → Outcome Disk
virtio_disk_intr [] d = done d
virtio_disk_intr (id ∷ ids) d =
    let rest = virtio_disk_intr ids (completed id d) in if d.status id == 0 then rest else panic
