-- ===== src/Kernel/Virtio/Tests.antt =====
-- A disk of whose eight descriptors the first is in use.
use proyecto_3_sistemas_oper.Base.{
  ℕ, ◌≡◌, ◌⊎◌, true, false, ◌==◌, not, none, some, done, if◌then◌else◌, ◌+◌, ◌*◌,
}
use proyecto_3_sistemas_oper.Kernel.Virtio.{Disk, no_desc, submit, finish}
use proyecto_3_sistemas_oper.Kernel.Virtio.Descriptors.{TooFew}
use proyecto_3_sistemas_oper.Kernel.Virtio.Requests.{one_of, Unchanged, finish-submit}

abbrev disk : Disk
disk = record {
  desc = λ _. no_desc;
  free = λ c. not (c == 0);
  ring = λ _. 0;
  idx = 65535;
  used_idx = 65535;
  status = λ _. 0;
  buf_of = λ _. 0;
  ops = λ _. record { type_of = 0; reserved = 0; sector = 0 };
  busy = λ _. false;
  ops_at = λ i. 16 * i;
  status_at = λ i. 1000 + i;
}

finish-submit_example :
    ((d' : Disk) × (submit 500 33 600 true disk ≡ done (none, d')) × TooFew disk d')
    ⊎ ((i : ℕ) × (j : ℕ) × (k : ℕ) × (d' : Disk) × (submit 500 33 600 true disk ≡ done (some i, d'))
        × ((later : Disk)
            → Unchanged i j k d' later
            → (d'' : Disk) × (finish i later ≡ done d'')
              × ((c : ℕ) → d''.free c ≡ (if one_of i j k c then disk.free c else later.free c))))
finish-submit_example = finish-submit 500 33 600 true disk
