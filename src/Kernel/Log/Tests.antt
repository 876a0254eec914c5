-- ===== src/Kernel/Log/Tests.antt =====
-- A log with one block to commit: block 40 holds sevens in the cache and zeros on the disk.
use mathlib.Core.List.{Memᴰ}
use proyecto_3_sistemas_oper.Base.{
  ℕ, ◌≡◌, ◌≢◌, ◌⊎◌, fun_ext, refl, [], ◌∷◌, ◌==◌, if◌then◌else◌, arith, true, some, done, panic,
  ◌<◌, ◌≤◌,
}
use proyecto_3_sistemas_oper.Kernel.Log.{
  max_op_blocks, Disk, Log, update, commit, write_head, write_log, boot, recovered, log_write,
  begin_op, end_op_locked, install_trans, write_log_from, write_log_one, install_from, install_one,
}
use proyecto_3_sistemas_oper.Kernel.Log.Recover.{Listing}
use proyecto_3_sistemas_oper.Kernel.Log.Crash.{once}
use proyecto_3_sistemas_oper.Kernel.Log.Commit.{Ready}
use proyecto_3_sistemas_oper.Kernel.Log.Atomic.{homes_of, commit-crash_atomic, commit_durable}
use proyecto_3_sistemas_oper.Kernel.Log.Admit.{entries, log_write-Listing}
use proyecto_3_sistemas_oper.Kernel.Log.Protocol.{
  System, begin, write, Reach, booted, later, IsSafe, Reach-IsSafe, Reach-no_panic,
}

abbrev zeros : Disk
zeros b i = 0

abbrev sevens : Disk
sevens b i = if b == 40 then 7 else 0

abbrev full : Log
full = record {
  start = 2;
  outstanding = 0;
  committing = true;
  n = 1;
  block = λ _. 40;
  disk = zeros;
  cache = sevens;
  pins = λ _. 1;
  seen = [];
}

full-Listing : Listing 2 1 (λ _. 40)
full-Listing = record {
  fits = omega arith;
  homes = λ i h. omega arith;
  distinct = λ i j h k e. omega arith;
}

full-Ready : Ready full
full-Ready = record {
  listing = full-Listing;
  empty = refl;
  clean = λ b h away. fun_ext λ i. ground (arith, away 0 (omega arith));
}

-- The disk once the header is written, with nothing in place.
abbrev committed : Disk
committed = (write_head (write_log full)).disk

commit-crash_atomic_example :
    (homes_of 2 (recovered 2 committed) ≡ homes_of 2 zeros)
    ⊎ (homes_of 2 (recovered 2 committed) ≡ homes_of 2 sevens)
unfolding commit install_trans install_from install_one write_head write_log write_log_from
    write_log_one
commit-crash_atomic_example =
    commit-crash_atomic full {d = committed} {e = committed} full-Ready refl
      (Memᴰ.tail (Memᴰ.tail (Memᴰ.head refl))) once

commit_durable_example :
    ((commit full).n ≡ 0)
    × ((commit full).disk 2 0 ≡ 0)
    × (homes_of 2 (recovered 2 (commit full).disk) ≡ homes_of 2 sevens)
commit_durable_example = commit_durable full full-Ready refl once

-- An operation is under way and has logged nothing.
abbrev empty_log : Log
empty_log = record (boot 2 zeros) { outstanding = 1 }

-- The log with block 40 written.
abbrev one_logged : Log
one_logged = record empty_log { n = 1; block = update (λ _. 0) 0 40; pins = update (λ _. 0) 40 1 }

empty-Listing : Listing 2 0 (λ _. 0)
empty-Listing = record {
  fits = omega arith;
  homes = λ i h. elim h [ ];
  distinct = λ i j h k e. elim h [ ];
}

wrote_forty : log_write 40 empty_log ≡ done one_logged
unfolding log_write boot
wrote_forty = refl

log_write-Listing_example :
    Listing 2 1 one_logged.block
    × ((j : ℕ) × j < 1 × one_logged.block j ≡ 40)
    × (entries one_logged.block 0 ≡ [])
unfolding boot
log_write-Listing_example =
    log_write-Listing 40 empty_log one_logged empty-Listing (omega arith) wrote_forty

abbrev booted_system : System
booted_system = record { log = boot 2 zeros; ops = [] }

abbrev begun : System
begun = record { log = empty_log; ops = 0 ∷ [] }

begun-Reach : Reach 2 begun
unfolding begin_op boot
begun-Reach = later (booted booted_system refl) (begin empty_log refl)

written-Reach : Reach 2 (record { log = one_logged; ops = 1 ∷ [] })
written-Reach = later begun-Reach (write 0 0 40 one_logged refl (omega arith) wrote_forty)

Reach-IsSafe_example : IsSafe (record { log = one_logged; ops = 1 ∷ [] })
Reach-IsSafe_example = Reach-IsSafe 2 written-Reach

Reach-no_panic_example :
    ((max_op_blocks ≤ 1) ⊎ (log_write 41 one_logged ≢ panic))
    × (end_op_locked one_logged ≢ some panic)
Reach-no_panic_example = Reach-no_panic 2 0 1 41 written-Reach refl
