-- ===== src/Kernel/Log/Crash.antt =====
-- Recovery after a crash: which disks a crash can leave, what `initlog` makes of them, and that a
-- crash during recovery does no harm.
use native.Mathlib.Nat.{zero-add}
use proyecto_3_sistemas_oper.Base.{
  ℕ, ◌+◌, ◌-◌, ◌<◌, ◌≡◌, ◌⊎◌, inl, inr, refl, ap, ◌∙◌, subst, [], ◌∷◌, All, true, arith,
}
use mathlib.Core.List.{Memᴰ}
use proyecto_3_sistemas_oper.Kernel.Log.{
  Block, Disk, Log, update, read_head, write_head, write_entries, read_entries, install_trans,
  install_from, recover_from_log, boot, recovered,
}
use proyecto_3_sistemas_oper.Kernel.Log.Words.{read_entries_lem, write_entries_lem}
use proyecto_3_sistemas_oper.Kernel.Log.Recover.{
  update_self, update_ne, Home, listed_cases, Listing, Clear, Committed, Installing,
  install_from_lem,
}

-- What `write_head` does: it writes the header block, and nothing else.
pub write_head_lem :
    (s : Log)
    → let hb = write_entries s.block s.n 0 (update (s.cache s.start) 0 s.n) in
      ((write_head s).disk ≡ update s.disk s.start hb)
      × ((write_head s).cache ≡ update s.cache s.start hb)
      × ((write_head s).seen ≡ (write_head s).disk ∷ s.seen)
      × ((write_head s).start ≡ s.start)
      × ((write_head s).block ≡ s.block)
      × ((write_head s).n ≡ s.n)
unfolding write_head
write_head_lem s = (
  ap (update s.disk s.start)
      (update_self s.cache s.start (write_entries s.block s.n 0 (update (s.cache s.start) 0 s.n))),
  refl,
  refl,
  refl,
  refl,
  refl,
)

-- The words of the header that `write_head` writes.
pub header_words :
    (s : Log)
    → let hb = write_entries s.block s.n 0 (update (s.cache s.start) 0 s.n) in
      (hb 0 ≡ s.n) × ((i : ℕ) → i < s.n → hb (i + 1) ≡ s.block i)
header_words s = (
  ground (arith, write_entries_lem s.block s.n 0 (update (s.cache s.start) 0 s.n) 0),
  λ i h.
      ground
        (arith, write_entries_lem s.block s.n 0 (update (s.cache s.start) 0 s.n) (i + 1), back i),
)
  where
    back : (i : ℕ) → i + 1 - 1 ≡ i
    back i = omega arith

Clear-update :
    (start : ℕ) (new d : Disk) (hb : Block)
    → hb 0 ≡ 0
    → ((b : ℕ) → Home start b → d b ≡ new b)
    → Clear start new (update d start hb)
Clear-update start new d hb e homes = record {
  header = rw (update_self d start hb) e;
  homes = λ b h. rw (update_ne d start hb b (λ q. omega arith)) (homes b h);
}

-- Writing an empty header leaves a clear disk.
pub Clear-head :
    (start : ℕ) (new : Disk) (s : Log)
    → s.start ≡ start
    → s.n ≡ 0
    → ((b : ℕ) → Home start b → s.disk b ≡ new b)
    → Clear start new (write_head s).disk
Clear-head start new s at e homes =
    subst (λ k. Clear k new (write_head s).disk) at
      (rw (write_head_lem s).0
        (Clear-update s.start new s.disk _ ((header_words s).0 ∙ e) (λ b h. homes b (rw at at h))))

-- A disk with an empty log stays as it is outside the log area; recovery passes through no other.
pub recover-Clear :
    (start : ℕ) (old d : Disk)
    → Clear start old d
    → Clear start old (recovered start d)
      × ((recover_from_log (boot start d)).seen ≡ recovered start d ∷ [])
unfolding recovered recover_from_log install_trans install_from read_head read_entries write_head
recover-Clear start old d c =
    let s : Log = record (read_head (boot start d)) { n = 0 } in
    let e : install_from true (d start 0) 0 (read_head (boot start d)) ≡ read_head (boot start d) =
      rw c.header in
    rw e (Clear-head start old s refl refl c.homes, (write_head_lem s).2)

module _ (start n : ℕ) (block : ℕ → ℕ) (new : Disk) (listing : Listing start n block) where
  -- A disk that a crash at any time after the commit can leave.
  abbrev pub Good : Disk → Type 0
  Good d = Committed start n block new d ⊎ Clear start new d

  -- With the whole log installed, every block outside the log area is the new one.
  pub installed_homes :
      (s : Log)
      → Installing start n block new listing n s
      → (b : ℕ) → Home start b
      → s.disk b ≡ new b
  installed_homes s inv b h = elim (listed_cases n block b) [
    | inl (i, lt, e) ↦ subst (λ c. s.disk c ≡ new c) e (inv.installed i lt)
    | inr away ↦ inv.disk.homes b h away
  ]

  read_head-Installing :
      (d : Disk)
      → Committed start n block new d
      → Installing start n block new listing 0 (read_head (boot start d))
  unfolding read_head boot
  read_head-Installing d c = record {
    at = refl;
    listed = λ i h.
        ground
          (arith, read_entries_lem (d start) (d start 0) 0 (λ _. 0) i, c.header, c.entries i h);
    disk = c;
    cached = c.logged;
    installed = λ i h. elim h [ ];
  }

  pub recover-Committed :
      (d : Disk)
      → Committed start n block new d
      → Clear start new (recovered start d) × All Good (recover_from_log (boot start d)).seen
  unfolding recovered recover_from_log install_trans read_head
  recover-Committed d c =
      let (inv, seen) =
        install_from_lem start n block new listing Good (λ e k. inl k) true
          (read_head (boot start d)).n 0 (read_head (boot start d))
          (zero-add (d start 0) ∙ c.header) (read_head-Installing d c) tt in
      let s1 = install_from true (read_head (boot start d)).n 0 (read_head (boot start d)) in
      let done = Clear-head start new (record s1 { n = 0 }) inv.at refl (installed_homes s1 inv) in
      (done, rw (write_head_lem (record s1 { n = 0 })).2 (inr done, seen))

-- The states of the disk over any number of crashes: each recovery may be cut short by the next.
pub data Crashes (start : ℕ) (d : Disk) : Disk → Type 1 where
  once : Crashes start d d
  again :
      {e f : Disk}
      → Crashes start d e
      → Memᴰ f (recover_from_log (boot start e)).seen
      → Crashes start d f
