-- ===== src/Kernel/Log/Commit.antt =====
-- The commit, write by write: the disk is clear with the old blocks until the header is written,
-- and from then on has the whole transaction in its log or in place.
use native.Mathlib.Nat.{zero-add}
use proyecto_3_sistemas_oper.Base.{
  ℕ, zero, suc, ◌+◌, ◌<◌, ◌≡◌, ◌≢◌, ◌⊎◌, inl, inr, refl, sym, ap, ap₂, ◌∙◌, subst, [], ◌∷◌, All,
  All-map, ◌==◌, ltb, false, eqb_refl, Bool-cases, eqb→eq, arith,
}
use proyecto_3_sistemas_oper.Kernel.Log.{
  Block, Disk, Log, update, write_head, write_entries, write_log_one, write_log_from, write_log,
  install_trans, install_from, commit,
}
use proyecto_3_sistemas_oper.Kernel.Log.Recover.{
  update_self, update_ne, Home, Unlisted, Listing, Clear, Committed, Installing, install_from_lem,
}
use proyecto_3_sistemas_oper.Kernel.Log.Crash.{
  write_head_lem, header_words, Clear-head, Good, installed_homes,
}

-- A state in which a transaction may be committed: its blocks can be logged, the log on the disk
-- is empty, and what is not in the transaction is the same in the cache and on the disk.
pub record Ready (s : Log) : Type 0 where
  pub listing : Listing s.start s.n s.block
  pub empty : s.disk s.start 0 ≡ 0
  pub clean : (b : ℕ) → Home s.start b → Unlisted s.block s.n b → s.cache b ≡ s.disk b

write_log_one_raw :
    (t : ℕ) (s : Log)
    → let s' = write_log_one t s in
      let to = s.start + t + 1 in
      (s'.start ≡ s.start)
      × (s'.block ≡ s.block)
      × (s'.disk ≡ update s.disk to (s.cache (s.block t)))
      × (s'.cache ≡ update s.cache to (s.cache (s.block t)))
      × (s'.n ≡ s.n)
      × (s'.seen ≡ s'.disk ∷ s.seen)
unfolding write_log_one
write_log_one_raw t s = (refl, refl, rw (eqb_refl (s.start + t + 1)), refl, refl, refl)

module _ (s0 : Log) (ready : Ready s0) where
  -- The state of `write_log` before the round at t.
  record Logging (t : ℕ) (s : Log) : Type 0 where
    at : s.start ≡ s0.start
    listed : s.block ≡ s0.block
    count : s.n ≡ s0.n
    homes : (b : ℕ) → Home s0.start b → s.cache b ≡ s0.cache b
    cached : (i : ℕ) → i < t → s.cache (s0.start + i + 1) ≡ s0.cache (s0.block i)
    disk : Clear s0.start s0.disk s.disk
    logged : (i : ℕ) → i < t → s.disk (s0.start + i + 1) ≡ s0.cache (s0.block i)

  abbrev Old : Disk → Type 0
  Old = Clear s0.start s0.disk

  Logging-step : (t : ℕ) (s : Log) → t < s0.n → Logging t s → Logging (t + 1) (write_log_one t s)
  Logging-step t s lt inv =
      let (at', block', disk0, cache0, n', _) = write_log_one_raw t s in
      let disk' : (write_log_one t s).disk ≡ update s.disk to v =
        disk0 ∙ ap₂ (update s.disk) to≡ v≡ in
      let cache' : (write_log_one t s).cache ≡ update s.cache to v =
        cache0 ∙ ap₂ (update s.cache) to≡ v≡ in
      record {
        at = at' ∙ inv.at;
        listed = block' ∙ inv.listed;
        count = n' ∙ inv.count;
        homes = λ b h. rw (cache', update_ne s.cache to v b (away b h)) (inv.homes b h);
        cached = λ i h. rw cache' (log_block s.cache inv.cached i h);
        disk = rw disk' (Clear-log inv.disk);
        logged = λ i h. rw disk' (log_block s.disk inv.logged i h);
      }
    where
      to : ℕ
      to = s0.start + t + 1

      v : Block
      v = s0.cache (s0.block t)

      to≡ : s.start + t + 1 ≡ to
      to≡ = ap (λ k. k + t + 1) inv.at

      v≡ : s.cache (s.block t) ≡ v
      v≡ = ap (λ f. s.cache (f t)) inv.listed ∙ inv.homes (s0.block t) (ready.listing.homes t lt)

      away : (b : ℕ) → Home s0.start b → to ≢ b
      away b h e = omega (arith, ready.listing.fits)

      Clear-log : Clear s0.start s0.disk s.disk → Clear s0.start s0.disk (update s.disk to v)
      Clear-log c = record {
        header = rw (update_ne s.disk to v s0.start (λ e. omega arith)) c.header;
        homes = λ b h. rw (update_ne s.disk to v b (away b h)) (c.homes b h);
      }

      log_block :
          (f : Disk)
          → ((i : ℕ) → i < t → f (s0.start + i + 1) ≡ s0.cache (s0.block i))
          → (i : ℕ) → i < t + 1
          → update f to v (s0.start + i + 1) ≡ s0.cache (s0.block i)
      log_block f old i h = elim (Bool-cases (i == t)) [
        | inl q ↦ rw (eqb→eq i t q, update_self f to v)
        | inr q ↦
            rw (update_ne f to v (s0.start + i + 1) (λ e. ground arith)) (old i (ground arith))
      ]

  write_log_from_lem :
      (rounds t : ℕ) (s : Log)
      → t + rounds ≡ s0.n
      → Logging t s
      → All Old s.seen
      → Logging s0.n (write_log_from rounds t s) × All Old (write_log_from rounds t s).seen
  unfolding write_log_from
  write_log_from_lem zero t s e inv seen =
      let q : t ≡ s0.n = omega arith in (subst (λ k. Logging k s) q inv, seen)
  write_log_from_lem (suc rounds) t s e inv seen =
      let inv' = Logging-step t s (omega arith) inv in
      write_log_from_lem rounds (t + 1) (write_log_one t s) (omega arith) inv'
        (rw (write_log_one_raw t s).5 (inv'.disk, seen))

  abbrev New : Disk → Type 0
  New = Good s0.start s0.n s0.block s0.cache ready.listing

  -- The header is written: the transaction is committed and nothing of it is in place.
  write_head-Installing :
      (s : Log)
      → Logging s0.n s
      → Installing s0.start s0.n s0.block s0.cache ready.listing 0 (write_head s)
  write_head-Installing s inv =
      let (disk', cache', _, at', block', _) = write_head_lem s in
      record {
        at = at' ∙ inv.at;
        listed = λ i h. ap (λ f. f i) (block' ∙ inv.listed);
        disk = rw disk' (
            subst (λ k. Committed s0.start s0.n s0.block s0.cache (update s.disk k hb)) (sym inv.at)
              committed);
        cached = λ i h.
            rw
              (cache', update_ne s.cache s.start hb (s0.start + i + 1) (λ e. omega (arith, inv.at)))
              (inv.cached i h);
        installed = λ i h. elim h [ ];
      }
    where
      hb : Block
      hb = write_entries s.block s.n 0 (update (s.cache s.start) 0 s.n)

      committed : Committed s0.start s0.n s0.block s0.cache (update s.disk s0.start hb)
      committed = record {
        header = rw (update_self s.disk s0.start hb) ((header_words s).0 ∙ inv.count);
        entries = λ i h.
            rw (update_self s.disk s0.start hb)
              ((header_words s).1 i (rw inv.count h) ∙ ap (λ f. f i) inv.listed);
        logged = λ i h.
            rw (update_ne s.disk s0.start hb (s0.start + i + 1) (λ e. omega arith))
              (inv.logged i h);
        homes = λ b h away.
            rw (update_ne s.disk s0.start hb b (λ e. omega arith))
              (inv.disk.homes b h ∙ sym (ready.clean b h away));
      }

  start_Logging : Logging 0 s0
  start_Logging = record {
    at = refl;
    listed = refl;
    count = refl;
    homes = λ b h. refl;
    cached = λ i h. elim h [ ];
    disk = record { header = ready.empty; homes = λ b h. refl };
    logged = λ i h. elim h [ ];
  }

  -- Every disk on the way is the old one with an empty log, or leads to the new one.
  abbrev pub OnTheWay : Disk → Type 0
  OnTheWay d = Clear s0.start s0.disk d ⊎ Good s0.start s0.n s0.block s0.cache ready.listing d

  pub commit-OnTheWay :
      s0.seen ≡ []
      → All OnTheWay (commit s0).seen × Clear s0.start s0.cache (commit s0).disk × (commit s0).n ≡ 0
  unfolding commit write_log install_trans
  commit-OnTheWay fresh = elim (Bool-cases (ltb 0 s0.n)) [
    | inl some_blocks ↦ rw some_blocks committed
    | inr no_block ↦ rw no_block (rw fresh tt, unchanged no_block, ground arith)
  ]
    where
      unchanged : ltb 0 s0.n ≡ false → Clear s0.start s0.cache s0.disk
      unchanged e = record {
        header = ready.empty;
        homes = λ b h. sym (ready.clean b h (λ i lt. ground arith));
      }

      s1 : Log
      s1 = write_log_from s0.n 0 s0

      logged : Logging s0.n s1 × All Old s1.seen
      logged = write_log_from_lem s0.n 0 s0 (zero-add s0.n) start_Logging (rw fresh tt)

      s2 : Log
      s2 = write_head s1

      inv2 : Installing s0.start s0.n s0.block s0.cache ready.listing 0 s2
      inv2 = write_head-Installing s1 logged.0

      seen2 : All OnTheWay s2.seen
      seen2 =
          rw (write_head_lem s1).2
            (inr (inl inv2.disk), All-map Old OnTheWay (λ d c. inl c) s1.seen logged.1)

      s3 : Log
      s3 = install_from false s2.n 0 s2

      installed :
          Installing s0.start s0.n s0.block s0.cache ready.listing s0.n s3 × All OnTheWay s3.seen
      installed =
          install_from_lem s0.start s0.n s0.block s0.cache ready.listing OnTheWay
            (λ d c. inr (inl c)) false s2.n 0 s2
            (zero-add s2.n ∙ (write_head_lem s1).5 ∙ logged.0.count) inv2 seen2

      s4 : Log
      s4 = record s3 { n = 0 }

      cleared : Clear s0.start s0.cache (write_head s4).disk
      cleared =
          Clear-head s0.start s0.cache s4 installed.0.at refl
            (installed_homes s0.start s0.n s0.block s0.cache ready.listing s3 installed.0)

      committed :
          All OnTheWay (write_head s4).seen
          × Clear s0.start s0.cache (write_head s4).disk
          × (write_head s4).n ≡ 0
      committed = (
        rw (write_head_lem s4).2 (inr (inr cleared), installed.1),
        cleared,
        (write_head_lem s4).5,
      )
