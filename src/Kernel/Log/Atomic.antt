-- ===== src/Kernel/Log/Atomic.antt =====
-- Commits are atomic and durable: after a crash at any write of the commit, and any number of
-- crashes during the recoveries that follow, the next recovery gives all old blocks or all new
-- ones.
use mathlib.Core.List.{Memᴰ}
use proyecto_3_sistemas_oper.Base.{
  ℕ, ◌+◌, ◌≡◌, fun_ext, Bool-cases, leb, ◌&&◌, if◌then◌else◌, arith, ◌⊎◌, inl, inr, sym, subst, [],
  ◌∷◌, All, All-mem,
}
use proyecto_3_sistemas_oper.Kernel.Params.{log_blocks}
use proyecto_3_sistemas_oper.Kernel.Log.{Disk, Log, commit, boot, recovered, recover_from_log}
use proyecto_3_sistemas_oper.Kernel.Log.Recover.{Home, Listing, Clear}
use proyecto_3_sistemas_oper.Kernel.Log.Crash.{
  Good, Crashes, once, again, recover-Clear, recover-Committed,
}
use proyecto_3_sistemas_oper.Kernel.Log.Commit.{Ready, OnTheWay, commit-OnTheWay}

-- A crash during recovery leaves a clear disk clear, with the same blocks.
Clear-Crashes :
    (start : ℕ) (old : Disk) {d e : Disk}
    → Clear start old d
    → Crashes start d e
    → Clear start old e
Clear-Crashes start old c once = c
Clear-Crashes start old c (again {e} {f} path m) =
    let (clear, seen) = recover-Clear start old e (Clear-Crashes start old c path) in
    All-mem (Clear start old) (recovered start e ∷ []) (clear, tt) (subst (Memᴰ f) seen m)

module _ (start n : ℕ) (block : ℕ → ℕ) (new : Disk) (listing : Listing start n block) where
  abbrev New : Disk → Type 0
  New = Good start n block new listing

  Good-recovers : (d : Disk) → New d → Clear start new (recovered start d)
  Good-recovers d (inl c) = (recover-Committed start n block new listing d c).0
  Good-recovers d (inr c) = (recover-Clear start new d c).0

  Good-seen : (d : Disk) → New d → All New (recover_from_log (boot start d)).seen
  Good-seen d (inl c) = (recover-Committed start n block new listing d c).1
  Good-seen d (inr c) =
      let (clear, seen) = recover-Clear start new d c in subst (All New) (sym seen) (inr clear, tt)

  Good-Crashes : {d e : Disk} → New d → Crashes start d e → New e
  Good-Crashes g once = g
  Good-Crashes g (again {e} {f} path m) =
      All-mem New (recover_from_log (boot start e)).seen (Good-seen e (Good-Crashes g path)) m

-- The disk with its log area, which is the header at `start` and the log blocks behind it, blanked
-- out.
abbrev pub homes_of : ℕ → Disk → Disk
homes_of start d b = if leb start b && leb b (start + log_blocks) then (λ _. 0) else d b

homes_of-eq :
    (start : ℕ) (d e : Disk)
    → ((b : ℕ) → Home start b → d b ≡ e b)
    → homes_of start d ≡ homes_of start e
homes_of-eq start d e h = fun_ext λ b.
    elim (Bool-cases (leb start b && leb b (start + log_blocks))) [
      | inl inside ↦ rw inside
      | inr outside ↦ rw outside (h b (ground arith))
    ]

-- Let a commit start in a state where its transaction can be logged, the disk's log is empty, and
-- cache and disk agree outside the transaction. If a crash leaves any of the disks on the way, and
-- recovery is cut short by further crashes any number of times, then the recovery that completes
-- gives, outside the log area, either all blocks as they were on the disk before the commit or all
-- blocks as they were in the cache.
pub commit-crash_atomic :
    (s : Log) {d e : Disk}
    → Ready s
    → s.seen ≡ []
    → Memᴰ d (commit s).seen
    → Crashes s.start d e
    → (homes_of s.start (recovered s.start e) ≡ homes_of s.start s.disk)
      ⊎ (homes_of s.start (recovered s.start e) ≡ homes_of s.start s.cache)
commit-crash_atomic s {d} {e} ready fresh m path =
    conclude (All-mem (OnTheWay s ready) (commit s).seen (commit-OnTheWay s ready fresh).0 m)
  where
    conclude :
        OnTheWay s ready d
        → (homes_of s.start (recovered s.start e) ≡ homes_of s.start s.disk)
          ⊎ (homes_of s.start (recovered s.start e) ≡ homes_of s.start s.cache)
    conclude (inl old) = inl (
        homes_of-eq s.start _ _
          (recover-Clear s.start s.disk e (Clear-Crashes s.start s.disk old path)).0.homes)
    conclude (inr new) = inr (
        homes_of-eq s.start _ _
          (Good-recovers s.start s.n s.block s.cache ready.listing e
            (Good-Crashes s.start s.n s.block s.cache ready.listing new path)).homes)

-- Once such a commit has returned, the log is empty, in memory and on the disk, and whatever
-- crashes follow, recovery gives, outside the log area, all blocks as they were in the cache.
pub commit_durable :
    (s : Log) {e : Disk}
    → Ready s
    → s.seen ≡ []
    → Crashes s.start (commit s).disk e
    → ((commit s).n ≡ 0)
      × ((commit s).disk s.start 0 ≡ 0)
      × (homes_of s.start (recovered s.start e) ≡ homes_of s.start s.cache)
commit_durable s {e} ready fresh path =
    let (_, clear, empty) = commit-OnTheWay s ready fresh in
    (
      empty,
      clear.header,
      homes_of-eq s.start _ _
          (recover-Clear s.start s.cache e (Clear-Crashes s.start s.cache clear path)).0.homes,
    )
