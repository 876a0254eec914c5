-- ===== src/Kernel/Log/Recover.antt =====
-- The disks between two transactions and inside one, and what installing the log does to them.
use proyecto_3_sistemas_oper.Base.{
  ℕ, zero, suc, ◌+◌, ◌≤◌, ◌<◌, ◌≡◌, ◌≢◌, ◌⊎◌, inl, inr, refl, ap, ap₂, subst, ◌∙◌, ◌∷◌, All, ◌==◌,
  Bool, true, false, eqb_refl, eqb_of_ne, Bool-cases, eqb→eq, arith,
}
use proyecto_3_sistemas_oper.Kernel.Params.{log_blocks}
use proyecto_3_sistemas_oper.Kernel.Log.{Block, Disk, Log, update, install_one, install_from}

pub update_self {ℓ} : {A : Type ℓ} (f : ℕ → A) (b : ℕ) (v : A) → update f b v b ≡ v
update_self f b v = rw (eqb_refl b)

pub update_ne {ℓ} : {A : Type ℓ} (f : ℕ → A) (b : ℕ) (v : A) (c : ℕ) → b ≢ c → update f b v c ≡ f c
update_ne f b v c h = rw (eqb_of_ne b c h)

-- A block outside the log area, which is the header at `start` and the log blocks behind it.
abbrev pub Home : ℕ → ℕ → Type 0
Home start b = (b < start) ⊎ (start + log_blocks < b)

abbrev pub Unlisted : (ℕ → ℕ) → ℕ → ℕ → Type 0
Unlisted block n b = (i : ℕ) → i < n → block i ≢ b

-- A block is listed, at a place that is found, or it is not.
pub listed_cases :
    (n : ℕ) (block : ℕ → ℕ) (b : ℕ) → ((i : ℕ) × i < n × block i ≡ b) ⊎ Unlisted block n b
listed_cases zero block b = inr (λ i h. elim h [ ])
listed_cases (suc n) block b = elim (listed_cases n block b) [
  | inl (i, h, e) ↦ inl (i, omega arith, e)
  | inr none_below ↦ elim (Bool-cases (block n == b)) [
    | inl here ↦ inl (n, omega arith, eqb→eq (block n) b here)
    | inr away ↦ inr (λ i h e. elim (Bool-cases (i == n)) [
      | inl q ↦ ground (arith, eqb→eq i n q)
      | inr q ↦ none_below i (ground arith) e
    ])
  ]
]

-- A log that can be written: it fits, and lists distinct blocks outside the log area.
pub record Listing (start n : ℕ) (block : ℕ → ℕ) : Type 0 where
  pub fits : n ≤ log_blocks
  pub homes : (i : ℕ) → i < n → Home start (block i)
  pub distinct : (i j : ℕ) → i < n → j < n → block i ≡ block j → i ≡ j

-- A disk with an empty log whose blocks outside the log area are those of `old`.
pub record Clear (start : ℕ) (old : Disk) (d : Disk) : Type 0 where
  pub header : d start 0 ≡ 0
  pub homes : (b : ℕ) → Home start b → d b ≡ old b

-- A disk with a committed log that leads to the blocks of `new`.
pub record Committed (start n : ℕ) (block : ℕ → ℕ) (new : Disk) (d : Disk) : Type 0 where
  pub header : d start 0 ≡ n
  pub entries : (i : ℕ) → i < n → d start (i + 1) ≡ block i
  pub logged : (i : ℕ) → i < n → d (start + i + 1) ≡ new (block i)
  pub homes : (b : ℕ) → Home start b → Unlisted block n b → d b ≡ new b

-- What one round of `install_trans` changes.
pub install_one_raw :
    (recovering : Bool) (t : ℕ) (s : Log)
    → let s' = install_one recovering t s in
      let v = s.cache (s.start + t + 1) in
      (s'.start ≡ s.start)
      × (s'.block ≡ s.block)
      × (s'.disk ≡ update s.disk (s.block t) v)
      × (s'.cache ≡ update s.cache (s.block t) v)
      × (s'.n ≡ s.n)
      × (s'.seen ≡ s'.disk ∷ s.seen)
unfolding install_one
install_one_raw true t s = (refl, refl, rw (eqb_refl (s.block t)), refl, refl, refl)
install_one_raw false t s = (refl, refl, rw (eqb_refl (s.block t)), refl, refl, refl)

module _ (start n : ℕ) (block : ℕ → ℕ) (new : Disk) (listing : Listing start n block) where
  -- The state of `install_trans` before the round at t.
  pub record Installing (t : ℕ) (s : Log) : Type 0 where
    pub at : s.start ≡ start
    pub listed : (i : ℕ) → i < n → s.block i ≡ block i
    pub disk : Committed start n block new s.disk
    pub cached : (i : ℕ) → i < n → s.cache (start + i + 1) ≡ new (block i)
    pub installed : (i : ℕ) → i < t → s.disk (block i) ≡ new (block i)

  pub Home-ne_log : (b i : ℕ) → Home start b → i < n → b ≢ start + i + 1
  Home-ne_log b i h lt e = omega (arith, listing.fits)

  pub Home-ne_start : (b : ℕ) → Home start b → b ≢ start
  Home-ne_start b h e = omega arith

  -- What a round writes, in the terms of the section.
  install_one_lem :
      (recovering : Bool) (t : ℕ) (s : Log)
      → t < n
      → Installing t s
      → let s' = install_one recovering t s in
        (s'.disk ≡ update s.disk (block t) (new (block t)))
        × (s'.cache ≡ update s.cache (block t) (new (block t)))
  install_one_lem recovering t s lt inv =
      let (_, _, disk', cache', _, _) = install_one_raw recovering t s in
      let v : s.cache (s.start + t + 1) ≡ new (block t) = rw inv.at (inv.cached t lt) in
      (
        disk' ∙ ap₂ (update s.disk) (inv.listed t lt) v,
        cache' ∙ ap₂ (update s.cache) (inv.listed t lt) v,
      )

  -- Installing one more block keeps the log and the other blocks.
  Committed-install :
      (t : ℕ) (d : Disk)
      → t < n
      → Committed start n block new d
      → Committed start n block new (update d (block t) (new (block t)))
  Committed-install t d lt c = record {
    header = rw (update_ne d (block t) v start (Home-ne_start (block t) home)) c.header;
    entries =
        λ i h. rw (update_ne d (block t) v start (Home-ne_start (block t) home)) (c.entries i h);
    logged = λ i h.
        rw (update_ne d (block t) v (start + i + 1) (Home-ne_log (block t) i home h))
          (c.logged i h);
    homes = λ b h away. rw (update_ne d (block t) v b (away t lt)) (c.homes b h away);
  }
    where
      v : Block
      v = new (block t)

      home : Home start (block t)
      home = listing.homes t lt

  Installing-step :
      (recovering : Bool) (t : ℕ) (s : Log)
      → t < n
      → Installing t s
      → Installing (t + 1) (install_one recovering t s)
  Installing-step recovering t s lt inv =
      let (at', block', _, _, _, _) = install_one_raw recovering t s in
      let (disk', cache') = install_one_lem recovering t s lt inv in
      record {
        at = at' ∙ inv.at;
        listed = λ i h. ap (λ f. f i) block' ∙ inv.listed i h;
        disk = rw disk' (Committed-install t s.disk lt inv.disk);
        cached = λ i h.
            rw
              (
                cache',
                update_ne s.cache (block t) (new (block t)) (start + i + 1)
                    (Home-ne_log (block t) i (listing.homes t lt) h),
              )
              (inv.cached i h);
        installed = λ i h. rw disk' (installed' i h);
      }
    where
      installed' :
          (i : ℕ) → i < t + 1 → update s.disk (block t) (new (block t)) (block i) ≡ new (block i)
      installed' i h = elim (Bool-cases (i == t)) [
        | inl q ↦ rw (eqb→eq i t q, update_self s.disk (block t) (new (block t)))
        | inr q ↦
            rw
              (update_ne s.disk (block t) (new (block t)) (block i)
                (λ e. ground (arith, listing.distinct t i lt (omega arith) e)))
              (inv.installed i (ground arith))
      ]

  -- Installing keeps the header's count and, if the disks seen so far satisfy P and so does each
  -- disk with the log committed, all disks seen do.
  pub install_from_lem {κ} :
      (P : Disk → Type κ) (keeps : (d : Disk) → Committed start n block new d → P d)
      (recovering : Bool) (rounds t : ℕ) (s : Log)
      → t + rounds ≡ n
      → Installing t s
      → All P s.seen
      → Installing n (install_from recovering rounds t s)
        × All P (install_from recovering rounds t s).seen
  unfolding install_from
  install_from_lem P keeps recovering zero t s e inv seen =
      let q : t ≡ n = omega arith in (subst (λ k. Installing k s) q inv, seen)
  install_from_lem P keeps recovering (suc rounds) t s e inv seen =
      let lt : t < n = omega arith in
      let inv' = Installing-step recovering t s lt inv in
      install_from_lem P keeps recovering rounds (t + 1) (install_one recovering t s) (omega arith)
        inv' (rw (install_one_raw recovering t s).5 (keeps _ inv'.disk, seen))
