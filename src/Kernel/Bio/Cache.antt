-- ===== src/Kernel/Bio/Cache.antt =====
-- At most one buffer for each block, and buffers in use are never taken.
use proyecto_3_sistemas_oper.Base.{
  ℕ, ◌+◌, ◌≤◌, ◌<◌, ◌≡◌, ◌≢◌, refl, List, [], ◌∷◌, Bool, true, false, ◌==◌, ◌&&◌, if◌then◌else◌,
  arith, none, some, done, panic, Option-cases, inl, inr, not, All, ◌^◌, ◌↔◌, ◌||◌,
}
use proyecto_3_sistemas_oper.Kernel.Bio.{
  Buf, same, find_cached, recycle, bget, modify, unlink, brelse,
}

-- How many buffers are for the block.
abbrev pub holders : ℕ → ℕ → List Buf → ℕ
holders dev blockno [] = 0
holders dev blockno (b ∷ bs) = (if same dev blockno b then 1 else 0) + holders dev blockno bs

-- A used buffer is somewhere in the list with its identity and block.
abbrev pub in_use : ℕ → ℕ → ℕ → List Buf → ℕ
in_use i dev blockno [] = 0
in_use i dev blockno (b ∷ bs) =
    (if b.index == i && (same dev blockno b && not (b.refcnt == 0)) then 1 else 0)
    + in_use i dev blockno bs

-- No device but 0, which no request names, has a block in two buffers.
abbrev pub Unique : List Buf → Type 0
Unique bs = (dev blockno : ℕ) → dev ≢ 0 → holders dev blockno bs ≤ 1

find_cached-none :
    (dev blockno : ℕ) (bs : List Buf)
    → find_cached dev blockno bs ≡ none
    → holders dev blockno bs ≡ 0
unfolding find_cached
find_cached-none dev blockno [] h = refl
find_cached-none dev blockno (b ∷ bs) h = ground (arith, find_cached-none dev blockno bs)

-- The reference counts are below the largest `uint`.
abbrev pub Countable : List Buf → Type 0
Countable bs = All (λ b. b.refcnt + 1 < 2 ^ 32) bs

-- A hit changes no buffer's block, gives a buffer with the block, and keeps used buffers.
find_cached_lem :
    (dev blockno i d n : ℕ) (bs : List Buf) (b : Buf) (cs : List Buf)
    → Countable bs
    → find_cached dev blockno bs ≡ some (b, cs)
    → (holders d n cs ≡ holders d n bs)
      × (same dev blockno b ≡ true)
      × (in_use i d n bs ≤ in_use i d n cs)
      × (0 < in_use b.index dev blockno cs)
unfolding find_cached
find_cached_lem dev blockno i d n [] b cs k h = cc
find_cached_lem dev blockno i d n (a ∷ bs) b cs k h =
    elim (Option-cases (find_cached dev blockno bs)) [
      | inl f ↦ ground arith
      | inr (r, f) ↦ ground (arith, find_cached_lem dev blockno i d n bs r.0 r.1 k.1 f)
    ]

-- Taking a buffer moves it to the new block, and keeps used buffers.
recycle_lem :
    (dev blockno i d n : ℕ) (bs : List Buf) (b : Buf) (cs : List Buf)
    → recycle dev blockno bs ≡ some (b, cs)
    → (holders d n cs ≤ holders d n bs + (if d == dev && n == blockno then 1 else 0))
      × (same dev blockno b ≡ true)
      × (in_use i d n bs ≤ in_use i d n cs)
      × (0 < in_use b.index dev blockno cs)
unfolding recycle
recycle_lem dev blockno i d n [] b cs h = cc
recycle_lem dev blockno i d n (a ∷ bs) b cs h = elim (Option-cases (recycle dev blockno bs)) [
  | inl f ↦ ground arith
  | inr (r, f) ↦ ground (arith, recycle_lem dev blockno i d n bs r.0 r.1 f)
]

-- Let each block of a device other than 0 have at most one buffer, and let each buffer's reference
-- count be at least one below 2^32, where it would wrap around. Then `bget` of a block, if it does
-- not panic, gives a buffer for the block that is now in use; again each block of a device other
-- than 0 has at most one buffer; and no buffer that was in use for some block is taken from it.
pub bget_lem :
    (dev blockno i d n : ℕ) (bs : List Buf) (b : Buf) (cs : List Buf)
    → Unique bs
    → Countable bs
    → bget dev blockno bs ≡ done (b, cs)
    → Unique cs
      × (same dev blockno b ≡ true)
      × (0 < in_use b.index dev blockno cs)
      × (in_use i d n bs ≤ in_use i d n cs)
unfolding bget
bget_lem dev blockno i d n bs b cs u k h = elim (Option-cases (find_cached dev blockno bs)) [
  | inl miss ↦ elim (Option-cases (recycle dev blockno bs)) [
    | inl full ↦ ground arith
    | inr (r, got) ↦ (
      λ d' n' ne. ground (
        arith,
        u d' n' ne,
        recycle_lem dev blockno i d' n' bs r.0 r.1 got,
        find_cached-none dev blockno bs miss,
      ),
      ground (arith, recycle_lem dev blockno i d n bs r.0 r.1 got),
      ground (arith, recycle_lem dev blockno i d n bs r.0 r.1 got),
      ground (arith, recycle_lem dev blockno i d n bs r.0 r.1 got),
    )
  ]
  | inr (r, hit) ↦ (
    λ d' n' ne. ground (arith, u d' n' ne, find_cached_lem dev blockno i d' n' bs r.0 r.1 k hit),
    ground (arith, find_cached_lem dev blockno i d n bs r.0 r.1 k hit),
    ground (arith, find_cached_lem dev blockno i d n bs r.0 r.1 k hit),
    ground (arith, find_cached_lem dev blockno i d n bs r.0 r.1 k hit),
  )
]

-- Some buffer is not in use.
abbrev pub has_free : List Buf → Bool
has_free [] = false
has_free (b ∷ bs) = b.refcnt == 0 || has_free bs

recycle-none :
    (dev blockno : ℕ) (bs : List Buf) → recycle dev blockno bs ≡ none → has_free bs ≡ false
unfolding recycle
recycle-none dev blockno [] h = refl
recycle-none dev blockno (a ∷ bs) h = elim (Option-cases (recycle dev blockno bs)) [
  | inl f ↦ ground (arith, recycle-none dev blockno bs f)
  | inr (r, f) ↦ ground arith
]

recycle-some :
    (dev blockno : ℕ) (bs : List Buf) (r : Buf × List Buf)
    → recycle dev blockno bs ≡ some r
    → has_free bs ≡ true
unfolding recycle
recycle-some dev blockno [] r h = cc
recycle-some dev blockno (a ∷ bs) r h = elim (Option-cases (recycle dev blockno bs)) [
  | inl f ↦ ground arith
  | inr (q, f) ↦ ground (arith, recycle-some dev blockno bs q f)
]

-- `bget` panics exactly if the block is in no buffer and every buffer is in use.
pub bget-panic :
    (dev blockno : ℕ) (bs : List Buf)
    → (bget dev blockno bs ≡ panic) ↔ ((find_cached dev blockno bs ≡ none) × (has_free bs ≡ false))
unfolding bget
bget-panic dev blockno bs = elim (Option-cases (find_cached dev blockno bs)) [
  | inr (r, hit) ↦ (λ h. ground arith, λ h. ground arith)
  | inl miss ↦ elim (Option-cases (recycle dev blockno bs)) [
    | inl full ↦ (λ h. (miss, recycle-none dev blockno bs full), λ h. ground arith)
    | inr (r, got) ↦ (λ h. ground arith, λ h. ground (arith, recycle-some dev blockno bs r got))
  ]
]

unlink_lem :
    (i d n : ℕ) (bs : List Buf) (b : Buf) (others : List Buf)
    → unlink i bs ≡ some (b, others)
    → holders d n bs ≡ (if same d n b then 1 else 0) + holders d n others
unfolding unlink
unlink_lem i d n [] b others h = cc
unlink_lem i d n (a ∷ bs) b others h = elim (Option-cases (unlink i bs)) [
  | inl f ↦ ground arith
  | inr (r, f) ↦ ground (arith, unlink_lem i d n bs r.0 r.1 f)
]

modify_lem :
    (i d n : ℕ) (bs : List Buf) (b left : Buf) (others : List Buf)
    → unlink i bs ≡ some (b, others)
    → same d n left ≡ same d n b
    → holders d n (modify i (λ _. left) bs) ≡ holders d n bs
unfolding unlink modify
modify_lem i d n [] b left others h e = cc
modify_lem i d n (a ∷ bs) b left others h e = elim (Option-cases (unlink i bs)) [
  | inl f ↦ ground arith
  | inr (r, f) ↦ ground (arith, modify_lem i d n bs r.0 left r.1 f)
]

-- `brelse`, if it does not panic, changes no buffer's block; and if it drops the last reference,
-- the buffer comes to the front of the list, with the order of the others unchanged.
pub brelse_lem :
    (pid i d n : ℕ) (bs cs others : List Buf) (b : Buf)
    → unlink i bs ≡ some (b, others)
    → b.refcnt ≡ 1
    → brelse pid i bs ≡ some (done cs)
    → (holders d n cs ≡ holders d n bs) × (cs ≡ record b { holder = none; refcnt = 0 } ∷ others)
unfolding brelse
brelse_lem pid i d n bs cs others b at_i last h = ground (arith, unlink_lem i d n bs b others at_i)
