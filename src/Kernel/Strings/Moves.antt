-- ===== src/Kernel/Strings/Moves.antt =====
-- What memset and memmove leave in memory, address by address.
use proyecto_3_sistemas_oper.Base.{
  ℕ, zero, suc, ◌+◌, ◌-◌, ◌%◌, ◌≤◌, ◌≡◌, ltb, ◌&&◌, if◌then◌else◌, arith, ◌⊎◌, ◌∙◌, inl, inr,
  Bool-cases,
}
use proyecto_3_sistemas_oper.Kernel.Strings.{
  Memory, store, within, memset, memset_loop, memmove, move_up, move_down,
}

memset_loop_lem :
    (n : ℕ) (m : Memory) (p c a : ℕ)
    → memset_loop m p c n a ≡ (if within p n a then c % 256 else m a)
unfolding memset_loop
memset_loop_lem zero m p c a = ground arith
memset_loop_lem (suc n) m p c a =
    ground (arith, memset_loop_lem n (store m p (c % 256)) (p + 1) c a)

-- After `memset(dst, c, n)` the n bytes from dst on hold the low byte of c, and every other byte
-- is as before.
pub memset_lem :
    (m : Memory) (dst c n a : ℕ) → memset m dst c n a ≡ (if within dst n a then c % 256 else m a)
unfolding memset
memset_lem m dst c n a = memset_loop_lem n m dst c a

-- Copying upwards is right when the destination does not start inside the source.
pub move_up_lem :
    (n : ℕ) (m : Memory) (d s a : ℕ)
    → (d ≤ s) ⊎ (s + n ≤ d)
    → move_up m d s n a ≡ (if within d n a then m (s + (a - d)) else m a)
unfolding move_up
move_up_lem zero m d s a h = ground arith
move_up_lem (suc n) m d s a h =
    move_up_lem n (store m d (m s)) (d + 1) (s + 1) a (omega arith) ∙ shift
  where
    shift :
        (if within (d + 1) n a then store m d (m s) (s + 1 + (a - (d + 1))) else store m d (m s) a)
        ≡ (if within d (suc n) a then m (s + (a - d)) else m a)
    shift = ground arith

-- Copying downwards, from the ends of both ranges, is right when the destination does not start
-- before the source.
pub move_down_lem :
    (n : ℕ) (m : Memory) (d s dn sn a : ℕ)
    → s ≤ d
    → dn ≡ d + n
    → sn ≡ s + n
    → move_down m dn sn n a ≡ (if within d n a then m (s + (a - d)) else m a)
unfolding move_down
move_down_lem zero m d s dn sn a h p q = ground arith
move_down_lem (suc n) m d s dn sn a h p q =
    move_down_lem n (store m (dn - 1) (m (sn - 1))) d s (dn - 1) (sn - 1) a h (omega arith)
      (omega arith)
    ∙ shift
  where
    shift :
        (if within d n a
          then store m (dn - 1) (m (sn - 1)) (s + (a - d))
          else store m (dn - 1) (m (sn - 1)) a)
        ≡ (if within d (suc n) a then m (s + (a - d)) else m a)
    shift = ground arith

-- After `memmove(dst, src, n)` the n bytes from dst on hold what the n bytes from src on held
-- before the call, and every other byte is as before, however the two ranges overlap.
pub memmove_lem :
    (m : Memory) (dst src n a : ℕ)
    → memmove m dst src n a ≡ (if within dst n a then m (src + (a - dst)) else m a)
unfolding memmove
memmove_lem m dst src n a = elim (Bool-cases (ltb src dst && ltb dst (src + n))) [
  | inl e ↦ rw e (ground (arith, move_down_lem n m dst src (dst + n) (src + n) a))
  | inr e ↦ rw e (ground (arith, move_up_lem n m dst src a))
]
