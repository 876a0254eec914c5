-- ===== src/Kernel/Log/Replay.antt =====
-- A sequence of log_write calls in a transaction, run on the log.
use proyecto_3_sistemas_oper.Base.{
  add_u32, ℕ, ◌+◌, ◌≤◌, ◌<◌, ◌≡◌, refl, ◌∙◌, ap, inl, inr, false, ◌==◌, ltb, leb, List, [], ◌∷◌,
  length, Outcome, done, ◌>>=◌, arith, Bool-cases,
}
use proyecto_3_sistemas_oper.Kernel.Params.{log_blocks}
use proyecto_3_sistemas_oper.Kernel.Log.{Log, find_block, log_write, update}

-- The calls of `log_write` for the blocks of the list, of which the last one is called first.
abbrev pub replay : List ℕ → Log → Outcome Log
replay [] s = done s
replay (b ∷ bs) s = replay bs s >>= log_write b

-- The log with the block in place i, and with one more entry.
abbrev replaced : ℕ → ℕ → Log → Log
replaced i b s = record s { block = update s.block i b }

abbrev added : ℕ → ℕ → Log → Log
added i b s = record s {
  block = update s.block i b;
  pins = update s.pins b (add_u32 (s.pins b) 1);
  n = s.n + 1;
}

log_write-room :
    (b : ℕ) (s : Log)
    → 0 < s.outstanding
    → s.n < log_blocks
    → (s' : Log) × (log_write b s ≡ done s') × (s'.outstanding ≡ s.outstanding) × (s'.n ≤ s.n + 1)
unfolding log_write
log_write-room b s open_op room =
    let fits : leb log_blocks s.n ≡ false = ground (arith, room) in
    let inside : ltb s.outstanding 1 ≡ false = ground (arith, open_op) in
    elim (Bool-cases (find_block s.block b s.n 0 == s.n)) [
      | inl new ↦
          (added (find_block s.block b s.n 0) b s, rw (fits, inside, new) refl, refl, omega arith)
      | inr old ↦ (
        replaced (find_block s.block b s.n 0) b s,
        rw (fits, inside, old) refl,
        refl,
        omega arith,
      )
    ]

-- In a transaction, calls for which the log has room do not panic.
pub replay_lem :
    (bs : List ℕ) (s : Log)
    → 0 < s.outstanding
    → s.n + length bs ≤ log_blocks
    → (s' : Log) × (replay bs s ≡ done s')
      × (s'.outstanding ≡ s.outstanding)
      × (s'.n ≤ s.n + length bs)
replay_lem [] s open_op room = (s, refl, refl, omega arith)
replay_lem (b ∷ bs) s open_op room =
    let (s1, ran1, same1, few1) = replay_lem bs s open_op (omega (arith, room)) in
    let (s2, ran2, same2, few2) =
      log_write-room b s1 (omega (arith, open_op, same1)) (omega (arith, room, few1)) in
    (s2, ap (λ o. o >>= log_write b) ran1 ∙ ran2, same2 ∙ same1, omega (arith, few1, few2))
