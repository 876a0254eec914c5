-- ===== src/Kernel/Log/Protocol.antt =====
-- Operations that run at the same time: begin_op, log_write and end_op of any number of processes,
-- interleaved in any order. The log's spinlock makes each of them one step, but for end_op, which
-- commits between two critical sections.
use proyecto_3_sistemas_oper.Base.{
  ◌⊎◌, ℕ, zero, suc, ◌+◌, ◌-◌, ◌*◌, ◌≤◌, ◌<◌, ◌≡◌, ◌≢◌, refl, sym, ap, ◌∙◌, List, [], ◌∷◌, Bool,
  true, false, ltb, Bool-cases, inl, inr, arith, some, done, panic, length, get_elem?, set,
  length-set, ◌==◌,
}
use proyecto_3_sistemas_oper.Kernel.Params.{log_blocks, max_op_blocks}
use proyecto_3_sistemas_oper.Kernel.Log.{
  Log, log_write, begin_op, end_op_locked, end_op_commit, commit, write_head, write_log,
  write_log_from, write_log_one, install_trans, install_from, install_one, boot,
}
use proyecto_3_sistemas_oper.Kernel.Log.Admit.{log_write_raw}

-- The log, and for each operation under way how many blocks it has written.
pub record System : Type 0 where
  pub log : Log
  pub ops : List ℕ

-- The operation at place i is over.
abbrev pub remove_at : List ℕ → ℕ → List ℕ
remove_at [] i = []
remove_at (w ∷ ws) zero = ws
remove_at (w ∷ ws) (suc i) = w ∷ remove_at ws i

pub data Step (s : System) : System → Type 0 where
  begin : (t : Log) → begin_op s.log ≡ some t → Step s (record { log = t; ops = 0 ∷ s.ops })
  write :
      (i w b : ℕ) (t : Log)
      → get_elem? s.ops i ≡ some w
      → w < max_op_blocks
      → log_write b s.log ≡ done t
      → Step s (record { log = t; ops = set s.ops i (w + 1) })
  leave :
      (i w : ℕ) (do_commit : Bool) (t : Log)
      → get_elem? s.ops i ≡ some w
      → end_op_locked s.log ≡ some (done (do_commit, t))
      → Step s (record { log = t; ops = remove_at s.ops i })
  flush : s.log.committing ≡ true → Step s (record { log = end_op_commit true s.log; ops = s.ops })

pub data Reach (start : ℕ) : System → Type 0 where
  booted : (s : System) → s ≡ record { log = boot start (λ _ _. 0); ops = [] } → Reach start s
  later : {s t : System} → Reach start s → Step s t → Reach start t

-- The blocks that the operations under way may still write.
abbrev pub budget : List ℕ → ℕ
budget [] = 0
budget (w ∷ ws) = (max_op_blocks - w) + budget ws

pub record IsSafe (s : System) : Type 0 where
  pub counted : s.log.outstanding ≡ length s.ops
  pub bounded : s.log.n + budget s.ops ≤ log_blocks
  pub quiet : s.log.committing ≡ true → s.ops ≡ []

budget-set :
    (ws : List ℕ) (i w : ℕ)
    → get_elem? ws i ≡ some w
    → w < max_op_blocks
    → budget (set ws i (w + 1)) + 1 ≡ budget ws
budget-set [] i w h lt = cc
budget-set (x ∷ ws) zero w h lt = ground arith
budget-set (x ∷ ws) (suc i) w h lt = omega (arith, budget-set ws i w h lt)

budget-remove_at : (ws : List ℕ) (i : ℕ) → budget (remove_at ws i) ≤ budget ws
budget-remove_at [] i = omega arith
budget-remove_at (x ∷ ws) zero = omega arith
budget-remove_at (x ∷ ws) (suc i) = omega (arith, budget-remove_at ws i)

length-remove_at :
    (ws : List ℕ) (i w : ℕ) → get_elem? ws i ≡ some w → length (remove_at ws i) + 1 ≡ length ws
length-remove_at [] i w h = cc
length-remove_at (x ∷ ws) zero w h = omega arith
length-remove_at (x ∷ ws) (suc i) w h = omega (arith, length-remove_at ws i w h)

budget-le : (ws : List ℕ) → budget ws ≤ length ws * max_op_blocks
budget-le [] = omega arith
budget-le (x ∷ ws) = omega (arith, budget-le ws)

write_log_from_outstanding :
    (rounds t : ℕ) (s : Log) → (write_log_from rounds t s).outstanding ≡ s.outstanding
unfolding write_log_from write_log_one
write_log_from_outstanding zero t s = refl
write_log_from_outstanding (suc rounds) t s =
    write_log_from_outstanding rounds (t + 1) (write_log_one t s)

install_one_outstanding :
    (r : Bool) (t : ℕ) (s : Log) → (install_one r t s).outstanding ≡ s.outstanding
unfolding install_one
install_one_outstanding true t s = refl
install_one_outstanding false t s = refl

install_from_outstanding :
    (r : Bool) (rounds t : ℕ) (s : Log) → (install_from r rounds t s).outstanding ≡ s.outstanding
unfolding install_from
install_from_outstanding r zero t s = refl
install_from_outstanding r (suc rounds) t s =
    install_from_outstanding r rounds (t + 1) (install_one r t s) ∙ install_one_outstanding r t s

-- A commit empties the log in memory and leaves the count of operations.
commit_counts : (s : Log) → (commit s).n ≡ 0 × (commit s).outstanding ≡ s.outstanding
unfolding commit write_log write_head install_trans
commit_counts s = elim (Bool-cases (ltb 0 s.n)) [
  | inl e ↦ rw e (
    refl,
    install_from_outstanding false _ 0 (write_head (write_log_from s.n 0 s))
        ∙ write_log_from_outstanding s.n 0 s,
  )
  | inr e ↦ rw e (ground arith, refl)
]

no_ops : (ws : List ℕ) → length ws ≡ 0 → ws ≡ []
no_ops [] h = refl
no_ops (x ∷ ws) h = absurd (omega arith)

leave_raw :
    (s : Log) (d : Bool) (t : Log)
    → end_op_locked s ≡ some (done (d, t))
    → (t.n ≡ s.n)
      × (t.outstanding + 1 ≡ s.outstanding)
      × (s.committing ≡ false)
      × (t.committing ≡ (t.outstanding == 0))
unfolding end_op_locked
leave_raw s d t e = ground arith

Step-IsSafe : {s t : System} → Step s t → IsSafe s → IsSafe t
unfolding begin_op end_op_commit
Step-IsSafe {s} (begin t e) v = record {
  counted = ground arith;
  bounded = ground (arith, budget-le s.ops);
  quiet = λ c. ground arith;
}
Step-IsSafe {s} (write i w b t got lt e) v =
    let raw = log_write_raw b s.log t e in
    record {
      counted = raw.4 ∙ v.counted ∙ sym (length-set s.ops i (w + 1));
      bounded = ground (arith, raw, budget-set s.ops i w got lt);
      quiet = λ c. absurd (busy (v.quiet (sym raw.5 ∙ c)));
    }
  where
    busy : s.ops ≡ [] → ⊥
    busy e = ground arith
Step-IsSafe {s} (leave i w d t got e) v =
    let raw = leave_raw s.log d t e in
    record {
      counted = omega (arith, raw, length-remove_at s.ops i w got);
      bounded = omega (arith, raw, budget-remove_at s.ops i);
      quiet = λ c.
          no_ops (remove_at s.ops i)
            (omega (arith, length-remove_at s.ops i w got, zero_left raw c, raw));
    }
  where
    zero_left :
        ((t.n ≡ s.log.n)
          × (t.outstanding + 1 ≡ s.log.outstanding)
          × (s.log.committing ≡ false)
          × (t.committing ≡ (t.outstanding == 0)))
        → t.committing ≡ true
        → t.outstanding ≡ 0
    zero_left raw c = ground arith
Step-IsSafe {s} (flush c) v = record {
  counted = (commit_counts s.log).1 ∙ v.counted;
  bounded = ground (arith, commit_counts s.log, ap budget (v.quiet c));
  quiet = λ e. cc;
}

-- In every state that processes can reach from boot by begin_op, at most MAXOPBLOCKS log_writes
-- each, and end_op, in any interleaving: the log never holds more than LOGBLOCKS blocks, and while
-- a commit is under way no operation is.
pub Reach-IsSafe : (start : ℕ) {s : System} → Reach start s → IsSafe s
unfolding boot
Reach-IsSafe start (booted s e) =
    rw e record { counted = refl; bounded = omega arith; quiet = λ c. refl }
Reach-IsSafe start (later r st) = Step-IsSafe st (Reach-IsSafe start r)

-- Whatever begin_op, log_write and end_op calls have been made, for an operation under way: it has
-- written MAXOPBLOCKS blocks already, or `log_write` of any block does not panic; and however many
-- it has written, its `end_op` does not panic.
pub Reach-no_panic :
    (start i w b : ℕ) {s : System}
    → Reach start s
    → get_elem? s.ops i ≡ some w
    → ((max_op_blocks ≤ w) ⊎ (log_write b s.log ≢ panic)) × (end_op_locked s.log ≢ some panic)
unfolding log_write end_op_locked
Reach-no_panic start i w b {s} r got = (
  elim (Bool-cases (ltb w max_op_blocks)) [
    | inl lt ↦
        let used = budget-set s.ops i w got (ground (arith, lt)) in
        inr (λ e. ground (arith, v, room s.ops i got, used))
    | inr over ↦ inl (ground (arith, over))
  ],
  λ e. absurd (busy (v.quiet (ground arith))),
)
  where
    v : IsSafe s
    v = Reach-IsSafe start r

    room : (ws : List ℕ) (j : ℕ) → get_elem? ws j ≡ some w → 0 < length ws
    room [] j h = cc
    room (x ∷ ws) j h = omega arith

    busy : s.ops ≡ [] → ⊥
    busy e = ground arith
