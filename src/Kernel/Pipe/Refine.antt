-- ===== src/Kernel/Pipe/Refine.antt =====
-- pipewrite and piperead against a first-in first-out queue: what goes in, what comes out, and why
-- a run stops.
use native.Mathlib.Nat.{add-zero}
use proyecto_3_sistemas_oper.Base.{
  ℕ, zero, suc, ◌+◌, ◌<◌, ◌≡◌, ◌≢◌, ◌⊎◌, refl, List, [], ◌∷◌, ◌++◌, append-nil, append_assoc,
  length, arith, add_u32, Bool, true, false, Bool-cases, Option-cases, inl, inr, Option, none, some,
  ℤ, pos, negsuc, ◌==◌, eqb→eq, sym, not, ◌||◌, ◌%◌, ap, ◌∙◌, subst, minus_one, ◌&&◌, if◌then◌else◌,
}
use proyecto_3_sistemas_oper.Kernel.Pipe.{
  Pipe, Run, returned, asleep, readers, pipe_size, put, pipewrite_from, pipewrite, piperead_from,
  piperead, wakeup,
}
use proyecto_3_sistemas_oper.Kernel.Pipe.Window.{
  IsValid, contents, fill, put-IsValid, contents-put, advance, advance-IsValid, contents-advance,
  length-window,
}

-- The bytes are those that the user's buffer has from place i on.
abbrev pub Sourced : (ℕ → Option ℕ) → ℕ → List ℕ → Type 0
Sourced src i [] = Unit
Sourced src i (x ∷ xs) = src i ≡ some x × Sourced src (i + 1) xs

-- Why a run of pipewrite stops with k of the n bytes written: it is done or the next byte cannot
-- be read; the pipe is full, and the readers were woken; or the process was killed or nobody can
-- read any more.
abbrev pub Ended : (ℕ → Bool) → (ℕ → Option ℕ) → ℕ → ℕ → Pipe → Run → Type 0
Ended killed src n k p (returned (pos r)) = r ≡ k × ((k ≡ n) ⊎ (src k ≡ none))
Ended killed src n k p (returned (negsuc r)) = r ≡ 0 × ((p.readopen ≡ false) ⊎ (killed k ≡ true))
Ended killed src n k p (asleep r) = r ≡ k × length (contents p) ≡ pipe_size

module _ (killed : ℕ → Bool) (src : ℕ → Option ℕ) (n : ℕ) where
  -- A run from place i on has put the bytes xs behind those that were in the pipe.
  pub record Wrote (i : ℕ) (p : Pipe) (xs : List ℕ) (w : Run × Pipe) : Type 0 where
    pub valid : IsValid w.1
    pub bytes : contents w.1 ≡ contents p ++ xs
    pub sourced : Sourced src i xs
    pub ended : Ended killed src n (i + length xs) w.1 w.0

  -- A run that stops at once has written nothing.
  stops :
      (i : ℕ) (p p' : Pipe) (r : Run)
      → IsValid p'
      → contents p' ≡ contents p
      → Ended killed src n i p' r
      → Wrote i p [] (r, p')
  stops i p p' r v e h = record {
    valid = v;
    bytes = e ∙ sym (append-nil (contents p));
    sourced = tt;
    ended = rw (add-zero i) h;
  }

  -- One more byte in front.
  continues :
      (i ch : ℕ) (p : Pipe) (xs : List ℕ) (w : Run × Pipe)
      → IsValid p
      → fill p < pipe_size
      → src i ≡ some ch
      → Wrote (i + 1) (put p ch) xs w
      → Wrote i p (ch ∷ xs) w
  continues i ch p xs w v room e h = record {
    valid = h.valid;
    bytes =
        h.bytes
        ∙ ap (λ l. l ++ xs) (contents-put ch v room)
        ∙ append_assoc (contents p) (ch ∷ []) xs;
    sourced = (e, h.sourced);
    ended =
        let q : i + 1 + length xs ≡ i + suc (length xs) = omega arith in
        subst (λ k. Ended killed src n k w.1 w.0) q h.ended;
  }

  pipewrite_from_lem :
      (rounds i : ℕ) (p : Pipe)
      → IsValid p
      → i + rounds ≡ n
      → (xs : List ℕ) × Wrote i p xs (pipewrite_from killed src rounds i p)
  unfolding pipewrite_from
  pipewrite_from_lem zero i p v e = (
    [],
    stops i p (wakeup readers p) (returned (pos i)) (omega (arith, v)) refl
        (refl, inl (omega arith)),
  )
  pipewrite_from_lem (suc rounds) i p v e = elim (Bool-cases (not p.readopen || killed i)) [
    | inl stop ↦ ([], rw stop (stops i p p (returned minus_one) v refl (refl, ground arith)))
    | inr go ↦ elim (Bool-cases (p.nwrite == add_u32 p.nread pipe_size)) [
      | inl full ↦ (
        [],
        rw (go, full)
            (stops i p (wakeup readers p) (asleep i) (omega (arith, v)) refl
              (refl, length-window p.bytes p.nread (fill p) ∙ ground arith)),
      )
      | inr room ↦ elim (Option-cases (src i)) [
        | inl fault ↦ (
          [],
          rw (go, room, fault)
              (stops i p (wakeup readers p) (returned (pos i)) (omega (arith, v)) refl
                (refl, inr fault)),
        )
        | inr (ch, got) ↦
            let space : fill p < pipe_size = ground arith in
            let (xs, w) =
              pipewrite_from_lem rounds (i + 1) (put p ch) (put-IsValid ch v space) (omega arith) in
            (ch ∷ xs, rw (go, room, got) (continues i ch p xs _ v space got w))
      ]
    ]
  ]

-- A run of `pipewrite` on a valid pipe leaves a valid pipe; the bytes it has put in stand behind
-- those that were there, in order, and are the first ones of the user's buffer. It returns their
-- number only if that is n or the next byte cannot be read; it sleeps only with the pipe full; and
-- it returns -1 only if the process was killed or nobody can read any more.
pub pipewrite_lem :
    (killed : ℕ → Bool) (src : ℕ → Option ℕ) (n : ℕ) (p : Pipe)
    → IsValid p
    → (xs : List ℕ) × Wrote killed src n 0 p xs (pipewrite killed src n p)
unfolding pipewrite
pipewrite_lem killed src n p v = pipewrite_from_lem killed src n n 0 p v (omega arith)

-- Why a copying run of piperead stops after k of at most n bytes, and what it returns.
abbrev pub Drained : (ℕ → Bool) → ℕ → ℕ → Pipe → ℤ → Type 0
Drained dst_ok n k p (pos r) = r ≡ k × ((k ≡ n) ⊎ (contents p ≡ []) ⊎ (0 < k × dst_ok k ≡ false))
Drained dst_ok n k p (negsuc r) = r ≡ 0 × k ≡ 0 × dst_ok 0 ≡ false

-- A copying run from place i on has taken the bytes xs off the front of the pipe.
pub record Took (dst_ok : ℕ → Bool) (n i : ℕ) (p : Pipe) (w : ℤ × List ℕ × Pipe) : Type 0 where
  pub valid : IsValid w.2
  pub bytes : contents p ≡ w.1 ++ contents w.2
  pub ended : Drained dst_ok n (i + length w.1) w.2 w.0

empty_contents : {p : Pipe} → IsValid p → p.nread ≡ p.nwrite → contents p ≡ []
empty_contents {p} v e = let q : fill p ≡ 0 = omega arith in rw q

module _ (dst_ok : ℕ → Bool) (n : ℕ) where
  takes :
      (i : ℕ) (p : Pipe) (r : ℤ) (xs : List ℕ) (p' : Pipe)
      → IsValid p
      → p.nread ≢ p.nwrite
      → Took dst_ok n (i + 1) (advance p) (r, xs, p')
      → Took dst_ok n i p (r, p.bytes (p.nread % pipe_size) ∷ xs, p')
  takes i p r xs p' v ne h = record {
    valid = h.valid;
    bytes = contents-advance v ne ∙ ap (λ l. p.bytes (p.nread % pipe_size) ∷ l) h.bytes;
    ended =
        let q : i + 1 + length xs ≡ i + suc (length xs) = omega arith in
        subst (λ k. Drained dst_ok n k p' r) q h.ended;
  }

  piperead_from_lem :
      (rounds i : ℕ) (p : Pipe)
      → IsValid p
      → i + rounds ≡ n
      → Took dst_ok n i p (piperead_from dst_ok rounds i p)
  unfolding piperead_from
  piperead_from_lem zero i p v e = record {
    valid = omega (arith, v);
    bytes = refl;
    ended = (omega arith, inl (omega arith));
  }
  piperead_from_lem (suc rounds) i p v e = elim (Bool-cases (p.nread == p.nwrite)) [
    | inl none_left ↦ rw none_left record {
      valid = omega (arith, v);
      bytes = refl;
      ended = (omega arith, inr (inl (empty_contents v (eqb→eq _ _ none_left))));
    }
    | inr some_left ↦ elim (Bool-cases (dst_ok i)) [
      | inl copied ↦
          rw (some_left, copied)
            (takes i p _ _ _ v (ground arith) (
              piperead_from_lem rounds (i + 1) (advance p) (advance-IsValid v (ground arith))
                (omega arith)))
      | inr fault ↦ elim (Bool-cases (i == 0)) [
        | inl first ↦
            rw (some_left, fault, first)
              record {
                valid = omega (arith, v);
                bytes = refl;
                ended =
                    let z : i ≡ 0 = eqb→eq i 0 first in
                    (refl, omega arith, subst (λ k. dst_ok k ≡ false) z fault);
              }
        | inr later ↦
            rw (some_left, fault, later)
              record {
                valid = omega (arith, v);
                bytes = refl;
                ended = (omega arith, inr (inr (ground arith, rw (add-zero i) fault)));
              }
      ]
    ]
  ]

-- What a run of `piperead` does to the pipe p, if it is in the state that w says at its end. On
-- an empty pipe that is open for writing no byte goes out, the pipe is left as it is, and the
-- process sleeps, or gets -1 if it was killed; otherwise the run has taken bytes.
abbrev pub Read : Bool → (ℕ → Bool) → ℕ → Pipe → Run × List ℕ × Pipe → Type 0
Read killed dst_ok n p w =
    ((p.nread ≡ p.nwrite)
      × (p.writeopen ≡ true)
      × (w.0 ≡ (if killed then returned minus_one else asleep 0))
      × (w.1 ≡ [])
      × (w.2 ≡ p))
    ⊎ ((p.nread ≢ p.nwrite) ⊎ (p.writeopen ≡ false))
      × ((r : ℤ) × (w.0 ≡ returned r) × Took dst_ok n 0 p (r, w.1, w.2))

-- A run of `piperead` on a valid pipe leaves a valid pipe, and the bytes that go out are the first
-- ones that were in it, in order. If it finds the pipe empty and still open for writing, it leaves
-- it as it is, no byte goes out, and it sleeps, or returns -1 if the process was killed. If not, it
-- returns the number of bytes that went out, and stops only after n bytes, with the pipe empty, or
-- where copyout fails; or it returns -1, and then copyout fails at the first byte.
pub piperead_lem :
    (killed : Bool) (dst_ok : ℕ → Bool) (n : ℕ) (p : Pipe)
    → IsValid p
    → IsValid (piperead killed dst_ok n p).2
      × (contents p ≡ (piperead killed dst_ok n p).1 ++ contents (piperead killed dst_ok n p).2)
      × Read killed dst_ok n p (piperead killed dst_ok n p)
unfolding piperead
piperead_lem killed dst_ok n p v = elim (Bool-cases (p.nread == p.nwrite && p.writeopen)) [
  | inl wait ↦ elim (Bool-cases killed) [
    | inl dead ↦ rw (wait, dead) (v, refl, inl (ground arith, ground arith, refl, refl, refl))
    | inr alive ↦ rw (wait, alive) (v, refl, inl (ground arith, ground arith, refl, refl, refl))
  ]
  | inr ready ↦
      let took = piperead_from_lem dst_ok n n 0 p v (omega arith) in
      rw ready (
        took.valid,
        took.bytes,
        inr (available p ready, ((piperead_from dst_ok n 0 p).0, refl, took)),
      )
]
  where
    available :
        (p : Pipe)
        → (p.nread == p.nwrite && p.writeopen) ≡ false
        → (p.nread ≢ p.nwrite) ⊎ (p.writeopen ≡ false)
    available p h = elim (Bool-cases p.writeopen) [
      | inl writing ↦ inl (λ e. ground arith)
      | inr closed ↦ inr closed
    ]
