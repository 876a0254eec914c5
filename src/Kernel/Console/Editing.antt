-- ===== src/Kernel/Console/Editing.antt =====
-- What a typed character does to the input: it edits the line being typed, or hands it over.
use proyecto_3_sistemas_oper.Base.{
  ℕ, zero, suc, ◌+◌, ◌%◌, ◌<◌, ◌≡◌, ◌≢◌, ◌⊎◌, inl, inr, refl, ap, ◌∙◌, [], ◌∷◌, ◌++◌, append_assoc,
  ◌==◌, ◌&&◌, ◌||◌, not, arith, add_u32, sub_u32, if◌then◌else◌, Bool-cases, ltb,
}
use proyecto_3_sistemas_oper.Kernel.Strings.{store}
use proyecto_3_sistemas_oper.Kernel.Console.{
  Console, input_buf_size, control, rub_out, kill_line, typed, consoleintr,
}
use proyecto_3_sistemas_oper.Kernel.Console.Line.{
  span, span_frame, span-store, span_split, IsValid, ready, line,
}

-- A step that hands nothing over: the input that is ready is the same.
pub record Edited (c c' : Console) : Type 0 where
  pub valid : IsValid c'
  pub same : ready c' ≡ ready c

rub_out-Edited : {c : Console} → IsValid c → c.e ≢ c.w → Edited c (rub_out c)
unfolding rub_out
rub_out-Edited v ne = record { valid = omega (arith, v); same = refl }

kill_line-Edited : (fuel : ℕ) {c : Console} → IsValid c → Edited c (kill_line fuel c)
unfolding kill_line
kill_line-Edited zero v = record { valid = v; same = refl }
kill_line-Edited (suc fuel) {c} v =
    elim (Bool-cases
      (not (c.e == c.w) && not (c.bytes (sub_u32 c.e 1 % input_buf_size) == b'\n'))) [
        | inl go ↦
            let first = rub_out-Edited v (λ q. ground arith) in
            let rest = kill_line-Edited fuel first.valid in
            rw go record { valid = rest.valid; same = rest.same ∙ first.same }
        | inr stop ↦ rw stop record { valid = v; same = refl }
      ]

-- The character that is stored for ch: a carriage return counts as a newline.
abbrev pub stored_char : ℕ → ℕ
stored_char ch = (if ch == 13 then b'\n' else ch) % 256

-- A step that hands the line over: it stands, with the character, behind the input that was ready.
pub record Handed (ch : ℕ) (c c' : Console) : Type 0 where
  pub valid : IsValid c'
  pub gained : ready c' ≡ ready c ++ (line c ++ (stored_char ch ∷ []))
  pub fresh : c'.e ≡ c'.w
  pub woken : c'.woken ≡ suc c.woken

abbrev keep : ℕ → Console → Console
keep ch c = record c {
  echoed = (if ch == 13 then b'\n' else ch) ∷ c.echoed;
  bytes = store c.bytes (c.e % input_buf_size) (stored_char ch);
  e = add_u32 c.e 1;
}

keep-Edited :
    (ch : ℕ) {c : Console} → IsValid c → sub_u32 c.e c.r < input_buf_size → Edited c (keep ch c)
keep-Edited ch {c} v room = record {
  valid = record {
    r_word = v.r_word;
    w_word = v.w_word;
    e_word = omega arith;
    order = omega (arith, v);
    fits = omega (arith, v);
  };
  same =
      span_frame (sub_u32 c.w c.r) c.bytes c.r (c.e % input_buf_size) (stored_char ch)
        (sub_u32 c.e c.r) v.r_word v.order room (omega (arith, v));
}

keep-Handed :
    (ch : ℕ) {c : Console}
    → IsValid c
    → sub_u32 c.e c.r < input_buf_size
    → Handed ch c (record (keep ch c) { w = add_u32 c.e 1; woken = suc c.woken })
keep-Handed ch {c} v room = record {
  valid = record {
    r_word = v.r_word;
    w_word = omega arith;
    e_word = omega arith;
    order = omega arith;
    fits = omega (arith, v);
  };
  gained =
      let one : sub_u32 (add_u32 c.e 1) c.r ≡ suc (sub_u32 c.e c.r) = omega (arith, v) in
      let parts : sub_u32 c.e c.r ≡ sub_u32 c.w c.r + sub_u32 c.e c.w = omega (arith, v) in
      let from : add_u32 c.r (sub_u32 c.w c.r) ≡ c.w = omega (arith, v) in
      ap (span (store c.bytes (c.e % input_buf_size) (stored_char ch)) c.r) one
      ∙ span-store (sub_u32 c.e c.r) c.bytes c.r (c.e % input_buf_size) (stored_char ch) v.r_word
          room (omega (arith, v))
      ∙ ap (λ n. span c.bytes c.r n ++ (stored_char ch ∷ [])) parts
      ∙ ap (λ l. l ++ (stored_char ch ∷ []))
          (span_split (sub_u32 c.w c.r) c.bytes c.r (sub_u32 c.e c.w) v.r_word
            ∙ ap (λ k. ready c ++ span c.bytes k (sub_u32 c.e c.w)) from)
      ∙ append_assoc (ready c) (line c) (stored_char ch ∷ []);
  fresh = refl;
  woken = refl;
}

typed_lem : (ch : ℕ) {c : Console} → IsValid c → Edited c (typed ch c) ⊎ Handed ch c (typed ch c)
unfolding typed
typed_lem ch {c} v = elim (Bool-cases (not (ch == 0) && ltb (sub_u32 c.e c.r) input_buf_size)) [
  | inr ignored ↦ rw ignored (inl (record { valid = v; same = refl }))
  | inl taken ↦
      let room : sub_u32 c.e c.r < input_buf_size = ground arith in
      let ch' = if ch == 13 then b'\n' else ch in
      elim (Bool-cases
        (ch' == b'\n' || (ch' == control b'D' || sub_u32 (add_u32 c.e 1) c.r == input_buf_size))) [
          | inl whole ↦ rw (taken, whole) (inr (keep-Handed ch v room))
          | inr part ↦ rw (taken, part) (inl (keep-Edited ch v room))
        ]
]

-- Any character typed keeps the console's counters in order and within the ring. Either the input
-- that is ready for readers stays as it is, whatever was erased or typed, or the readers are woken
-- and the whole line being typed, with the character, is put behind it.
pub consoleintr_lem :
    (ch : ℕ) {c : Console}
    → IsValid c
    → Edited c (consoleintr ch c) ⊎ Handed ch c (consoleintr ch c)
unfolding consoleintr
consoleintr_lem ch {c} v = elim (Bool-cases (ch == control b'P')) [
  | inl p ↦ rw p (inl (record { valid = v; same = refl }))
  | inr np ↦ elim (Bool-cases (ch == control b'U')) [
    | inl u ↦ rw (np, u) (inl (kill_line-Edited (sub_u32 c.e c.w) v))
    | inr nu ↦ elim (Bool-cases (ch == control b'H' || ch == 0x7f)) [
      | inl h ↦ elim (Bool-cases (c.e == c.w)) [
        | inl at_start ↦ rw (np, nu, h, at_start) (inl (record { valid = v; same = refl }))
        | inr some_line ↦ rw (np, nu, h, some_line) (inl (rub_out-Edited v (λ q. ground arith)))
      ]
      | inr nh ↦ rw (np, nu, nh) (typed_lem ch v)
    ]
  ]
]
