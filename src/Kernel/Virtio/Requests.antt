-- ===== src/Kernel/Virtio/Requests.antt =====
-- A request: its chain of descriptors, and their return.
use proyecto_3_sistemas_oper.Base.{
  ℕ, suc, ◌%◌, ◌<◌, ◌≡◌, ◌≢◌, ◌⊎◌, refl, sym, ap, ◌∙◌, subst, inl, inr, Bool, true, false, ◌==◌,
  ◌||◌, if◌then◌else◌, Option, some, none, Outcome, done, ◌>>=◌, arith, Bool-cases, eqb→eq,
  eqb_of_ne, eqb_refl,
}
use proyecto_3_sistemas_oper.Kernel.Virtio.{
  Disk, Desc, num, set_free, set_desc, no_desc, free_chain, after_alloc, format, announce, submit,
  finish,
}
use proyecto_3_sistemas_oper.Kernel.Virtio.Descriptors.{
  free_desc_lem, Taken, TooFew, alloc3_desc_lem,
}

abbrev pub one_of : ℕ → ℕ → ℕ → ℕ → Bool
one_of i j k c = c == i || c == j || c == k

-- The descriptors i, j and k are a chain that is in use.
pub record Chain (i j k : ℕ) (d : Disk) : Type 0 where
  pub first : (i < num) × (d.free i ≡ false) × ((d.desc i).flags % 2 ≡ 1) × ((d.desc i).next ≡ j)
  pub second : (j < num) × (d.free j ≡ false) × ((d.desc j).flags % 2 ≡ 1) × ((d.desc j).next ≡ k)
  pub third : (k < num) × (d.free k ≡ false) × ((d.desc k).flags % 2 ≡ 0)
  pub apart : (j ≢ i) × (k ≢ i) × (k ≢ j)

or_any : (p q : Bool) → (p || true || q) ≡ true
or_any p q = ground arith

or_last : (p q : Bool) → (p || q || true) ≡ true
or_last p q = ground arith

or_false : (p q : Bool) → (p || q) ≡ false → (p ≡ false) × (q ≡ false)
or_false p q h = ground arith

three_tests {ℓ} :
    {A : Type ℓ} (i j k c : ℕ) (x y : A)
    → (if c == k then x else if c == j then x else if c == i then x else y)
      ≡ (if one_of i j k c then x else y)
three_tests i j k c x y = elim (Bool-cases (c == k)) [
  | inl a ↦ rw (a, or_last (c == i) (c == j)) refl
  | inr a ↦ elim (Bool-cases (c == j)) [
    | inl b ↦ rw (a, b, or_any (c == i) false) refl
    | inr b ↦ elim (Bool-cases (c == i)) [ inl e ↦ rw (a, b, e) refl | inr e ↦ rw (a, b, e) refl ]
  ]
]

-- A link of a chain is freed, and then the rest.
chain_link :
    (fuel i next : ℕ) (d : Disk)
    → i < num
    → d.free i ≡ false
    → (d.desc i).flags % 2 ≡ 1
    → (d.desc i).next ≡ next
    → free_chain (suc fuel) i d ≡ free_chain fuel next (set_free i true (set_desc i no_desc d))
unfolding free_chain
chain_link fuel i next d lt taken flag follows =
    let more : ((d.desc i).flags % 2 == 1) ≡ true = ap (λ (x : ℕ). x == 1) flag in
    rw (more, free_desc_lem i d lt taken, follows) refl

chain_end :
    (fuel i : ℕ) (d : Disk)
    → i < num
    → d.free i ≡ false
    → (d.desc i).flags % 2 ≡ 0
    → free_chain (suc fuel) i d ≡ done (set_free i true (set_desc i no_desc d))
unfolding free_chain
chain_end fuel i d lt taken flag =
    let last : ((d.desc i).flags % 2 == 1) ≡ false = ap (λ (x : ℕ). x == 1) flag in
    rw (last, free_desc_lem i d lt taken) refl

-- What giving the chain back leaves.
pub record Returned (i j k : ℕ) (d d' : Disk) : Type 0 where
  pub free : (c : ℕ) → d'.free c ≡ (if one_of i j k c then true else d.free c)
  pub desc : (c : ℕ) → d'.desc c ≡ (if one_of i j k c then no_desc else d.desc c)
  pub busy : d'.busy ≡ d.busy

pub finish_lem :
    (i j k : ℕ) (d : Disk)
    → Chain i j k d
    → (d' : Disk) × (finish i d ≡ done d') × Returned i j k d d'
unfolding finish
finish_lem i j k d c =
    let (lt_i, taken_i, flag_i, next_i) = c.first in
    let (lt_j, taken_j, flag_j, next_j) = c.second in
    let (lt_k, taken_k, flag_k) = c.third in
    let (ji, ki, kj) = c.apart in
    let d0 : Disk = record d { buf_of = λ c. if c == i then 0 else d.buf_of c } in
    let d1 = set_free i true (set_desc i no_desc d0) in
    let d2 = set_free j true (set_desc j no_desc d1) in
    let ji' = eqb_of_ne j i ji in
    let ki' = eqb_of_ne k i ki in
    let kj' = eqb_of_ne k j kj in
    (
      set_free k true (set_desc k no_desc d2),
      chain_link 7 i j d0 lt_i taken_i flag_i next_i
          ∙ chain_link 6 j k d1 lt_j (rw ji' taken_j) (rw ji' flag_j) (rw ji' next_j)
          ∙ chain_end 5 k d2 lt_k (rw (kj', ki') taken_k) (rw (kj', ki') flag_k),
      record {
        free = λ c. three_tests i j k c true (d.free c);
        desc = λ c. three_tests i j k c no_desc (d.desc c);
        busy = refl;
      },
    )

-- What `submit` of a request leaves, with the chain i, j, k.
pub record Submitted (b i j k : ℕ) (d d' : Disk) : Type 0 where
  pub chain : Chain i j k d'
  pub were_free : (d.free i ≡ true) × (d.free j ≡ true) × (d.free k ≡ true)
  pub free : (c : ℕ) → d'.free c ≡ (if one_of i j k c then false else d.free c)
  pub others : (c : ℕ) → one_of i j k c ≡ false → d'.desc c ≡ d.desc c
  pub waits : (d'.busy b ≡ true) × (d'.buf_of i ≡ b) × (d'.ring (d.idx % num) ≡ i)

Taken-Submitted :
    (b blockno buf_data i j k : ℕ) (write : Bool) (d d' : Disk)
    → Taken i j k d d'
    → Submitted b i j k d (announce i b (format i j k blockno buf_data write d'))
Taken-Submitted b blockno buf_data i j k write d d' t =
    let (lt_i, free_i) = t.first in
    let (lt_j, free_j, ji) = t.second in
    let (lt_k, free_k, ki, kj) = t.third in
    let ij' = eqb_of_ne i j (λ e. ji (sym e)) in
    let ik' = eqb_of_ne i k (λ e. ki (sym e)) in
    let jk' = eqb_of_ne j k (λ e. kj (sym e)) in
    subst (λ (x : Disk). Submitted b i j k d (announce i b (format i j k blockno buf_data write x)))
      (sym t.rest)
      (record {
        chain = record {
          first = (
            lt_i,
            rw (ik', ij', eqb_refl i) refl,
            rw (ik', ij', eqb_refl i) refl,
            rw (ik', ij', eqb_refl i) refl,
          );
          second = (
            lt_j,
            rw (jk', eqb_refl j) refl,
            rw (jk', eqb_refl j) (odd write),
            rw (jk', eqb_refl j) refl,
          );
          third = (lt_k, rw (eqb_refl k) refl, rw (eqb_refl k) refl);
          apart = (ji, ki, kj);
        };
        were_free = (free_i, free_j, free_k);
        free = λ c. three_tests i j k c false (d.free c);
        others = λ c out. untouched i j k c (d.desc c) _ _ _ out;
        waits = (rw (eqb_refl b) refl, rw (eqb_refl i) refl, rw (eqb_refl (d.idx % num)) refl);
      })
  where
    odd : (w : Bool) → (if w then 1 else 3) % 2 ≡ 1
    odd true = refl
    odd false = refl

    untouched :
        (i j k c : ℕ) (y x1 x2 x3 : Desc)
        → one_of i j k c ≡ false
        → (if c == k then x3 else if c == j then x2 else if c == i then x1 else y) ≡ y
    untouched i j k c y x1 x2 x3 out =
        let (rest, e) = or_false (c == i || c == j) (c == k) out in
        let (a, b) = or_false (c == i) (c == j) rest in rw (a, b, e) refl

-- `submit` of a request does not panic. Either less than three descriptors are free, it sleeps, and
-- the same ones are free; or it takes three that were free and makes them a chain, which it puts into
-- the available ring for the buffer, and changes no other descriptor.
pub submit_lem :
    (b blockno buf_data : ℕ) (write : Bool) (d : Disk)
    → ((d' : Disk) × (submit b blockno buf_data write d ≡ done (none, d')) × TooFew d d')
      ⊎ ((i : ℕ) × (j : ℕ) × (k : ℕ) × (d' : Disk) × (submit b blockno buf_data write d
            ≡ done (some i, d'))
          × Submitted b i j k d d')
unfolding submit
submit_lem b blockno buf_data write d =
    let step = λ (o : Outcome (Option (ℕ × ℕ × ℕ) × Disk)).
      o >>= λ r. done (after_alloc b blockno buf_data write r) in
    elim (alloc3_desc_lem d) [
      | inl (d', ran, few) ↦ inl (d', ap step ran, few)
      | inr (i, j, k, d', ran, t) ↦
          inr (i, j, k, _, ap step ran, Taken-Submitted b blockno buf_data i j k write d d' t)
    ]

-- The descriptors i, j and k are as they were, whatever else has happened.
pub record Unchanged (i j k : ℕ) (d d' : Disk) : Type 0 where
  pub desc : (c : ℕ) → one_of i j k c ≡ true → d'.desc c ≡ d.desc c
  pub free : (c : ℕ) → one_of i j k c ≡ true → d'.free c ≡ d.free c

Unchanged-Chain : (i j k : ℕ) (d d' : Disk) → Unchanged i j k d d' → Chain i j k d → Chain i j k d'
Unchanged-Chain i j k d d' u c =
    let at_i : one_of i j k i ≡ true = rw (eqb_refl i) refl in
    let at_j : one_of i j k j ≡ true = rw (eqb_refl j) (or_any (j == i) (j == k)) in
    let at_k : one_of i j k k ≡ true = rw (eqb_refl k) (or_last (k == i) (k == j)) in
    let (lt_i, taken_i, flag_i, next_i) = c.first in
    let (lt_j, taken_j, flag_j, next_j) = c.second in
    let (lt_k, taken_k, flag_k) = c.third in
    record {
      first = (lt_i, u.free i at_i ∙ taken_i, rw (u.desc i at_i) flag_i, rw (u.desc i at_i) next_i);
      second =
          (lt_j, u.free j at_j ∙ taken_j, rw (u.desc j at_j) flag_j, rw (u.desc j at_j) next_j);
      third = (lt_k, u.free k at_k ∙ taken_k, rw (u.desc k at_k) flag_k);
      apart = c.apart;
    }

-- A request from its begin to its end: if `submit` gets its descriptors, then from every later state
-- in which these have not been changed, `finish` does not panic and frees exactly them, which were
-- free before the request.
pub finish-submit :
    (b blockno buf_data : ℕ) (write : Bool) (d : Disk)
    → ((d' : Disk) × (submit b blockno buf_data write d ≡ done (none, d')) × TooFew d d')
      ⊎ ((i : ℕ) × (j : ℕ) × (k : ℕ) × (d' : Disk) × (submit b blockno buf_data write d
            ≡ done (some i, d'))
          × ((later : Disk)
              → Unchanged i j k d' later
              → (d'' : Disk) × (finish i later ≡ done d'')
                × ((c : ℕ) → d''.free c ≡ (if one_of i j k c then d.free c else later.free c))))
finish-submit b blockno buf_data write d = elim (submit_lem b blockno buf_data write d) [
  | inl asleep ↦ inl asleep
  | inr (i, j, k, d', ran, s) ↦ inr (
    i,
    j,
    k,
    d',
    ran,
    λ later u.
        let (d'', ended, r) = finish_lem i j k later (Unchanged-Chain i j k d' later u s.chain) in
        (d'', ended, λ c. r.free c ∙ back i j k c d.free (later.free c) s.were_free),
  )
]
  where
    back :
        (i j k c : ℕ) (f : ℕ → Bool) (x : Bool)
        → (f i ≡ true) × (f j ≡ true) × (f k ≡ true)
        → (if one_of i j k c then true else x) ≡ (if one_of i j k c then f c else x)
    back i j k c f x (fi, fj, fk) = elim (Bool-cases (c == i)) [
      | inl e ↦ rw e (sym (ap f (eqb→eq c i e) ∙ fi))
      | inr a ↦ elim (Bool-cases (c == j)) [
        | inl e ↦ rw (a, e) (sym (ap f (eqb→eq c j e) ∙ fj))
        | inr b ↦ elim (Bool-cases (c == k)) [
          | inl e ↦ rw (a, b, e) (sym (ap f (eqb→eq c k e) ∙ fk))
          | inr e ↦ rw (a, b, e) refl
        ]
      ]
    ]
