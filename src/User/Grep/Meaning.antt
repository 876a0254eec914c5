-- ===== src/User/Grep/Meaning.antt =====
-- What the matcher accepts.
use proyecto_3_sistemas_oper.Base.{
  ℕ, ◌≡◌, ◌↔◌, refl, inl, inr, sym, ap, ◌∙◌, Bool, true, false, ◌==◌, List, [], ◌∷◌, ◌++◌, All,
  if◌then◌else◌, ◌||◌, arith, Bool-cases,
}
use proyecto_3_sistemas_oper.User.Grep.{matchhere, is_end, match_one, matchstar, match_from, match}

-- The character t fits the character c of an expression.
abbrev pub Fits : ℕ → ℕ → Type 0
Fits c t = (c == b'.' || c == t) ≡ true

-- The first character fits c, and the rest is in P.
abbrev pub FitsThen : (List ℕ → Type 0) → ℕ → List ℕ → Type 0
FitsThen P c [] = ⊥
FitsThen P c (t ∷ text) = Fits c t × P text

-- Some text, each character of which is in Q, and a rest in P.
abbrev pub SomeThen : (ℕ → Type 0) → (List ℕ → Type 0) → List ℕ → Type 0
SomeThen Q P text = (xs ys : List ℕ) × (text ≡ xs ++ ys) × All Q xs × P ys

-- A text that starts with what the expression describes: a dot fits any character, a star stands
-- for any number of its character, and a dollar sign at the end for the end of the text.
abbrev pub Starts : List ℕ → List ℕ → Type 0
Starts [] text = Unit {0}
Starts (c ∷ []) text = if c == b'$' then text ≡ [] else FitsThen (λ rest. Unit {0}) c text
Starts (c ∷ s ∷ re) text =
    if s == b'*'
    then SomeThen (Fits c) (λ rest. Starts re rest) text
    else FitsThen (λ rest. Starts (s ∷ re) rest) c text

false-true : false ≡ true → ⊥
false-true h = cc

is_end_iff : (text : List ℕ) → (is_end text ≡ true) ↔ (text ≡ [])
is_end_iff [] = (λ h. refl, λ h. refl)
is_end_iff (t ∷ text) = (λ h. absurd (false-true h), λ h. cc)

module _ (here : List ℕ → Bool) (P : List ℕ → Type 0)
    (right : (text : List ℕ) → (here text ≡ true) ↔ P text) where
  match_one_iff : (c : ℕ) (text : List ℕ) → (match_one here c text ≡ true) ↔ FitsThen P c text
  unfolding match_one
  match_one_iff c [] = (λ h. false-true h, λ h. elim h [ ])
  match_one_iff c (t ∷ text) = elim (Bool-cases (c == b'.' || c == t)) [
    | inl fits ↦ (λ h. (fits, (right text).0 (rw fits at h)), λ h. rw fits ((right text).1 h.1))
    | inr misfit ↦
        (λ h. absurd (false-true (rw misfit at h)), λ h. absurd (false-true (sym misfit ∙ h.0)))
  ]

  matchstar_sound :
      (c : ℕ) (text : List ℕ) → matchstar here c text ≡ true → SomeThen (Fits c) P text
  unfolding matchstar
  matchstar_sound c [] h = ([], [], refl, tt, (right []).0 h)
  matchstar_sound c (t ∷ text) h = elim (Bool-cases (here (t ∷ text))) [
    | inl now ↦ ([], t ∷ text, refl, tt, (right (t ∷ text)).0 now)
    | inr later ↦ elim (Bool-cases (t == c || c == b'.')) [
      | inr misfit ↦ absurd (false-true (rw (later, misfit) at h))
      | inl fits ↦
          let (xs, ys, split, all, rest) = matchstar_sound c text (rw (later, fits) at h) in
          (t ∷ xs, ys, ap (λ l. t ∷ l) split, (ground arith, all), rest)
    ]
  ]

  matchstar_complete :
      (c : ℕ) (xs ys : List ℕ) → All (Fits c) xs → P ys → matchstar here c (xs ++ ys) ≡ true
  unfolding matchstar
  matchstar_complete c [] [] all p = (right []).1 p
  matchstar_complete c [] (y ∷ ys) all p = rw ((right (y ∷ ys)).1 p) refl
  matchstar_complete c (x ∷ xs) ys all p = elim (Bool-cases (here (x ∷ (xs ++ ys)))) [
    | inl now ↦ rw now refl
    | inr later ↦
        let fits : (x == c || c == b'.') ≡ true = ground (arith, all.0) in
        rw (later, fits) (matchstar_complete c xs ys all.1 p)
  ]

  matchstar_iff :
      (c : ℕ) (text : List ℕ) → (matchstar here c text ≡ true) ↔ SomeThen (Fits c) P text
  matchstar_iff c text =
      (matchstar_sound c text, λ h. rw h.2 (matchstar_complete c h.0 h.1 h.3 h.4))

  match_from_sound : (text : List ℕ) → match_from here text ≡ true → SomeThen (λ t. Unit {0}) P text
  unfolding match_from
  match_from_sound [] h = ([], [], refl, tt, (right []).0 h)
  match_from_sound (t ∷ text) h = elim (Bool-cases (here (t ∷ text))) [
    | inl now ↦ ([], t ∷ text, refl, tt, (right (t ∷ text)).0 now)
    | inr later ↦
        let (xs, ys, split, all, rest) = match_from_sound text (rw later at h) in
        (t ∷ xs, ys, ap (λ l. t ∷ l) split, (tt, all), rest)
  ]

  match_from_complete : (xs ys : List ℕ) → P ys → match_from here (xs ++ ys) ≡ true
  unfolding match_from
  match_from_complete [] [] p = (right []).1 p
  match_from_complete [] (y ∷ ys) p = rw ((right (y ∷ ys)).1 p) refl
  match_from_complete (x ∷ xs) ys p = elim (Bool-cases (here (x ∷ (xs ++ ys)))) [
    | inl now ↦ rw now refl
    | inr later ↦ rw later (match_from_complete xs ys p)
  ]

  match_from_iff : (text : List ℕ) → (match_from here text ≡ true) ↔ SomeThen (λ t. Unit {0}) P text
  match_from_iff text = (match_from_sound text, λ h. rw h.2 (match_from_complete h.0 h.1 h.4))

-- `matchhere` finds a match exactly if the text starts with what the expression describes.
pub matchhere_iff : (re text : List ℕ) → (matchhere re text ≡ true) ↔ Starts re text
unfolding matchhere
matchhere_iff [] text = (λ h. tt, λ h. refl)
matchhere_iff (c ∷ []) text = elim (Bool-cases (c == b'$')) [
  | inl dollar ↦ rw dollar (is_end_iff text)
  | inr plain ↦
      rw plain
        (match_one_iff (λ rest. true) (λ rest. Unit {0}) (λ rest. (λ h. tt, λ h. refl)) c text)
]
matchhere_iff (c ∷ s ∷ re) text = elim (Bool-cases (s == b'*')) [
  | inl star ↦
      rw star (
        matchstar_iff (λ rest. matchhere re rest) (λ rest. Starts re rest) (matchhere_iff re) c
          text)
  | inr plain ↦ rw plain (
      match_one_iff (λ rest. matchhere (s ∷ re) rest) (λ rest. Starts (s ∷ re) rest)
        (matchhere_iff (s ∷ re)) c text)
]

-- A text that the expression describes a part of; with a caret, a part at its start.
abbrev pub Matches : List ℕ → List ℕ → Type 0
Matches [] text = SomeThen (λ t. Unit {0}) (Starts []) text
Matches (c ∷ re) text =
    if c == b'^' then Starts re text else SomeThen (λ t. Unit {0}) (Starts (c ∷ re)) text

-- `match` finds a match exactly if the expression describes some part of the text, or, if it starts
-- with a caret, a part at the text's start.
pub match_iff : (re text : List ℕ) → (match re text ≡ true) ↔ Matches re text
unfolding match
match_iff [] text = match_from_iff (matchhere []) (Starts []) (matchhere_iff []) text
match_iff (c ∷ re) text = elim (Bool-cases (c == b'^')) [
  | inl caret ↦ rw caret (matchhere_iff re text)
  | inr any ↦
      rw any (match_from_iff (matchhere (c ∷ re)) (Starts (c ∷ re)) (matchhere_iff (c ∷ re)) text)
]
