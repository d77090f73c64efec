-- ===== src/Glob.antt =====
-- kv_store.rs: `matches_glob`. An index into the text or the pattern is the suffix that begins
-- there.
use daikon.Prelude.{
  ℕ, ◌≡◌, ◌≢◌, ◌↔◌, refl, String, Bool, true, false, ◌||◌, List, [], ◌∷◌, is_empty, codes, eqb,
  eqb_iff, if◌then◌else◌, Bool-cases, inl, inr, arith,
}

-- `pattern[pi] == '?' || pattern[pi] == text[ti]`, and on with the rest.
match_char : ℕ → (List ℕ → Bool) → List ℕ → Bool
match_char p rest [] = false
match_char p rest (c ∷ text) = if eqb p b'?' || eqb p c then rest text else false

-- `for i in ti..=text.len()`
try_from : (List ℕ → Bool) → List ℕ → Bool
try_from rest [] = rest []
try_from rest (c ∷ text) = rest (c ∷ text) || try_from rest text

unfoldable pub match_recursive : List ℕ → List ℕ → Bool
unfolding match_char try_from
match_recursive [] text = is_empty text
match_recursive (p ∷ pattern) text =
    if eqb p b'*'
    then try_from (match_recursive pattern) text
    else match_char p (match_recursive pattern) text

unfoldable pub matches_glob : String → String → Bool
unfolding match_recursive
matches_glob text pattern = match_recursive (codes pattern) (codes text)

-- The texts that a pattern stands for: `*` is any run of characters, `?` any one character, and
-- any other character itself.
pub data Matches : List ℕ → List ℕ → Type 0 where
  done : Matches [] []
  star_end : {p : ℕ} {ps text : List ℕ} → p ≡ b'*' → Matches ps text → Matches (p ∷ ps) text
  star_take :
      {p c : ℕ} {ps text : List ℕ} → p ≡ b'*' → Matches (p ∷ ps) text → Matches (p ∷ ps) (c ∷ text)
  any_char : {p c : ℕ} {ps text : List ℕ} → p ≡ b'?' → Matches ps text → Matches (p ∷ ps) (c ∷ text)
  same_char :
      {p c : ℕ} {ps text : List ℕ}
      → p ≢ b'*'
      → p ≡ c
      → Matches ps text
      → Matches (p ∷ ps) (c ∷ text)

module _ {p : ℕ} {ps : List ℕ} (star : p ≡ b'*') where
  try_from_sound :
      (rest : List ℕ → Bool)
      → ((t : List ℕ) → rest t ≡ true → Matches ps t)
      → (text : List ℕ) → try_from rest text ≡ true
      → Matches (p ∷ ps) text
  unfolding try_from
  try_from_sound rest ih [] h = star_end star (ih [] h)
  try_from_sound rest ih (c ∷ text) h = elim (Bool-cases (rest (c ∷ text))) [
    | inl now ↦ star_end star (ih (c ∷ text) now)
    | inr later ↦ star_take star (try_from_sound rest ih text (rw later at h))
  ]

match_char_sound :
    (p : ℕ) (ps : List ℕ) (rest : List ℕ → Bool)
    → p ≢ b'*'
    → ((t : List ℕ) → rest t ≡ true → Matches ps t)
    → (text : List ℕ) → match_char p rest text ≡ true
    → Matches (p ∷ ps) text
unfolding match_char
match_char_sound p ps rest plain ih [] h = cc
match_char_sound p ps rest plain ih (c ∷ text) h = elim (Bool-cases (eqb p b'?')) [
  | inl any ↦ any_char ((eqb_iff _ _).0 any) (ih text (rw any at h))
  | inr other ↦ elim (Bool-cases (eqb p c)) [
    | inl same ↦ same_char plain ((eqb_iff _ _).0 same) (ih text (rw (other, same) at h))
    | inr differ ↦ absurd (ground arith)
  ]
]

match_recursive_sound : (ps text : List ℕ) → match_recursive ps text ≡ true → Matches ps text
unfolding match_recursive
match_recursive_sound [] [] h = done
match_recursive_sound [] (c ∷ text) h = cc
match_recursive_sound (p ∷ ps) text h = elim (Bool-cases (eqb p b'*')) [
  | inl star ↦
      try_from_sound ((eqb_iff _ _).0 star) (match_recursive ps) (match_recursive_sound ps) text
        (rw star at h)
  | inr plain ↦
      match_char_sound p ps (match_recursive ps) (λ e. ground arith) (match_recursive_sound ps) text
        (rw plain at h)
]

try_from_here :
    (rest : List ℕ → Bool) (text : List ℕ) → rest text ≡ true → try_from rest text ≡ true
unfolding try_from
try_from_here rest [] h = h
try_from_here rest (c ∷ text) h = rw h

try_from_later :
    (rest : List ℕ → Bool) (c : ℕ) (text : List ℕ)
    → try_from rest text ≡ true
    → try_from rest (c ∷ text) ≡ true
unfolding try_from
try_from_later rest c text h = ground arith

match_recursive_complete : {ps text : List ℕ} → Matches ps text → match_recursive ps text ≡ true
unfolding match_recursive match_char
match_recursive_complete done = refl
match_recursive_complete (star_end {ps = ps} {text = text} e d) =
    rw ((eqb_iff _ _).1 e) (try_from_here (match_recursive ps) text (match_recursive_complete d))
match_recursive_complete (star_take {c = c} {ps = ps} {text = text} e d) =
    ground (arith, match_recursive_complete d)
match_recursive_complete (any_char {p = p} {ps = ps} {text = text} e d) =
    ground (arith, match_recursive_complete d)
match_recursive_complete (same_char plain e d) = ground (arith, match_recursive_complete d)

-- `matches_glob` answers true exactly on the texts that the pattern stands for.
pub matches_glob_iff :
    (text pattern : String)
    → (matches_glob text pattern ≡ true) ↔ Matches (codes pattern) (codes text)
unfolding matches_glob
matches_glob_iff text pattern =
    (match_recursive_sound (codes pattern) (codes text), match_recursive_complete)
