-- ===== src/Wal/Lines.antt =====
-- The lines of a log of wal.rs, and what is added to it.
use daikon.Prelude.{
  ℕ, false, ◌≡◌, refl, ◌∙◌, ap, List, [], ◌∷◌, ◌++◌, eqb, is_empty, ◌&&◌, arith, Bool-cases, inl,
  inr, eqb_iff,
}
use daikon.Crypto.{Bytes}
use daikon.Wal.{split_lines, prepend, newline}

-- A file in which every line has its newline.
abbrev pub IsComplete : Bytes → Type 0
IsComplete [] = Unit
IsComplete (b ∷ []) = b ≡ newline
IsComplete (b ∷ c ∷ bs) = IsComplete (c ∷ bs)

-- Neither a newline nor a carriage return.
abbrev pub IsLine : Bytes → Type 0
IsLine [] = Unit
IsLine (b ∷ bs) = (eqb b newline ≡ false) × (eqb b 13 ≡ false) × IsLine bs

pub append-IsComplete : (file line : Bytes) → IsComplete (file ++ (line ++ newline ∷ []))
append-IsComplete [] [] = refl
append-IsComplete [] (b ∷ []) = refl
append-IsComplete [] (b ∷ c ∷ bs) = append-IsComplete [] (c ∷ bs)
append-IsComplete (b ∷ []) [] = refl
append-IsComplete (b ∷ []) (c ∷ bs) = append-IsComplete [] (c ∷ bs)
append-IsComplete (b ∷ c ∷ bs) line = append-IsComplete (c ∷ bs) line

is_empty-prepend : (b : ℕ) (lines : List Bytes) → is_empty (prepend b lines) ≡ false
is_empty-prepend b [] = refl
is_empty-prepend b (l ∷ lines) = refl

is_empty-split_lines : (b : ℕ) (bs : Bytes) → is_empty (split_lines (b ∷ bs)) ≡ false
unfolding split_lines
is_empty-split_lines b [] = ground arith
is_empty-split_lines b (c ∷ bs) =
    ground (arith, is_empty-split_lines c bs, is_empty-prepend b (split_lines (c ∷ bs)))

prepend-append :
    (b : ℕ) (xs ys : List Bytes) → is_empty xs ≡ false → prepend b (xs ++ ys) ≡ prepend b xs ++ ys
prepend-append b [] ys h = ground arith
prepend-append b (x ∷ xs) ys h = refl

pub split_lines-append :
    (file more : Bytes)
    → IsComplete file
    → split_lines (file ++ more) ≡ split_lines file ++ split_lines more
unfolding split_lines
split_lines-append [] more h = refl
split_lines-append (b ∷ []) more h = rw ((eqb_iff b 10).1 h) refl
split_lines-append (b ∷ c ∷ bs) more h =
    let rest = split_lines-append (c ∷ bs) more h in
    elim (Bool-cases (eqb b newline)) [
      | inl ends ↦ rw ends (ap (λ l. [] ∷ l) rest)
      | inr inside ↦ elim (Bool-cases (eqb b 13 && eqb c newline)) [
        | inl return ↦ rw (inside, return) rest
        | inr other ↦
            rw (inside, other)
              (ap (prepend b) rest
                ∙ prepend-append b (split_lines (c ∷ bs)) (split_lines more)
                    (is_empty-split_lines c bs))
      ]
    ]

pub split_lines-line : (line : Bytes) → IsLine line → split_lines (line ++ newline ∷ []) ≡ line ∷ []
unfolding split_lines
split_lines-line [] h = refl
split_lines-line (b ∷ bs) h = rw (h.0, h.1, split_lines-line bs h.2) refl

-- What is left of a line whose write was cut off.
pub split_lines-torn :
    (line : Bytes) → IsLine line → is_empty line ≡ false → split_lines line ≡ line ∷ []
unfolding split_lines
split_lines-torn [] h some_byte = ground arith
split_lines-torn (b ∷ []) h some_byte = rw (h.0, h.1) refl
split_lines-torn (b ∷ c ∷ bs) h some_byte = rw (h.0, h.1, split_lines-torn (c ∷ bs) h.2 refl) refl
