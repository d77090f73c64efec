-- ===== src/Prelude/Text.antt =====
-- Texts: `format!` as a concatenation, membership in a vector of texts, and code points.
use Prim.Native.Nat.{ℕ}
use Prim.Native.Char.{code}
use Prim.Native.String.{String, ◌++◌}
use Prim.Native.String.append
use mathlib.Core.Path.{◌≡◌, ap, ◌∙◌}
use mathlib.Core.List
use mathlib.Core.List.{List}
use mathlib.Core.Bool.{Bool, false, ◌||◌}
use text.Mathlib.Text.{◌==◌}

unfoldable pub format : List String → String
format List.[] = ""
format (List.◌∷◌ s rest) = s ++ format rest

-- `v.contains(s)` of a vector of texts.
abbrev pub contains : List String → String → Bool
contains List.[] s = false
contains (List.◌∷◌ x xs) s = x == s || contains xs s

-- `s.chars().collect()`
abbrev pub codes : String → List ℕ
codes String.[] = List.[]
codes (String.◌∷◌ c s) = List.◌∷◌ (code c) (codes s)

pub codes-append : (s t : String) → codes (s ++ t) ≡ List.◌++◌ (codes s) (codes t)
codes-append String.[] t = ap codes (append.nil t)
codes-append (String.◌∷◌ c s) t =
    ap codes (append.cons c s t) ∙ ap (λ l. List.◌∷◌ (code c) l) (codes-append s t)
