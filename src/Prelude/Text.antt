-- ===== src/Prelude/Text.antt =====
-- Texts: code points, and `startswith` with the rest of the text behind the prefix.
use Prim.Native.Nat.{ℕ, zero, suc, ◌+◌}
use Prim.Native.Char.{code}
use Prim.Native.String.{String}
use mathlib.Core.Bool.{Bool, true, false, ◌&&◌}
use mathlib.Core.List.{List, [], ◌∷◌, map}
use mathlib.Core.Option.{Option, none, some}
use async_gate.Prelude.Tests.{◌==◌, leb, if◌then◌else◌, is_some}

abbrev pub codes : String → List ℕ
codes String.[] = []
codes (String.◌∷◌ c s) = code c ∷ codes s

-- What stands behind the prefix, if the text begins with it.
unfoldable pub strip_prefix : String → String → Option String
strip_prefix String.[] s = some s
strip_prefix (String.◌∷◌ c p) String.[] = none
strip_prefix (String.◌∷◌ c p) (String.◌∷◌ d s) = if code c == code d then strip_prefix p s else none

unfoldable pub starts_with : String → String → Bool
unfolding strip_prefix
starts_with s p = is_some (strip_prefix p s)

-- Concatenation that computes on a known first text.
unfoldable pub prepend : String → String → String
prepend String.[] t = t
prepend (String.◌∷◌ c s) t = String.◌∷◌ c (prepend s t)

-- s[:n]
unfoldable pub take_text : ℕ → String → String
take_text zero s = String.[]
take_text (suc n) String.[] = String.[]
take_text (suc n) (String.◌∷◌ c s) = String.◌∷◌ c (take_text n s)

-- What stands before and behind the first occurrence of the character.
unfoldable pub split_at : ℕ → String → Option (String × String)
split_at sep String.[] = none
split_at sep (String.◌∷◌ c s) =
    if code c == sep then some (String.[], s) else elim (split_at sep s) [
      | none ↦ none
      | some (before, behind) ↦ some (String.◌∷◌ c before, behind)
    ]

-- Equal but for the case of ASCII letters; the second text is in lower case.
unfoldable pub codes_eq : List ℕ → List ℕ → Bool
codes_eq [] [] = true
codes_eq [] (d ∷ ds) = false
codes_eq (c ∷ cs) [] = false
codes_eq (c ∷ cs) (d ∷ ds) = c == d && codes_eq cs ds

abbrev pub lower_code : ℕ → ℕ
lower_code c = if leb 65 c && leb c 90 then c + 32 else c

unfoldable pub is_lower_form : String → String → Bool
unfolding codes_eq
is_lower_form s low = codes_eq (map lower_code (codes s)) (codes low)
