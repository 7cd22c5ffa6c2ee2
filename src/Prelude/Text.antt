-- ===== src/Prelude/Text.antt =====
-- Texts as lists of code points, where the program walks their characters.
use Prim.Native.Nat.{ℕ, zero, suc, ◌+◌, ◌-◌, ◌*◌}
use Prim.Native.Char.{Char, code}
use Prim.Native.String.{String}
use mathlib.Core.Bool.{Bool, true, false, ◌&&◌, ◌||◌}
use mathlib.Core.Option.{Option, none, some}
use mathlib.Core.List.{List, [], ◌∷◌, map, reverse}
use ai_forge_memory.Prelude.Tests.{leb, eqb, if◌then◌else◌}

abbrev pub Text : Type 0
Text = List ℕ

abbrev pub codes : String → Text
codes String.[] = []
codes (String.◌∷◌ c s) = code c ∷ codes s

-- `str.lower` on ASCII.
abbrev pub lower_code : ℕ → ℕ
lower_code c = if leb b'A' c && leb c b'Z' then c + 32 else c

unfoldable pub lower : Text → Text
lower = map lower_code

abbrev pub is_prefix : Text → Text → Bool
is_prefix [] s = true
is_prefix (p ∷ ps) [] = false
is_prefix (p ∷ ps) (c ∷ s) = eqb p c && is_prefix ps s

-- `needle in s`
abbrev pub is_infix : Text → Text → Bool
is_infix needle [] = is_prefix needle []
is_infix needle (c ∷ s) = is_prefix needle (c ∷ s) || is_infix needle s

-- ASCII white space, which `str.strip` removes.
abbrev pub is_space : ℕ → Bool
is_space c = eqb c 32 || leb 9 c && leb c 13 || leb 28 c && leb c 31

abbrev pub lstrip : Text → Text
lstrip [] = []
lstrip (c ∷ s) = if is_space c then lstrip s else c ∷ s

abbrev pub strip : Text → Text
strip s = reverse (lstrip (reverse (lstrip s)))

-- A run of decimal digits; `none` where `int` raises `ValueError`.
abbrev pub digits_from : ℕ → Text → Option ℕ
digits_from n [] = some n
digits_from n (c ∷ s) =
    let rest = digits_from (n * 10 + (c - 48)) s in if leb 48 c && leb c 57 then rest else none

unfoldable pub int : Text → Option ℕ
int s = elim (strip s) [ [] ↦ none | c ∷ r ↦ digits_from 0 (c ∷ r) ]

-- `str.strip` on a text whose white space is ASCII.
abbrev drop_space : String → String
drop_space String.[] = ""
drop_space (String.◌∷◌ c s) = if is_space (code c) then drop_space s else String.◌∷◌ c s

abbrev trim_cons : Char → String → String
trim_cons c String.[] = if is_space (code c) then "" else String.◌∷◌ c ""
trim_cons c (String.◌∷◌ d s) = String.◌∷◌ c (String.◌∷◌ d s)

abbrev trim_end : String → String
trim_end String.[] = ""
trim_end (String.◌∷◌ c s) = trim_cons c (trim_end s)

unfoldable pub stripped : String → String
stripped s = trim_end (drop_space s)

-- `s + t` on texts.
infixr 90 ◌&◌
abbrev pub ◌&◌ : String → String → String
String.[] & t = t
(String.◌∷◌ c s) & t = String.◌∷◌ c (s & t)

-- `s.startswith(p)`
abbrev pub starts_with : String → String → Bool
starts_with p s = is_prefix (codes p) (codes s)

-- `p in s`
abbrev pub is_in : String → String → Bool
is_in p s = is_infix (codes p) (codes s)

-- `sep.join(parts)`
abbrev pub join_with : String → List String → String
join_with sep [] = ""
join_with sep (s ∷ []) = s
join_with sep (s ∷ t ∷ ts) = s & sep & join_with sep (t ∷ ts)

-- `s[:n]`
abbrev pub clip : ℕ → String → String
clip zero s = ""
clip (suc n) String.[] = ""
clip (suc n) (String.◌∷◌ c s) = String.◌∷◌ c (clip n s)

-- `s == t`, on code points.
abbrev pub same_text : Text → Text → Bool
same_text [] [] = true
same_text [] (d ∷ t) = false
same_text (c ∷ s) [] = false
same_text (c ∷ s) (d ∷ t) = eqb c d && same_text s t
