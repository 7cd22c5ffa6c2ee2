-- ===== src/Delta/GitDiff/Reading.antt =====
-- features/delta/extract.py: `_git_diff` reads back what git printed.
use ai_forge_memory.Prelude.{String, true, false, List, [], ◌∷◌, ◌++◌, eqb, ◌≡◌, refl, ap, ◌∙◌, All}
use Prim.Native.Char.{Char, code}
use mathlib.Core.List.{append-nil, append_assoc}
use ai_forge_memory.Delta.Hashes.{Changes}
use ai_forge_memory.Delta.GitDiff.{
  split_nul, is_empty, tokens, is_rename, classify, moved, scan, no_changes, exited, git_diff,
}

-- One line of the diff: an added, modified, deleted or type-changed path, or a rename from a path
-- to another with its similarity.
pub data Entry : Type 0 where
  added modified deleted retyped : String → Entry
  renamed : String → String → String → Entry

abbrev pub fields : Entry → List String
fields (added p) = "A" ∷ p ∷ []
fields (modified p) = "M" ∷ p ∷ []
fields (deleted p) = "D" ∷ p ∷ []
fields (retyped p) = "T" ∷ p ∷ []
fields (renamed score old new) = String.◌∷◌ "R" score ∷ old ∷ new ∷ []

abbrev all_fields : List Entry → List String
all_fields [] = []
all_fields (e ∷ es) = fields e ++ all_fields es

abbrev nul : Char
nul = "\0"

-- A field and the NUL that ends it, before the rest of the output.
abbrev terminate : String → String → String
terminate String.[] rest = String.◌∷◌ nul rest
terminate (String.◌∷◌ c s) rest = String.◌∷◌ c (terminate s rest)

abbrev print_fields : List String → String
print_fields [] = ""
print_fields (f ∷ fs) = terminate f (print_fields fs)

-- What git prints for the entries.
abbrev pub print : List Entry → String
print es = print_fields (all_fields es)

abbrev pub HasNoNul : String → Type 0
HasNoNul String.[] = Unit
HasNoNul (String.◌∷◌ c s) = (eqb (code c) 0 ≡ false) × HasNoNul s

-- A path is a text with no NUL that is not empty.
abbrev pub IsPathText : String → Type 0
IsPathText p = HasNoNul p × (is_empty p ≡ false)

abbrev pub IsPrintable : Entry → Type 0
IsPrintable (added p) = IsPathText p
IsPrintable (modified p) = IsPathText p
IsPrintable (deleted p) = IsPathText p
IsPrintable (retyped p) = IsPathText p
IsPrintable (renamed score old new) = HasNoNul score × IsPathText old × IsPathText new

split_nul-terminate :
    (f rest : String) → HasNoNul f → split_nul (terminate f rest) ≡ f ∷ split_nul rest
unfolding split_nul
split_nul-terminate String.[] rest h = refl
split_nul-terminate (String.◌∷◌ c f) rest h = rw (h.0, split_nul-terminate f rest h.1)

tokens-print_fields : (fs : List String) → All IsPathText fs → tokens (print_fields fs) ≡ fs
unfolding tokens
tokens-print_fields [] h = refl
tokens-print_fields (f ∷ fs) h =
    rw (split_nul-terminate f (print_fields fs) h.0.0, h.0.1)
      (ap (λ (t : List String). f ∷ t) (tokens-print_fields fs h.1))

all_fields-IsPathText : (es : List Entry) → All IsPrintable es → All IsPathText (all_fields es)
all_fields-IsPathText [] h = tt
all_fields-IsPathText (added p ∷ es) h = (((refl, tt), refl), (h.0, all_fields-IsPathText es h.1))
all_fields-IsPathText (modified p ∷ es) h =
    (((refl, tt), refl), (h.0, all_fields-IsPathText es h.1))
all_fields-IsPathText (deleted p ∷ es) h = (((refl, tt), refl), (h.0, all_fields-IsPathText es h.1))
all_fields-IsPathText (retyped p ∷ es) h = (((refl, tt), refl), (h.0, all_fields-IsPathText es h.1))
all_fields-IsPathText (renamed score old new ∷ es) h =
    (((refl, h.0.0), refl), (h.0.1, (h.0.2, all_fields-IsPathText es h.1)))

abbrev pub added_of : List Entry → List String
added_of [] = []
added_of (added p ∷ es) = p ∷ added_of es
added_of (renamed score old new ∷ es) = new ∷ added_of es
added_of (modified p ∷ es) = added_of es
added_of (deleted p ∷ es) = added_of es
added_of (retyped p ∷ es) = added_of es

abbrev pub modified_of : List Entry → List String
modified_of [] = []
modified_of (modified p ∷ es) = p ∷ modified_of es
modified_of (retyped p ∷ es) = p ∷ modified_of es
modified_of (added p ∷ es) = modified_of es
modified_of (deleted p ∷ es) = modified_of es
modified_of (renamed score old new ∷ es) = modified_of es

abbrev pub deleted_of : List Entry → List String
deleted_of [] = []
deleted_of (deleted p ∷ es) = p ∷ deleted_of es
deleted_of (renamed score old new ∷ es) = old ∷ deleted_of es
deleted_of (added p ∷ es) = deleted_of es
deleted_of (modified p ∷ es) = deleted_of es
deleted_of (retyped p ∷ es) = deleted_of es

scan-plain :
    (status path : String) (rest : List String) (c : Changes)
    → is_rename status ≡ false
    → scan (status ∷ path ∷ rest) c ≡ scan rest (classify status path c)
unfolding scan
scan-plain status path [] c h = rw h
scan-plain status path (n ∷ rest) c h = rw h

-- What the loop adds to the three lists for the entries that are left.
abbrev extended : Changes → List Entry → Changes
extended c es = record {
  added = c.added ++ added_of es;
  modified = c.modified ++ modified_of es;
  deleted = c.deleted ++ deleted_of es;
}

scan-extended : (es : List Entry) (c : Changes) → scan (all_fields es) c ≡ extended c es
unfolding scan
scan-extended [] c = simp append-nil
scan-extended (added p ∷ es) c =
    scan-plain "A" p (all_fields es) c refl
    ∙ scan-extended es (classify "A" p c)
    ∙ simp append_assoc
scan-extended (modified p ∷ es) c =
    scan-plain "M" p (all_fields es) c refl
    ∙ scan-extended es (classify "M" p c)
    ∙ simp append_assoc
scan-extended (deleted p ∷ es) c =
    scan-plain "D" p (all_fields es) c refl
    ∙ scan-extended es (classify "D" p c)
    ∙ simp append_assoc
scan-extended (retyped p ∷ es) c =
    scan-plain "T" p (all_fields es) c refl
    ∙ scan-extended es (classify "T" p c)
    ∙ simp append_assoc
scan-extended (renamed score old new ∷ es) c =
    scan-extended es (moved old new c) ∙ simp append_assoc

-- Of what git prints for a list of added, modified, deleted, type-changed and renamed paths, the
-- three lists are read back in order: a rename counts as its old path deleted and its new path
-- added, a type change as modified. Paths are not empty, and no field holds a NUL.
pub git_diff-print :
    (es : List Entry)
    → All IsPrintable es
    → git_diff (exited true (print es))
      ≡ record { added = added_of es; modified = modified_of es; deleted = deleted_of es }
unfolding git_diff
git_diff-print es h =
    rw (tokens-print_fields (all_fields es) (all_fields-IsPathText es h))
      (scan-extended es no_changes)
