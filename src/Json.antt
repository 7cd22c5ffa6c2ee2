-- ===== src/Json.antt =====
-- Values of JSON and YAML, as the program looks at them: those that a language model answers, and
-- those of an operator's file. A number is natural; another one is a `number` by its text.
use ai_forge_memory.Prelude.{
  ℕ, zero, suc, String, Bool, true, false, not, Option, none, some, List, [], ◌∷◌, ◌==◌,
  if◌then◌else◌,
}

mutual
  pub data Value : Type 0 where
    null : Value
    bool : Bool → Value
    nat : ℕ → Value
    number : String → Value
    str : String → Value
    arr : Elements → Value
    obj : Pairs → Value

  pub data Elements : Type 0 where
    no_element : Elements
    element : Value → Elements → Elements

  pub data Pairs : Type 0 where
    no_pair : Pairs
    pair : String → Value → Pairs → Pairs

-- `dict.get(k)`: a later field of a name takes the place of an earlier one.
abbrev pub get : String → Pairs → Option Value
get k no_pair = none
get k (pair j v fs) = elim (get k fs) [ some w ↦ some w | none ↦ if j == k then some v else none ]

-- Python's truth of a value; a `number` is not zero.
abbrev pub is_true : Value → Bool
is_true null = false
is_true (bool b) = b
is_true (nat zero) = false
is_true (nat (suc n)) = true
is_true (number s) = true
is_true (str s) = not (s == "")
is_true (arr no_element) = false
is_true (arr (element v vs)) = true
is_true (obj no_pair) = false
is_true (obj (pair k v fs)) = true

abbrev pub list_of : Elements → List Value
list_of no_element = []
list_of (element v vs) = v ∷ list_of vs

abbrev is_key : String → List String → Bool
is_key k [] = false
is_key k (j ∷ js) = if j == k then true else is_key k js

-- The keys of an object, each once, where it stands first.
abbrev keys_of : Pairs → List String → List Value
keys_of no_pair seen = []
keys_of (pair k v fs) seen =
    let rest = keys_of fs seen in
    let fresh = keys_of fs (k ∷ seen) in if is_key k seen then rest else str k ∷ fresh

abbrev chars_of : String → List Value
chars_of String.[] = []
chars_of (String.◌∷◌ c s) = str (String.◌∷◌ c "") ∷ chars_of s

-- `for x in value`; `none` where it raises a TypeError.
abbrev pub iterate : Value → Option (List Value)
iterate (arr vs) = some (list_of vs)
iterate (str s) = some (chars_of s)
iterate (obj fs) = some (keys_of fs [])
iterate v = none

-- `d.get(k) or []`, iterated.
abbrev pub each_of : Option Value → Option (List Value)
each_of none = some []
each_of (some v) = if is_true v then iterate v else some []
