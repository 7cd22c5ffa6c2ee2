-- ===== src/Tests/Delta.antt =====
-- features/delta/extract.py: the detection of changes at concrete inputs.
use ai_forge_memory.Prelude.{String, true, none, some, List, [], ◌∷◌, ◌≡◌, ◌≢◌, ◌↔◌, refl}
use ai_forge_memory.Prelude.Dict.{Dict, lookup}
use ai_forge_memory.Prelude.Sort.{In, IsSorted}
use ai_forge_memory.State.{Db, empty_db}
use ai_forge_memory.Delta.Hashes.{diff_hashes, diff_hashes_iff}
use ai_forge_memory.Delta.GitDiff.{exited, git_diff, tokens, split_nul, scan}
use ai_forge_memory.Delta.GitDiff.Reading.{
  Entry, added, modified, renamed, print, added_of, modified_of, deleted_of, git_diff-print,
}
use ai_forge_memory.Delta.Detect.{Checkout}

abbrev entries : List Entry
entries = added "n.py" ∷ renamed "90" "o.py" "p.py" ∷ modified "q.py" ∷ []

git_diff-print_example : git_diff (exited true (print entries)) ≡ record {
  added = added_of entries;
  modified = modified_of entries;
  deleted = deleted_of entries;
}
git_diff-print_example = git_diff-print entries (
  ((refl, (refl, (refl, (refl, tt)))), refl),
  (
    (
      (refl, (refl, tt)),
      ((refl, (refl, (refl, (refl, tt)))), refl),
      ((refl, (refl, (refl, (refl, tt)))), refl),
    ),
    (((refl, (refl, (refl, (refl, tt)))), refl), tt),
  ),
)

-- The same output, written out: a copy too counts as its source deleted.
git_diff_of_copy :
    git_diff (exited true "C80\0a.py\0b.py\0")
    ≡ record { added = "b.py" ∷ []; modified = []; deleted = "a.py" ∷ [] }
unfolding git_diff tokens split_nul scan
git_diff_of_copy = refl

abbrev before : Dict String
before = ("a.py", "1") ∷ ("b.py", "2") ∷ []

abbrev after : Dict String
after = ("c.py", "3") ∷ ("a.py", "9") ∷ []

diff_hashes_iff_example :
    let c = diff_hashes before after in
    (IsSorted c.added × IsSorted c.modified × IsSorted c.deleted)
    × (In "c.py" c.added ↔ ((lookup "c.py" after ≢ none) × (lookup "c.py" before ≡ none)))
    × (In "c.py" c.deleted ↔ ((lookup "c.py" before ≢ none) × (lookup "c.py" after ≡ none)))
    × (In "c.py" c.modified ↔ (
        (lookup "c.py" before ≢ none)
        × (lookup "c.py" after ≢ none)
        × (lookup "c.py" after ≢ lookup "c.py" before)))
diff_hashes_iff_example = diff_hashes_iff before after "c.py"

-- A checkout whose head has moved from the stored one.
abbrev moved_checkout : Checkout
moved_checkout = record {
  rev_parse = exited true "f01";
  abbrev_ref = exited true "main";
  diff = λ a b. exited true "";
  hashes = after;
}

abbrev known_db : Db
known_db = record empty_db { git_state = λ r. some ("f00", "main"); merkle_files = λ r. before }
