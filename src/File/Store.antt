-- ===== src/File/Store.antt =====
-- features/file/store.py: `write_summaries`, on the file nodes of the graph.
pub mod Paired
use ai_forge_memory.Prelude.{
  ℕ, ◌+◌, String, not, ◌&&◌, Option, none, some, List, [], ◌∷◌, ◌==◌, if◌then◌else◌,
}
use ai_forge_memory.Prelude.Text.{Text}
use ai_forge_memory.File.{FileSummary}

pub record FileNode : Type 0 where
  pub repo : String
  pub path : String
  pub summary : Option String
  pub purpose_tags : Option (List Text)
  pub skipped_reason : Option String

pub record Written : Type 0 where
  pub updated : ℕ
  pub skipped : ℕ

-- `coalesce(f.summary, '')`
abbrev pub text_or : Option String → String
text_or none = ""
text_or (some s) = s

abbrev pub tags_or : Option (List Text) → List Text
tags_or none = []
tags_or (some ts) = ts

abbrev pub new_tags : List Text → Option (List Text) → List Text
new_tags [] old = tags_or old
new_tags (t ∷ ts) old = t ∷ ts

-- `_UPDATE_FILE`, for a node that it matches.
abbrev pub updated : FileSummary → FileNode → FileNode
updated fs n = record n {
  summary = some (if fs.summary == "" then text_or n.summary else fs.summary);
  purpose_tags = some (new_tags fs.purpose_tags n.purpose_tags);
  skipped_reason = some fs.skipped_reason;
}

unfoldable pub update_file : String → FileSummary → List FileNode → List FileNode
update_file repo fs [] = []
update_file repo fs (n ∷ ns) =
    (if n.repo == repo && n.path == fs.path then updated fs n else n) ∷ update_file repo fs ns

abbrev pub counted : FileSummary → Written → Written
counted fs w =
    if not (fs.skipped_reason == "") && fs.summary == ""
    then record w { skipped = w.skipped + 1 }
    else record w { updated = w.updated + 1 }

unfoldable pub write_summaries :
    String → List FileSummary → List FileNode → Written → Written × List FileNode
write_summaries repo [] ns w = (w, ns)
write_summaries repo (fs ∷ rest) ns w =
    write_summaries repo rest (update_file repo fs ns) (counted fs w)
