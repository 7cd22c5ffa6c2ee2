-- ===== src/Query/Bundle/Render.antt =====
-- query/bundle.py: `ContextBundle.render`.
use ai_forge_memory.Prelude.{
  ℕ, String, not, ◌&&◌, List, [], ◌∷◌, ◌++◌, ◌==◌, map, take, if◌then◌else◌,
}
use ai_forge_memory.Prelude.Text.{◌&◌, clip, join_with, stripped}
use ai_forge_memory.Query.{Reply, replied, raised}
use ai_forge_memory.Query.Bundle.{
  ServiceRow, FileRow, SymbolRow, NeighbourRow, ChunkRow, DecisionRow, ObservationRow, NoteRow,
  DocRow, CrossRepoRow, ContextBundle,
}

abbrev and_then : {A B : Type 0} → (A → B) → Reply A → Reply B
and_then f (raised exc) = raised exc
and_then f (replied a) = replied (f a)

abbrev newline : String
newline = "\n"

abbrev or_text : String → String → String
or_text s t = if s == "" then t else s

-- A section of one text, if that is not empty.
abbrev text_section : String → String → List String
text_section s shown = if s == "" then [] else shown ∷ []

-- A section of a title and a line for each row, if there is a row.
abbrev rows_section {ℓ} : {A : Type ℓ} → String → ℕ → (A → List String) → List A → List String
rows_section title n show [] = []
rows_section title n show (r ∷ rs) =
    join_with newline (title ∷ concat_lines show (take n (r ∷ rs))) ∷ []
  where
    concat_lines : {A : Type ℓ} → (A → List String) → List A → List String
    concat_lines show [] = []
    concat_lines show (x ∷ xs) = show x ++ concat_lines show xs

show_service : ServiceRow → List String
show_service s = "- **" & s.name & "** (" & s.role & ") — " & s.description ∷ []

show_chunk : ChunkRow → List String
show_chunk c =
    let text = stripped c.text in
    if not (c.file_path == "") && not (text == "")
    then "### `" & c.file_path & "`\n```\n" & text & "\n```" ∷ []
    else []

show_file : FileRow → List String
show_file f =
    let summary = stripped f.summary in
    if summary == "" then "- `" & f.path & "`" ∷ [] else "- `" & f.path & "` — " & summary ∷ []

-- The texts of a comprehension, or what its first failing item raises.
all_shown : List (Reply String) → Reply (List String)
all_shown [] = replied []
all_shown (raised exc ∷ rs) = raised exc
all_shown (replied s ∷ rs) = and_then (λ ss. s ∷ ss) (all_shown rs)

-- The exception of an item that is no object is an `AttributeError`, which is not caught.
show_params : List (Reply (String × String)) → Reply String
unfolding all_shown
show_params [] = replied ""
show_params (p ∷ ps) =
    and_then (λ shown. " params: " & join_with ", " shown)
      (all_shown (map (and_then (λ q. q.0 & ":" & q.1)) (take 8 (p ∷ ps))))

show_symbol : SymbolRow → Reply String
unfolding show_params
show_symbol s =
    let describe = or_text (stripped s.summary) (stripped s.doc) in
    let tag = if s.deprecated then " ⚠ DEPRECATED" else "" in
    let head = "- `" & s.fqname & "`" & tag & " — `" & s.signature & "`" in
    and_then (λ params. if describe == "" then head & params else head & " — " & describe & params)
      (show_params s.params)

symbol_section : List SymbolRow → Reply (List String)
unfolding all_shown show_symbol
symbol_section [] = replied []
symbol_section (s ∷ ss) =
    and_then (λ lines. join_with newline ("## Symbols" ∷ lines) ∷ [])
      (all_shown (map show_symbol (take 12 (s ∷ ss))))

show_decision : DecisionRow → List String
show_decision d =
    let rationale = stripped d.rationale in
    let head = "- **" & d.title & "** (" & or_text d.status "active" & ")" in
    if rationale == "" then head ∷ [] else head & " — " & clip 200 rationale ∷ []

show_observation : ObservationRow → List String
show_observation o = "- *" & or_text o.kind "note" & "* — " & clip 240 (stripped o.text) ∷ []

show_note : NoteRow → List String
show_note n = "- **" & or_text n.title "Note" & "** — " & clip 240 (stripped n.body) ∷ []

show_doc : DocRow → List String
show_doc d =
    "- **" & or_text d.title "Doc" & "** (" & d.url & ") — " & clip 240 (stripped d.body) ∷ []

show_cross_repo : CrossRepoRow → List String
show_cross_repo e =
    "- `"
      & e.src
      & "` → `"
      & e.dst
      & "` via "
      & e.via
      & " (conf "
      & e.confidence
      & "; "
      & join_with ", " (take 3 e.evidence)
      & ")"
    ∷ []

-- The call neighbours: a title, and at most six callers and six callees.
call_section : List NeighbourRow → List NeighbourRow → List String
call_section [] [] = []
call_section callers callees =
    join_with newline (
      "## Call neighbours"
      ∷ (map (λ c. "- caller of " & c.anchor & ": `" & c.fqname & "`") (take 6 callers)
          ++ map (λ c. "- callee of " & c.anchor & ": `" & c.fqname & "`") (take 6 callees)))
    ∷ []

list_section : String → String → List String → List String
list_section before sep [] = []
list_section before sep (s ∷ ss) = before & join_with sep (s ∷ ss) & "_" ∷ []

-- What an item of the parameters raises leaves `render`.
unfoldable pub render : ContextBundle → Reply String
unfolding show_service show_chunk show_file symbol_section show_decision show_observation show_note
    show_doc show_cross_repo call_section list_section
render b =
    and_then
      (λ symbols. join_with "\n\n" (
        text_section b.intent ("## Intent\n- " & b.intent)
        ++ text_section b.fastpath_hit ("## Fastpath\n- " & b.fastpath_hit)
        ++ rows_section "## Services" 3 show_service b.services
        ++ text_section b.runbook_md ("## Runbook (top of repo)\n" & clip 2000 b.runbook_md)
        ++ text_section b.conventions_md
            ("## Conventions (.cursorrules)\n" & clip 2000 b.conventions_md)
        ++ text_section b.repo_map ("## Repo Map\n```\n" & b.repo_map & "\n```")
        ++ rows_section "## Relevant Code Chunks" 5 show_chunk b.chunks
        ++ rows_section "## Anchor files" 8 show_file b.files
        ++ symbols
        ++ call_section b.callers b.callees
        ++ rows_section "## Decisions" 5 show_decision b.decisions
        ++ rows_section "## Observations" 5 show_observation b.observations
        ++ rows_section "## Notes" 5 show_note b.notes
        ++ rows_section "## External Docs" 5 show_doc b.docs
        ++ rows_section "## Related repos" 5 show_cross_repo b.cross_repo
        ++ list_section "_sources: " ", " b.sources_used
        ++ list_section "_errors: " "; " b.errors))
      (symbol_section b.symbols)
