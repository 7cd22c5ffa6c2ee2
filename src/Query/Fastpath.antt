-- ===== src/Query/Fastpath.antt =====
-- query/fastpath.py: `detect`. The three regular expressions are parameters: the first group that a
-- search finds in a text (the whole match, for a symbol).
use ai_forge_memory.Prelude.{String, Option, none, some}
use ai_forge_memory.Prelude.Text.{◌&◌}

pub data HitKind : Type 0 where
  symbol : HitKind
  ticket : HitKind
  file : HitKind

pub record FastpathHit : Type 0 where
  pub kind : HitKind
  pub value : String

pub record Searches : Type 0 where
  pub ticket_re : String → Option String
  pub file_re : String → Option String
  pub symbol_re : String → Option String

abbrev hit : HitKind → String → Option FastpathHit
hit kind value = some (record { kind = kind; value = value })

-- A ticket goes before a file, and a file before a symbol.
unfoldable pub detect : Searches → String → Option FastpathHit
detect re text = elim (re.ticket_re text) [
  | some v ↦ hit ticket v
  | none ↦ elim (re.file_re (" " & text & " ")) [
    | some v ↦ hit file v
    | none ↦ elim (re.symbol_re text) [ none ↦ none | some v ↦ hit symbol v ]
  ]
]

-- `f"{hit.kind}:{hit.value}"`, empty without a hit.
abbrev pub show_hit : Option FastpathHit → String
show_hit none = ""
show_hit (some h) =
    elim h.kind [ symbol ↦ "symbol:" | ticket ↦ "ticket:" | file ↦ "file:" ] & h.value
