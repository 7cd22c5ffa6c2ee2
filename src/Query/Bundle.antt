-- ===== src/Query/Bundle.antt =====
-- query/bundle.py: the rows and the `ContextBundle`. A row's field that the code only formats is the
-- text that Python formats; a score and a confidence are such texts.
pub mod Render
pub mod Trim
pub mod Anchors
pub mod Fill
use ai_forge_memory.Prelude.{ℕ, String, Bool, Option, List, [], ◌∷◌}
use ai_forge_memory.Query.{Reply}

pub record ServiceRow : Type 0 where
  pub name : String
  pub role : String
  pub description : String

pub record FileRow : Type 0 where
  pub path : String
  pub summary : String
  pub score : String

-- `params` is what `json.loads` gives of `params_json`: what `get` gives of the names and the types of
-- the items of a list, where an item that is no object raises; and none where the text is empty, is
-- no JSON, or is no list.
pub record SymbolRow : Type 0 where
  pub fqname : String
  pub signature : String
  pub summary : String
  pub doc : String
  pub deprecated : Bool
  pub params : List (Reply (String × String))
  pub score : String

-- A caller of a target, or a callee of a source.
pub record NeighbourRow : Type 0 where
  pub fqname : String
  pub anchor : String

pub record ChunkRow : Type 0 where
  pub file_path : String
  pub text : String

pub record DecisionRow : Type 0 where
  pub title : String
  pub rationale : String
  pub status : String

pub record ObservationRow : Type 0 where
  pub id : String
  pub kind : String
  pub text : String

pub record NoteRow : Type 0 where
  pub title : String
  pub body : String

pub record DocRow : Type 0 where
  pub title : String
  pub url : String
  pub body : String

pub record CrossRepoRow : Type 0 where
  pub src : String
  pub dst : String
  pub via : String
  pub confidence : String
  pub evidence : List String

pub record ContextBundle : Type 0 where
  pub repo : String
  pub intent : String
  pub fastpath_hit : String
  pub services : List ServiceRow
  pub files : List FileRow
  pub symbols : List SymbolRow
  pub callers : List NeighbourRow
  pub callees : List NeighbourRow
  pub runbook_md : String
  pub conventions_md : String
  pub repo_map : String
  pub decisions : List DecisionRow
  pub observations : List ObservationRow
  pub notes : List NoteRow
  pub docs : List DocRow
  pub cross_repo : List CrossRepoRow
  pub chunks : List ChunkRow
  pub sources_used : List String
  pub errors : List String

-- `ContextBundle(repo=repo)`
abbrev pub empty_bundle : String → ContextBundle
empty_bundle repo = record {
  repo = repo;
  intent = "";
  fastpath_hit = "";
  services = [];
  files = [];
  symbols = [];
  callers = [];
  callees = [];
  runbook_md = "";
  conventions_md = "";
  repo_map = "";
  decisions = [];
  observations = [];
  notes = [];
  docs = [];
  cross_repo = [];
  chunks = [];
  sources_used = [];
  errors = [];
}
