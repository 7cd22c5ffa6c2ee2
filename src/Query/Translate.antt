-- ===== src/Query/Translate.antt =====
-- query/translator.py: `Grounding`. A float is given by the text that Python prints for it.
pub mod Tokens
pub mod Rank
pub mod Candidates
pub mod Ground
use ai_forge_memory.Prelude.{ℕ, String, List, []}
use ai_forge_memory.Prelude.Dict.{Dict}

pub record Grounding : Type 0 where
  pub intent : String
  pub services : List String
  pub files : List String
  pub symbols : List String
  pub hops : ℕ
  pub keywords : List String
  pub used_top_k : ℕ
  pub errors : List String
  pub file_scores : Dict String
  pub symbol_scores : Dict String

-- `Grounding()`
abbrev pub empty_grounding : Grounding
empty_grounding = record {
  intent = "";
  services = [];
  files = [];
  symbols = [];
  hops = 1;
  keywords = [];
  used_top_k = 0;
  errors = [];
  file_scores = [];
  symbol_scores = [];
}
