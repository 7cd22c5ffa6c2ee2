-- ===== src/Tests/Symbol.antt =====
-- The resolution of calls at concrete inputs.
use ai_forge_memory.Prelude.{ℕ, String, none, some, false, List, [], ◌∷◌, ◌≡◌, refl, inl}
use ai_forge_memory.Prelude.Sort.{In}
use ai_forge_memory.Flow.Calls.{CallEdge}
use ai_forge_memory.Symbol.Calls.{
  Symbol, Call, SourceFile, short, find_in, file_index, by_name, enclosing_symbol, from_imports,
  resolve_call, resolve_calls_with_source,
}
use ai_forge_memory.Symbol.Calls.Imports.{importer_dir, import_candidates, import_files}
use ai_forge_memory.Symbol.Calls.Grounded.{IsGrounded, resolve_calls-IsGrounded}

abbrev symbol_at : String → ℕ → ℕ → Symbol
symbol_at fqname first last = record { fqname = fqname; line_start = first; line_end = last }

abbrev call_at : String → ℕ → Call
call_at name line = record { name = name; line = line }

-- `run` calls `load`, which the imported file defines, and `help`, which both files define.
abbrev main_file : SourceFile
main_file = record {
  path = "app/main.py";
  lang = "python";
  parse_error = false;
  symbols =
      symbol_at "app.main::App" 1 20
      ∷ symbol_at "app.main::App::run" 5 9
      ∷ symbol_at "app.main::help" 30 31
      ∷ [];
  imports = "app.store" ∷ [];
  calls = some (call_at "load" 6 ∷ call_at "help" 7 ∷ call_at "print" 8 ∷ []);
}

abbrev store_file : SourceFile
store_file = record {
  path = "app/store.py";
  lang = "python";
  parse_error = false;
  symbols = symbol_at "app.store::load" 1 4 ∷ symbol_at "app.store::help" 6 7 ∷ [];
  imports = [];
  calls = none;
}

abbrev both : List SourceFile
both = main_file ∷ store_file ∷ []

abbrev load_edge : CallEdge
load_edge = record { caller = "app.main::App::run"; callee = "app.store::load"; confidence = 700 }

abbrev help_edge : CallEdge
help_edge = record { caller = "app.main::App::run"; callee = "app.main::help"; confidence = 1000 }

edges_of_both : resolve_calls_with_source both ≡ load_edge ∷ help_edge ∷ []
unfolding resolve_calls_with_source short find_in file_index by_name enclosing_symbol from_imports
    resolve_call importer_dir import_candidates import_files
edges_of_both = refl

load_is_there : In load_edge (resolve_calls_with_source both)
load_is_there = rw edges_of_both (inl refl)

resolve_calls-IsGrounded_example : IsGrounded both load_edge
resolve_calls-IsGrounded_example = resolve_calls-IsGrounded both load_edge load_is_there
