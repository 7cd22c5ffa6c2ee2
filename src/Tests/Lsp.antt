-- ===== src/Tests/Lsp.antt =====
-- The bridge to the language servers at concrete inputs.
use ai_forge_memory.Prelude.{
  ℕ, String, Bool, true, false, Option, none, some, [], ◌∷◌, ◌++◌, ◌==◌, ◌≡◌, ◌≢◌, refl, map, eqb,
  if◌then◌else◌,
}
use ai_forge_memory.Prelude.Text.{Text}
use ai_forge_memory.Lsp.Adapters.{Host, adapter_for}
use ai_forge_memory.Lsp.Client.{Stream, send, received}
use ai_forge_memory.Lsp.Client.Framing.{header}
use ai_forge_memory.Lsp.Client.Reading.{received-send, received_split}
use ai_forge_memory.Lsp.Client.Total.{Ends, received-Ends}
use ai_forge_memory.Lsp.Resolver.{
  Server, Disk, target_langs, resolve_calls, over_langs, files_of, resolve_one_lang, add_files,
  add_symbols, add_refs, ref_to_edge, around, uri_to_path, name_position,
}
use ai_forge_memory.Lsp.Index.{Symbol, SourceFile, enclosing, build_sym_index, sorted_ranges}
use ai_forge_memory.Lsp.Resolver.Resolved.{AreResolved, resolve_calls-AreResolved}

-- Two messages, which JSON writes as `[0]` and `[1]`.
abbrev dumps : Bool → Text
dumps false = 91 ∷ 48 ∷ 93 ∷ []
dumps true = 91 ∷ 49 ∷ 93 ∷ []

abbrev loads : Text → Option Bool
loads [] = none
loads (a ∷ []) = none
loads (a ∷ b ∷ []) = none
loads (a ∷ b ∷ c ∷ r) = if eqb b 48 then some false else some true

loads-dumps : (m : Bool) → loads (dumps m) ≡ some m
loads-dumps false = refl
loads-dumps true = refl

dumps-cons : (m : Bool) → dumps m ≢ []
dumps-cons false e = cc
dumps-cons true e = cc

received-send_example :
    received dumps loads (map (send dumps loads) (true ∷ false ∷ [])) ≡ some (true ∷ false ∷ [])
received-send_example = received-send dumps loads loads-dumps dumps-cons (true ∷ false ∷ [])

received_split_example :
    received dumps loads (
      map (send dumps loads) (true ∷ [])
      ++ header 3 (91 ∷ 48 ∷ []) ∷ (93 ∷ []) ∷ map (send dumps loads) (true ∷ []))
    ≡ some (true ∷ [])
received_split_example =
    received_split dumps loads loads-dumps dumps-cons (true ∷ []) false (91 ∷ 48 ∷ []) (93 ∷ [])
      (map (send dumps loads) (true ∷ [])) refl (λ e. cc) refl

-- A header that does not end.
abbrev broken : Stream
broken = (67 ∷ 58 ∷ 10 ∷ []) ∷ (67 ∷ []) ∷ []

received-Ends_example : Ends dumps loads (received dumps loads broken)
received-Ends_example = received-Ends dumps loads broken

abbrev function : String → ℕ → ℕ → Symbol
function fqname first last = record {
  fqname = fqname;
  kind = "function";
  line_start = first;
  line_end = last;
}

abbrev file : SourceFile
file = record {
  path = "app.py";
  lang = "python";
  parse_error = false;
  symbols = function "app::run" 1 4 ∷ function "app::stop" 5 8 ∷ [];
}

abbrev disk : Disk
disk = record { lines = λ p. none; unquote = λ s. s; below_root = λ p. some p }

abbrev host : Host
host = record { which = λ b. b == "pylsp"; jdtls_cmd = none }

-- Each symbol is referred to in the third line.
abbrev server : Server
server = record {
  starts = true;
  references = λ p l c. some (record { uri = "file://app.py"; line = some 2 } ∷ []);
}

resolve_calls-AreResolved_example :
    AreResolved disk host
      (λ cmd language_id. server)
      (file ∷ [])
      (target_langs none (file ∷ []))
      (resolve_calls disk host (λ cmd language_id. server) none (file ∷ []))
resolve_calls-AreResolved_example =
    resolve_calls-AreResolved disk host (λ cmd language_id. server) none (file ∷ [])

-- Both functions are called from the body of the first, which does not call itself.
calls_of_file :
    resolve_calls disk host (λ cmd language_id. server) none (file ∷ [])
    ≡ some (record { caller = "app::run"; callee = "app::stop"; confidence = 1000 } ∷ [])
unfolding resolve_calls target_langs over_langs files_of resolve_one_lang add_files add_symbols
    add_refs ref_to_edge around enclosing build_sym_index sorted_ranges uri_to_path name_position
    adapter_for
calls_of_file = refl
