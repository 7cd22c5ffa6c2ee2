-- ===== src/Lsp/Adapters.antt =====
-- features/lsp/adapters.py: which command serves a language. `shutil.which` is a parameter, and the
-- environment's AIFORGE_JDTLS_CMD is given by its words, `none` where it is unset or empty.
use ai_forge_memory.Prelude.{
  String, Bool, not, ◌||◌, Option, none, some, List, [], ◌∷◌, ◌==◌, if◌then◌else◌,
}

pub record Host : Type 0 where
  pub which : String → Bool
  pub jdtls_cmd : Option (List String)

-- No adapter, an exception (an IndexError, for a blank command), or the command and the language's
-- name for the server.
pub data Adapter : Type 0 where
  missing failing : Adapter
  command : List String → String → Adapter

abbrev python : Host → Adapter
python h =
    if h.which "pyright-langserver"
    then command ("pyright-langserver" ∷ "--stdio" ∷ []) "python"
    else if h.which "pylsp"
    then command ("pylsp" ∷ []) "python"
    else missing

-- `_typescript` and `_javascript`
abbrev typescript : Host → String → Adapter
typescript h language_id =
    if not (h.which "typescript-language-server")
    then missing
    else command ("typescript-language-server" ∷ "--stdio" ∷ []) language_id

abbrev java_from : Host → List String → Adapter
java_from h [] = failing
java_from h (bin ∷ args) = if not (h.which bin) then missing else command (bin ∷ args) "java"

abbrev java : Host → Adapter
java h = elim h.jdtls_cmd [ none ↦ missing | some parts ↦ java_from h parts ]

unfoldable pub adapter_for : Host → String → Adapter
adapter_for h lang =
    if lang == "python"
    then python h
    else if lang == "typescript" || lang == "tsx"
    then typescript h "typescript"
    else if lang == "javascript"
    then typescript h "javascript"
    else if lang == "java"
    then java h
    else missing
