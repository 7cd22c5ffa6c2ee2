-- ===== src/Lsp/Resolver/Resolved.antt =====
-- features/lsp/resolver.py: the edges of `resolve_calls` over all the languages.
use ai_forge_memory.Prelude.{
  String, Option, none, some, List, [], ◌∷◌, ◌≡◌, refl, sym, subst, ◌⊎◌, inl, inr, All, All-weaken,
  All-append,
}
use ai_forge_memory.Prelude.Sort.{In}
use ai_forge_memory.Flow.Calls.{CallEdge}
use ai_forge_memory.Lsp.Adapters.{Host, Adapter, missing, failing, command, adapter_for}
use ai_forge_memory.Lsp.Resolver.{
  Server, Disk, resolve_one_lang, files_of, target_langs, prepend, over_langs, resolve_calls,
}
use ai_forge_memory.Lsp.Index.{SourceFile}
use ai_forge_memory.Lsp.Resolver.Grounded.{IsGrounded, resolve_one_lang-IsGrounded}

-- The edge is grounded in the answers of the server of one of the languages, for its walked files.
abbrev pub IsResolved :
    Disk
    → Host
    → (List String → String → Server)
    → List SourceFile
    → List String
    → CallEdge
    → Type 0
IsResolved d h servers walked [] e = ⊥
IsResolved d h servers walked (lang ∷ langs) e =
    ((cmd : List String) × (language_id : String) × (adapter_for h lang ≡ command cmd language_id)
      × IsGrounded d (servers cmd language_id) (files_of lang walked) e)
    ⊎ IsResolved d h servers walked langs e

-- The edges of all languages; or an exception, where the adapter of one raises.
abbrev pub AreResolved :
    Disk
    → Host
    → (List String → String → Server)
    → List SourceFile
    → List String
    → Option (List CallEdge)
    → Type 0
AreResolved d h servers walked langs none =
    (lang : String) × In lang langs × (adapter_for h lang ≡ failing)
AreResolved d h servers walked langs (some edges) = All (IsResolved d h servers walked langs) edges

module _ (d : Disk) (h : Host) (servers : List String → String → Server)
    (walked : List SourceFile) where
  later :
      (lang : String) (langs : List String) (out : Option (List CallEdge))
      → AreResolved d h servers walked langs out
      → AreResolved d h servers walked (lang ∷ langs) out
  later lang langs none (l, i, e) = (l, inr i, e)
  later lang langs (some edges) k =
      All-weaken (IsResolved d h servers walked langs)
        (IsResolved d h servers walked (lang ∷ langs)) edges (λ e. inr) k

  prepend-AreResolved :
      (lang : String) (langs : List String) (cmd : List String) (language_id : String)
      (es : List CallEdge) (out : Option (List CallEdge))
      → adapter_for h lang ≡ command cmd language_id
      → All (IsGrounded d (servers cmd language_id) (files_of lang walked)) es
      → AreResolved d h servers walked langs out
      → AreResolved d h servers walked (lang ∷ langs) (prepend es out)
  prepend-AreResolved lang langs cmd language_id es none a g k = later lang langs none k
  prepend-AreResolved lang langs cmd language_id es (some edges) a g k =
      All-append (IsResolved d h servers walked (lang ∷ langs)) es edges
        (All-weaken (IsGrounded d (servers cmd language_id) (files_of lang walked))
          (IsResolved d h servers walked (lang ∷ langs)) es (λ e x. inl (cmd, language_id, a, x)) g)
        (later lang langs (some edges) k)

  over_langs-AreResolved :
      (langs : List String)
      → AreResolved d h servers walked langs (over_langs d h servers walked langs)
  unfolding over_langs
  over_langs-AreResolved [] = tt
  over_langs-AreResolved (lang ∷ langs) =
      by_files (over_langs-AreResolved langs) (files_of lang walked) refl
    where
      rest : Option (List CallEdge)
      rest = over_langs d h servers walked langs

      by_adapter :
          AreResolved d h servers walked langs rest
          → (fs : List SourceFile) → files_of lang walked ≡ fs
          → (a : Adapter) → adapter_for h lang ≡ a
          → AreResolved d h servers walked (lang ∷ langs) (elim a [
            | missing ↦ rest
            | failing ↦ none
            | command cmd language_id ↦
                prepend (resolve_one_lang d (servers cmd language_id) fs) rest
          ])
      by_adapter resolved fs p missing q = later lang langs rest resolved
      by_adapter resolved fs p failing q = (lang, inl refl, q)
      by_adapter resolved fs p (command cmd language_id) q =
          prepend-AreResolved lang langs cmd language_id
            (resolve_one_lang d (servers cmd language_id) fs) rest q
            (subst
              (λ x.
                All (IsGrounded d (servers cmd language_id) x)
                  (resolve_one_lang d (servers cmd language_id) fs))
              (sym p) (resolve_one_lang-IsGrounded d (servers cmd language_id) fs))
            resolved

      by_files :
          AreResolved d h servers walked langs rest
          → (fs : List SourceFile) → files_of lang walked ≡ fs
          → AreResolved d h servers walked (lang ∷ langs) (elim fs [
            | [] ↦ rest
            | f ∷ gs ↦ elim (adapter_for h lang) [
              | missing ↦ rest
              | failing ↦ none
              | command cmd language_id ↦
                  prepend (resolve_one_lang d (servers cmd language_id) (f ∷ gs)) rest
            ]
          ])
      by_files resolved [] p = later lang langs rest resolved
      by_files resolved (f ∷ gs) p = by_adapter resolved (f ∷ gs) p (adapter_for h lang) refl

-- `resolve_calls` raises only where the adapter of a language does. Otherwise every edge stands for a
-- reference that the server of its language answered: the callee is a method or function of a walked
-- file of the language, the caller is the innermost symbol around the reference, in a file of that
-- language, and the two differ.
pub resolve_calls-AreResolved :
    (d : Disk) (h : Host) (servers : List String → String → Server) (langs : Option (List String))
    (walked : List SourceFile)
    → AreResolved d h servers walked
        (target_langs langs walked)
        (resolve_calls d h servers langs walked)
unfolding resolve_calls
resolve_calls-AreResolved d h servers langs walked =
    over_langs-AreResolved d h servers walked (target_langs langs walked)
