-- ===== src/Query/Bundle/Fill/Kept.antt =====
-- query/bundle.py: the steps of `query` that leave the files and symbols of the bundle.
use ai_forge_memory.Prelude.{String, List, [], ◌∷◌, ◌≡◌, refl, ap, sym, ◌∙◌, Bool-cases, inl, inr}
use ai_forge_memory.Query.Bundle.{ContextBundle, empty_bundle, SymbolRow, FileRow}
use ai_forge_memory.Query.Bundle.Anchors.{Reads, is_nil}
use ai_forge_memory.Query.Bundle.Fill.{
  anchor_paths, has_anchors, add_calls, fill_repo_docs, fill_repo_map, fill_chunks, fill_memory,
}
use ai_forge_memory.Query.Bundle.Fill.Failures.{memory_errors, note_errors, chunk_errors}

-- What the reads about a bundle depend on.
unfoldable pub anchors : ContextBundle → List FileRow × List SymbolRow
anchors b = (b.files, b.symbols)

unfoldable pub of_anchors : List FileRow × List SymbolRow → ContextBundle
of_anchors a = record (empty_bundle "") { files = a.0; symbols = a.1 }

pub calls_kept :
    (db : Reads) (symbols : List SymbolRow) (b : ContextBundle)
    → anchors (add_calls db symbols b) ≡ anchors b
unfolding add_calls anchors
calls_kept db [] b = refl
calls_kept db (s ∷ ss) b = refl

pub repo_map_kept :
    (db : Reads) (paths : List String) (b : ContextBundle)
    → anchors (fill_repo_map db paths b) ≡ anchors b
unfolding fill_repo_map anchors
repo_map_kept db [] b = refl
repo_map_kept db (p ∷ paths) b = refl

pub chunks_kept : (db : Reads) (b : ContextBundle) → anchors (fill_chunks db b) ≡ anchors b
unfolding fill_chunks anchors
chunks_kept db b = elim (Bool-cases (is_nil (anchor_paths b))) [
  | inl t ↦ rw t refl
  | inr f ↦ rw f refl
]

pub memory_kept :
    (db : Reads) (text : String) (b : ContextBundle) → anchors (fill_memory db text b) ≡ anchors b
unfolding fill_memory anchors
memory_kept db text b = elim (Bool-cases (has_anchors b)) [ inl t ↦ rw t refl | inr f ↦ rw f refl ]

pub repo_docs_kept : (db : Reads) (b : ContextBundle) → anchors (fill_repo_docs db b) ≡ anchors b
unfolding fill_repo_docs anchors
repo_docs_kept db b = refl

-- Bundles with the same anchors lead to the same reads.
pub same_anchors :
    (f : ContextBundle → List String) (b c : ContextBundle)
    → ((x : ContextBundle) → f x ≡ f (of_anchors (anchors x)))
    → anchors b ≡ anchors c
    → f b ≡ f c
same_anchors f b c h e = h b ∙ ap (λ a. f (of_anchors a)) e ∙ sym (h c)

pub around_kept :
    (db : Reads) (b c : ContextBundle)
    → anchors b ≡ anchors c
    → (chunk_errors db b ≡ chunk_errors db c)
      × (memory_errors db b ≡ memory_errors db c)
      × (note_errors db b ≡ note_errors db c)
unfolding anchors of_anchors
around_kept db b c e = (
  same_anchors (chunk_errors db) b c (λ x. refl) e,
  same_anchors (memory_errors db) b c (λ x. refl) e,
  same_anchors (note_errors db) b c (λ x. refl) e,
)
