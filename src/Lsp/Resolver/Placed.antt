-- ===== src/Lsp/Resolver/Placed.antt =====
-- features/lsp/resolver.py: the file and the lines around a location.
use ai_forge_memory.Prelude.{
  ℕ, ◌+◌, String, Option, none, some, List, [], ◌∷◌, ◌==◌, ◌≡◌, refl, sym, ap, ◌∙◌, ◌⊎◌, inl, inr,
  eq_iff, Bool-cases,
}
use ai_forge_memory.Prelude.Dict.{Dict, lookup, insert, lookup-insert}
use ai_forge_memory.Prelude.Sort.{In}
use ai_forge_memory.Lsp.Resolver.{Location, Disk, uri_to_path, ranges_at, around}
use ai_forge_memory.Lsp.Index.{SourceFile, SymRange, sorted_ranges, build_sym_index, enclosing}
use ai_forge_memory.Lsp.Index.Ranges.{IsInnermost, enclosing-IsInnermost}

Indexed : List SourceFile → String → List SymRange → Type 0
Indexed files path rs =
    (g : SourceFile) × In g files × (g.path ≡ path) × (rs ≡ sorted_ranges path g.symbols)

build_sym_index-Indexed :
    (fs : List SourceFile) (out : Dict (List SymRange)) (path : String) (rs : List SymRange)
    → lookup path (build_sym_index fs out) ≡ some rs
    → Indexed fs path rs ⊎ (lookup path out ≡ some rs)
unfolding build_sym_index Indexed
build_sym_index-Indexed [] out path rs e = inr e
build_sym_index-Indexed (f ∷ fs) out path rs e =
    elim (build_sym_index-Indexed fs (insert f.path (sorted_ranges f.path f.symbols) out) path rs
      e) [
        | inl (g, i, p, q) ↦ inl (g, inr i, p, q)
        | inr h ↦
            let stored = lookup-insert f.path path (sorted_ranges f.path f.symbols) out in
            elim (Bool-cases (f.path == path)) [
              | inl t ↦
                  let p = (eq_iff f.path path).0 t in
                  inl (
                    f,
                    inl refl,
                    p,
                    some_eq (sym h ∙ (rw t at stored)) ∙ ap (λ x. sorted_ranges x f.symbols) p,
                  )
              | inr n ↦ inr (sym (rw n at stored) ∙ h)
            ]
      ]
  where
    some_eq : {a b : List SymRange} → some a ≡ some b → a ≡ b
    some_eq e = cc

-- Where the range around a location comes from.
pub record IsPlaced (d : Disk) (files : List SourceFile) (ref : Location) (r : SymRange)
    : Type 0 where
  pub line : ℕ
  pub at_line : ref.line ≡ some line
  pub place : SourceFile
  pub place_in : In place files
  pub at_path : d.below_root (uri_to_path d ref.uri) ≡ some place.path
  pub is_innermost : IsInnermost (line + 1) place.path place.symbols r

pub around-IsPlaced :
    (d : Disk) (files : List SourceFile) (ref : Location) (r : SymRange)
    → around d (build_sym_index files []) ref ≡ some r
    → IsPlaced d files ref r
unfolding around Indexed enclosing
around-IsPlaced d files ref r e = by_line ref.line refl e
  where
    index : Dict (List SymRange)
    index = build_sym_index files []

    by_ranges :
        (line : ℕ) (path : String)
        → ref.line ≡ some line
        → d.below_root (uri_to_path d ref.uri) ≡ some path
        → (o : Option (List SymRange)) → lookup path index ≡ o
        → enclosing (line + 1) (elim o [ none ↦ [] | some rs ↦ rs ]) ≡ some r
        → IsPlaced d files ref r
    by_ranges line path l p none q e = cc
    by_ranges line path l p (some rs) q e = elim (build_sym_index-Indexed files [] path rs q) [
      | inl (g, i, same, sorted) ↦ record {
        line = line;
        at_line = l;
        place = g;
        place_in = i;
        at_path = p ∙ ap some (sym same);
        is_innermost = enclosing-IsInnermost (line + 1) g.path g.symbols r (
            ap (λ x. enclosing (line + 1) (sorted_ranges x g.symbols)) same
            ∙ ap (enclosing (line + 1)) (sym sorted)
            ∙ e);
      }
      | inr h ↦ cc
    ]

    by_path :
        (line : ℕ)
        → ref.line ≡ some line
        → (o : Option String) → d.below_root (uri_to_path d ref.uri) ≡ o
        → enclosing (line + 1) (ranges_at index o) ≡ some r
        → IsPlaced d files ref r
    by_path line l none p e = cc
    by_path line l (some path) p e = by_ranges line path l p (lookup path index) refl e

    by_line :
        (o : Option ℕ)
        → ref.line ≡ o
        → (elim o [
          | none ↦ none
          | some line ↦
              enclosing (line + 1) (ranges_at index (d.below_root (uri_to_path d ref.uri)))
        ])
          ≡ some r
        → IsPlaced d files ref r
    by_line none l e = cc
    by_line (some line) l e = by_path line l (d.below_root (uri_to_path d ref.uri)) refl e
