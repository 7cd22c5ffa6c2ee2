-- ===== src/Lsp/Resolver/Grounded.antt =====
-- features/lsp/resolver.py: every edge stands for a reference that a server answered.
use ai_forge_memory.Prelude.{
  ℕ, ◌+◌, Bool, true, false, Option, none, some, List, [], ◌∷◌, ◌==◌, ◌≡◌, refl, sym, ap, ◌∙◌, inl,
  inr, All, All-append, Bool-cases, if◌then◌else◌,
}
use ai_forge_memory.Prelude.Dict.{Dict}
use ai_forge_memory.Prelude.Sort.{In}
use ai_forge_memory.Flow.Calls.{CallEdge}
use ai_forge_memory.Lsp.Resolver.{
  Location, Server, Disk, uri_to_path, edge_from, around, ref_to_edge, is_seen, add_edge, add_refs,
  ask, add_symbols, add_files, resolve_one_lang,
}
use ai_forge_memory.Lsp.Index.{Symbol, SourceFile, SymRange, is_target, build_sym_index}
use ai_forge_memory.Lsp.Index.Ranges.{IsInnermost}
use ai_forge_memory.Lsp.Resolver.Placed.{around-IsPlaced}

-- The edge's callee is a target of a file of the list, its caller the innermost symbol around a
-- location that the server answered for the target, and the two differ.
pub record IsGrounded (d : Disk) (server : Server) (files : List SourceFile) (e : CallEdge)
    : Type 0 where
  pub file : SourceFile
  pub in_files : In file files
  pub callee : Symbol
  pub in_symbols : In callee file.symbols
  pub is_asked : is_target callee.kind ≡ true
  pub named : e.callee ≡ callee.fqname
  pub ref : Location
  pub in_answer : In ref (ask d server file.path callee)
  pub line : ℕ
  pub at_line : ref.line ≡ some line
  pub place : SourceFile
  pub place_in : In place files
  pub at_path : d.below_root (uri_to_path d ref.uri) ≡ some place.path
  pub range : SymRange
  pub is_innermost : IsInnermost (line + 1) place.path place.symbols range
  pub called_from : e.caller ≡ range.fqname
  pub differ : (e.caller == e.callee) ≡ false
  pub certain : e.confidence ≡ 1000

add_edge-All :
    (P : CallEdge → Type 0) (o : Option CallEdge) (edges : List CallEdge)
    → ((e : CallEdge) → o ≡ some e → P e)
    → All P edges
    → All P (add_edge o edges)
add_edge-All P none edges p h = h
add_edge-All P (some e) edges p h = elim (Bool-cases (is_seen e edges)) [
  | inl t ↦ rw t h
  | inr f ↦ rw f (All-append P edges (e ∷ []) h (p e refl, tt))
]

started :
    (P : CallEdge → Type 0) (b : Bool) (es : List CallEdge)
    → All P es
    → All P (if b then es else [])
started P true es h = h
started P false es h = tt

some_edge : {a b : CallEdge} → some a ≡ some b → a ≡ b
some_edge e = cc

module _ (d : Disk) (server : Server) (files : List SourceFile) where
  abbrev index : Dict (List SymRange)
  index = build_sym_index files []

  ref_to_edge-IsGrounded :
      (f : SourceFile) (s : Symbol) (ref : Location) (e : CallEdge)
      → In f files
      → In s f.symbols
      → is_target s.kind ≡ true
      → In ref (ask d server f.path s)
      → ref_to_edge d index s ref ≡ some e
      → IsGrounded d server files e
  unfolding ref_to_edge
  ref_to_edge-IsGrounded f s ref e i j t m q = by_range (around d index ref) refl q
    where
      by_range :
          (o : Option SymRange)
          → around d index ref ≡ o
          → edge_from s o ≡ some e
          → IsGrounded d server files e
      by_range none a q = cc
      by_range (some r) a q =
          let found = around-IsPlaced d files ref r a in
          elim (Bool-cases (r.fqname == s.fqname)) [
            | inl same ↦ cc (rw same at q)
            | inr other ↦
                let made = some_edge (rw other at q) in
                record {
                  file = f;
                  in_files = i;
                  callee = s;
                  in_symbols = j;
                  is_asked = t;
                  named = sym (ap (λ (x : CallEdge). x.callee) made);
                  ref = ref;
                  in_answer = m;
                  line = found.line;
                  at_line = found.at_line;
                  place = found.place;
                  place_in = found.place_in;
                  at_path = found.at_path;
                  range = r;
                  is_innermost = found.is_innermost;
                  called_from = sym (ap (λ (x : CallEdge). x.caller) made);
                  differ = ap (λ (x : CallEdge). x.caller == x.callee) (sym made) ∙ other;
                  certain = sym (ap (λ (x : CallEdge). x.confidence) made);
                }
          ]

  add_refs-IsGrounded :
      (f : SourceFile) (s : Symbol) (refs : List Location) (edges : List CallEdge)
      → In f files
      → In s f.symbols
      → is_target s.kind ≡ true
      → ((ref : Location) → In ref refs → In ref (ask d server f.path s))
      → All (IsGrounded d server files) edges
      → All (IsGrounded d server files) (add_refs d index s refs edges)
  unfolding add_refs
  add_refs-IsGrounded f s [] edges i j t k h = h
  add_refs-IsGrounded f s (ref ∷ refs) edges i j t k h =
      add_refs-IsGrounded f s refs (add_edge (ref_to_edge d index s ref) edges) i j t
        (λ x m. k x (inr m))
        (add_edge-All (IsGrounded d server files) (ref_to_edge d index s ref) edges
          (λ e q. ref_to_edge-IsGrounded f s ref e i j t (k ref (inl refl)) q) h)

  add_symbols-IsGrounded :
      (f : SourceFile) (ss : List Symbol) (edges : List CallEdge)
      → In f files
      → ((s : Symbol) → In s ss → In s f.symbols)
      → All (IsGrounded d server files) edges
      → All (IsGrounded d server files) (add_symbols d server index f.path ss edges)
  unfolding add_symbols
  add_symbols-IsGrounded f [] edges i k h = h
  add_symbols-IsGrounded f (s ∷ ss) edges i k h = elim (Bool-cases (is_target s.kind)) [
    | inl t ↦ rw t (
        add_symbols-IsGrounded f ss (add_refs d index s (ask d server f.path s) edges) i
          (λ x m. k x (inr m))
          (add_refs-IsGrounded f s (ask d server f.path s) edges i (k s (inl refl)) t (λ x m. m) h))
    | inr n ↦ rw n (add_symbols-IsGrounded f ss edges i (λ x m. k x (inr m)) h)
  ]

  add_files-IsGrounded :
      (fs : List SourceFile) (edges : List CallEdge)
      → ((f : SourceFile) → In f fs → In f files)
      → All (IsGrounded d server files) edges
      → All (IsGrounded d server files) (add_files d server index fs edges)
  unfolding add_files
  add_files-IsGrounded [] edges k h = h
  add_files-IsGrounded (f ∷ fs) edges k h =
      add_files-IsGrounded fs (add_symbols d server index f.path f.symbols edges)
        (λ x m. k x (inr m))
        (add_symbols-IsGrounded f f.symbols edges (k f (inl refl)) (λ x m. m) h)

  pub resolve_one_lang-IsGrounded :
      All (IsGrounded d server files) (resolve_one_lang d server files)
  unfolding resolve_one_lang
  resolve_one_lang-IsGrounded =
      started (IsGrounded d server files) server.starts (add_files d server index files [])
        (add_files-IsGrounded files [] (λ x m. m) tt)
