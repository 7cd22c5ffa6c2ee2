-- ===== src/Symbol/Calls/Lookups.antt =====
-- features/symbol/extract_calls.py: what the look-ups of `resolve_calls_with_source` find.
use ai_forge_memory.Prelude.{
  String, some, List, [], ◌∷◌, ◌==◌, ◌≡◌, refl, sym, ap, ◌∙◌, ◌⊎◌, inl, inr, eq_iff, Bool-cases,
  Option-cases,
}
use ai_forge_memory.Prelude.Dict.{Dict, lookup, insert, insert-cases}
use ai_forge_memory.Prelude.Sort.{In}
use ai_forge_memory.Symbol.Calls.{
  Symbol, SourceFile, FileIndex, short, index_symbols, file_index, named_symbols, by_name, find_in,
  from_imports,
}

-- One of the symbols has that name in full, and its short name is `name`.
pub record Defines (ss : List Symbol) (fqname name : String) : Type 0 where
  pub symbol : Symbol
  pub is_in : In symbol ss
  pub is_named : symbol.fqname ≡ fqname
  pub is_short : short symbol.fqname ≡ name

pub Defines-cons :
    (s : Symbol) (ss : List Symbol) (fq n : String) → Defines ss fq n → Defines (s ∷ ss) fq n
Defines-cons s ss fq n d = record {
  symbol = d.symbol;
  is_in = inr d.is_in;
  is_named = d.is_named;
  is_short = d.is_short;
}

pub lookup-index_symbols :
    (n fq : String) (ss : List Symbol) (d : Dict String)
    → lookup n (index_symbols ss d) ≡ some fq
    → Defines ss fq n ⊎ (lookup n d ≡ some fq)
lookup-index_symbols n fq [] d h = inr h
lookup-index_symbols n fq (s ∷ ss) d h =
    elim (lookup-index_symbols n fq ss (insert (short s.fqname) s.fqname d) h) [
      | inl k ↦ inl (Defines-cons s ss fq n k)
      | inr k ↦ elim (insert-cases (short s.fqname) n s.fqname fq d k) [
        | inl e ↦ inl (record { symbol = s; is_in = inl refl; is_named = e.1; is_short = e.0 })
        | inr m ↦ inr m
      ]
    ]

-- The file that an entry of the index stands for.
pub record Indexes (fs : List SourceFile) (path : String) (d : Dict String) : Type 0 where
  pub file : SourceFile
  pub is_in : In file fs
  pub is_at : file.path ≡ path
  pub is_of : index_symbols file.symbols [] ≡ d

pub lookup-file_index :
    (p : String) (x : Dict String) (fs : List SourceFile) (d : FileIndex)
    → lookup p (file_index fs d) ≡ some x
    → Indexes fs p x ⊎ (lookup p d ≡ some x)
unfolding file_index
lookup-file_index p x [] d h = inr h
lookup-file_index p x (f ∷ fs) d h =
    elim (lookup-file_index p x fs (insert f.path (index_symbols f.symbols []) d) h) [
      | inl k ↦
          inl (record { file = k.file; is_in = inr k.is_in; is_at = k.is_at; is_of = k.is_of })
      | inr k ↦ elim (insert-cases f.path p (index_symbols f.symbols []) x d k) [
        | inl e ↦ inl (record { file = f; is_in = inl refl; is_at = e.0; is_of = e.1 })
        | inr m ↦ inr m
      ]
    ]

-- A file of the run with a symbol of the name.
pub record Knows (fs : List SourceFile) (fq name : String) : Type 0 where
  pub target : SourceFile
  pub is_in : In target fs
  pub defines : Defines target.symbols fq name

pub find_in-Knows :
    (files : List SourceFile) (p n fq : String)
    → find_in (file_index files []) p n ≡ some fq
    → (k : Knows files fq n) × (k.target.path ≡ p)
unfolding find_in
find_in-Knows files p n fq h = elim (Option-cases (lookup p (file_index files []))) [
  | inl e ↦ cc (rw (e, find_in) at h)
  | inr (d, e) ↦ elim (lookup-file_index p d files [] e) [
    | inr none_is ↦ cc
    | inl k ↦
        elim (lookup-index_symbols n fq k.file.symbols []
          (ap (lookup n) k.is_of ∙ (rw (e, find_in) at h))) [
            | inl def ↦ (record { target = k.file; is_in = k.is_in; defines = def }, k.is_at)
            | inr none_is ↦ cc
          ]
  ]
]

pub from_imports-found :
    (n fq : String) (ps : List String) (index : FileIndex)
    → from_imports n ps index ≡ some fq
    → (p : String) × In p ps × (find_in index p n ≡ some fq)
unfolding from_imports
from_imports-found n fq [] index h = cc
from_imports-found n fq (p ∷ ps) index h = elim (Option-cases (find_in index p n)) [
  | inl e ↦
      let (q, m, k) = from_imports-found n fq ps index (rw (e, from_imports) at h) in (q, inr m, k)
  | inr (x, e) ↦ elim (Bool-cases (x == "")) [
    | inl t ↦
        let (q, m, k) = from_imports-found n fq ps index (rw (e, from_imports, t) at h) in
        (q, inr m, k)
    | inr f ↦ (p, inl refl, e ∙ (rw (e, from_imports, f) at h))
  ]
]

pub named_symbols-Defines :
    (n fq : String) (ss : List Symbol) (rest : List String)
    → In fq (named_symbols n ss rest)
    → Defines ss fq n ⊎ In fq rest
named_symbols-Defines n fq [] rest m = inr m
named_symbols-Defines n fq (s ∷ ss) rest m = elim (Bool-cases (short s.fqname == n)) [
  | inl t ↦ elim (rw t at m) [
    | inl e ↦ inl (record {
      symbol = s;
      is_in = inl refl;
      is_named = sym e;
      is_short = (eq_iff (short s.fqname) n).0 t;
    })
    | inr k ↦ later (named_symbols-Defines n fq ss rest k)
  ]
  | inr f ↦ later (named_symbols-Defines n fq ss rest (rw f at m))
]
  where
    later : Defines ss fq n ⊎ In fq rest → Defines (s ∷ ss) fq n ⊎ In fq rest
    later (inl d) = inl (Defines-cons s ss fq n d)
    later (inr k) = inr k

pub by_name-Knows : (fs : List SourceFile) (n fq : String) → In fq (by_name fs n) → Knows fs fq n
unfolding by_name
by_name-Knows [] n fq m = absurd m
by_name-Knows (f ∷ fs) n fq m = elim (named_symbols-Defines n fq f.symbols (by_name fs n) m) [
  | inl d ↦ record { target = f; is_in = inl refl; defines = d }
  | inr k ↦
      let r = by_name-Knows fs n fq k in
      record { target = r.target; is_in = inr r.is_in; defines = r.defines }
]
