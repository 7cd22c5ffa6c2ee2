-- ===== src/Symbol/Calls/Grounded.antt =====
-- features/symbol/extract_calls.py: every call edge stands for a call site of a walked file, between
-- symbols of the walked files.
use ai_forge_memory.Prelude.{
  ℕ, String, false, not, ◌||◌, Option, none, some, List, [], ◌∷◌, ◌==◌, map, ◌≡◌, refl, sym, ap,
  ◌∙◌, ◌⊎◌, inl, inr, Bool-cases, Option-cases, subst, some-injective,
}
use ai_forge_memory.Prelude.Members.{In-append}
use ai_forge_memory.Prelude.Sort.{In, contains}
use ai_forge_memory.Flow.Calls.{CallEdge}
use ai_forge_memory.Symbol.Calls.{
  Call, SourceFile, FileIndex, file_index, by_name, enclosing_symbol, first, tier, truthy,
  resolve_call, resolve_sites, resolve_file, resolve_files, resolve_calls_with_source, call_langs,
  null,
}
use ai_forge_memory.Symbol.Calls.Imports.{import_files}
use ai_forge_memory.Symbol.Calls.Lookups.{
  Defines, Knows, find_in-Knows, from_imports-found, by_name-Knows,
}

-- Why an edge has its confidence: the callee is a symbol of the caller's own file, of a file that it
-- imports, or of any file.
abbrev pub Tier : SourceFile → List String → SourceFile → ℕ → Type 0
Tier f paths g confidence =
    ((confidence ≡ 1000) × (g.path ≡ f.path))
    ⊎ (((confidence ≡ 700) × In g.path (import_files f.path f.imports paths)) ⊎ (confidence ≡ 400))

pub record IsGrounded (files : List SourceFile) (e : CallEdge) : Type 0 where
  pub file : SourceFile
  pub in_files : In file files
  pub sites : List Call
  pub site : Call
  pub are_read : file.calls ≡ some sites
  pub in_sites : In site sites
  pub is_enclosed : enclosing_symbol file.symbols site.line ≡ some e.caller
  pub differ : (e.callee == e.caller) ≡ false
  pub target : SourceFile
  pub target_in : In target files
  pub defines : Defines target.symbols e.callee site.name
  pub tiered : Tier file (map (λ g. g.path) files) target e.confidence

-- The edge leaves `caller` for the callee that the tier offers.
pub record Takes (confidence : ℕ) (caller : String) (o : Option String) (e : CallEdge)
    : Type 0 where
  pub offered : o ≡ some e.callee
  pub leaves : caller ≡ e.caller
  pub rated : e.confidence ≡ confidence
  pub differ : (e.callee == e.caller) ≡ false

tier-Takes :
    (confidence : ℕ) (caller : String) (o : Option String) (rest : List CallEdge) (e : CallEdge)
    → In e (tier confidence caller o rest)
    → Takes confidence caller o e ⊎ In e rest
tier-Takes confidence caller none rest e m = inr m
tier-Takes confidence caller (some callee) rest e m = elim (Bool-cases (callee == caller)) [
  | inl t ↦ inr (rw t at m)
  | inr f ↦ elim (rw f at m) [
    | inl p ↦ inl (
        subst (λ (x : CallEdge). Takes confidence caller (some callee) x) (sym p)
          (record { offered = refl; leaves = refl; rated = refl; differ = f }))
    | inr n ↦ absurd n
  ]
]

truthy-some : (o : Option String) (s : String) → truthy o ≡ some s → o ≡ some s
truthy-some none s h = h
truthy-some (some t) s h = elim (Bool-cases (t == "")) [
  | inl b ↦ cc (rw b at h)
  | inr b ↦ (rw b at h)
]

first-In : (xs : List String) (x : String) → first xs ≡ some x → In x xs
first-In [] x h = cc
first-In (y ∷ ys) x h = inl (some-injective x y (sym h))

module _ (files : List SourceFile) where
  abbrev paths : List String
  paths = map (λ g. g.path) files

  abbrev index : FileIndex
  index = file_index files []

  abbrev imported : SourceFile → List String
  imported f = import_files f.path f.imports paths

  pub record IsResolved (f : SourceFile) (caller name : String) (e : CallEdge) : Type 0 where
    pub leaves : caller ≡ e.caller
    pub differ : (e.callee == e.caller) ≡ false
    pub known : Knows files e.callee name
    pub tiered : Tier f paths known.target e.confidence

  resolve_call-IsResolved :
      (f : SourceFile) (caller name : String) (e : CallEdge)
      → In e (resolve_call index (by_name files) f.path (imported f) caller name)
      → IsResolved f caller name e
  unfolding resolve_call
  resolve_call-IsResolved f caller name e m = elim (tier-Takes 1000 caller _ _ e m) [
    | inl t ↦
        let (k, at_path) = find_in-Knows files f.path name e.callee (truthy-some _ _ t.offered) in
        record { leaves = t.leaves; differ = t.differ; known = k; tiered = inl (t.rated, at_path) }
    | inr m' ↦ elim (tier-Takes 700 caller _ _ e m') [
      | inl t ↦
          let (p, i, h) = from_imports-found name e.callee (imported f) index t.offered in
          let (k, at_path) = find_in-Knows files p name e.callee h in
          record {
            leaves = t.leaves;
            differ = t.differ;
            known = k;
            tiered = inr (inl (t.rated, subst (λ (q : String). In q (imported f)) (sym at_path) i));
          }
      | inr m'' ↦ elim (tier-Takes 400 caller _ _ e m'') [
        | inl t ↦ record {
          leaves = t.leaves;
          differ = t.differ;
          known = by_name-Knows files name e.callee (first-In _ _ t.offered);
          tiered = inr (inr t.rated);
        }
        | inr n ↦ absurd n
      ]
    ]
  ]

  -- The call site that an edge of one file stands for.
  record HasSite (f : SourceFile) (sites : List Call) (e : CallEdge) : Type 0 where
    pub site : Call
    pub is_in : In site sites
    pub caller : String
    pub is_enclosed : enclosing_symbol f.symbols site.line ≡ some caller
    pub resolved : IsResolved f caller site.name e

  resolve_sites-HasSite :
      (f : SourceFile) (cs : List Call) (e : CallEdge)
      → In e (resolve_sites index (by_name files) f (imported f) cs)
      → HasSite f cs e
  unfolding resolve_sites
  resolve_sites-HasSite f [] e m = absurd m
  resolve_sites-HasSite f (c ∷ cs) e m = elim (Option-cases (enclosing_symbol f.symbols c.line)) [
    | inl n ↦ later (resolve_sites-HasSite f cs e (rw (n, resolve_sites) at m))
    | inr (caller, s) ↦ elim (In-append e _ _ (rw (s, resolve_sites) at m)) [
      | inl k ↦ record {
        site = c;
        is_in = inl refl;
        caller = caller;
        is_enclosed = s;
        resolved = resolve_call-IsResolved f caller c.name e k;
      }
      | inr k ↦ later (resolve_sites-HasSite f cs e k)
    ]
  ]
    where
      later : HasSite f cs e → HasSite f (c ∷ cs) e
      later h = record {
        site = h.site;
        is_in = inr h.is_in;
        caller = h.caller;
        is_enclosed = h.is_enclosed;
        resolved = h.resolved;
      }

  resolve_file-IsGrounded :
      (f : SourceFile) (e : CallEdge)
      → In f files
      → In e (resolve_file index (by_name files) files f)
      → IsGrounded files e
  unfolding resolve_file
  resolve_file-IsGrounded f e i m =
      elim (Bool-cases (f.parse_error || null f.symbols || not (contains f.lang call_langs))) [
        | inl t ↦ absurd (rw (t, resolve_file) at m)
        | inr u ↦ elim (Option-cases f.calls) [
          | inl n ↦ absurd (rw (u, resolve_file, n) at m)
          | inr (sites, r) ↦
              let h = resolve_sites-HasSite f sites e (rw (u, resolve_file, r) at m) in
              record {
                file = f;
                in_files = i;
                sites = sites;
                site = h.site;
                are_read = r;
                in_sites = h.is_in;
                is_enclosed = h.is_enclosed ∙ ap {B = Option String} some h.resolved.leaves;
                differ = h.resolved.differ;
                target = h.resolved.known.target;
                target_in = h.resolved.known.is_in;
                defines = h.resolved.known.defines;
                tiered = h.resolved.tiered;
              }
        ]
      ]

  resolve_files-IsGrounded :
      (fs : List SourceFile) (e : CallEdge)
      → ((f : SourceFile) → In f fs → In f files)
      → In e (resolve_files index (by_name files) files fs)
      → IsGrounded files e
  unfolding resolve_files
  resolve_files-IsGrounded [] e sub m = absurd m
  resolve_files-IsGrounded (f ∷ fs) e sub m =
      elim (In-append e (resolve_file index (by_name files) files f) _ m) [
        | inl k ↦ resolve_file-IsGrounded f e (sub f (inl refl)) k
        | inr k ↦ resolve_files-IsGrounded fs e (λ g i. sub g (inr i)) k
      ]

-- Every edge stands for a call site that was read in a walked file: its caller is the symbol that
-- the code finds around the site, its callee is another symbol, whose short name is the name called,
-- in a walked file. The confidence 1.0 is given only to a callee of the caller's own file, and 0.7
-- only to one of a file that it imports; every other edge has 0.4.
pub resolve_calls-IsGrounded :
    (files : List SourceFile) (e : CallEdge)
    → In e (resolve_calls_with_source files)
    → IsGrounded files e
unfolding resolve_calls_with_source
resolve_calls-IsGrounded files e m = resolve_files-IsGrounded files files e (λ f i. i) m
