-- ===== src/Service/Grounded.antt =====
-- features/service/extract.py: the files of the services exist, and the operator's entries win.
use ai_forge_memory.Prelude.{
  String, Bool, true, false, ◌&&◌, Option, none, some, List, [], ◌∷◌, ◌==◌, ◌≡◌, refl, sym, ap, ◌∙◌,
  subst, inl, inr, keep, arith, eq_iff, All, Bool-cases, if◌then◌else◌,
}
use mathlib.Core.Option
use ai_forge_memory.Json.{Value, arr, obj, Elements, Pairs, get, list_of}
use ai_forge_memory.Service.{
  ServiceDraft, Llm, Override, value, Repository, or_bind, named, manual_of, put_draft, put_drafts,
  override, merge_overrides, validate_files, ask, extract_services,
}

-- A file below the root.
abbrev pub IsFile : Repository → String → Type 0
IsFile r f = (r.is_below f ≡ true) × (r.is_file f ≡ true)

abbrev pub HaveFiles : Repository → List ServiceDraft → Type 0
HaveFiles r ds = All (λ d. All (IsFile r) d.files) ds

-- The draft of that name.
abbrev pub find : String → List ServiceDraft → Option ServiceDraft
find n [] = none
find n (d ∷ ds) = if d.name == n then some d else find n ds

abbrev pub AreDistinct : List ServiceDraft → Type 0
AreDistinct [] = Unit
AreDistinct (d ∷ ds) = (find d.name ds ≡ none) × AreDistinct ds

-- The last of those with the name.
abbrev pub last : String → List ServiceDraft → Option ServiceDraft
last n [] = none
last n (d ∷ ds) = elim (last n ds) [ some e ↦ some e | none ↦ if d.name == n then some d else none ]

abbrev pub or_else : Option ServiceDraft → Option ServiceDraft → Option ServiceDraft
or_else none b = b
or_else (some a) b = some a

keep-IsFile :
    (r : Repository) (fs : List String)
    → All (IsFile r) (keep (λ f. r.is_below f && r.is_file f) fs)
keep-IsFile r [] = tt
keep-IsFile r (f ∷ fs) = elim (Bool-cases (r.is_below f && r.is_file f)) [
  | inl t ↦ rw t ((ground arith, ground arith), keep-IsFile r fs)
  | inr e ↦ rw e (keep-IsFile r fs)
]

validate_files-HaveFiles :
    (r : Repository) (ds : List ServiceDraft) → HaveFiles r (validate_files r ds)
unfolding validate_files
validate_files-HaveFiles r [] = tt
validate_files-HaveFiles r (d ∷ ds) = (keep-IsFile r d.files, validate_files-HaveFiles r ds)

-- Whatever the model answers and the operator writes, every file of every service that
-- `extract_services` returns is a file below the repository's root.
pub extract_services-HaveFiles :
    (r : Repository) (llm : Llm) (file : Override) {ds : List ServiceDraft}
    → extract_services r llm file ≡ some ds
    → HaveFiles r ds
unfolding extract_services
extract_services-HaveFiles r llm file {ds} e = by_ask (ask r llm) e
  where
    by_merged :
        (o : Option (List ServiceDraft))
        → Option.map (validate_files r) o ≡ some ds
        → HaveFiles r ds
    by_merged none e = cc
    by_merged (some ms) e = subst (HaveFiles r) (some_eq e) (validate_files-HaveFiles r ms)
      where
        some_eq : {a b : List ServiceDraft} → some a ≡ some b → a ≡ b
        some_eq e = cc

    by_ask :
        (o : Option (List ServiceDraft))
        → or_bind o (λ drafts. Option.map (validate_files r) (merge_overrides r file drafts))
          ≡ some ds
        → HaveFiles r ds
    by_ask none e = cc
    by_ask (some drafts) e = by_merged (merge_overrides r file drafts) e

find-put_draft :
    (n : String) (d : ServiceDraft) (es : List ServiceDraft)
    → find n (put_draft d es) ≡ (if d.name == n then some d else find n es)
find-put_draft n d [] = refl
find-put_draft n d (e ∷ es) =
    ground (arith, eq_iff e.name d.name, eq_iff d.name n, eq_iff e.name n, find-put_draft n d es)

put_draft-AreDistinct :
    (d : ServiceDraft) (es : List ServiceDraft) → AreDistinct es → AreDistinct (put_draft d es)
put_draft-AreDistinct d [] h = (refl, tt)
put_draft-AreDistinct d (e ∷ es) (fresh, h) = elim (Bool-cases (e.name == d.name)) [
  | inl t ↦ rw t (ap (λ x. find x es) (sym ((eq_iff e.name d.name).0 t)) ∙ fresh, h)
  | inr f ↦ rw f (
    ground (arith, find-put_draft e.name d es, eq_iff d.name e.name, eq_iff e.name d.name, fresh),
    put_draft-AreDistinct d es h,
  )
]

put_drafts_lem :
    (ds base : List ServiceDraft) (n : String)
    → AreDistinct base
    → (find n (put_drafts ds base) ≡ or_else (last n ds) (find n base))
      × AreDistinct (put_drafts ds base)
put_drafts_lem [] base n h = (refl, h)
put_drafts_lem (d ∷ ds) base n h =
    let (e, k) = put_drafts_lem ds (put_draft d base) n (put_draft-AreDistinct d base h) in
    (e ∙ step (last n ds), k)
  where
    step :
        (o : Option ServiceDraft)
        → or_else o (find n (put_draft d base))
          ≡ or_else
              (elim o [ some e ↦ some e | none ↦ if d.name == n then some d else none ])
              (find n base)
    step none = find-put_draft n d base ∙ by_test (d.name == n)
      where
        by_test :
            (b : Bool)
            → (if b then some d else find n base)
              ≡ or_else (if b then some d else none) (find n base)
        by_test true = refl
        by_test false = refl
    step (some e) = refl

-- The drafts of the operator's entries, in their order; `none` where one raises.
abbrev pub manuals : Repository → List Value → Option (List ServiceDraft)
manuals r [] = some []
manuals r (v ∷ vs) = elim (named v) [
  | none ↦ manuals r vs
  | some entry ↦ or_bind (manual_of r entry) (λ d. Option.map (λ ds. d ∷ ds) (manuals r vs))
]

override-manuals :
    (r : Repository) (vs : List Value) (base : List ServiceDraft)
    → override r vs base ≡ Option.map (λ ds. put_drafts ds base) (manuals r vs)
unfolding override
override-manuals r [] base = refl
override-manuals r (v ∷ vs) base = by_name (override-manuals r vs) (named v)
  where
    mapped :
        (d : ServiceDraft) (o : Option (List ServiceDraft))
        → Option.map (λ ds. put_drafts ds (put_draft d base)) o
          ≡ Option.map (λ ds. put_drafts ds base) (Option.map (λ ds. d ∷ ds) o)
    mapped d none = refl
    mapped d (some ds) = refl

    by_draft :
        ((b : List ServiceDraft)
          → override r vs b ≡ Option.map (λ ds. put_drafts ds b) (manuals r vs))
        → (o : Option ServiceDraft)
        → or_bind o (λ d. override r vs (put_draft d base))
          ≡ Option.map
              (λ ds. put_drafts ds base)
              (or_bind o (λ d. Option.map (λ ds. d ∷ ds) (manuals r vs)))
    by_draft ih none = refl
    by_draft ih (some d) = ih (put_draft d base) ∙ mapped d (manuals r vs)

    by_name :
        ((b : List ServiceDraft)
          → override r vs b ≡ Option.map (λ ds. put_drafts ds b) (manuals r vs))
        → (o : Option (Pairs × Value))
        → (elim o [
          | none ↦ override r vs base
          | some entry ↦ or_bind (manual_of r entry) (λ d. override r vs (put_draft d base))
        ])
          ≡ Option.map
              (λ ds. put_drafts ds base)
              (elim o [
                | none ↦ manuals r vs
                | some entry ↦
                    or_bind (manual_of r entry) (λ d. Option.map (λ ds. d ∷ ds) (manuals r vs))
              ])
    by_name ih none = ih base
    by_name ih (some entry) = by_draft ih (manual_of r entry)

-- With an operator's file that lists services, none of which raises, the merge has one service for
-- each name that the model or the operator gives: the operator's last entry of that name, if there is
-- one, else the model's last draft of it.
pub merge_overrides_lem :
    (r : Repository) (fs : Pairs) (vs : Elements) (drafts manual : List ServiceDraft) (n : String)
    → get "services" fs ≡ some (arr vs)
    → manuals r (list_of vs) ≡ some manual
    → let out = put_drafts manual (put_drafts drafts []) in
      (merge_overrides r (value (obj fs)) drafts ≡ some out)
      × (find n out ≡ or_else (last n manual) (last n drafts))
      × AreDistinct out
unfolding merge_overrides
merge_overrides_lem r fs vs drafts manual n e m =
    let (found, once) = put_drafts_lem drafts [] n tt in
    let (over, distinct) = put_drafts_lem manual (put_drafts drafts []) n once in
    (
      rw e (
          override-manuals r (list_of vs) (put_drafts drafts [])
          ∙ ap (Option.map (λ ds. put_drafts ds (put_drafts drafts []))) m),
      over ∙ ap (or_else (last n manual)) (found ∙ alone (last n drafts)),
      distinct,
    )
  where
    alone : (o : Option ServiceDraft) → or_else o none ≡ o
    alone none = refl
    alone (some d) = refl
