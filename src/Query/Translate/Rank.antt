-- ===== src/Query/Translate/Rank.antt =====
-- query/translator.py: `_rrf_fuse`, `_path_prior`, `_rerank_doc` and `_rerank`. A float is given by
-- the text that Python prints for it, and what Python computes with floats is a parameter.
pub mod Summed
pub mod Fused
use ai_forge_memory.Prelude.{
  ℕ, zero, suc, ◌+◌, String, Bool, true, false, ◌&&◌, ◌||◌, Option, none, some, List, [], ◌∷◌, ◌++◌,
  ◌==◌, eqb, if◌then◌else◌, length,
}
use ai_forge_memory.Prelude.Dict.{Dict, lookup, insert, has}
use ai_forge_memory.Prelude.Text.{
  Text, codes, lower, is_infix, is_in, starts_with, stripped, clip, ◌&◌,
}
use ai_forge_memory.Query.{Reply, replied, raised}

-- `x + y`, `1.0 / n`, `x > y`, `max(x, y)`, and `round(x, n)`.
pub record Floats : Type 0 where
  pub add : String → String → String
  pub inverse : ℕ → String
  pub greater : String → String → Bool
  pub larger : String → String → String
  pub round : String → ℕ → String

-- `scores.get(doc, 0.0)`
abbrev pub get_score : Dict String → String → String
get_score scores doc = elim (lookup doc scores) [ none ↦ "0.0" | some s ↦ s ]

abbrev pub docs_of : List (String × String) → List String
docs_of [] = []
docs_of (x ∷ xs) = x.0 ∷ docs_of xs

-- A cue of the question: the bonus, and the paths that get it.
abbrev Cue : Type 0
Cue = String × (String → Bool)

abbrev any_in : List String → Text → Bool
any_in [] q = false
any_in (t ∷ ts) q = is_infix (codes t) q || any_in ts q

abbrev cue : List String → Text → String → (String → Bool) → List Cue
cue words q bonus test = if any_in words q then (bonus, test) ∷ [] else []

unfoldable pub cues : Text → List Cue
cues q =
    cue ("controller" ∷ "endpoint" ∷ "api" ∷ "route" ∷ []) q "0.03" (is_in "Controller")
    ++ cue ("service" ∷ "business" ∷ "logic" ∷ []) q "0.02" (is_in "Service")
    ++ cue ("repository" ∷ "repo" ∷ "dao" ∷ "store" ∷ []) q "0.02"
        (λ p. is_in "Repository" p || is_in "Repo.java" p)
    ++ cue ("dto" ∷ "request" ∷ "response" ∷ "model" ∷ []) q "0.02"
        (λ p. is_in "Dto" p || is_in "Request" p || is_in "Response" p || is_in "/model/" p)
    ++ cue ("test" ∷ "spec" ∷ "junit" ∷ []) q "0.04" (starts_with "src/test/")
    ++ cue ("mapper" ∷ "convert" ∷ []) q "0.02" (is_in "Mapper")

-- What is scored for a file: its path, and the best chunk of it.
unfoldable pub rerank_doc : Dict String → String → String
rerank_doc file_texts path =
    let text = stripped (elim (lookup path file_texts) [ none ↦ "" | some t ↦ t ]) in
    if text == "" then path else path & "\n" & clip 512 text

abbrev zip_scores : List String → List String → List (String × String)
zip_scores [] scores = []
zip_scores (d ∷ docs) [] = []
zip_scores (d ∷ docs) (s ∷ scores) = (d, s) ∷ zip_scores docs scores

abbrev pub payload_of : List String → List String → List String
payload_of docs [] = docs
payload_of docs (t ∷ texts) = if eqb (length (t ∷ texts)) (length docs) then t ∷ texts else docs

module _ (fl : Floats) where
  -- One ranked list: its documents get `1 / (k + rank + 1)`.
  unfoldable pub add_ranks : ℕ → ℕ → List String → Dict String → Dict String
  add_ranks k rank [] scores = scores
  add_ranks k rank (doc ∷ docs) scores =
      add_ranks k (suc rank) docs
        (insert doc (fl.add (get_score scores doc) (fl.inverse (k + rank + 1))) scores)

  unfoldable pub add_lists : ℕ → List (List String) → Dict String → Dict String
  add_lists k [] scores = scores
  add_lists k (docs ∷ lists) scores = add_lists k lists (add_ranks k 0 docs scores)

  -- The bonuses of the documents that have a score.
  unfoldable pub add_bonuses : Dict String → Dict String → Dict String
  add_bonuses [] scores = scores
  add_bonuses ((doc, bonus) ∷ prior) scores =
      add_bonuses prior
        (if has doc scores then insert doc (fl.add (get_score scores doc) bonus) scores else scores)

  -- `sorted(…, key=lambda kv: -kv[1])`, which keeps the order of equal scores.
  unfoldable pub insert_scored : String × String → List (String × String) → List (String × String)
  insert_scored x [] = x ∷ []
  insert_scored x (y ∷ ys) = if fl.greater y.1 x.1 then y ∷ insert_scored x ys else x ∷ y ∷ ys

  unfoldable pub sort_scored : List (String × String) → List (String × String)
  sort_scored [] = []
  sort_scored (x ∷ xs) = insert_scored x (sort_scored xs)

  unfoldable pub rrf_fuse : List (List String) → Dict String → ℕ → List String
  rrf_fuse ranked_lists path_prior k =
      docs_of (sort_scored (add_bonuses path_prior (add_lists k ranked_lists [])))

  abbrev bonus_of : List Cue → String → String → String
  bonus_of [] p bonus = bonus
  bonus_of ((w, test) ∷ cs) p bonus = bonus_of cs p (if test p then fl.add bonus w else bonus)

  abbrev add_priors : List Cue → List String → Dict String → Dict String
  add_priors cs [] out = out
  add_priors cs (p ∷ paths) out =
      let bonus = bonus_of cs p "0.0" in
      add_priors cs paths (if bonus == "0.0" then out else insert p bonus out)

  unfoldable pub path_prior : String → List String → Dict String
  path_prior query paths = elim (cues (lower (codes query))) [
    | [] ↦ []
    | c ∷ cs ↦ add_priors (c ∷ cs) paths []
  ]

  -- `service` posts the question and the texts: the floats of the scores that come back.
  unfoldable pub rerank :
      (String → List String → Reply (List String))
      → String
      → List String
      → List String
      → List String
  rerank service query [] doc_texts = []
  rerank service query (d ∷ docs) doc_texts =
      elim (service query (payload_of (d ∷ docs) doc_texts)) [
        | raised exc ↦ d ∷ docs
        | replied scores ↦
            if eqb (length scores) (length (d ∷ docs))
            then docs_of (sort_scored (zip_scores (d ∷ docs) scores))
            else d ∷ docs
      ]
