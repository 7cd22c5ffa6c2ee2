-- ===== src/Link.antt =====
-- features/link/extract.py: the edges between repositories. The matches of the regular expressions of
-- each catalog in a text, the path that `urlparse` gives, and the graph's writer are parameters. A
-- set is the list of its elements, each once. A confidence is a fraction; `min_confidence` is in
-- thousandths.
pub mod Edges
use ai_forge_memory.Prelude.{
  ℕ, suc, ◌+◌, ◌*◌, max, String, Bool, true, false, not, ◌&&◌, ◌||◌, Option, none, some, List, [],
  ◌∷◌, ◌++◌, ◌==◌, leb, ltb, keep, take, if◌then◌else◌, length,
}
use ai_forge_memory.Prelude.Sort.{contains, sorted, text_le}
use ai_forge_memory.Prelude.Text.{codes, stripped, starts_with, ◌&◌}
use ai_forge_memory.Exec.{Exec, pure, ◌>>=◌, ◌>>◌}

pub record RepoEvidence : Type 0 where
  pub repo : String
  pub http_emits : List String
  pub http_consumes : List String
  pub nats_emits : List String
  pub nats_consumes : List String
  pub collections : List String

pub data Via : Type 0 where
  http : Via
  nats : Via
  shared_collection : Via

pub record CrossRepoEdge : Type 0 where
  pub src : String
  pub dst : String
  pub via : Via
  pub evidence : List String
  pub overlap : ℕ
  pub universe : ℕ

-- What the catalogs match in a text, and the path of a URL (none where `urlparse` raises).
pub record Catalogs : Type 0 where
  pub http_server : String → List String
  pub http_client : String → List String
  pub nats_publish : String → List String
  pub nats_subscribe : String → List String
  pub mongo_collection : String → List String
  pub url_path : String → Option String

-- `target.add(s)`
abbrev pub add : List String → String → List String
add xs s = if contains s xs then xs else xs ++ (s ∷ [])

-- `urlparse(s).path or s`
abbrev path_or : Option String → String → String
path_or none s = s
path_or (some p) s = if p == "" then s else p

abbrev with_slash : String → String
with_slash s = if starts_with "/" s then s else "/" & s

abbrev keep_path : List String → String → List String
keep_path target s =
    if leb 2 (length (codes s)) && ltb (length (codes s)) 200 then add target s else target

unfoldable pub add_path : Catalogs → List String → String → List String
add_path re target raw =
    let s = stripped raw in
    let p =
      if starts_with "http://" s || starts_with "https://" s
      then path_or (re.url_path s) s
      else s in
    if raw == "" then target else keep_path target (with_slash p)

abbrev add_paths : Catalogs → List String → List String → List String
add_paths re target [] = target
add_paths re target (raw ∷ raws) = add_paths re (add_path re target raw) raws

abbrev add_names : List String → List String → List String
add_names target [] = target
add_names target (raw ∷ raws) = add_names (add target (stripped raw)) raws

-- One chunk's text.
unfoldable pub scan_text : Catalogs → String → RepoEvidence → RepoEvidence
scan_text re text ev = record ev {
  http_emits = add_paths re ev.http_emits (re.http_server text);
  http_consumes = add_paths re ev.http_consumes (re.http_client text);
  nats_emits = add_names ev.nats_emits (re.nats_publish text);
  nats_consumes = add_names ev.nats_consumes (re.nats_subscribe text);
  collections = add_names ev.collections (re.mongo_collection text);
}

abbrev scan_all : Catalogs → List String → RepoEvidence → RepoEvidence
scan_all re [] ev = ev
scan_all re (t ∷ texts) ev = scan_all re texts (scan_text re t ev)

-- `texts` are the texts of the repository's chunks, at most the cap of them.
unfoldable pub scan_repo : Catalogs → String → List String → RepoEvidence
scan_repo re repo texts = scan_all re texts (record {
  repo = repo;
  http_emits = [];
  http_consumes = [];
  nats_emits = [];
  nats_consumes = [];
  collections = [];
})

-- `xs & ys`
abbrev pub common : List String → List String → List String
common xs ys = keep (λ x. contains x ys) xs

-- `len(xs | ys)`
abbrev pub size_of_union : List String → List String → ℕ
size_of_union xs ys = length xs + length (keep (λ y. not (contains y xs)) ys)

-- The edge of two repositories, if they have something in common; its confidence is `_score`.
abbrev pub edge : RepoEvidence → RepoEvidence → Via → List String → ℕ → CrossRepoEdge
edge a b via shared universe = record {
  src = a.repo;
  dst = b.repo;
  via = via;
  evidence = take 10 (sorted shared);
  overlap = length shared;
  universe = universe;
}

abbrev pub edge_if : RepoEvidence → RepoEvidence → Via → List String → ℕ → List CrossRepoEdge
edge_if a b via [] universe = []
edge_if a b via (x ∷ shared) universe = edge a b via (x ∷ shared) universe ∷ []

abbrev pub served : RepoEvidence → RepoEvidence → List CrossRepoEdge
served a b =
    edge_if a b http (common a.http_emits b.http_consumes) (length a.http_emits)
    ++ edge_if a b nats (common a.nats_emits b.nats_consumes) (length a.nats_emits)

abbrev pub shared : RepoEvidence → RepoEvidence → List CrossRepoEdge
shared a b =
    edge_if a b shared_collection (common a.collections b.collections)
      (size_of_union a.collections b.collections)

-- The two inner loops, over the consumers and over the other owners of collections.
unfoldable pub served_by : RepoEvidence → List RepoEvidence → List CrossRepoEdge
served_by a [] = []
served_by a (b ∷ bs) = (if a.repo == b.repo then [] else served a b) ++ served_by a bs

unfoldable pub shared_by : RepoEvidence → List RepoEvidence → List CrossRepoEdge
shared_by a [] = []
shared_by a (b ∷ bs) = (if text_le b.repo a.repo then [] else shared a b) ++ shared_by a bs

unfoldable pub edges_from : List RepoEvidence → List RepoEvidence → List CrossRepoEdge
edges_from all [] = []
edges_from all (a ∷ rest) = served_by a all ++ shared_by a all ++ edges_from all rest

unfoldable pub compute_edges : List RepoEvidence → List CrossRepoEdge
compute_edges evidences = edges_from evidences evidences

-- `e.confidence >= min_confidence`
abbrev pub is_confident : ℕ → CrossRepoEdge → Bool
is_confident min e = leb (min * max 1 e.universe) (e.overlap * 1000)

pub record Counts : Type 0 where
  pub repos : ℕ
  pub edges : ℕ
  pub http_edges : ℕ
  pub nats_edges : ℕ
  pub shared_edges : ℕ

abbrev pub count_edge : Via → Counts → Counts
count_edge http c = record c { edges = suc c.edges; http_edges = suc c.http_edges }
count_edge nats c = record c { edges = suc c.edges; nats_edges = suc c.nats_edges }
count_edge shared_collection c = record c { edges = suc c.edges; shared_edges = suc c.shared_edges }

module _ {G : Type 0} (upsert_calls_repo : CrossRepoEdge → Exec G (Unit {0})) where
  unfoldable pub write_edges : List CrossRepoEdge → Counts → Exec G Counts
  write_edges [] counts = pure counts
  write_edges (e ∷ edges) counts = do
    upsert_calls_repo e
    write_edges edges (count_edge e.via counts)

  -- `evidences` is what `scan_repo` gives of each repository.
  unfoldable pub run : List RepoEvidence → ℕ → Exec G Counts
  run evidences min_confidence =
      write_edges (keep (is_confident min_confidence) (compute_edges evidences)) (record {
        repos = length evidences;
        edges = 0;
        http_edges = 0;
        nats_edges = 0;
        shared_edges = 0;
      })
