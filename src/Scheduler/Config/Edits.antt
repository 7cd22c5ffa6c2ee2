-- ===== src/Scheduler/Config/Edits.antt =====
-- features/scheduler/runner.py: what `add_repo` and `remove_repo` do to the configured list.
use ai_forge_memory.Prelude.{
  String, true, List, [], ◌∷◌, ◌++◌, ◌==◌, ◌≡◌, refl, sym, ◌∙◌, ◌↔◌, ◌⊎◌, inl, inr, length, ◌≤◌,
  ◌<◌, Bool-cases, arith,
}
use text.Mathlib.TextEquality.{eq_iff}
use ai_forge_memory.Scheduler.Config.{RepoSchedule, others, add_repo, remove_repo}

-- A repository of that name is configured.
abbrev pub IsConfigured : String → List RepoSchedule → Type 0
IsConfigured name [] = ⊥
IsConfigured name (r ∷ rs) = (r.name ≡ name) ⊎ IsConfigured name rs

-- No two entries have one name.
abbrev pub IsUnique : List RepoSchedule → Type 0
IsUnique [] = Unit
IsUnique (r ∷ rs) = (¬ IsConfigured r.name rs) × IsUnique rs

named-others :
    (n m : String) (rs : List RepoSchedule)
    → IsConfigured m (others n rs) ↔ (IsConfigured m rs × ¬ (m ≡ n))
named-others n m [] = (λ h. absurd h, λ h. h.0)
named-others n m (r ∷ rs) =
    let ih : IsConfigured m (others n rs) ↔ (IsConfigured m rs × ¬ (m ≡ n)) = named-others n m rs in
    let e : ((r.name == n) ≡ true) ↔ (r.name ≡ n) = eq_iff r.name n in
    elim (Bool-cases (r.name == n)) [
      | inl t ↦ rw t (
        λ h. (inr (ih.0 h).0, (ih.0 h).1),
        λ h. elim h.0 [ inl p ↦ absurd (h.1 (cc (e.0 t, p))) | inr q ↦ ih.1 (q, h.1) ],
      )
      | inr f ↦ rw f (
        elim [ inl p ↦ (inl p, λ q. cc (e.1 (p ∙ q))) | inr m ↦ (inr (ih.0 m).0, (ih.0 m).1) ],
        λ h. elim h.0 [ inl p ↦ inl p | inr q ↦ inr (ih.1 (q, h.1)) ],
      )
    ]

shrinks_iff :
    (n : String) (rs : List RepoSchedule)
    → length (others n rs) ≤ length rs × ((length (others n rs) < length rs) ↔ IsConfigured n rs)
shrinks_iff n [] = (omega arith, (λ h. ground arith, λ h. absurd h))
shrinks_iff n (r ∷ rs) =
    let ih : length (others n rs) ≤ length rs
        × ((length (others n rs) < length rs) ↔ IsConfigured n rs) =
      shrinks_iff n rs in
    let e : ((r.name == n) ≡ true) ↔ (r.name ≡ n) = eq_iff r.name n in
    elim (Bool-cases (r.name == n)) [
      | inl t ↦ rw t (omega (arith, ih.0), (λ _. inl (e.0 t), λ _. omega (arith, ih.0)))
      | inr f ↦ rw f (
        omega (arith, ih.0),
        (
          λ h. inr (ih.1.0 (omega (arith, h))),
          elim [ inl p ↦ cc (e.1 p) | inr q ↦ omega (arith, ih.1.1 q) ],
        ),
      )
    ]

-- Removing a name keeps every other entry's name and no entry of that name, and answers `true`
-- exactly when the name was configured.
remove_repo_iff :
    (name m : String) (repos : List RepoSchedule)
    → (IsConfigured m (remove_repo name repos).0 ↔ (IsConfigured m repos × ¬ (m ≡ name)))
      × (((remove_repo name repos).1 ≡ true) ↔ IsConfigured name repos)
unfolding remove_repo
remove_repo_iff name m repos =
    let s : length (others name repos) ≤ length repos
        × ((length (others name repos) < length repos) ↔ IsConfigured name repos) =
      shrinks_iff name repos in
    (named-others name m repos, (λ h. s.1.0 (ground (arith, h)), λ h. ground (arith, s.1.1 h)))

-- Entries kept from a list whose names are unique have unique names.
others-IsUnique : (n : String) (rs : List RepoSchedule) → IsUnique rs → IsUnique (others n rs)
others-IsUnique n [] u = u
others-IsUnique n (r ∷ rs) (new, u) = elim (Bool-cases (r.name == n)) [
  | inl t ↦ rw t (others-IsUnique n rs u)
  | inr f ↦ rw f (λ h. new ((named-others n r.name rs).0 h).0, others-IsUnique n rs u)
]

IsConfigured-append_one :
    (n : String) (x : RepoSchedule) (rs : List RepoSchedule)
    → IsConfigured n (rs ++ x ∷ [])
    → IsConfigured n rs ⊎ (x.name ≡ n)
IsConfigured-append_one n x [] (inl p) = inr p
IsConfigured-append_one n x [] (inr q) = absurd q
IsConfigured-append_one n x (r ∷ rs) (inl p) = inl (inl p)
IsConfigured-append_one n x (r ∷ rs) (inr q) = elim (IsConfigured-append_one n x rs q) [
  | inl m ↦ inl (inr m)
  | inr p ↦ inr p
]

IsUnique-append_one :
    (x : RepoSchedule) (rs : List RepoSchedule)
    → IsUnique rs
    → ¬ IsConfigured x.name rs
    → IsUnique (rs ++ x ∷ [])
IsUnique-append_one x [] u h = (λ m. m, u)
IsUnique-append_one x (r ∷ rs) (new, u) h = (
  λ m. elim (IsConfigured-append_one r.name x rs m) [ inl c ↦ new c | inr p ↦ h (inl (sym p)) ],
  IsUnique-append_one x rs u (λ c. h (inr c)),
)

-- Adding a repository to a list whose names are unique, whether or not its name is there already,
-- leaves the names unique, and its last entry is the added one.
add_repo-IsUnique :
    (rs : RepoSchedule) (repos : List RepoSchedule)
    → IsUnique repos
    → IsUnique (add_repo rs repos) × (add_repo rs repos ≡ (remove_repo rs.name repos).0 ++ rs ∷ [])
unfolding add_repo remove_repo
add_repo-IsUnique rs repos u = (
  IsUnique-append_one rs (others rs.name repos) (others-IsUnique rs.name repos u)
      (λ c. ((named-others rs.name rs.name repos).0 c).1 refl),
  refl,
)
