-- ===== src/Symbol/Summarise/Run/Window.antt =====
-- features/symbol/summarise.py: when the circuit breaker of the concurrent run aborts.
use ai_forge_memory.Prelude.{
  ℕ, zero, suc, ◌+◌, ◌≤◌, ◌<◌, Bool, true, false, Option, none, some, List, [], ◌∷◌, ◌++◌, ◌≡◌,
  refl, sym, ap, subst, ◌↔◌, ◌⊎◌, inl, inr, length, length-append, take, map, ltb, arith,
  Bool-cases, take_all,
}
use mathlib.Core.Option
use mathlib.Core.List.{append-nil, append_assoc}
use ai_forge_memory.Symbol.Summarise.Answer.{SymbolSummary}
use ai_forge_memory.Symbol.Summarise.Run.{
  is_error, concurrent, count_errors, push, trips, window_of,
}

-- Somewhere in the list, `w` entries in a row have at least `n` errors.
abbrev pub HasWindow : ℕ → ℕ → List Bool → Type 0
HasWindow w n [] = ⊥
HasWindow w n (b ∷ bs) =
    ((length (take w (b ∷ bs)) ≡ w) × (n ≤ count_errors (take w (b ∷ bs)))) ⊎ HasWindow w n bs

-- A run that aborts, where there is such a window, or that returns all, where there is none.
abbrev pub Breaks : ℕ → ℕ → List Bool → Option (List SymbolSummary) → List SymbolSummary → Type 0
Breaks w n bs r all = ((r ≡ none) × HasWindow w n bs) ⊎ ((r ≡ some all) × (¬ HasWindow w n bs))

pub take-append {ℓ} : {A : Type ℓ} (w : ℕ) (xs ys : List A) → length xs ≡ w → take w (xs ++ ys) ≡ xs
take-append zero [] ys h = refl
take-append zero (x ∷ xs) ys h = absurd (omega arith)
take-append (suc w) [] ys h = absurd (omega arith)
take-append (suc w) (x ∷ xs) ys h = ap (λ zs. x ∷ zs) (take-append w xs ys (omega arith))

pub too_short : (w n : ℕ) (bs : List Bool) → length bs < w → ¬ HasWindow w n bs
too_short w n [] h m = m
too_short w n (b ∷ bs) h (inl (e, c)) =
    absurd (omega (arith, e, ap (λ (l : List Bool). length l) (take_all w (b ∷ bs) (omega arith))))
too_short w n (b ∷ bs) h (inr m) = too_short w n bs (omega arith) m

-- A list that is one window long at most.
pub one_window :
    (w n : ℕ) (bs : List Bool) → length bs ≤ w → trips n w bs ≡ false → 1 ≤ w → ¬ HasWindow w n bs
one_window w n [] le h pos m = m
one_window w n (b ∷ bs) le h pos (inl (e, c)) =
    let whole = take_all w (b ∷ bs) le in
    ground (arith, e, c, ap (λ (l : List Bool). length l) whole, ap count_errors whole)
one_window w n (b ∷ bs) le h pos (inr m) = too_short w n bs (omega arith) m

-- A full window at the head.
pub at_head :
    (w n : ℕ) (bs rest : List Bool)
    → 1 ≤ w
    → length bs ≡ w
    → n ≤ count_errors bs
    → HasWindow w n (bs ++ rest)
at_head w n [] rest pos e c = absurd (omega arith)
at_head w n (b ∷ bs) rest pos e c =
    let same = take-append w (b ∷ bs) rest e in inl (rw same e, rw same c)

pub trips-at_head :
    (w n : ℕ) (bs rest : List Bool)
    → 1 ≤ w
    → length bs ≤ w
    → trips n w bs ≡ true
    → HasWindow w n (bs ++ rest)
trips-at_head w n bs rest pos le t = at_head w n bs rest pos (ground arith) (ground arith)

pub push-length :
    (w : ℕ) (recent : List Bool) (b : Bool) → length recent ≤ w → length (push w recent b) ≤ w
push-length w [] b le = elim (Bool-cases (ltb w 1)) [
  | inl t ↦ rw t (omega arith)
  | inr f ↦ rw f (ground arith)
]
push-length w (r ∷ rs) b le = elim (Bool-cases (ltb w (length (r ∷ rs ++ b ∷ [])))) [
  | inl t ↦ rw t (omega (arith, length-append rs (b ∷ [])))
  | inr f ↦ rw f (ground (arith, length-append rs (b ∷ [])))
]

pub push-window :
    (w n : ℕ) (recent : List Bool) (b : Bool) (rest : List Bool)
    → 1 ≤ w
    → length recent ≤ w
    → trips n w recent ≡ false
    → HasWindow w n (recent ++ b ∷ rest) ↔ HasWindow w n (push w recent b ++ rest)
push-window w n [] b rest pos le t = rw (small w pos) (λ m. m, λ m. m)
  where
    small : (w : ℕ) → 1 ≤ w → ltb w 1 ≡ false
    small w h = ground arith
push-window w n (r ∷ rs) b rest pos le t =
    let grown = append_assoc (r ∷ rs) (b ∷ []) rest in
    let grown' = append_assoc rs (b ∷ []) rest in
    elim (Bool-cases (ltb w (length (r ∷ rs ++ b ∷ [])))) [
      | inl full ↦
          let e : length (r ∷ rs) ≡ w = ground (arith, length-append rs (b ∷ [])) in
          let same = take-append w (r ∷ rs) (b ∷ rest) e in
          rw (full, grown')
            (
              elim [ inl (_, c) ↦ absurd (ground (arith, e, ap count_errors same, c)) | inr m ↦ m ],
              λ m. inr m,
            )
      | inr f ↦ rw f (λ m. subst (HasWindow w n) (sym grown) m, λ m. subst (HasWindow w n) grown m)
    ]

pub decided :
    (w n : ℕ) (bs : List Bool) (r : Option (List SymbolSummary)) (all : List SymbolSummary)
    → Breaks w n bs r all
    → ((r ≡ none) ⊎ (r ≡ some all)) × ((r ≡ none) ↔ HasWindow w n bs)
decided w n bs r all (inl (e, m)) = (inl e, (λ _. m, λ _. e))
decided w n bs r all (inr (e, m)) = (inr e, (λ k. cc (e, k), λ k. absurd (m k)))

-- One summary more at the head of a run.
pub onwards :
    (w n : ℕ) (bs bs' : List Bool) (ss : SymbolSummary) (r : Option (List SymbolSummary))
    (all : List SymbolSummary)
    → HasWindow w n bs ↔ HasWindow w n bs'
    → Breaks w n bs r all
    → Breaks w n bs' (Option.map (λ out. ss ∷ out) r) (ss ∷ all)
onwards w n bs bs' ss r all same (inl (e, m)) = rw e (inl (refl, same.0 m))
onwards w n bs bs' ss r all same (inr (e, m)) = rw e (inr (refl, λ k. m (same.1 k)))

pub concurrent_lem :
    (n : ℕ) (recent : List Bool) (done : ℕ) (rest : List SymbolSummary)
    → length recent ≤ window_of n
    → trips n (window_of n) recent ≡ false
    → Breaks
        (window_of n)
        n
        (recent ++ map is_error rest)
        (concurrent n recent done rest).result
        rest
unfolding concurrent
concurrent_lem n recent done [] le t =
    rw (append-nil recent) (inr (refl, one_window (window_of n) n recent le t (omega arith)))
concurrent_lem n recent done (ss ∷ rest) le t =
    let w = window_of n in
    let pushed = push-window w n recent (is_error ss) (map is_error rest) (omega arith) le t in
    let short = push-length w recent (is_error ss) le in
    elim (Bool-cases (trips n w (push w recent (is_error ss)))) [
      | inl stops ↦ rw stops (
          inl (
            refl,
            pushed.1 (
                trips-at_head w n (push w recent (is_error ss)) (map is_error rest) (omega arith)
                  short stops),
          ))
      | inr goes ↦ rw goes (
          onwards w n (push w recent (is_error ss) ++ map is_error rest)
            (recent ++ is_error ss ∷ map is_error rest) ss
            (concurrent n (push w recent (is_error ss)) (done + 1) rest).result rest
            (pushed.1, pushed.0)
            (concurrent_lem n (push w recent (is_error ss)) (done + 1) rest short goes))
    ]

-- The concurrent run aborts exactly if, in the order in which the calls end, as many calls in a row as
-- the window holds have at least `n` errors; otherwise it returns every summary, in that order.
pub concurrent_raises_iff :
    (n : ℕ) (answers : List SymbolSummary)
    → let r = (concurrent n [] 0 answers).result in
      ((r ≡ none) ⊎ (r ≡ some answers))
      × ((r ≡ none) ↔ HasWindow (window_of n) n (map is_error answers))
concurrent_raises_iff n answers =
    decided (window_of n) n (map is_error answers) (concurrent n [] 0 answers).result answers
      (concurrent_lem n [] 0 answers (omega arith) (ground arith))
