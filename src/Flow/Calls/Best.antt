-- ===== src/Flow/Calls/Best.antt =====
-- features/flow/runner.py: `_merge_calls` keeps the best edge of each pair, once.
use ai_forge_memory.Prelude.{
  ℕ, suc, ◌≤◌, String, Bool, true, false, Option, none, some, List, [], ◌∷◌, ◌++◌, ◌≡◌, refl, sym,
  ◌∙◌, ap, arith, eq_iff, if◌then◌else◌, max, inl, inr, Bool-cases,
}
use ai_forge_memory.Flow.Calls.{CallEdge, is_between, merge_one, merge_all, merge_calls}

-- The greater of a confidence and the best so far.
abbrev better : ℕ → Option ℕ → Option ℕ
better n none = some n
better n (some m) = some (max n m)

abbrev join : Option ℕ → Option ℕ → Option ℕ
join none o = o
join (some n) o = better n o

join-none : (o : Option ℕ) → o ≡ join none o
join-none o = refl

join-none_right : (o : Option ℕ) → join o none ≡ o
join-none_right none = refl
join-none_right (some n) = refl

better-join : (n : ℕ) (o p : Option ℕ) → better n (join o p) ≡ join (better n o) p
better-join n none p = refl
better-join n (some m) none = refl
better-join n (some m) (some k) = ap {B = Option ℕ} some (omega arith)

better-join_right : (n : ℕ) (o p : Option ℕ) → join o (better n p) ≡ join (better n o) p
better-join_right n none p = refl
better-join_right n (some m) none = ap {B = Option ℕ} some (omega arith)
better-join_right n (some m) (some k) = ap {B = Option ℕ} some (omega arith)

-- The highest confidence of the edges from `a` to `b`.
abbrev pub highest : String → String → List CallEdge → Option ℕ
highest a b [] = none
highest a b (e ∷ es) =
    let rest = highest a b es in if is_between a b e then better e.confidence rest else rest

-- How many edges go from `a` to `b`.
abbrev pub count : String → String → List CallEdge → ℕ
count a b [] = 0
count a b (e ∷ es) = let rest = count a b es in if is_between a b e then suc rest else rest

abbrev same_pair : CallEdge → CallEdge → Bool
same_pair e x = is_between e.caller e.callee x

module _ (a b : String) (e x : CallEdge) where
  -- Edges of one pair both go from `a` to `b`, or neither does.
  same_between : same_pair e x ≡ true → is_between a b x ≡ is_between a b e
  unfolding is_between
  same_between h = ground (
    arith,
    eq_iff x.caller e.caller,
    eq_iff x.callee e.callee,
    eq_iff x.caller a,
    eq_iff e.caller a,
    eq_iff x.callee b,
    eq_iff e.callee b,
  )

  -- Edges of two pairs do not both go from `a` to `b`.
  differ_between : same_pair e x ≡ false → is_between a b e ≡ true → is_between a b x ≡ false
  unfolding is_between
  differ_between h k = ground (
    arith,
    eq_iff x.caller e.caller,
    eq_iff x.callee e.callee,
    eq_iff x.caller a,
    eq_iff e.caller a,
    eq_iff x.callee b,
    eq_iff e.callee b,
  )

module _ (a b : String) where
  highest-merge_one :
      (e : CallEdge) (xs : List CallEdge) → highest a b (merge_one e xs) ≡ highest a b (e ∷ xs)
  unfolding merge_one
  highest-merge_one e [] = refl
  highest-merge_one e (x ∷ xs) = elim (Bool-cases (same_pair e x)) [
    | inl s ↦ rw (s, same_between a b e x s) (ground (arith, same_between a b e x s))
    | inr d ↦ rw (d, highest-merge_one e xs) (ground (arith, differ_between a b e x d))
  ]

  count-merge_one_other :
      (e : CallEdge) (xs : List CallEdge)
      → is_between a b e ≡ false
      → count a b (merge_one e xs) ≡ count a b xs
  unfolding merge_one
  count-merge_one_other e [] h = rw h
  count-merge_one_other e (x ∷ xs) h =
      ground (arith, same_between a b e x, count-merge_one_other e xs h)

  count-merge_one :
      (e : CallEdge) (xs : List CallEdge) → count a b xs ≤ 1 → count a b (merge_one e xs) ≤ 1
  unfolding merge_one
  count-merge_one e [] h = ground arith
  count-merge_one e (x ∷ xs) h = ground (
    arith,
    same_between a b e x,
    differ_between a b e x,
    count-merge_one e xs,
    count-merge_one_other e xs,
  )

  highest-append :
      (xs ys : List CallEdge) → highest a b (xs ++ ys) ≡ join (highest a b xs) (highest a b ys)
  highest-append [] ys = join-none (highest a b ys)
  highest-append (x ∷ xs) ys =
      rw (highest-append xs ys)
        (ground (arith, better-join x.confidence (highest a b xs) (highest a b ys)))

  highest-merge_all :
      (es by_key : List CallEdge)
      → highest a b (merge_all by_key es) ≡ join (highest a b by_key) (highest a b es)
  highest-merge_all [] by_key = sym (join-none_right (highest a b by_key))
  highest-merge_all (e ∷ es) by_key =
      highest-merge_all es (merge_one e by_key)
      ∙ ap (λ (o : Option ℕ). join o (highest a b es)) (highest-merge_one e by_key)
      ∙ ground (
        arith,
        better-join e.confidence (highest a b by_key) (highest a b es),
        better-join_right e.confidence (highest a b by_key) (highest a b es),
      )

  count-merge_all :
      (es by_key : List CallEdge) → count a b by_key ≤ 1 → count a b (merge_all by_key es) ≤ 1
  count-merge_all [] by_key h = h
  count-merge_all (e ∷ es) by_key h =
      count-merge_all es (merge_one e by_key) (count-merge_one e by_key h)

-- For every pair of symbols, the merged list has at most one edge, and its confidence is the highest
-- that the two lists have for the pair: it has an edge exactly if one of them does.
pub merge_calls_best :
    (a b : String) (primary secondary : List CallEdge)
    → (count a b (merge_calls primary secondary) ≤ 1)
      × (highest a b (merge_calls primary secondary) ≡ highest a b (primary ++ secondary))
unfolding merge_calls
merge_calls_best a b primary secondary = (
  count-merge_all a b (primary ++ secondary) [] (omega arith),
  highest-merge_all a b (primary ++ secondary) [],
)
